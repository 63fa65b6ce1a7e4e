-- ===== src/Interface/Accounts.antt =====
-- A client that sends and receives through the interface: the statistics are the account of the results
-- that it got.
use com_lib.Transport.{Statistics, max_u64, count_sent, count_received, count_error}
use com_lib.Transport.Counters.{saturating_add_lem}
use com_lib.Transport.Link
use com_lib.Transport.Link.{Link, error_result}
use com_lib.Interface.{
  Communication, Sent, delivered, idle, Taken, received, nothing, silent, IsAccounted,
}
use com_lib.Prelude.Int.{ℤ, pos, negsuc, pos_part}
use com_lib.Prelude.{ℕ, ◌+◌, ◌≤◌, min, List, [], ◌∷◌, length, ◌≡◌, arith}

-- The calls of a client.
pub data Call : Type 0 where
  sending : List ℕ → Call
  receiving : List ℕ → ℕ → Call

abbrev failures_of : ℤ → ℕ
failures_of (pos n) = 0
failures_of (negsuc n) = 1

-- Totals of the results: bytes sent and received, failed sends, and all failed calls.
pub record Totals : Type 0 where
  pub sent : ℕ
  pub received : ℕ
  pub failed_sends : ℕ
  pub failures : ℕ

abbrev pub no_totals : Totals
no_totals = record { sent = 0; received = 0; failed_sends = 0; failures = 0 }

abbrev of_call : Call → ℤ → Totals
of_call (sending bytes) r = record {
  sent = pos_part r;
  received = 0;
  failed_sends = failures_of r;
  failures = failures_of r;
}
of_call (receiving buffer n) r = record {
  sent = 0;
  received = pos_part r;
  failed_sends = 0;
  failures = failures_of r;
}

abbrev plus : Totals → Totals → Totals
plus a b = record {
  sent = a.sent + b.sent;
  received = a.received + b.received;
  failed_sends = a.failed_sends + b.failed_sends;
  failures = a.failures + b.failures;
}

-- The counters of a 64-bit program.
abbrev pub IsBounded : Statistics → Type 0
IsBounded s = (s.bytes_sent ≤ max_u64) × (s.bytes_received ≤ max_u64) × (s.error_count ≤ max_u64)

-- The counters of `s'` are those of `s` with the totals, up to the largest value.
pub record Accounts (s : Statistics) (t : Totals) (s' : Statistics) : Type 0 where
  pub sent : s'.bytes_sent ≡ min (s.bytes_sent + t.sent) max_u64
  pub received : s'.bytes_received ≡ min (s.bytes_received + t.received) max_u64
  pub at_least : min (s.error_count + t.failed_sends) max_u64 ≤ s'.error_count
  pub at_most : s'.error_count ≤ min (s.error_count + t.failures) max_u64

module _ {S : Type 0} (c : Communication S) where
  unfoldable pub perform : Call → S → ℤ × S
  perform (sending bytes) s = c.send s bytes
  perform (receiving buffer n) s = let (r, buffer', s') = c.receive s buffer n in (r, s')

  -- The totals of the results, and the state after the calls.
  unfoldable pub run : List Call → S → Totals × S
  unfolding perform
  run [] s = (no_totals, s)
  run (call ∷ calls) s =
      let (r, s') = perform call s in let (t, s'') = run calls s' in (plus (of_call call r) t, s'')

  -- No call has a result above the largest counter.
  abbrev pub AllFit : List Call → S → Type 0
  AllFit [] s = Unit
  AllFit (call ∷ calls) s =
      (pos_part (perform call s).0 ≤ max_u64) × AllFit calls (perform call s).1

Accounts-refl : (s : Statistics) → IsBounded s → Accounts s no_totals s
Accounts-refl s b = ground arith

Accounts-plus :
    (s s' s'' : Statistics) (t u : Totals)
    → Accounts s t s'
    → Accounts s' u s''
    → Accounts s (plus t u) s''
Accounts-plus s s' s'' t u a b =
    ground
      (arith, a.sent, a.received, a.at_least, a.at_most, b.sent, b.received, b.at_least, b.at_most)

Accounts-IsBounded : (s s' : Statistics) (t : Totals) → Accounts s t s' → IsBounded s'
Accounts-IsBounded s s' t a = omega (arith, a.sent, a.received, a.at_most)

count_sent-Accounts :
    (n : ℕ) (bytes : List ℕ) (s : Statistics)
    → n ≤ max_u64
    → IsBounded s
    → Accounts s (of_call (sending bytes) (pos n)) (count_sent n s)
unfolding count_sent
count_sent-Accounts n bytes s h b = ground (arith, saturating_add_lem s.bytes_sent n)

count_received-Accounts :
    (n m : ℕ) (bytes : List ℕ) (s : Statistics)
    → n ≤ max_u64
    → IsBounded s
    → Accounts s (of_call (receiving bytes m) (pos n)) (count_received n s)
unfolding count_received
count_received-Accounts n m bytes s h b = ground (arith, saturating_add_lem s.bytes_received n)

count_error-Accounts :
    (call : Call) (s : Statistics)
    → IsBounded s
    → Accounts s (of_call call error_result) (count_error s)
unfolding count_error
count_error-Accounts (sending bytes) s b = ground (arith, saturating_add_lem s.error_count 1)
count_error-Accounts (receiving bytes n) s b = ground (arith, saturating_add_lem s.error_count 1)

Sent-Accounts :
    (bytes : List ℕ) (l : Link) (r : ℤ) (l' : Link)
    → Sent l r l'
    → pos_part r ≤ max_u64
    → IsBounded l.stats
    → Accounts l.stats (of_call (sending bytes) r) l'.stats
unfolding Link.record_send Link.report_error
Sent-Accounts bytes l r l' (delivered n e e') h b =
    rw (e, e') (count_sent-Accounts n bytes l.stats (ground arith) b)
Sent-Accounts bytes l r l' (idle e e') h b = rw (e, e') (Accounts-refl l.stats b)
Sent-Accounts bytes l r l' (Sent.refused code e e') h b =
    rw (e, e') (count_error-Accounts (sending bytes) l.stats b)

Taken-Accounts :
    (buffer : List ℕ) (n : ℕ) (l : Link) (r : ℤ) (buffer' : List ℕ) (l' : Link)
    → Taken l r buffer' l'
    → pos_part r ≤ max_u64
    → IsBounded l.stats
    → Accounts l.stats (of_call (receiving buffer n) r) l'.stats
unfolding Link.record_receive Link.report_error
Taken-Accounts buffer n l r buffer' l' (received e e') h b =
    rw (e, e') (count_received-Accounts (length buffer') n buffer l.stats (ground arith) b)
Taken-Accounts buffer n l r buffer' l' (nothing e e') h b = rw (e, e') (Accounts-refl l.stats b)
Taken-Accounts buffer n l r buffer' l' (Taken.refused code e e') h b =
    rw (e, e') (count_error-Accounts (receiving buffer n) l.stats b)
Taken-Accounts buffer n l r buffer' l' (silent e e') h b = rw (e, e') (ground arith)

module _ {S : Type 0} (c : Communication S) (lawful : IsAccounted c) where
  perform-Accounts :
      (call : Call) (s : S)
      → pos_part (perform c call s).0 ≤ max_u64
      → IsBounded (c.link s).stats
      → Accounts
          (c.link s).stats
          (of_call call (perform c call s).0)
          (c.link (perform c call s).1).stats
  unfolding perform
  perform-Accounts (sending bytes) s h b =
      Sent-Accounts bytes (c.link s) _ _ (lawful.sends s bytes) h b
  perform-Accounts (receiving buffer n) s h b =
      Taken-Accounts buffer n (c.link s) _ _ _ (lawful.receives s buffer n) h b

  -- The account of the calls, for a transport that keeps the promises.
  pub run-link :
      (calls : List Call) (s : S)
      → AllFit c calls s
      → IsBounded (c.link s).stats
      → Accounts (c.link s).stats (run c calls s).0 (c.link (run c calls s).1).stats
  unfolding run
  run-link [] s h b = Accounts-refl (c.link s).stats b
  run-link (call ∷ calls) s (h, hs) b =
      let first = perform-Accounts call s h b in
      Accounts-plus _ _ _ _ _ first
        (run-link calls (perform c call s).1 hs (Accounts-IsBounded _ _ _ first))
