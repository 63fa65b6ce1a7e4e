-- ===== src/SocketCan/Threads/Turns.antt =====
-- What one thread in `SocketCAN::send` does beside others: three turns end its call, and the log has
-- the call once.
use mathlib.Core.List.{append-nil}
use com_lib.Posix.{Os, done, failed}
use com_lib.Transport.{ErrorCode, unsupported_operation, not_open, is_send_enabled}
use com_lib.Transport.Link.{error_result}
use com_lib.SocketCan.Defs.{SocketCan}
use com_lib.SocketCan.Threads.{
  Stage, ready, refused, writing, written, returned, Log, note, System, start, aim, advance, turn,
  run,
}
use com_lib.Prelude.Int.{ℤ, pos}
use com_lib.Prelude.{
  ℕ, ◌-◌, ◌≤◌, Bool, List, [], ◌∷◌, ◌++◌, some, get_elem?, get_elem?-lt, get_elem?-map,
  get_elem?-set_self, get_elem?-set_ne, ◌==◌, Option-cases, Bool-cases, ◌≡◌, ◌≢◌, ◌⊎◌, inl, inr,
  is_empty, refl, sym, ◌∙◌, arith,
}
use com_lib.SocketCan.Threads.Entries.{
  turns, entries, rank, Tracked, entries_one, entries-note_other, Tracked-append,
}

module _ {K : Type 0} (os : Os K) where
  advance-rank : (s : Stage) (p : SocketCan K) → rank (advance os s p).0 ≤ rank s - 1
  unfolding advance aim rank
  advance-rank (ready bytes) p = ground arith
  advance-rank (refused c) p = omega arith
  advance-rank (writing fd is_fd bytes) p = omega arith
  advance-rank (written n (failed e)) p = omega arith
  advance-rank (written n (done w)) p = omega arith
  advance-rank (returned r) p = omega arith

  -- The snapshot leads to an error, to the end of a call with no bytes, or to the write.
  aim-cases :
      (p : SocketCan K) (bytes : List ℕ)
      → ((c : ErrorCode) × (aim p bytes ≡ refused c))
        ⊎ ((aim p bytes ≡ returned (pos 0))
            ⊎ ((fd : ℕ) × (is_fd : Bool) × (aim p bytes ≡ writing fd is_fd bytes)))
  unfolding aim
  aim-cases p bytes = elim (Bool-cases (is_send_enabled p.config.direction)) [
    | inr off ↦ inl (unsupported_operation, ground arith)
    | inl on ↦ elim (Option-cases p.socket) [
      | inl shut ↦ inl (not_open, ground arith)
      | inr (fd, held) ↦ elim (Bool-cases (is_empty bytes)) [
        | inl empty ↦ inr (inl (ground arith))
        | inr full ↦ inr (inr (fd, p.config.enable_fd, ground arith))
      ]
    ]
  ]

  aim-Tracked :
      (i : ℕ) (b bytes : List ℕ) (p : SocketCan K) (log : Log)
      → bytes ≡ b
      → entries i log ≡ []
      → Tracked i b (aim p bytes) (log ++ note i (ready bytes) (aim p bytes))
  aim-Tracked i b bytes p log same e = elim (aim-cases p bytes) [
    | inl (c, a) ↦ rw (a, same) (entries_one i log b error_result e)
    | inr (inl a) ↦ rw (a, same) (entries_one i log b (pos 0) e)
    | inr (inr (fd, is_fd, a)) ↦ rw a (same, rw append-nil e)
  ]

  advance-Tracked :
      (i : ℕ) (b : List ℕ) (s : Stage) (p : SocketCan K) (log : Log)
      → Tracked i b s log
      → Tracked i b (advance os s p).0 (log ++ note i s (advance os s p).0)
  unfolding advance
  advance-Tracked i b (ready bytes) p log (e, t) = aim-Tracked i b bytes p log e t
  advance-Tracked i b (refused c) p log t = rw append-nil t
  advance-Tracked i b (writing fd is_fd bytes) p log (e, t) = rw e (entries_one i log b _ t)
  advance-Tracked i b (written n (failed e)) p log t = rw append-nil t
  advance-Tracked i b (written n (done w)) p log t = rw append-nil t
  advance-Tracked i b (returned r) p log t = rw append-nil t

  -- What is known of thread `i` with payload `b`, at a stage with at most `n` turns to come.
  pub record Follows (i : ℕ) (b : List ℕ) (n : ℕ) (sys : System K) : Type 0 where
    pub stage : Stage
    pub at : get_elem? sys.stages i ≡ some stage
    pub tracked : Tracked i b stage sys.log
    pub left : rank stage ≤ n

  turn_own :
      (i n : ℕ) (b : List ℕ) (sys : System K)
      → Follows i b n sys
      → Follows i b (n - 1) (turn os i sys)
  unfolding turn
  turn_own i n b sys f =
      rw (f.at, turn)
        (record {
          stage = (advance os f.stage sys.object).0;
          at = get_elem?-set_self sys.stages i _ (get_elem?-lt sys.stages i f.at);
          tracked = advance-Tracked i b f.stage sys.object sys.log f.tracked;
          left = omega (arith, advance-rank f.stage sys.object, f.left);
        })

  turn_other :
      (i j n : ℕ) (b : List ℕ) (sys : System K)
      → i ≢ j
      → Follows i b n sys
      → Follows i b n (turn os j sys)
  unfolding turn
  turn_other i j n b sys ne f = elim (Option-cases (get_elem? sys.stages j)) [
    | inl absent ↦ rw (absent, turn) f
    | inr (s, present) ↦
        rw (present, turn)
          (record {
            stage = f.stage;
            at = get_elem?-set_ne sys.stages _ (λ e. ne (sym e)) ∙ f.at;
            tracked =
                Tracked-append i b f.stage sys.log _
                  (entries-note_other i j s (advance os s sys.object).0 ne) f.tracked;
            left = f.left;
          })
  ]

  pub run-Follows :
      (i : ℕ) (b : List ℕ) (schedule : List ℕ) (n : ℕ) (sys : System K)
      → Follows i b n sys
      → Follows i b (n - turns i schedule) (run os schedule sys)
  unfolding run turns
  run-Follows i b [] n sys f = record {
    stage = f.stage;
    at = f.at;
    tracked = f.tracked;
    left = omega (arith, f.left);
  }
  run-Follows i b (j ∷ schedule) n sys f = elim (Bool-cases (i == j)) [
    | inl same ↦
        let e : j ≡ i = ground arith in
        let g = run-Follows i b schedule (n - 1) (turn os j sys) (rw e (turn_own i n b sys f)) in
        record { stage = g.stage; at = g.at; tracked = g.tracked; left = ground (arith, g.left) }
    | inr other ↦
        let g =
          run-Follows i b schedule n (turn os j sys)
            (turn_other i j n b sys (λ e. ground arith) f) in
        record { stage = g.stage; at = g.at; tracked = g.tracked; left = ground (arith, g.left) }
  ]

  pub start-Follows :
      (i : ℕ) (b : List ℕ) (p : SocketCan K) (payloads : List (List ℕ))
      → get_elem? payloads i ≡ some b
      → Follows i b 3 (start p payloads)
  unfolding entries rank
  start-Follows i b p payloads h = record {
    stage = ready b;
    at = get_elem?-map ready payloads i h;
    tracked = (refl, refl);
    left = omega arith;
  }

  -- With three turns a call that runs beside any others returns, and the log has it once, with what it
  -- returned. The object may be in any state.
  pub run-returned :
      (p : SocketCan K) (payloads : List (List ℕ)) (schedule : List ℕ) (i : ℕ) {b : List ℕ}
      → get_elem? payloads i ≡ some b
      → 3 ≤ turns i schedule
      → let sys = run os schedule (start p payloads) in
        (r : ℤ) × (get_elem? sys.stages i ≡ some (returned r)) × (entries i sys.log ≡ (b, r) ∷ [])
  unfolding rank
  run-returned p payloads schedule i {b} h enough =
      let f = run-Follows i b schedule 3 (start p payloads) (start-Follows i b p payloads h) in
      ended f.stage f.at f.tracked (omega (arith, f.left))
    where
      ended :
          (s : Stage)
          → get_elem? (run os schedule (start p payloads)).stages i ≡ some s
          → Tracked i b s (run os schedule (start p payloads)).log
          → rank s ≤ 0
          → (r : ℤ) × (get_elem? (run os schedule (start p payloads)).stages i ≡ some (returned r))
            × (entries i (run os schedule (start p payloads)).log ≡ (b, r) ∷ [])
      ended (returned r) a t z = (r, a, t)
      ended (ready _) a t z = absurd (omega arith)
      ended (refused _) a t z = absurd (omega arith)
      ended (writing _ _ _) a t z = absurd (omega arith)
      ended (written _ _) a t z = absurd (omega arith)
