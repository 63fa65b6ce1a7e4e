-- ===== src/Pcan/Unsupported/NoOp.antt =====
-- PCANBasic built without the library, under any calls.
use com_lib.Transport.{ErrorCode, unsupported_operation, Statistics, max_u64, count_error}
use com_lib.Transport.Counters.{saturating_add_lem}
use com_lib.Pcan.Defs.{
  PcanBasicConfig, PcanBasic, report_error, set_receive_callback, set_error_callback,
}
use com_lib.Pcan.Monitor.{
  new_pcan_basic, feed_watchdog, check_watchdog, get_next_sequence, validate_sequence,
}
use com_lib.Prelude.{
  ℕ, ◌+◌, min, Bool, false, List, [], ◌∷◌, some, if◌then◌else◌, Bool-cases, inl, inr, ◌≡◌, ◌∙◌, ap,
  refl, arith,
}
use com_lib.Pcan.Unsupported.{
  Call, opening, closing, sending, receiving, configuring, setting_receive_callback,
  setting_error_callback, feeding, checking, taking_sequence, validating, open_device, close, send,
  receive, configure, perform, run, is_reported, reports,
}

abbrev pub AllUnsupported : List ErrorCode → Type 0
AllUnsupported [] = Unit
AllUnsupported (code ∷ codes) = (code ≡ unsupported_operation) × AllUnsupported codes

module _ {D : Type 0} where
  -- What stays of a new object, with the errors that it has reported.
  pub record IsIdle (errors : ℕ) (device : D) (p : PcanBasic D) : Type 0 where
    pub shut : p.initialized ≡ false
    pub not_running : p.running ≡ false
    pub not_joinable : p.joinable ≡ false
    pub untouched : p.device ≡ device
    pub nothing_sent : p.stats.messages_sent ≡ 0
    pub nothing_received : p.stats.messages_received ≡ 0
    pub counted : p.stats.error_count ≡ min errors max_u64
    pub named : AllUnsupported p.error_calls

  report_error-IsIdle :
      (n : ℕ) (device : D) (p : PcanBasic D)
      → IsIdle n device p
      → IsIdle (n + 1) device (report_error unsupported_operation p)
  unfolding report_error count_error
  report_error-IsIdle n device p h = record {
    shut = h.shut;
    not_running = h.not_running;
    not_joinable = h.not_joinable;
    untouched = h.untouched;
    nothing_sent = h.nothing_sent;
    nothing_received = h.nothing_received;
    counted = ground (arith, h.counted, saturating_add_lem p.stats.error_count 1);
    named = elim (Bool-cases p.has_error_callback) [
      | inl present ↦ rw present (refl, h.named)
      | inr absent ↦ rw absent h.named
    ];
  }

  -- A step that leaves all of this alone.
  kept :
      (n : ℕ) (device : D) (p q : PcanBasic D)
      → IsIdle n device p
      → q.initialized ≡ p.initialized
      → q.running ≡ p.running
      → q.joinable ≡ p.joinable
      → q.device ≡ p.device
      → q.stats ≡ p.stats
      → q.error_calls ≡ p.error_calls
      → IsIdle (n + 0) device q
  kept n device p q h e0 e1 e2 e3 e4 e5 = record {
    shut = e0 ∙ h.shut;
    not_running = e1 ∙ h.not_running;
    not_joinable = e2 ∙ h.not_joinable;
    untouched = e3 ∙ h.untouched;
    nothing_sent = ap (λ (t : Statistics). t.messages_sent) e4 ∙ h.nothing_sent;
    nothing_received = ap (λ (t : Statistics). t.messages_received) e4 ∙ h.nothing_received;
    counted = ground (arith, h.counted, e4);
    named = rw e5 h.named;
  }

  set_receive_callback-kept :
      (present : Bool) (p : PcanBasic D)
      → p.initialized ≡ false
      → set_receive_callback p present ≡ record p { has_receive_callback = present }
  unfolding set_receive_callback
  set_receive_callback-kept present p h = ground arith

  configured :
      (n : ℕ) (device : D) (p : PcanBasic D) (config : PcanBasicConfig)
      → IsIdle n device p
      → IsIdle (n + 0) device (configure p config).1
  unfolding configure
  configured n device p config h =
      kept n device p (configure p config).1 h (ground arith) (ground arith) (ground arith)
        (ground arith) (ground arith) (ground arith)

  perform-IsIdle :
      (c : Call) (n : ℕ) (device : D) (p : PcanBasic D)
      → IsIdle n device p
      → IsIdle (n + (if is_reported c then 1 else 0)) device (perform c p)
  unfolding perform open_device close send receive set_error_callback feed_watchdog check_watchdog
      get_next_sequence validate_sequence
  perform-IsIdle opening n device p h = report_error-IsIdle n device p h
  perform-IsIdle (sending bytes) n device p h = report_error-IsIdle n device p h
  perform-IsIdle (receiving buffer m) n device p h = report_error-IsIdle n device p h
  perform-IsIdle closing n device p h = kept n device p p h refl refl refl refl refl refl
  perform-IsIdle (configuring config) n device p h = configured n device p config h
  perform-IsIdle (setting_receive_callback present) n device p h =
      rw (set_receive_callback-kept present p h.shut) (
        kept n device p (record p { has_receive_callback = present }) h refl refl refl refl refl
          refl)
  perform-IsIdle (setting_error_callback present) n device p h =
      kept n device p (set_error_callback p present) h refl refl refl refl refl refl
  perform-IsIdle (feeding now) n device p h =
      kept n device p (feed_watchdog p now) h refl refl refl refl refl refl
  perform-IsIdle (checking now) n device p h =
      kept n device p (check_watchdog p now).1 h refl refl refl refl refl refl
  perform-IsIdle taking_sequence n device p h =
      kept n device p (get_next_sequence p).1 h refl refl refl refl refl refl
  perform-IsIdle (validating seq) n device p h =
      kept n device p (validate_sequence p seq).1 h refl refl refl refl refl refl

  run-IsIdle :
      (calls : List Call) (n : ℕ) (device : D) (p : PcanBasic D)
      → IsIdle n device p
      → IsIdle (n + reports calls) device (run calls p)
  unfolding run reports
  run-IsIdle [] n device p h = let e : n + 0 ≡ n = omega arith in rw e h
  run-IsIdle (c ∷ calls) n device p h =
      let e : n + ((if is_reported c then 1 else 0) + reports calls)
          ≡ n + (if is_reported c then 1 else 0) + reports calls =
        omega arith in
      rw e (run-IsIdle calls _ device (perform c p) (perform-IsIdle c n device p h))

  new-IsIdle :
      (config : PcanBasicConfig) (device : D) (now : ℕ) {p : PcanBasic D}
      → new_pcan_basic config device now ≡ some p
      → IsIdle 0 device p
  unfolding new_pcan_basic
  new-IsIdle config device now {p} h = record {
    shut = ground arith;
    not_running = ground arith;
    not_joinable = ground arith;
    untouched = ground arith;
    nothing_sent = ground arith;
    nothing_received = ground arith;
    counted = ground arith;
    named = let e : p.error_calls ≡ [] = ground arith in rw e tt;
  }

  -- Built without the library, a new object stays shut whatever calls are made that can change it, those of
  -- the safety interface included: it never opens, starts no receive thread, counts no message and leaves the device alone. Each open, send and receive is
  -- counted as an error, up to the largest counter, and no error but `UnsupportedOperation` reaches the
  -- callback.
  pub run_new-IsIdle :
      (config : PcanBasicConfig) (device : D) (now : ℕ) (calls : List Call) {p : PcanBasic D}
      → new_pcan_basic config device now ≡ some p
      → IsIdle (reports calls) device (run calls p)
  run_new-IsIdle config device now calls {p} h =
      let e : 0 + reports calls ≡ reports calls = omega arith in
      rw (← e) (run-IsIdle calls 0 device p (new-IsIdle config device now h))
