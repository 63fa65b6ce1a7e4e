-- ===== src/SocketCan/Threads/Order.antt =====
-- Threads in `SocketCAN::send` that all have turns enough do together what the same calls do one after
-- another.
use com_lib.Posix.{Os}
use com_lib.Transport.Link.{Link}
use com_lib.SocketCan.Defs.{SocketCan}
use com_lib.SocketCan.Threads.{
  Stage, ready, refused, writing, written, returned, System, start, stepped, turn, run,
}
use com_lib.SocketCan.Threads.Single.{access, Explains}
use com_lib.SocketCan.Threads.Effects.{Access, effect, settle, AllFit}
use com_lib.SocketCan.Threads.Linear.{IsLinear, run-IsLinear}
use com_lib.Prelude.{
  ℕ, suc, ◌≤◌, ◌<◌, List, [], ◌∷◌, map, some, length, get_elem?, get_elem?-lt, get_elem?-of_lt,
  length-map, length-set, Option-cases, ◌≡◌, inl, inr, refl, ap, subst, sym, ◌∙◌, arith,
}
use com_lib.SocketCan.Threads.Entries.{turns, rank}
use com_lib.SocketCan.Threads.Turns.{run-Follows, start-Follows}

effect_returned : (s : Stage) (l : Link) → rank s ≤ 0 → effect s l ≡ l
unfolding effect rank
effect_returned (ready _) l z = refl
effect_returned (refused _) l z = absurd (omega arith)
effect_returned (writing _ _ _) l z = refl
effect_returned (written n a) l z = absurd (omega arith)
effect_returned (returned _) l z = refl

settle-ready : (payloads : List (List ℕ)) (l : Link) → settle (map ready payloads) l ≡ l
unfolding settle effect
settle-ready [] l = refl
settle-ready (b ∷ payloads) l = settle-ready payloads l

ready-AllFit : (a : Access) (payloads : List (List ℕ)) → AllFit a (map ready payloads)
ready-AllFit a [] = tt
ready-AllFit a (b ∷ payloads) = (tt, ready-AllFit a payloads)

settle_returned :
    (ss : List Stage) (l : Link)
    → ((i : ℕ) (s : Stage) → get_elem? ss i ≡ some s → rank s ≤ 0)
    → settle ss l ≡ l
unfolding settle
settle_returned [] l h = refl
settle_returned (s ∷ ss) l h =
    rw (effect_returned s l (h 0 s refl)) (settle_returned ss l (λ i. h (suc i)))

module _ {K : Type 0} (os : Os K) where
  length-turn : (i : ℕ) (sys : System K) → length (turn os i sys).stages ≡ length sys.stages
  unfolding turn
  length-turn i sys = elim (Option-cases (get_elem? sys.stages i)) [
    | inl absent ↦
        let e : turn os i sys ≡ sys = rw (absent, turn) refl in
        ap (λ (t : System K). length t.stages) e
    | inr (s, present) ↦
        let e : turn os i sys ≡ stepped os i s sys = rw (present, turn) refl in
        ap (λ (t : System K). length t.stages) e ∙ length-set sys.stages i _
  ]

  length-run :
      (schedule : List ℕ) (sys : System K) → length (run os schedule sys).stages ≡ length sys.stages
  unfolding run
  length-run [] sys = refl
  length-run (i ∷ schedule) sys = length-run schedule (turn os i sys) ∙ length-turn i sys

  start-IsLinear : (p : SocketCan K) (payloads : List (List ℕ)) → IsLinear os p (start p payloads)
  start-IsLinear p payloads = record {
    sequential = p;
    explained = refl;
    config = refl;
    socket = refl;
    kernel = refl;
    link = sym (settle-ready payloads p.link);
    stages = ready-AllFit (access p) payloads;
    kept_config = refl;
    kept_socket = refl;
  }

  -- With no record left to come the object is the one that the log leads to.
  settled :
      (p : SocketCan K) (sys : System K)
      → IsLinear os p sys
      → settle sys.stages sys.object.link ≡ sys.object.link
      → Explains os p sys.log sys.object
  settled p sys l e =
      let same : l.sequential ≡ sys.object = ground (arith, l.config, l.socket, l.kernel, l.link) in
      subst (Explains os p sys.log) same l.explained

  -- On an object in any state, closed or unable to send as well, threads that all get three turns or
  -- more, in any order, end with the statistics, health, error calls and frames that the same calls
  -- have one after another in the order of the log, and with the results.
  pub run-Explains :
      (p : SocketCan K) (payloads : List (List ℕ)) (schedule : List ℕ)
      → ((i : ℕ) → i < length payloads → 3 ≤ turns i schedule)
      → let sys = run os schedule (start p payloads) in Explains os p sys.log sys.object
  run-Explains p payloads schedule fair =
      settled p sys (run-IsLinear os p schedule _ (start-IsLinear p payloads))
        (settle_returned sys.stages sys.object.link done_all)
    where
      sys : System K
      sys = run os schedule (start p payloads)

      done_all : (i : ℕ) (s : Stage) → get_elem? sys.stages i ≡ some s → rank s ≤ 0
      done_all i s h =
          let inside : i < length payloads = omega (
            arith,
            get_elem?-lt sys.stages i h,
            length-run schedule (start p payloads),
            length-map payloads ready,
          ) in
          let (b, paid) = get_elem?-of_lt payloads i inside in
          let f =
            run-Follows os i b schedule 3 (start p payloads)
              (start-Follows os i b p payloads paid) in
          let same : f.stage ≡ s = cc (f.at, h) in
          rw (← same) (omega (arith, f.left, fair i inside))
