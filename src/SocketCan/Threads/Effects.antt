-- ===== src/SocketCan/Threads/Effects.antt =====
-- What the records that are still to come do to statistics, health and callbacks: their order does
-- not matter.
use com_lib.Posix.{done, failed}
use com_lib.Transport.{ErrorCode, send_failed, max_u64, count_sent, count_error}
use com_lib.Transport.Counters.{saturating_add_swap}
use com_lib.Transport.Link
use com_lib.Transport.Link.{Link}
use com_lib.SocketCan.Threads.{Stage, ready, refused, writing, written, returned}
use com_lib.Prelude.{
  ℕ, zero, suc, ◌≤◌, Bool, false, List, [], ◌∷◌, some, is_empty, get_elem?, set, ◌≡◌, refl, subst,
  inl, inr, ◌⊎◌, arith,
}

-- The record that a stage has still to make.
unfoldable pub effect : Stage → Link → Link
effect (written n (failed e)) l = Link.report_error send_failed l
effect (written n (done w)) l = Link.record_send n l
effect (ready _) l = l
effect (refused code) l = Link.report_error code l
effect (writing _ _ _) l = l
effect (returned _) l = l

unfoldable pub settle : List Stage → Link → Link
settle [] l = l
settle (s ∷ ss) l = settle ss (effect s l)

-- What every call on an object meets while neither its configuration nor its descriptor changes.
pub data Access : Type 0 where
  denied : ErrorCode → Access
  granted : ℕ → Bool → Access

-- The stages of such a call.
abbrev pub Fits : Access → Stage → Type 0
Fits _ (ready _) = Unit
Fits (denied code) (refused code') = code' ≡ code
Fits (denied code) (writing _ _ _) = ⊥
Fits (denied code) (written _ _) = ⊥
Fits (granted fd is_fd) (refused _) = ⊥
Fits (granted fd is_fd) (writing fd' is_fd' bytes) =
    (fd' ≡ fd) × (is_fd' ≡ is_fd) × (is_empty bytes ≡ false)
Fits (granted fd is_fd) (written n _) = n ≤ max_u64
Fits _ (returned _) = Unit

abbrev pub AllFit : Access → List Stage → Type 0
AllFit a [] = Unit
AllFit a (s ∷ ss) = Fits a s × AllFit a ss

pub Access-cases :
    (a : Access)
    → ((code : ErrorCode) × (a ≡ denied code))
      ⊎ ((fd : ℕ) × (is_fd : Bool) × (a ≡ granted fd is_fd))
Access-cases (denied code) = inl (code, refl)
Access-cases (granted fd is_fd) = inr (fd, is_fd, refl)

-- Only a call that was granted comes to its write.
pub Fits-writing :
    (a : Access) (fd : ℕ) (is_fd : Bool) (bytes : List ℕ)
    → Fits a (writing fd is_fd bytes)
    → (a ≡ granted fd is_fd) × (is_empty bytes ≡ false)
Fits-writing (denied code) fd is_fd bytes f = absurd f
Fits-writing (granted fd' is_fd') fd is_fd bytes (e, e', full) = (rw (e, e') refl, full)

record_send_swap :
    (n m : ℕ) (l : Link)
    → n ≤ max_u64
    → m ≤ max_u64
    → Link.record_send n (Link.record_send m l) ≡ Link.record_send m (Link.record_send n l)
unfolding Link.record_send count_sent
record_send_swap n m l hn hm = ground (arith, saturating_add_swap l.stats.bytes_sent n m)

report_error_swap :
    (n : ℕ) (l : Link)
    → Link.report_error send_failed (Link.record_send n l)
      ≡ Link.record_send n (Link.report_error send_failed l)
unfolding Link.record_send Link.report_error count_sent count_error
report_error_swap n l = refl

effect_swap :
    (a : Access) (s t : Stage) (l : Link)
    → Fits a s
    → Fits a t
    → effect s (effect t l) ≡ effect t (effect s l)
unfolding effect
effect_swap a (ready _) t l p q = refl
effect_swap a (writing _ _ _) t l p q = refl
effect_swap a (returned _) t l p q = refl
effect_swap a (written n (failed e)) (ready _) l p q = refl
effect_swap a (written n (failed e)) (writing _ _ _) l p q = refl
effect_swap a (written n (failed e)) (returned _) l p q = refl
effect_swap a (written n (done w)) (ready _) l p q = refl
effect_swap a (written n (done w)) (writing _ _ _) l p q = refl
effect_swap a (written n (done w)) (returned _) l p q = refl
effect_swap a (refused c) (ready _) l p q = refl
effect_swap a (refused c) (writing _ _ _) l p q = refl
effect_swap a (refused c) (returned _) l p q = refl
effect_swap (denied code) (refused c) (refused c') l p q = rw (p, q) refl
effect_swap (denied code) (refused c) (written m (failed e')) l p q = absurd q
effect_swap (denied code) (refused c) (written m (done w')) l p q = absurd q
effect_swap (denied code) (written n (failed e)) (refused c) l p q = absurd p
effect_swap (denied code) (written n (failed e)) (written m (failed e')) l p q = absurd p
effect_swap (denied code) (written n (failed e)) (written m (done w')) l p q = absurd p
effect_swap (denied code) (written n (done w)) (refused c) l p q = absurd p
effect_swap (denied code) (written n (done w)) (written m (failed e')) l p q = absurd p
effect_swap (denied code) (written n (done w)) (written m (done w')) l p q = absurd p
effect_swap (granted fd is_fd) (refused c) (refused c') l p q = absurd p
effect_swap (granted fd is_fd) (refused c) (written m (failed e')) l p q = absurd p
effect_swap (granted fd is_fd) (refused c) (written m (done w')) l p q = absurd p
effect_swap (granted fd is_fd) (written n (failed e)) (refused c) l p q = absurd q
effect_swap (granted fd is_fd) (written n (done w)) (refused c) l p q = absurd q
effect_swap (granted fd is_fd) (written n (failed e)) (written m (failed e')) l p q = refl
effect_swap (granted fd is_fd) (written n (failed e)) (written m (done w')) l p q =
    report_error_swap m l
effect_swap (granted fd is_fd) (written n (done w)) (written m (failed e')) l p q =
    cc (report_error_swap n l)
effect_swap (granted fd is_fd) (written n (done w)) (written m (done w')) l p q =
    record_send_swap n m l p q

module _ (a : Access) where
  Fits-some : {s t : Stage} → some t ≡ some s → Fits a t → Fits a s
  Fits-some {s} {t} h p = let e : t ≡ s = cc in subst (Fits a) e p

  pub settle-effect :
      (ss : List Stage) (s : Stage) (l : Link)
      → AllFit a ss
      → Fits a s
      → settle ss (effect s l) ≡ effect s (settle ss l)
  unfolding settle
  settle-effect [] s l ps p = refl
  settle-effect (t ∷ ss) s l (q, ps) p =
      cc (effect_swap a s t l p q, settle-effect ss s (effect t l) ps p)

  -- A stage may give way to another: what either has still to record comes on the other side.
  pub settle-set :
      (ss : List Stage) (i : ℕ) (s s' : Stage) (l : Link)
      → get_elem? ss i ≡ some s
      → AllFit a ss
      → Fits a s'
      → effect s (settle (set ss i s') l) ≡ effect s' (settle ss l)
  unfolding settle
  settle-set [] i s s' l h ps p' = cc
  settle-set (t ∷ ss) zero s s' l h (p, ps) p' = cc (
    settle-effect ss s' l ps p',
    settle-effect ss t l ps p,
    effect_swap a s s' (settle ss l) (Fits-some h p) p',
  )
  settle-set (t ∷ ss) (suc i) s s' l h (p, ps) p' = settle-set ss i s s' (effect t l) h ps p'

  pub get_elem?-Fits :
      (ss : List Stage) (i : ℕ) {s : Stage} → get_elem? ss i ≡ some s → AllFit a ss → Fits a s
  get_elem?-Fits [] i h ps = cc
  get_elem?-Fits (t ∷ ss) zero h (p, ps) = Fits-some h p
  get_elem?-Fits (t ∷ ss) (suc i) h (p, ps) = get_elem?-Fits ss i h ps

  pub set-AllFit :
      (ss : List Stage) (i : ℕ) (s : Stage) → AllFit a ss → Fits a s → AllFit a (set ss i s)
  set-AllFit [] i s ps p = tt
  set-AllFit (t ∷ ss) zero s (q, ps) p = (p, ps)
  set-AllFit (t ∷ ss) (suc i) s (q, ps) p = (q, set-AllFit ss i s ps p)
