-- ===== src/Sequence/Stream.antt =====
-- A sender's generator against a receiver's validator when nothing is lost or reordered.
use com_lib.Sequence.{Generator, Validator, Result, valid, next, validate}
use com_lib.Prelude.{
  ℕ, zero, suc, ◌^◌, ◌<◌, true, List, [], ◌∷◌, ◌≡◌, refl, ap₂, ◌∙◌, replicate, arith, Bool-cases,
  inl, inr,
}

-- The sender numbers `n` messages, and the receiver checks each as it arrives.
pub exchange : ℕ → Generator → Validator → List Result × Generator × Validator
unfolding next validate
exchange zero g v = ([], g, v)
exchange (suc n) g v =
    let (s, g') = next g in
    let (r, v') = validate v s in let (rs, g'', v'') = exchange n g' v' in (r ∷ rs, g'', v'')

-- The receiver expects what the sender sends next, or has heard nothing yet.
pub record InSync (g : Generator) (v : Validator) : Type 0 where
  pub in_range : g.counter < 2 ^ 32
  pub expects : v.initialized ≡ true → v.expected_sequence ≡ g.counter

-- What an exchange without loss leaves: every verdict is `Valid`, the two ends agree, and no
-- anomaly is counted.
pub record IsClean (n : ℕ) (v : Validator) (out : List Result × Generator × Validator)
    : Type 0 where
  pub all_valid : out.0 ≡ replicate n valid
  pub in_sync : InSync out.1 out.2
  pub no_duplicate : out.2.duplicate_count ≡ v.duplicate_count
  pub no_gap : out.2.gap_count ≡ v.gap_count
  pub no_wrap : out.2.wrap_around_count ≡ v.wrap_around_count

one_message :
    (g : Generator) (v : Validator)
    → InSync g v
    → let (s, g') = next g in
      let (r, v') = validate v s in
      (r ≡ valid)
      × InSync g' v'
      × (v'.duplicate_count ≡ v.duplicate_count)
      × (v'.gap_count ≡ v.gap_count)
      × (v'.wrap_around_count ≡ v.wrap_around_count)
unfolding next validate
one_message g v h = elim (Bool-cases v.initialized) [
  | inl e ↦ ground (arith, h.expects e)
  | inr e ↦ ground arith
]

-- From ends in agreement, any number of messages that are numbered by the generator and arrive in
-- order is judged `Valid` throughout, also where the numbers pass 2 ^ 32: the ends still agree, and
-- no duplicate, gap or wrap-around is counted.
pub exchange-IsClean :
    (n : ℕ) (g : Generator) (v : Validator) → InSync g v → IsClean n v (exchange n g v)
unfolding exchange
exchange-IsClean zero g v h = record {
  all_valid = refl;
  in_sync = h;
  no_duplicate = refl;
  no_gap = refl;
  no_wrap = refl;
}
exchange-IsClean (suc n) g v h =
    let (first, sync, d, p, w) = one_message g v h in
    let rest = exchange-IsClean n (next g).1 (validate v g.counter).1 sync in
    record {
      all_valid = ap₂ (λ r rs. r ∷ rs) first rest.all_valid;
      in_sync = rest.in_sync;
      no_duplicate = rest.no_duplicate ∙ d;
      no_gap = rest.no_gap ∙ p;
      no_wrap = rest.no_wrap ∙ w;
    }
