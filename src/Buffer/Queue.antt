-- ===== src/Buffer/Queue.antt =====
-- A fixed buffer is a bounded list.
use native.Mathlib.Nat.{add-zero}
use native.Mathlib.Numerals.{add-one}
use mathlib.Core.List.{append_assoc}
use com_lib.Buffer.{FixedBuffer, new_buffer, push_back, pop_back, at, copy_from, assign}
use com_lib.Prelude.{
  ℕ, zero, suc, ◌+◌, ◌-◌, ◌≤◌, ◌<◌, true, false, List, [], ◌∷◌, ◌++◌, none, some, ltb, leb, ==_iff,
  ◌==◌, if◌then◌else◌, length, get_elem?, set, set-append, ap₂, take, drop, ◌≡◌, ◌⊎◌, inl, inr,
  refl, ap, ◌∙◌, sym, arith, length-set, length-replicate, length-take, length-drop, length-append,
  min, Bool-cases,
}

module _ {T : Type 0} where
  -- The abstract view: the items in use.
  abbrev pub contents : FixedBuffer T → List T
  contents b = take b.size b.items

  take-set_end :
      (xs : List T) (n : ℕ) (v : T)
      → n < length xs
      → take (n + 1) (set xs n v) ≡ take n xs ++ v ∷ []
  take-set_end [] n v h = absurd (omega arith)
  take-set_end (x ∷ xs) zero v h = refl
  take-set_end (x ∷ xs) (suc n) v h =
      rw add-one (ap (λ l. x ∷ l) (rw add-one at (take-set_end xs n v (omega arith))))

  take_last :
      (xs : List T) (n : ℕ) → n < length xs → (v : T) × (take (suc n) xs ≡ take n xs ++ v ∷ [])
  take_last [] n h = absurd (omega arith)
  take_last (x ∷ xs) zero h = (x, refl)
  take_last (x ∷ xs) (suc n) h = let (v, e) = take_last xs n (omega arith) in (v, ap (λ l. x ∷ l) e)

  take_last_pred :
      (xs : List T) (n : ℕ)
      → 0 < n
      → n ≤ length xs
      → (v : T) × (take n xs ≡ take (n - 1) xs ++ v ∷ [])
  take_last_pred xs n p h =
      let split : n ≡ suc (n - 1) = omega arith in
      let (v, e) = take_last xs (n - 1) (omega arith) in (v, ap (λ k. take k xs) split ∙ e)

  take-append_length : (xs ys : List T) → take (length xs) (xs ++ ys) ≡ xs
  take-append_length [] ys = refl
  take-append_length (x ∷ xs) ys = ap (λ l. x ∷ l) (take-append_length xs ys)

  get_elem?-take :
      (xs : List T) (n i : ℕ) → get_elem? (take n xs) i ≡ (if leb n i then none else get_elem? xs i)
  get_elem?-take xs zero i = ground arith
  get_elem?-take [] (suc n) i = ground arith
  get_elem?-take (x ∷ xs) (suc n) zero = ground arith
  get_elem?-take (x ∷ xs) (suc n) (suc i) = ground (arith, get_elem?-take xs n i)

  module _ (capacity : ℕ) where
    pub record IsValid (b : FixedBuffer T) : Type 0 where
      pub within : b.size ≤ capacity
      pub full_array : length b.items ≡ capacity

    pub new_buffer-IsValid : (blank : T) → IsValid (new_buffer capacity blank)
    unfolding new_buffer
    new_buffer-IsValid blank = record {
      within = omega arith;
      full_array = length-replicate capacity blank;
    }

    -- On a valid buffer `push_back` appends the value to the contents where there is room, and
    -- refuses it and changes nothing where there is none; the buffer stays valid.
    pub push_back_lem :
        (b : FixedBuffer T) (v : T)
        → IsValid b
        → let (done, b') = push_back capacity b v in
          IsValid b'
          × (done ≡ ltb b.size capacity)
          × (contents b' ≡ (if ltb b.size capacity then contents b ++ v ∷ [] else contents b))
    unfolding push_back
    push_back_lem b v h = ground (arith, length-set b.items b.size v, take-set_end b.items b.size v)

    -- On a valid buffer `pop_back` drops the last item of the contents; on an empty one it fails and
    -- changes nothing. The buffer stays valid.
    pub pop_back_lem :
        (b : FixedBuffer T)
        → IsValid b
        → let (done, b') = pop_back capacity b in
          IsValid b'
          × (((contents b ≡ []) × (done ≡ false) × (b' ≡ b))
              ⊎ ((v : T) × (done ≡ true) × (contents b ≡ contents b' ++ v ∷ [])))
    unfolding pop_back
    pop_back_lem b h = elim (Bool-cases (b.size == 0)) [
      | inl e ↦ rw e (h, inl (ap (λ k. take k b.items) ((==_iff b.size 0).0 e), refl, refl))
      | inr e ↦
          let (v, q) =
            take_last_pred b.items b.size (ground arith) (omega (arith, h.within, h.full_array)) in
          rw e (
            record { within = omega (arith, h.within); full_array = h.full_array },
            inr (v, refl, q),
          )
    ]

    -- `at` reads the contents, and nothing beyond them.
    pub at_lem : (b : FixedBuffer T) (i : ℕ) → at capacity b i ≡ get_elem? (contents b) i
    unfolding at
    at_lem b i = sym (get_elem?-take b.items b.size i)

    copied :
        (ss pre items : List T)
        → length ss ≤ length items
        → copy_from ss (length pre) (pre ++ items) ≡ pre ++ (ss ++ drop (length ss) items)
    unfolding copy_from
    copied [] pre items h = refl
    copied (s ∷ ss) pre [] h = absurd (omega arith)
    copied (s ∷ ss) pre (x ∷ items) h =
        ap₂ (copy_from ss) next_index next_items
        ∙ copied ss (pre ++ s ∷ []) items (omega arith)
        ∙ append_assoc pre (s ∷ []) (ss ++ drop (length ss) items)
      where
        next_index : length pre + 1 ≡ length (pre ++ s ∷ [])
        next_index = sym (length-append pre (s ∷ []))

        next_items : set (pre ++ x ∷ items) (length pre) s ≡ (pre ++ s ∷ []) ++ items
        next_items =
            rw (← add-zero (length pre))
              (set-append pre (x ∷ items) 0 s ∙ sym (append_assoc pre (s ∷ []) items))

    abbrev filled : ℕ → List T → FixedBuffer T → FixedBuffer T
    filled n src b = record { size = n; items = copy_from (take n src) 0 b.items }

    filled_lem :
        (n : ℕ) (src : List T) (b : FixedBuffer T)
        → IsValid b
        → n ≤ capacity
        → n ≤ length src
        → IsValid (filled n src b) × (contents (filled n src b) ≡ take n src)
    filled_lem n src b h fits enough = (
      record {
        within = fits;
        full_array =
            ap length whole
            ∙ length-append (take n src) (drop (length (take n src)) b.items)
            ∙ omega (arith, count, length-drop (length (take n src)) b.items, h.full_array);
      },
      ap (take n) whole
          ∙ ap (λ k. take k (take n src ++ drop (length (take n src)) b.items)) (sym count)
          ∙ take-append_length (take n src) _,
    )
      where
        count : length (take n src) ≡ n
        count = omega (arith, length-take n src)

        whole : copy_from (take n src) 0 b.items ≡ take n src ++ drop (length (take n src)) b.items
        whole = copied (take n src) [] b.items (omega (arith, count, h.full_array))

    -- `assign` from an array of at least `count` items makes the first `count` of them the contents,
    -- or as many as the capacity allows, and returns how many; a valid buffer stays valid.
    pub assign_lem :
        (b : FixedBuffer T) (src : List T) (count : ℕ)
        → IsValid b
        → count ≤ length src
        → let (copied_count, b') = assign capacity b (some src) count in
          IsValid b'
          × (copied_count ≡ min count capacity)
          × (contents b' ≡ take (min count capacity) src)
    unfolding assign
    assign_lem b src count h enough = elim (Bool-cases (ltb capacity count)) [
      | inl more ↦
          let (valid, all) = filled_lem capacity src b h (omega arith) (ground arith) in
          rw (more, clipped more) (valid, refl, all)
      | inr fits ↦
          let (valid, all) = filled_lem count src b h (ground arith) enough in
          rw (fits, kept fits) (valid, refl, all)
    ]
      where
        clipped : ltb capacity count ≡ true → min count capacity ≡ capacity
        clipped e = ground arith

        kept : ltb capacity count ≡ false → min count capacity ≡ count
        kept e = ground arith
