-- ===== src/Buffer/Refinement.antt =====
-- A fixed buffer behaves as a list that holds at most `capacity` items.
use com_lib.Buffer.{FixedBuffer, push_back, pop_back, at, resize, assign, clear}
use com_lib.Buffer.Queue.{contents, IsValid, push_back_lem, pop_back_lem, at_lem, assign_lem}
use com_lib.Prelude.{
  ℕ, zero, suc, ◌≤◌, ◌<◌, ◌⊎◌, Option, none, get_elem?, Bool-cases, min, Bool, true, false, List,
  [], ◌∷◌, ◌++◌, some, length, length-take, length-append, take, ltb, if◌then◌else◌, ◌≡◌, inl, inr,
  refl, sym, ap, ap₂, ◌∙◌, arith,
}

-- A call that changes the buffer. The source of `assign` may be null.
pub data Op (T : Type 0) : Type 0 where
  push : T → Op T
  pop clearing : Op T
  resizing : ℕ → Op T
  filling : Option (List T) → ℕ → Op T

-- The result of a call as a number: of a test, 1 or 0.
abbrev flag : Bool → ℕ
flag true = 1
flag false = 0

module _ {T : Type 0} (capacity : ℕ) where
  unfoldable pub perform : Op T → FixedBuffer T → ℕ × FixedBuffer T
  perform (push v) b = let (done, b') = push_back capacity b v in (flag done, b')
  perform pop b = let (done, b') = pop_back capacity b in (flag done, b')
  perform clearing b = (0, clear capacity b)
  perform (resizing n) b = let (done, b') = resize capacity b n in (flag done, b')
  perform (filling src count) b = assign capacity b src count

  -- The results of the calls, and the buffer at the end.
  unfoldable pub run : List (Op T) → FixedBuffer T → List ℕ × FixedBuffer T
  unfolding perform
  run [] b = ([], b)
  run (o ∷ rest) b =
      let (result, b') = perform o b in let (results, b'') = run rest b' in (result ∷ results, b'')

  -- The same calls on a list.
  abbrev pub abstract_perform : Op T → List T → ℕ × List T
  abstract_perform (push v) xs = if ltb (length xs) capacity then (1, xs ++ v ∷ []) else (0, xs)
  abstract_perform pop [] = (0, [])
  abstract_perform pop (x ∷ xs) = (1, take (length xs) (x ∷ xs))
  abstract_perform clearing xs = (0, [])
  abstract_perform (resizing n) xs = if ltb capacity n then (0, xs) else (1, take n xs)
  abstract_perform (filling none count) xs = (0, xs)
  abstract_perform (filling (some src) count) xs =
      (min count capacity, take (min count capacity) src)

  abbrev pub abstract_run : List (Op T) → List T → List ℕ × List T
  abstract_run [] xs = ([], xs)
  abstract_run (o ∷ rest) xs =
      let (result, xs') = abstract_perform o xs in
      let (results, xs'') = abstract_run rest xs' in (result ∷ results, xs'')

  -- The calls that a list can follow: `resize` does not grow the contents, which would show what the array
  -- has beyond them, unless it is refused, and a source has as many items as `assign` is told.
  abbrev pub IsAllowed : Op T → List T → Type 0
  IsAllowed (resizing n) xs = (n ≤ length xs) ⊎ (capacity < n)
  IsAllowed (filling (some src) count) xs = count ≤ length src
  IsAllowed _ xs = Unit

  abbrev pub AllAllowed : List (Op T) → List T → Type 0
  AllAllowed [] xs = Unit
  AllAllowed (o ∷ rest) xs = IsAllowed o xs × AllAllowed rest (abstract_perform o xs).1

  take-all : (xs ys : List T) → take (length xs) (xs ++ ys) ≡ xs
  take-all [] ys = refl
  take-all (x ∷ xs) ys = ap (λ l. x ∷ l) (take-all xs ys)

  popped : (xs : List T) (v : T) → abstract_perform pop (xs ++ v ∷ []) ≡ (1, xs)
  popped [] v = refl
  popped (x ∷ xs) v =
      ap (λ l. (1, l)) (ap (λ n. take n (x ∷ (xs ++ v ∷ []))) one_more ∙ take-all (x ∷ xs) (v ∷ []))
    where
      one_more : length (xs ++ v ∷ []) ≡ length (x ∷ xs)
      one_more = omega (arith, length-append xs (v ∷ []))

  size_counts : (b : FixedBuffer T) → IsValid capacity b → length (contents b) ≡ b.size
  size_counts b h = omega (arith, length-take b.size b.items, h.within, h.full_array)

  abbrev pub Agrees : ℕ × FixedBuffer T → ℕ × List T → Type 0
  Agrees (result, b) (result', xs) = IsValid capacity b × (result ≡ result') × (contents b ≡ xs)

  take-shorter : (n m : ℕ) (xs : List T) → n ≤ m → take n (take m xs) ≡ take n xs
  take-shorter zero m xs p = refl
  take-shorter (suc n) zero xs p = absurd (omega arith)
  take-shorter (suc n) (suc m) [] p = refl
  take-shorter (suc n) (suc m) (x ∷ xs) p = ap (λ l. x ∷ l) (take-shorter n m xs (omega arith))

  resize-Agrees :
      (n : ℕ) (b : FixedBuffer T)
      → IsValid capacity b
      → (n ≤ length (contents b)) ⊎ (capacity < n)
      → Agrees (perform (resizing n) b) (abstract_perform (resizing n) (contents b))
  unfolding perform resize
  resize-Agrees n b h a = elim (Bool-cases (ltb capacity n)) [
    | inl over ↦ rw over (h, refl, refl)
    | inr fits ↦
        let shorter : n ≤ b.size = ground (arith, fits, a, size_counts b h) in
        rw fits (
          record { within = omega (arith, h.within, shorter); full_array = h.full_array },
          refl,
          sym (take-shorter n b.size b.items shorter),
        )
  ]

  perform-Agrees :
      (o : Op T) (b : FixedBuffer T)
      → IsValid capacity b
      → IsAllowed o (contents b)
      → Agrees (perform o b) (abstract_perform o (contents b))
  unfolding perform clear assign
  perform-Agrees (push v) b h a = ground (arith, push_back_lem capacity b v h, size_counts b h)
  perform-Agrees pop b h a =
      let (valid, outcome) = pop_back_lem capacity b h in
      elim outcome [
        | inl (none_left, refused, same) ↦ (
          valid,
          ap flag refused ∙ sym (ap (λ l. (abstract_perform pop l).0) none_left),
          ap contents same ∙ none_left ∙ sym (ap (λ l. (abstract_perform pop l).1) none_left),
        )
        | inr (v, taken, kept) ↦
            let spec =
              ap (abstract_perform pop) kept ∙ popped (contents (pop_back capacity b).1) v in
            (valid, ap flag taken ∙ sym (ap (λ r. r.0) spec), sym (ap (λ r. r.1) spec))
      ]
  perform-Agrees clearing b h a =
      (record { within = omega arith; full_array = h.full_array }, refl, refl)
  perform-Agrees (resizing n) b h a = resize-Agrees n b h a
  perform-Agrees (filling none count) b h a = (h, refl, refl)
  perform-Agrees (filling (some src) count) b h a = assign_lem capacity b src count h a

  -- Whatever calls of `push_back`, `pop_back`, `clear`, `resize` and `assign` are made on a valid buffer,
  -- where `resize` grows nothing and the sources of `assign` have as many items as it is told or are
  -- null: each gives the result of the same call on
  -- the list of its contents, bounded by the capacity, and the contents at the end, and what `at` gives
  -- at each index, are those of that list then.
  pub run-abstract_run :
      (ops : List (Op T)) (b : FixedBuffer T)
      → IsValid capacity b
      → AllAllowed ops (contents b)
      → let (results, b') = run ops b in
        let (results', xs) = abstract_run ops (contents b) in
        IsValid capacity b'
        × (results ≡ results')
        × (contents b' ≡ xs)
        × ((i : ℕ) → at capacity b' i ≡ get_elem? xs i)
  unfolding run
  run-abstract_run [] b h a = (h, refl, refl, at_lem capacity b)
  run-abstract_run (o ∷ rest) b h (a, later) =
      let (valid, same, shown) = perform-Agrees o b h a in
      let (valid', same', shown', seen') =
        run-abstract_run rest (perform o b).1 valid (rw shown later) in
      (
        valid',
        ap₂ (λ r rs. r ∷ rs) same (same' ∙ ap (λ l. (abstract_run rest l).0) shown),
        shown' ∙ ap (λ l. (abstract_run rest l).1) shown,
        λ i. seen' i ∙ ap (λ l. get_elem? (abstract_run rest l).1 i) shown,
      )
