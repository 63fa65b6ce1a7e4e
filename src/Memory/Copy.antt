-- ===== src/Memory/Copy.antt =====
-- What a copy and a fill leave in the destination.
use native.Mathlib.Nat.{zero-add}
use com_lib.Memory.{bounded_for, clip, safe_copy, safe_set}
use com_lib.Memory.Loops.{bounded_for-range, for_range_inv}
use com_lib.Prelude.{
  ℕ, suc, ◌≤◌, ◌<◌, ◌≡◌, refl, ◌∙◌, ap, List, Option, some, ltb, if◌then◌else◌, length, get_elem?,
  get_or, set, arith, min, length-set, get_elem?-set_self, get_elem?-set_ne, ℕ_discrete, subst,
}

-- Up to `i` the block holds what `new` says, and from `i` on what it held.
record IsUpTo (new : ℕ → ℕ) (dest : List ℕ) (i : ℕ) (block : List ℕ) : Type 0 where
  same_length : length block ≡ length dest
  items :
      (j : ℕ)
      → j < length dest
      → get_elem? block j ≡ (if ltb j i then some (new j) else get_elem? dest j)

keep_going :
    (new : ℕ → ℕ) (dest : List ℕ) (i : ℕ) (block : List ℕ)
    → i < length dest
    → IsUpTo new dest i block
    → IsUpTo new dest (suc i) (set block i (new i))
keep_going new dest i block h u = record {
  same_length = length-set block i (new i) ∙ u.same_length;
  items = λ j hj. elim (ℕ_discrete i j) [
    | yes same ↦ ground (
      arith,
      same,
      get_elem?-set_self block i (new i) (omega (arith, u.same_length)),
      ap (λ k. get_elem? (set block i (new i)) k) same,
    )
    | no other ↦ get_elem?-set_ne block (new i) other ∙ ground (arith, other, u.items j hj)
  ];
}

write_range :
    (new : ℕ → ℕ) (dest : List ℕ) (rounds n : ℕ)
    → n ≤ length dest
    → n ≤ rounds
    → IsUpTo new dest n (bounded_for rounds 0 n (λ i block. set block i (new i)) dest)
write_range new dest rounds n fits enough =
    subst (λ t. IsUpTo new dest n (bounded_for rounds 0 t body dest)) (zero-add n)
      (rw (bounded_for-range rounds 0 n body dest enough) (
        for_range_inv (IsUpTo new dest) body n
          (λ i block lt u. keep_going new dest i block (omega arith) u) n 0 dest (omega arith)
          (record { same_length = refl; items = λ j hj. ground arith })))
  where
    body : ℕ → List ℕ → List ℕ
    body i block = set block i (new i)

-- What a call leaves behind: it reports `n` bytes, the destination keeps its length, its first `n`
-- bytes are those that `new` gives, and the others are as they were.
pub record Writes (n : ℕ) (new : ℕ → ℕ) (dest : List ℕ) (out : ℕ × Option (List ℕ)) : Type 0 where
  pub block : List ℕ
  pub result : out ≡ (n, some block)
  pub same_length : length block ≡ length dest
  pub items :
      (j : ℕ)
      → j < length dest
      → get_elem? block j ≡ (if ltb j n then some (new j) else get_elem? dest j)

clip-min : (count size : ℕ) → clip count size ≡ min count size
clip-min count size = ground arith

written :
    (new : ℕ → ℕ) (dest : List ℕ) (count : ℕ)
    → let n = clip count (length dest) in
      Writes
        (min count (length dest))
        new
        dest
        (n, some (bounded_for (length dest) 0 n (λ i block. set block i (new i)) dest))
written new dest count =
    subst
      (λ t.
        Writes t new dest
          (n, some (bounded_for (length dest) 0 n (λ i block. set block i (new i)) dest)))
      (clip-min count (length dest))
      (record {
        block = bounded_for (length dest) 0 n (λ i block. set block i (new i)) dest;
        result = refl;
        same_length = up.same_length;
        items = up.items;
      })
  where
    n : ℕ
    n = clip count (length dest)

    n_fits : n ≤ length dest
    n_fits = ground arith

    up : IsUpTo new dest n (bounded_for (length dest) 0 n (λ i block. set block i (new i)) dest)
    up = write_range new dest (length dest) n n_fits n_fits

-- `safeCopy` into a block of `dest_size` bytes copies the first `count` bytes of the source, or as many
-- as fit, leaves the rest of the destination as it was, and returns how many it copied: the bound on
-- its loop never cuts it short.
pub safe_copy-Writes :
    (dest src : List ℕ) (count : ℕ)
    → Writes
        (min count (length dest))
        (λ i. get_or src i 0)
        dest
        (safe_copy (some dest) (length dest) (some src) count)
unfolding safe_copy
safe_copy-Writes dest src count = written (λ i. get_or src i 0) dest count

-- `safeSet` writes the value into the first `count` bytes, or as many as there are, leaves the others
-- as they were, and returns how many it wrote.
safe_set-Writes :
    (dest : List ℕ) (value count : ℕ)
    → Writes
        (min count (length dest))
        (λ i. value)
        dest
        (safe_set (some dest) (length dest) value count)
unfolding safe_set
safe_set-Writes dest value count = written (λ i. value) dest count
