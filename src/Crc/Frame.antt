-- ===== src/Crc/Frame.antt =====
-- A payload with its checksum behind it: what `appendCrc32` writes and what `verifyCrc32` accepts.
use native.Mathlib.Nat.{mod-eq_of_lt, add-sub_cancel}
use com_lib.Bits.Fields.{or_fields}
use com_lib.Crc.{
  shift_left, all_ones, crc_loop, calculate_crc32, stored_crc, verify_crc32, append_crc32,
}
use com_lib.Crc.Reference.{calculate_crc32-lt}
use com_lib.Prelude.{
  ℕ, ◌+◌, ◌*◌, ◌/◌, ◌%◌, ◌^◌, ◌<◌, bit_or, true, List, [], ◌∷◌, ◌++◌, some, ◌≡◌, ◌↔◌, refl, ◌∙◌, ap,
  length, set-append, get_or-append, arith,
}

-- The four bytes of a word, low byte first, in front of `rest`.
abbrev pub le_bytes : ℕ → List ℕ → List ℕ
le_bytes w rest =
    (w / 2 ^ 0 % 2 ^ 8) ∷ (w / 2 ^ 8 % 2 ^ 8) ∷ (w / 2 ^ 16 % 2 ^ 8) ∷ (w / 2 ^ 24 % 2 ^ 8) ∷ rest

abbrev pub le_word : ℕ → ℕ → ℕ → ℕ → ℕ
le_word c0 c1 c2 c3 = c0 + c1 * 2 ^ 8 + c2 * 2 ^ 16 + c3 * 2 ^ 24

-- What stands behind the payload does not enter its checksum.
crc_loop-append :
    (xs ys : List ℕ) (crc : ℕ) → crc_loop (length xs) (xs ++ ys) crc ≡ crc_loop (length xs) xs crc
unfolding crc_loop
crc_loop-append [] ys crc = refl
crc_loop-append (x ∷ xs) ys crc = crc_loop-append xs ys _

pub calculate_crc32-append :
    (xs ys : List ℕ) (initial : ℕ)
    → calculate_crc32 (some (xs ++ ys)) (length xs) initial
      ≡ calculate_crc32 (some xs) (length xs) initial
unfolding calculate_crc32
calculate_crc32-append xs ys initial = rw (crc_loop-append xs ys initial)

or_shifted :
    (k acc c : ℕ) → acc < 2 ^ k → c * 2 ^ k < 2 ^ 32 → bit_or acc (shift_left c k) ≡ acc + c * 2 ^ k
or_shifted k acc c low fits = rw (mod-eq_of_lt fits) (or_fields k c acc low)

-- The loads and shifts of `verifyCrc32` read the word that the four bytes spell.
pub stored_crc-append :
    (xs : List ℕ) (c0 c1 c2 c3 : ℕ) (rest : List ℕ)
    → c0 < 256
    → c1 < 256
    → c2 < 256
    → c3 < 256
    → stored_crc (xs ++ c0 ∷ c1 ∷ c2 ∷ c3 ∷ rest) (length xs) ≡ le_word c0 c1 c2 c3
unfolding stored_crc
stored_crc-append xs c0 c1 c2 c3 rest h0 h1 h2 h3 = simp get_or-append (
    ap (λ t. bit_or (bit_or (bit_or t (shift_left c1 8)) (shift_left c2 16)) (shift_left c3 24))
      (or_shifted 0 0 c0 (omega arith) (omega arith))
    ∙ ap (λ t. bit_or (bit_or t (shift_left c2 16)) (shift_left c3 24))
        (or_shifted 8 (0 + c0 * 2 ^ 0) c1 (omega arith) (omega arith))
    ∙ ap (λ t. bit_or t (shift_left c3 24))
        (or_shifted 16 (0 + c0 * 2 ^ 0 + c1 * 2 ^ 8) c2 (omega arith) (omega arith))
    ∙ or_shifted 24 (0 + c0 * 2 ^ 0 + c1 * 2 ^ 8 + c2 * 2 ^ 16) c3 (omega arith) (omega arith)
    ∙ omega arith)

-- `verifyCrc32` accepts a payload with four bytes behind it exactly when the four bytes spell the
-- payload's checksum, low byte first; bytes behind these are not looked at.
pub verify_crc32-exact :
    (payload : List ℕ) (c0 c1 c2 c3 : ℕ) (rest : List ℕ)
    → c0 < 256
    → c1 < 256
    → c2 < 256
    → c3 < 256
    → (verify_crc32 (some (payload ++ c0 ∷ c1 ∷ c2 ∷ c3 ∷ rest)) (length payload + 4) ≡ true)
      ↔ (calculate_crc32 (some payload) (length payload) all_ones ≡ le_word c0 c1 c2 c3)
unfolding verify_crc32
verify_crc32-exact payload c0 c1 c2 c3 rest h0 h1 h2 h3 = ground (
  arith,
  stored_crc-append payload c0 c1 c2 c3 rest h0 h1 h2 h3,
  calculate_crc32-append payload (c0 ∷ c1 ∷ c2 ∷ c3 ∷ rest) all_ones,
  add-sub_cancel (length payload) 4,
)

-- On a buffer with room for four bytes behind the payload, `appendCrc32` overwrites those four with
-- the payload's checksum, low byte first, and changes nothing else.
append_crc32_writes :
    (payload : List ℕ) (t0 t1 t2 t3 : ℕ) (rest : List ℕ)
    → append_crc32 (some (payload ++ t0 ∷ t1 ∷ t2 ∷ t3 ∷ rest)) (length payload)
      ≡ some (payload ++ le_bytes (calculate_crc32 (some payload) (length payload) all_ones) rest)
unfolding append_crc32
append_crc32_writes payload t0 t1 t2 t3 rest = simp (set-append, calculate_crc32-append)

-- A buffer with room for four bytes behind the payload passes `verifyCrc32` once `appendCrc32` has
-- filled it, whatever the payload.
pub verify-append_crc32 :
    (payload : List ℕ) (t0 t1 t2 t3 : ℕ) (rest : List ℕ)
    → verify_crc32
        (append_crc32 (some (payload ++ t0 ∷ t1 ∷ t2 ∷ t3 ∷ rest)) (length payload))
        (length payload + 4)
      ≡ true
verify-append_crc32 payload t0 t1 t2 t3 rest = rw (append_crc32_writes payload t0 t1 t2 t3 rest) (
    (verify_crc32-exact payload _ _ _ _ rest (omega arith) (omega arith) (omega arith)
        (omega arith)).1
      (omega (arith, calculate_crc32-lt payload (length payload) all_ones (omega arith))))
