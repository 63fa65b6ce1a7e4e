-- ===== src/Crc/Burst.antt =====
-- What the checksum detects: every error that stays within four consecutive bytes.
use com_lib.Bits.Xor.{xor-zero, xor_assoc, xor_injective_left, xor_injective_right, xor-lt_pow}
use com_lib.Bits.Fields.{xor_fields}
use com_lib.Crc.{all_ones, bit_loop, calculate_crc32, verify_crc32}
use com_lib.Crc.Linear.{bit_loop-xor, bit_loop-shift, bit_loop-lt, bit_loop_injective}
use com_lib.Crc.Reference.{
  IsBytes, reference_loop, calculate_crc32-reference, calculate_crc32-lt, IsBytes-append,
}
use com_lib.Crc.Frame.{le_bytes, verify_crc32-exact}
use com_lib.Prelude.{
  ℕ, zero, suc, ◌+◌, ◌*◌, ◌^◌, ◌≤◌, ◌<◌, bit_xor, List, [], ◌∷◌, ◌++◌, some, ◌≡◌, ◌≢◌, refl, sym,
  ◌∙◌, ap, ap₂, length, arith, false, not_true,
}

-- The number that a run of bytes spells, low byte first.
abbrev le_value : List ℕ → ℕ
le_value [] = 0
le_value (b ∷ bs) = b + le_value bs * 2 ^ 8

-- Eight rounds for each byte.
byte_rounds : ℕ → ℕ → ℕ
byte_rounds zero x = x
byte_rounds (suc n) x = byte_rounds n (bit_loop 8 x)

-- A byte added after eight rounds may as well be added before them, shifted up.
absorb : (x v : ℕ) → bit_xor (bit_loop 8 x) v ≡ bit_loop 8 (bit_xor x (v * 2 ^ 8))
absorb x v = sym (bit_loop-xor 8 x (v * 2 ^ 8) ∙ ap (bit_xor (bit_loop 8 x)) (bit_loop-shift 8 v))

-- So a run of bytes acts as one number.
reference_loop-value :
    (w : List ℕ) (s : ℕ)
    → IsBytes w
    → reference_loop w s ≡ byte_rounds (length w) (bit_xor s (le_value w))
unfolding reference_loop byte_rounds
reference_loop-value [] s h = sym (xor-zero s)
reference_loop-value (b ∷ w) s h =
    reference_loop-value w (bit_loop 8 (bit_xor s b)) h.1
    ∙ ap (byte_rounds (length w)) (
        absorb (bit_xor s b) (le_value w)
        ∙ ap (bit_loop 8)
            (xor_assoc s b (le_value w * 2 ^ 8) ∙ ap (bit_xor s) (xor_fields 8 (le_value w) b h.0)))

byte_rounds_injective :
    (n a b : ℕ) → a < 2 ^ 32 → b < 2 ^ 32 → byte_rounds n a ≡ byte_rounds n b → a ≡ b
unfolding byte_rounds
byte_rounds_injective zero a b ha hb e = e
byte_rounds_injective (suc n) a b ha hb e =
    bit_loop_injective 8 a b ha hb
      (byte_rounds_injective n _ _ (bit_loop-lt 8 a ha) (bit_loop-lt 8 b hb) e)

le_value-lt : (w : List ℕ) → length w ≤ 4 → IsBytes w → le_value w < 2 ^ 32
le_value-lt [] h b = omega arith
le_value-lt (a ∷ []) h b = omega arith
le_value-lt (a ∷ c ∷ []) h b = omega arith
le_value-lt (a ∷ c ∷ d ∷ []) h b = omega arith
le_value-lt (a ∷ c ∷ d ∷ e ∷ []) h b = omega arith
le_value-lt (a ∷ c ∷ d ∷ e ∷ f ∷ w) h b = absurd (omega arith)

le_value_injective :
    (w w' : List ℕ)
    → length w ≡ length w'
    → IsBytes w
    → IsBytes w'
    → le_value w ≡ le_value w'
    → w ≡ w'
le_value_injective [] [] l b b' e = refl
le_value_injective [] (y ∷ w') l b b' e = absurd (omega arith)
le_value_injective (x ∷ w) [] l b b' e = absurd (omega arith)
le_value_injective (x ∷ w) (y ∷ w') l b b' e =
    ap₂ (λ h t. h ∷ t) (omega arith) (le_value_injective w w' (omega arith) b.1 b'.1 (omega arith))

-- Two different runs of at most four bytes leave the checksum in different states.
reference_loop_burst :
    (w w' : List ℕ) (s : ℕ)
    → s < 2 ^ 32
    → length w ≡ length w'
    → length w ≤ 4
    → IsBytes w
    → IsBytes w'
    → reference_loop w s ≡ reference_loop w' s
    → w ≡ w'
reference_loop_burst w w' s hs l four b b' e = le_value_injective w w' l b b' (
    xor_injective_left s (le_value w) (le_value w') (
      byte_rounds_injective (length w) _ _ (xor-lt_pow 32 s (le_value w) hs (le_value-lt w four b))
        (xor-lt_pow 32 s (le_value w') hs (le_value-lt w' (omega arith) b'))
        (sym (reference_loop-value w s b)
          ∙ e
          ∙ reference_loop-value w' s b'
          ∙ ap (λ n. byte_rounds n (bit_xor s (le_value w'))) (sym l))))

-- Different states stay different while the bytes are the same.
reference_loop_injective :
    (bs : List ℕ) (s s' : ℕ)
    → IsBytes bs
    → s < 2 ^ 32
    → s' < 2 ^ 32
    → reference_loop bs s ≡ reference_loop bs s'
    → s ≡ s'
unfolding reference_loop
reference_loop_injective [] s s' h hs hs' e = e
reference_loop_injective (b ∷ bs) s s' h hs hs' e = xor_injective_right b s s' (
    bit_loop_injective 8 _ _ (small s hs) (small s' hs') (
      reference_loop_injective bs _ _ h.1 (bit_loop-lt 8 _ (small s hs))
        (bit_loop-lt 8 _ (small s' hs')) e))
  where
    small : (t : ℕ) → t < 2 ^ 32 → bit_xor t b < 2 ^ 32
    small t ht = xor-lt_pow 32 t b ht (omega arith)

reference_loop-append :
    (xs ys : List ℕ) (s : ℕ) → reference_loop (xs ++ ys) s ≡ reference_loop ys (reference_loop xs s)
unfolding reference_loop
reference_loop-append [] ys s = refl
reference_loop-append (x ∷ xs) ys s = reference_loop-append xs ys _

reference_loop-lt : (xs : List ℕ) (s : ℕ) → IsBytes xs → s < 2 ^ 32 → reference_loop xs s < 2 ^ 32
unfolding reference_loop
reference_loop-lt [] s b h = h
reference_loop-lt (x ∷ xs) s b h =
    reference_loop-lt xs _ b.1 (bit_loop-lt 8 _ (xor-lt_pow 32 s x h (omega arith)))

-- The checksums of two payloads that differ only in a run of at most four bytes differ.
pub calculate_crc32_burst :
    (pre w w' post : List ℕ)
    → IsBytes pre
    → IsBytes w
    → IsBytes w'
    → IsBytes post
    → length w ≡ length w'
    → length w ≤ 4
    → w ≢ w'
    → calculate_crc32 (some (pre ++ w ++ post)) (length (pre ++ w ++ post)) all_ones
      ≢ calculate_crc32 (some (pre ++ w' ++ post)) (length (pre ++ w' ++ post)) all_ones
calculate_crc32_burst pre w w' post hp hw hw' hs l four ne e = ne (
    reference_loop_burst w w' start start_lt l four hw hw' (
      reference_loop_injective post _ _ hs (reference_loop-lt w start hw start_lt)
        (reference_loop-lt w' start hw' start_lt)
        (sym (split w)
          ∙ xor_injective_right all_ones _ _ (
              sym (calculate_crc32-reference (pre ++ w ++ post) all_ones (bytes w hw))
              ∙ e
              ∙ calculate_crc32-reference (pre ++ w' ++ post) all_ones (bytes w' hw'))
          ∙ split w')))
  where
    start : ℕ
    start = reference_loop pre all_ones

    start_lt : start < 2 ^ 32
    start_lt = reference_loop-lt pre all_ones hp (omega arith)

    bytes : (v : List ℕ) → IsBytes v → IsBytes (pre ++ v ++ post)
    bytes v hv = IsBytes-append (pre ++ v) post (IsBytes-append pre v hp hv) hs

    split :
        (v : List ℕ)
        → reference_loop (pre ++ v ++ post) all_ones ≡ reference_loop post (reference_loop v start)
    split v =
        reference_loop-append (pre ++ v) post all_ones
        ∙ ap (reference_loop post) (reference_loop-append pre v all_ones)

-- A frame whose payload was changed within at most four consecutive bytes after its checksum was
-- written is refused by `verifyCrc32`, whatever was changed and wherever it stands.
pub verify_crc32_burst :
    (pre w w' post rest : List ℕ)
    → IsBytes pre
    → IsBytes w
    → IsBytes w'
    → IsBytes post
    → length w ≡ length w'
    → length w ≤ 4
    → w ≢ w'
    → let crc = calculate_crc32 (some (pre ++ w ++ post)) (length (pre ++ w ++ post)) all_ones in
      verify_crc32
        (some ((pre ++ w' ++ post) ++ le_bytes crc rest))
        (length (pre ++ w' ++ post) + 4)
      ≡ false
verify_crc32_burst pre w w' post rest hp hw hw' hs l four ne = not_true _ λ accepted.
    calculate_crc32_burst pre w w' post hp hw hw' hs l four ne (
      sym (
        (verify_crc32-exact (pre ++ w' ++ post) _ _ _ _ rest (omega arith) (omega arith)
            (omega arith) (omega arith)).0
          accepted
        ∙ omega (
          arith,
          calculate_crc32-lt (pre ++ w ++ post) (length (pre ++ w ++ post)) all_ones (omega arith),
        )))
