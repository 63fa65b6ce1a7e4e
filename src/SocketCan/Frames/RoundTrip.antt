-- ===== src/SocketCan/Frames/RoundTrip.antt =====
-- Decoding an encoded frame.
use com_lib.Bits.Split.{low_part, high_part, add_flags}
use com_lib.SocketCan.Defs.{CanFrame}
use com_lib.SocketCan.Frames.{
  encode, encode_fd, decode, decode_fd, eff_mask, eff_flag, err_flag, data_length, copy_into,
}
use com_lib.Prelude.{
  ℕ, zero, suc, ◌+◌, ◌*◌, ◌^◌, ◌≤◌, ◌<◌, Bool, true, false, not, List, [], ◌∷◌, ◌++◌, length, take,
  bit_and, bit_or, ◌==◌, if◌then◌else◌, ◌≡◌, refl, ap, sym, ◌∙◌, arith,
}

-- A frame that fits: a 29-bit identifier, a length that counts the bytes, and no more bytes than the
-- format holds.
pub record IsWellFormed (limit : ℕ) (f : CanFrame) : Type 0 where
  pub id_fits : f.id < 2 ^ 29
  pub dlc_counts : f.dlc ≡ length f.bytes
  pub bytes_fit : length f.bytes ≤ limit

-- The bits above the identifier.
abbrev flag_bits : Bool → Bool → ℕ
flag_bits extended error = (if extended then 4 else 0) + (if error then 1 else 0)

abbrev word : ℕ → Bool → Bool → ℕ
word id extended error = id + flag_bits extended error * 2 ^ 29

masked : (id : ℕ) → id < 2 ^ 29 → bit_and id eff_mask ≡ id
masked id h = ground (arith, low_part 29 0 id h)

-- The encoder's word.
extended_word :
    (id : ℕ) (extended : Bool)
    → id < 2 ^ 29
    → (if extended then bit_or (bit_and id eff_mask) eff_flag else bit_and id eff_mask)
      ≡ word id extended false
extended_word id true h = ground (arith, masked id h, add_flags 29 0 4 id h)
extended_word id false h = ground (arith, masked id h)

error_word :
    (id : ℕ) (extended error : Bool)
    → id < 2 ^ 29
    → (if error then bit_or (word id extended false) err_flag else word id extended false)
      ≡ word id extended error
error_word id true true h = ground (arith, add_flags 29 4 1 id h)
error_word id true false h = ground arith
error_word id false true h = ground (arith, add_flags 29 0 1 id h)
error_word id false false h = ground arith

-- The decoder's reading of it.
word_id :
    (id : ℕ) (extended error : Bool) → id < 2 ^ 29 → bit_and (word id extended error) eff_mask ≡ id
word_id id extended error h = low_part 29 (flag_bits extended error) id h

word_extended :
    (id : ℕ) (extended error : Bool)
    → id < 2 ^ 29
    → not (bit_and (word id extended error) eff_flag == 0) ≡ extended
word_extended id true true h = ground (arith, high_part 29 5 4 id h)
word_extended id true false h = ground (arith, high_part 29 4 4 id h)
word_extended id false true h = ground (arith, high_part 29 1 4 id h)
word_extended id false false h = ground (arith, high_part 29 0 4 id h)

word_error :
    (id : ℕ) (extended error : Bool)
    → id < 2 ^ 29
    → not (bit_and (word id extended error) err_flag == 0) ≡ error
word_error id true true h = ground (arith, high_part 29 5 1 id h)
word_error id true false h = ground (arith, high_part 29 4 1 id h)
word_error id false true h = ground (arith, high_part 29 1 1 id h)
word_error id false false h = ground (arith, high_part 29 0 1 id h)

take-append : (n : ℕ) (xs ys : List ℕ) → n ≡ length xs → take n (take n xs ++ ys) ≡ xs
take-append zero [] [] e = refl
take-append zero [] (y ∷ ys) e = refl
take-append zero (x ∷ xs) ys e = absurd (omega arith)
take-append (suc n) [] ys e = absurd (omega arith)
take-append (suc n) (x ∷ xs) ys e = ap (λ l. x ∷ l) (take-append n xs ys (omega arith))

length_kept :
    (limit : ℕ) (f : CanFrame)
    → IsWellFormed limit f
    → limit < 256
    → data_length limit f.bytes ≡ length f.bytes
length_kept limit f h small = omega (arith, h.bytes_fit)

bytes_kept :
    (limit : ℕ) (f : CanFrame)
    → IsWellFormed limit f
    → limit < 256
    → take (data_length limit f.bytes) (copy_into limit (data_length limit f.bytes) f.bytes)
      ≡ f.bytes
bytes_kept limit f h small =
    take-append (data_length limit f.bytes) f.bytes _ (length_kept limit f h small)

encoded_word :
    (f : CanFrame) → f.id < 2 ^ 29 → (encode f).can_id ≡ word f.id f.extended f.error_frame
unfolding encode
encoded_word f h =
    ap (λ x. if f.error_frame then bit_or x err_flag else x) (extended_word f.id f.extended h)
    ∙ error_word f.id f.extended f.error_frame h

-- A classic frame that fits comes back from the kernel's form as it was.
pub decode-encode : (f : CanFrame) → IsWellFormed 8 f → f.fd_frame ≡ false → decode (encode f) ≡ f
unfolding decode encode
decode-encode f h classic = λ i. record {
  id = (ap (λ w. bit_and w eff_mask) word_of ∙ word_id f.id f.extended f.error_frame h.id_fits) i;
  extended =
      (ap (λ w. not (bit_and w eff_flag == 0)) word_of
          ∙ word_extended f.id f.extended f.error_frame h.id_fits)
        i;
  fd_frame = sym classic i;
  error_frame =
      (ap (λ w. not (bit_and w err_flag == 0)) word_of
          ∙ word_error f.id f.extended f.error_frame h.id_fits)
        i;
  dlc = (length_kept 8 f h (omega arith) ∙ sym h.dlc_counts) i;
  bytes = bytes_kept 8 f h (omega arith) i;
}
  where
    word_of : (encode f).can_id ≡ word f.id f.extended f.error_frame
    word_of = encoded_word f h.id_fits

-- So does a CAN FD frame that is no error frame.
pub decode_fd-encode_fd :
    (f : CanFrame)
    → IsWellFormed 64 f
    → f.fd_frame ≡ true
    → f.error_frame ≡ false
    → decode_fd (encode_fd f) ≡ f
unfolding decode_fd encode_fd
decode_fd-encode_fd f h is_fd correct = λ i. record {
  id = (ap (λ w. bit_and w eff_mask) word_of ∙ word_id f.id f.extended false h.id_fits) i;
  extended =
      (ap (λ w. not (bit_and w eff_flag == 0)) word_of
          ∙ word_extended f.id f.extended false h.id_fits)
        i;
  fd_frame = sym is_fd i;
  error_frame = sym correct i;
  dlc = (length_kept 64 f h (omega arith) ∙ sym h.dlc_counts) i;
  bytes = bytes_kept 64 f h (omega arith) i;
}
  where
    word_of : (encode_fd f).can_id ≡ word f.id f.extended false
    word_of = extended_word f.id f.extended h.id_fits
