-- ===== src/Pcan/Transfer/Payload.antt =====
-- The bounded copies: what reaches the frame and what comes back are the first bytes of the source.
use native.Mathlib.Numerals.{unary_clauses}
use com_lib.Buffer.{FixedBuffer, new_buffer, push_back, at}
use com_lib.Buffer.Queue.{IsValid, contents, new_buffer-IsValid, push_back_lem, at_lem}
use com_lib.Memory.Loops.{bounded_for_inv}
use com_lib.Pcan.Transfer.{put_byte, fill_payload, put_data, frame_bytes, put_back, read_back}
use com_lib.Pcan.Defs.{can_fd_max_payload}
use com_lib.Prelude.{
  ℕ, zero, suc, ◌-◌, ◌≤◌, ◌<◌, List, [], ◌∷◌, ◌++◌, some, length, get_elem?, get_or, set, take,
  replicate, ◌≡◌, refl, ap, sym, ◌∙◌, arith,
}

-- A fixed buffer that holds the first `n` bytes of `source`.
pub record Holds (source : List ℕ) (n : ℕ) (b : FixedBuffer ℕ) : Type 0 where
  pub valid : IsValid can_fd_max_payload b
  pub size_eq : b.size ≡ n
  pub contents_eq : contents b ≡ take n source

take-suc : (xs : List ℕ) (i : ℕ) → i < length xs → take (suc i) xs ≡ take i xs ++ get_or xs i 0 ∷ []
take-suc [] i h = absurd (omega arith)
take-suc (x ∷ xs) zero h = refl
take-suc (x ∷ xs) (suc i) h = ap (λ l. x ∷ l) (take-suc xs i (omega arith))

pushed_size :
    (b : FixedBuffer ℕ) (v : ℕ)
    → b.size < can_fd_max_payload
    → (push_back can_fd_max_payload b v).1.size ≡ suc b.size
unfolding push_back
pushed_size b v room = ground arith

one_byte :
    (source : List ℕ) (i : ℕ) (b : FixedBuffer ℕ)
    → i < length source
    → i < can_fd_max_payload
    → Holds source i b
    → Holds source (suc i) (put_byte source i b)
unfolding put_byte
one_byte source i b inside room h =
    let (valid, done, appended) = push_back_lem can_fd_max_payload b (get_or source i 0) h.valid in
    record {
      valid = valid;
      size_eq = pushed_size b (get_or source i 0) (omega (arith, h.size_eq)) ∙ ap suc h.size_eq;
      contents_eq =
          appended
          ∙ ground (arith, h.size_eq)
          ∙ ap (λ l. l ++ get_or source i 0 ∷ []) h.contents_eq
          ∙ sym (take-suc source i inside);
    }

-- A loop with enough rounds, over at most 64 bytes that the source has, fills the buffer with them.
pub fill_payload-Holds :
    (rounds n : ℕ) (source : List ℕ)
    → n ≤ rounds
    → n ≤ can_fd_max_payload
    → n ≤ length source
    → Holds source n (fill_payload rounds n source)
unfolding fill_payload new_buffer
fill_payload-Holds rounds n source enough room inside =
    bounded_for_inv (Holds source) (put_byte source) rounds n (new_buffer can_fd_max_payload 0)
      enough (λ i b less h. one_byte source i b (omega arith) (omega arith) h)
      (record {
        valid = new_buffer-IsValid can_fd_max_payload 0;
        size_eq = refl;
        contents_eq = refl;
      })

get_elem?-take :
    (xs : List ℕ) (n i : ℕ) → i < n → n ≤ length xs → get_elem? (take n xs) i ≡ some (get_or xs i 0)
get_elem?-take xs zero i less inside = absurd (omega arith)
get_elem?-take [] (suc n) i less inside = absurd (omega arith)
get_elem?-take (x ∷ xs) (suc n) zero less inside = refl
get_elem?-take (x ∷ xs) (suc n) (suc i) less inside =
    get_elem?-take xs n i (omega arith) (omega arith)

set_next :
    (xs : List ℕ) (n i v : ℕ)
    → i < n
    → i ≤ length xs
    → set (take i xs ++ replicate (n - i) 0) i v ≡ (take i xs ++ v ∷ []) ++ replicate (n - suc i) 0
set_next xs zero i v less inside = absurd (omega arith)
set_next xs (suc n) zero v less inside = simp unary_clauses
set_next [] (suc n) (suc i) v less inside = absurd (omega arith)
set_next (x ∷ xs) (suc n) (suc i) v less inside =
    let left : suc n - suc i ≡ n - i = omega arith in
    let left' : suc n - suc (suc i) ≡ n - suc i = omega arith in
    rw (left, left') (ap (λ l. x ∷ l) (set_next xs n i v (omega arith) (omega arith)))

module _ (source : List ℕ) (n : ℕ) (b : FixedBuffer ℕ) (h : Holds source n b)
    (inside : n ≤ length source) where
  at-Holds : (i : ℕ) → i < n → at can_fd_max_payload b i ≡ some (get_or source i 0)
  at-Holds i less =
      at_lem can_fd_max_payload b i
      ∙ ap (λ l. get_elem? l i) h.contents_eq
      ∙ get_elem?-take source n i less inside

  put_data_step :
      (i : ℕ) (bytes : List ℕ) → i < n → put_data b i bytes ≡ set bytes i (get_or source i 0)
  unfolding put_data
  put_data_step i bytes less = rw (put_data, at-Holds i less)

  put_back_step :
      (i : ℕ) (buffer : List ℕ) → i < n → put_back b i buffer ≡ buffer ++ get_or source i 0 ∷ []
  unfolding put_back
  put_back_step i buffer less = rw (put_back, at-Holds i less)

  -- The array of the frame: the bytes, and zeros behind them.
  pub frame_bytes-Holds :
      (size : ℕ) → n ≤ size → frame_bytes size b ≡ take n source ++ replicate (size - n) 0
  unfolding frame_bytes
  frame_bytes-Holds size fits = simp h.size_eq (
      bounded_for_inv (λ i bytes. bytes ≡ take i source ++ replicate (size - i) 0) (put_data b) size
        n (replicate size 0) fits
        (λ i bytes less e.
          put_data_step i bytes less
          ∙ ap (λ l. set l i (get_or source i 0)) e
          ∙ set_next source size i (get_or source i 0) (omega arith) (omega arith)
          ∙ ap (λ l. l ++ replicate (size - suc i) 0) (sym (take-suc source i (omega arith))))
        (simp unary_clauses))

  -- The caller gets the bytes.
  pub read_back-Holds : n ≤ can_fd_max_payload → read_back b ≡ take n source
  unfolding read_back
  read_back-Holds room = simp h.size_eq (
      bounded_for_inv (λ i buffer. buffer ≡ take i source) (put_back b) can_fd_max_payload n [] room
        (λ i buffer less e.
          put_back_step i buffer less
          ∙ ap (λ l. l ++ get_or source i 0 ∷ []) e
          ∙ sym (take-suc source i (omega arith)))
        refl)
