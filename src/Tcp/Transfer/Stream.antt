-- ===== src/Tcp/Transfer/Stream.antt =====
-- The send loop ends, and the bytes that the kernel took are the first ones of the data.
use mathlib.Core.List.{append_assoc, append-nil}
use com_lib.Posix.{
  Os, Answer, done, failed, again, would_block, interrupted, in_progress, bad_descriptor, other,
}
use com_lib.Tcp.Connection.{is_interrupted}
use com_lib.Tcp.Transfer.{round, SendEnd, resume, send_loop}
use com_lib.Prelude.{
  ◌<◌, ◌⊎◌, inl, inr, ℕ, zero, suc, ◌+◌, ◌≤◌, Bool, true, false, List, [], ◌∷◌, ◌++◌, Option, some,
  length, length-drop, take, drop, take-append_drop, if◌then◌else◌, ◌==◌, ◌≡◌, refl, sym, subst, ap,
  ◌∙◌, arith,
}

-- What a call of `::send` takes of the bytes.
abbrev pub taken : Answer ℕ → List ℕ → List ℕ
taken (done n) bytes = take n bytes
taken (failed e) bytes = []

abbrev pub Fits : Answer ℕ → List ℕ → Type 0
Fits (done n) bytes = n ≤ length bytes
Fits (failed e) bytes = Unit

abbrev pub cost : Answer ℕ → ℕ
cost (done n) = 0
cost (failed e) = if is_interrupted e then 1 else 0

-- How the loop ends: with everything taken, held up before that, or with an error.
pub data Ending : Type 0 where
  whole held_up broken_off : Ending

abbrev pub ok_of : Ending → Bool
ok_of broken_off = false
ok_of _ = true

-- An answer that takes nothing and is no error: the socket would block.
abbrev pub is_stall : Answer ℕ → Bool
is_stall (done n) = n == 0
is_stall (failed again) = true
is_stall (failed would_block) = true
is_stall (failed _) = false

-- An answer that breaks the loop off: an error, and neither a signal nor a socket that would block.
abbrev pub is_break : Answer ℕ → Bool
is_break (done n) = false
is_break (failed interrupted) = false
is_break (failed again) = false
is_break (failed would_block) = false
is_break (failed _) = true

-- What the theorems assume of `::send`: it takes a first part of the bytes, in order, and does so all or
-- nothing of the part it reports; and only so many signals come that interrupt it.
pub record IsStream {K : Type 0} (os : Os K) (accepted : ℕ → K → List ℕ) (interruptions : K → ℕ)
    : Type 0 where
  pub fits : (fd : ℕ) (bytes : List ℕ) (k : K) → Fits (os.send_bytes fd bytes k).0 bytes
  pub takes :
      (fd : ℕ) (bytes : List ℕ) (k : K)
      → accepted fd (os.send_bytes fd bytes k).1
        ≡ accepted fd k ++ taken (os.send_bytes fd bytes k).0 bytes
  pub pays :
      (fd : ℕ) (bytes : List ℕ) (k : K)
      → interruptions (os.send_bytes fd bytes k).1 + cost (os.send_bytes fd bytes k).0
        ≤ interruptions k
  pub stays : (fd fd' : ℕ) (k : K) → accepted fd (os.close_fd fd' k) ≡ accepted fd k

module _ {K : Type 0} (os : Os K) (accepted : ℕ → K → List ℕ) (interruptions : K → ℕ)
    (stream : IsStream os accepted interruptions) where
  -- In a state where the first `n` bytes are taken, `::send` of the others, of which there are some, gives
  -- such an answer.
  abbrev pub Answers : (Answer ℕ → Bool) → ℕ → K → ℕ → List ℕ → Type 0
  Answers test fd start n bytes =
      (k : K) × (accepted fd k ≡ accepted fd start ++ take n bytes)
      × (n < length bytes)
      × (test (os.send_bytes fd (drop n bytes) k).0 ≡ true)

  -- What an ending says of the number of bytes taken since `start`: all of them; those of one call, on a
  -- socket that does not block; or those before an answer that stalls, or one that is an error.
  abbrev pub Reached : Bool → ℕ → K → Ending → ℕ → List ℕ → Type 0
  Reached non_blocking fd start whole n bytes = n ≡ length bytes
  Reached non_blocking fd start held_up n bytes =
      ((non_blocking ≡ true)
        × (k : K) × (accepted fd k ≡ accepted fd start)
        × (0 < n)
        × ((os.send_bytes fd bytes k).0 ≡ done n))
      ⊎ Answers is_stall fd start n bytes
  Reached non_blocking fd start broken_off n bytes = Answers is_break fd start n bytes

  -- The loop ends with the first `n` of the bytes taken, and says so.
  abbrev pub Delivers : Bool → ℕ → List ℕ → ℕ → K → Option (SendEnd K) → Type 0
  Delivers non_blocking fd bytes total k o =
      (how : Ending) × (n : ℕ) × (k' : K) × (o ≡ some (ok_of how, total + n, k'))
      × (n ≤ length bytes)
      × (accepted fd k' ≡ accepted fd k ++ take n bytes)
      × Reached non_blocking fd k how n bytes

  -- Nothing is taken, and the loop ends.
  ended :
      (non_blocking : Bool) (fd : ℕ) (bytes : List ℕ) (total : ℕ) (k k' : K) (how : Ending)
      → accepted fd k' ≡ accepted fd k ++ []
      → Reached non_blocking fd k how 0 bytes
      → Delivers non_blocking fd bytes total k (some (ok_of how, total, k'))
  ended nb fd bytes total k k' how same reached =
      (how, 0, k', ap (λ t. some (ok_of how, t, k')) (omega arith), omega arith, same, reached)

  drop-nil : (n : ℕ) → drop {A = ℕ} n [] ≡ []
  drop-nil zero = refl
  drop-nil (suc n) = refl

  drop-drop : (m n : ℕ) (bytes : List ℕ) → drop n (drop m bytes) ≡ drop (m + n) bytes
  drop-drop zero n bytes = let e : n ≡ zero + n = omega arith in ap (λ i. drop i bytes) e
  drop-drop (suc m) n [] = rw (drop-nil n, drop-nil (suc m + n)) refl
  drop-drop (suc m) n (x ∷ xs) =
      let e : suc (m + n) ≡ suc m + n = omega arith in
      drop-drop m n xs ∙ ap (λ i. drop i (x ∷ xs)) e

  module _ (fd m : ℕ) (bytes : List ℕ) (k k' : K) (within : m ≤ length bytes)
      (moved : accepted fd k' ≡ accepted fd k ++ take m bytes) where
    joined : (n : ℕ) → accepted fd k' ++ take n (drop m bytes) ≡ accepted fd k ++ take (m + n) bytes
    joined n =
        ap (λ l. l ++ take n (drop m bytes)) moved
        ∙ append_assoc (accepted fd k) (take m bytes) (take n (drop m bytes))
        ∙ ap (λ l. accepted fd k ++ l) (take-append_drop m n bytes)

    further-Answers :
        (test : Answer ℕ → Bool) (n : ℕ)
        → Answers test fd k' n (drop m bytes)
        → Answers test fd k (m + n) bytes
    further-Answers test n (q, same, left, answer) = (
      q,
      same ∙ joined n,
      omega (arith, length-drop m bytes),
      subst (λ l. test (os.send_bytes fd l q).0 ≡ true) (drop-drop m n bytes) answer,
    )

    -- After progress the loop goes on only on a socket that blocks.
    further :
        (how : Ending) (n : ℕ)
        → Reached false fd k' how n (drop m bytes)
        → Reached false fd k how (m + n) bytes
    further whole n reached = omega (arith, length-drop m bytes)
    further held_up n (inl (blocks, q, same, some_taken, answer)) = absurd (ground (arith, blocks))
    further held_up n (inr stalls) = inr (further-Answers is_stall n stalls)
    further broken_off n breaks = further-Answers is_break n breaks

    -- A round's progress comes before that of the rounds after it.
    after_progress :
        (total : ℕ) (o : Option (SendEnd K))
        → Delivers false fd (drop m bytes) (total + m) k' o
        → Delivers false fd bytes total k o
    after_progress total o (how, n, k'', result, fits, more, reached) = (
      how,
      m + n,
      k'',
      result ∙ ap (λ t. some (ok_of how, t, k'')) (omega arith),
      omega (arith, length-drop m bytes),
      more ∙ joined n,
      further how n reached,
    )

  -- A signal changes nothing of what is taken.
  again_Reached :
      (non_blocking : Bool) (fd : ℕ) (bytes : List ℕ) (k k' : K) (how : Ending) (n : ℕ)
      → accepted fd k' ≡ accepted fd k
      → Reached non_blocking fd k' how n bytes
      → Reached non_blocking fd k how n bytes
  again_Reached nb fd bytes k k' whole n same reached = reached
  again_Reached nb fd bytes k k' held_up n same reached = rw (← same) reached
  again_Reached nb fd bytes k k' broken_off n same reached = rw (← same) reached

  after_signal :
      (non_blocking : Bool) (fd : ℕ) (bytes : List ℕ) (total : ℕ) (k k' : K)
      (o : Option (SendEnd K))
      → accepted fd k' ≡ accepted fd k
      → Delivers non_blocking fd bytes total k' o
      → Delivers non_blocking fd bytes total k o
  after_signal nb fd bytes total k k' o same (how, n, k'', result, fits, more, reached) = (
    how,
    n,
    k'',
    result,
    fits,
    more ∙ ap (λ l. l ++ take n bytes) same,
    again_Reached nb fd bytes k k' how n same reached,
  )

  answered :
      (test : Answer ℕ → Bool) (fd : ℕ) (bytes : List ℕ) (k : K)
      → 0 < length bytes
      → test (os.send_bytes fd bytes k).0 ≡ true
      → Answers test fd k 0 bytes
  answered test fd bytes k some_left answer =
      (k, sym (append-nil (accepted fd k)), some_left, answer)

  suc_nonzero : (m : ℕ) → (suc m == 0) ≡ false
  suc_nonzero m = ground arith

  resumed :
      (fuel fd : ℕ) (non_blocking : Bool) (bytes : List ℕ) (total : ℕ) (k : K) (a : Answer ℕ)
      (k' : K) (next : List ℕ → ℕ → Option (SendEnd K))
      → 0 < length bytes
      → (os.send_bytes fd bytes k).0 ≡ a
      → Fits a bytes
      → accepted fd k' ≡ accepted fd k ++ taken a bytes
      → interruptions k' + cost a ≤ interruptions k
      → length bytes + interruptions k ≤ suc fuel
      → ((rest : List ℕ) (total' : ℕ)
          → length rest + interruptions k' ≤ fuel
          → Delivers non_blocking fd rest total' k' (next rest total'))
      → Delivers non_blocking fd bytes total k (resume (round non_blocking bytes total a) k' next)
  unfolding resume round
  resumed fuel fd nb bytes total k (failed interrupted) k' next some_left e fits moved paid enough
        rest =
      after_signal nb fd bytes total k k' (next bytes total) (moved ∙ append-nil (accepted fd k))
        (rest bytes total (omega arith))
  resumed fuel fd nb bytes total k (failed again) k' next some_left e fits moved paid enough rest =
      ended nb fd bytes total k k' held_up moved
        (inr (answered is_stall fd bytes k some_left (rw e refl)))
  resumed fuel fd nb bytes total k (failed would_block) k' next some_left e fits moved paid enough
        rest =
      ended nb fd bytes total k k' held_up moved
        (inr (answered is_stall fd bytes k some_left (rw e refl)))
  resumed fuel fd nb bytes total k (failed in_progress) k' next some_left e fits moved paid enough
        rest =
      ended nb fd bytes total k k' broken_off moved
        (answered is_break fd bytes k some_left (rw e refl))
  resumed fuel fd nb bytes total k (failed bad_descriptor) k' next some_left e fits moved paid
        enough rest =
      ended nb fd bytes total k k' broken_off moved
        (answered is_break fd bytes k some_left (rw e refl))
  resumed fuel fd nb bytes total k (failed other) k' next some_left e fits moved paid enough rest =
      ended nb fd bytes total k k' broken_off moved
        (answered is_break fd bytes k some_left (rw e refl))
  resumed fuel fd nb bytes total k (done zero) k' next some_left e fits moved paid enough rest =
      ended nb fd bytes total k k' held_up moved
        (inr (answered is_stall fd bytes k some_left (rw e refl)))
  resumed fuel fd true bytes total k (done (suc m)) k' next some_left e fits moved paid enough
        rest =
      rw (suc_nonzero m)
        (held_up, suc m, k', refl, fits, moved, inl (refl, k, refl, omega arith, e))
  resumed fuel fd false bytes total k (done (suc m)) k' next some_left e fits moved paid enough
        rest =
      rw (suc_nonzero m) (
        after_progress fd (suc m) bytes k k' fits moved total
          (next (drop (suc m) bytes) (total + suc m))
          (rest (drop (suc m) bytes) (total + suc m) (omega (arith, length-drop (suc m) bytes))))

  pub send_loop-Delivers :
      (fuel fd : ℕ) (non_blocking : Bool) (bytes : List ℕ) (total : ℕ) (k : K)
      → length bytes + interruptions k ≤ fuel
      → Delivers non_blocking fd bytes total k (send_loop os fuel fd non_blocking bytes total k)
  unfolding send_loop
  send_loop-Delivers fuel fd non_blocking [] total k enough =
      ended non_blocking fd [] total k k whole (sym (append-nil (accepted fd k))) refl
  send_loop-Delivers zero fd non_blocking (x ∷ xs) total k enough = absurd (omega arith)
  send_loop-Delivers (suc fuel) fd non_blocking (x ∷ xs) total k enough =
      let answer = os.send_bytes fd (x ∷ xs) k in
      resumed fuel fd non_blocking (x ∷ xs) total k answer.0 answer.1
        (λ rest total'. send_loop os fuel fd non_blocking rest total' answer.1) (omega arith) refl
        (stream.fits fd (x ∷ xs) k) (stream.takes fd (x ∷ xs) k) (stream.pays fd (x ∷ xs) k) enough
        (λ rest total' enough'.
          send_loop-Delivers fuel fd non_blocking rest total' answer.1 enough')
