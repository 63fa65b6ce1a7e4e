-- ===== src/SocketCan/Threads/Single.antt =====
-- One call of `SocketCAN::send`, and what the records of its parts amount to.
use com_lib.Posix.{Os, Answer, done, failed}
use com_lib.Transport.Link.{error_result}
use com_lib.Transport.{ErrorCode, unsupported_operation, not_open, is_send_enabled}
use com_lib.SocketCan.Defs.{SocketCanConfig, SocketCan, payload_limit, report_error, record_send}
use com_lib.SocketCan.Transfer.{send, after_write, payload_frame}
use com_lib.SocketCan.Threads.{refused, writing, written, returned, Log, outcome, aim, advance}
use com_lib.SocketCan.Threads.Effects.{Access, denied, granted, effect}
use com_lib.Prelude.Int.{ℤ, pos}
use com_lib.Prelude.{
  ℕ, min, Bool, true, false, not, List, [], ◌∷◌, ◌++◌, Option, none, some, length, is_empty,
  if◌then◌else◌, ◌≡◌, refl, arith,
}

-- What the first tests of `send` find, which read only the configuration and the descriptor.
pub permit : SocketCanConfig → Option ℕ → Access
permit config socket =
    if not (is_send_enabled config.direction)
    then denied unsupported_operation
    else elim socket [ none ↦ denied not_open | some fd ↦ granted fd config.enable_fd ]

module _ {K : Type 0} where
  abbrev pub access : SocketCan K → Access
  access p = permit p.config p.socket

  pub access_kept :
      (p q : SocketCan K) → q.config ≡ p.config → q.socket ≡ p.socket → access q ≡ access p
  access_kept p q e e' = rw (e, e') refl

module _ {K : Type 0} (os : Os K) where
  -- The calls of the log, made one after another from `p`, have its results and end in `q`.
  abbrev pub Explains : SocketCan K → Log → SocketCan K → Type 0
  Explains p [] q = p ≡ q
  Explains p ((i, bytes, r) ∷ log) q =
      ((send os p bytes).0 ≡ r) × Explains (send os p bytes).1 log q

  pub Explains-append :
      (log : Log) (p q q' : SocketCan K) (i : ℕ) (bytes : List ℕ) (r : ℤ)
      → Explains p log q
      → send os q bytes ≡ (r, q')
      → Explains p (log ++ (i, bytes, r) ∷ []) q'
  Explains-append [] p q q' i bytes r h e = rw h (rw e (refl, refl))
  Explains-append ((j, b, r') ∷ log) p q q' i bytes r (e', h) e =
      (e', Explains-append log (send os p b).1 q q' i bytes r h e)

  pub advance-written :
      (n : ℕ) (answer : Answer ℕ) (p : SocketCan K)
      → advance os (written n answer) p
        ≡ (returned (outcome n answer), record p { link = effect (written n answer) p.link })
  unfolding advance effect report_error record_send
  advance-written n (failed e) p = refl
  advance-written n (done w) p = refl

  -- What a call does, by what it finds.
  module _ (q : SocketCan K) (bytes : List ℕ) where
    pub send-denied :
        (code : ErrorCode)
        → access q ≡ denied code
        → send os q bytes ≡ (error_result, record q { link = effect (refused code) q.link })
    unfolding send permit effect report_error
    send-denied code e = ground arith

    pub send_empty :
        (fd : ℕ) (is_fd : Bool)
        → access q ≡ granted fd is_fd
        → is_empty bytes ≡ true
        → send os q bytes ≡ (pos 0, q)
    unfolding send permit
    send_empty fd is_fd e n = ground arith

    after_write_lem :
        (n : ℕ) (answer : Answer ℕ) (k : K)
        → after_write os n (answer, k) q
          ≡ (outcome n answer, record q { kernel = k; link = effect (written n answer) q.link })
    unfolding after_write effect report_error record_send
    after_write_lem n (failed e) k = refl
    after_write_lem n (done w) k = refl

    pub send_writes :
        (fd : ℕ) (is_fd : Bool) (answer : Answer ℕ) (k : K)
        → access q ≡ granted fd is_fd
        → is_empty bytes ≡ false
        → os.write_frame fd is_fd (payload_frame os is_fd bytes) q.kernel ≡ (answer, k)
        → let n = min (length bytes) (payload_limit is_fd) in
          send os q bytes
          ≡ (outcome n answer, record q { kernel = k; link = effect (written n answer) q.link })
    unfolding send permit
    send_writes fd is_fd answer k e n w =
        ground (arith, after_write_lem (min (length bytes) (payload_limit is_fd)) answer k)

    pub aim-denied : (code : ErrorCode) → access q ≡ denied code → aim q bytes ≡ refused code
    unfolding aim permit
    aim-denied code e = ground arith

    pub aim-granted :
        (fd : ℕ) (is_fd : Bool)
        → access q ≡ granted fd is_fd
        → aim q bytes ≡ (if is_empty bytes then returned (pos 0) else writing fd is_fd bytes)
    unfolding aim permit
    aim-granted fd is_fd e = ground arith
