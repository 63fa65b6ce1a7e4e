-- ===== src/Tcp/Transfer/Descriptors.antt =====
-- Sending and receiving leak no descriptor, whatever their outcome.
use com_lib.Posix.{Os, Answer, done, failed}
use com_lib.Posix.Lawful.{IsLawful}
use com_lib.Transport.{receive_failed}
use com_lib.Tcp.Defs.{Tcp, report_error, record_send, record_receive, set_healthy}
use com_lib.Tcp.Connection.Descriptors.{
  IsOwner, drop_client_connection-IsOwner, reset_server_connection-IsOwner,
}
use com_lib.Tcp.Reconnect.{ensure_connected}
use com_lib.Tcp.Reconnect.Descriptors.{ensure_connected-IsOwner}
use com_lib.Tcp.Transfer.{
  Round, continued, stopped, broken, round, SendEnd, resume, send_loop, finish, disconnect,
  after_loop, transmit, after_ensure, send, after_receive, take_in, receive,
}
use com_lib.Prelude.Int.{ℤ}
use com_lib.Prelude.{
  ℕ, zero, suc, Bool, true, false, List, [], ◌∷◌, Option, none, some, ◌≡◌, refl, ◌∙◌, arith,
}

module _ {K : Type 0} (os : Os K) (descriptors : K → List ℕ)
    (lawful : IsLawful os descriptors) where
  resume-descriptors :
      (w : Round) (k : K) (next : List ℕ → ℕ → Option (SendEnd K)) (r : SendEnd K)
      → ((rest : List ℕ) (total : ℕ) → next rest total ≡ some r → descriptors r.2 ≡ descriptors k)
      → resume w k next ≡ some r
      → descriptors r.2 ≡ descriptors k
  unfolding resume
  resume-descriptors (continued rest total) k next r sound e = sound rest total e
  resume-descriptors (stopped total) k next r sound e = grind (arith, e)
  resume-descriptors (broken total) k next r sound e = grind (arith, e)

  send_loop-descriptors :
      (fuel fd : ℕ) (non_blocking : Bool) (bytes : List ℕ) (total : ℕ) (k : K) (r : SendEnd K)
      → send_loop os fuel fd non_blocking bytes total k ≡ some r
      → descriptors r.2 ≡ descriptors k
  unfolding send_loop
  send_loop-descriptors fuel fd non_blocking [] total k r e = grind (arith, e)
  send_loop-descriptors zero fd non_blocking (x ∷ xs) total k r e = grind (arith, e)
  send_loop-descriptors (suc fuel) fd non_blocking (x ∷ xs) total k r e =
      let answer = os.send_bytes fd (x ∷ xs) k in
      resume-descriptors (round non_blocking (x ∷ xs) total answer.0) answer.1
        (λ rest total'. send_loop os fuel fd non_blocking rest total' answer.1) r
        (λ rest total' e'. send_loop-descriptors fuel fd non_blocking rest total' answer.1 r e') e
      ∙ lawful.after_send fd (x ∷ xs) k

  module _ (base : List ℕ) where
    abbrev Owner : Tcp K → Type 0
    Owner p = IsOwner os descriptors lawful base p

    disconnect-IsOwner : (p : Tcp K) → Owner p → Owner (disconnect os p)
    unfolding disconnect
    disconnect-IsOwner p own = grind (
      arith,
      drop_client_connection-IsOwner os descriptors lawful base p own,
      reset_server_connection-IsOwner os descriptors lawful base p own,
    )

    after_loop-IsOwner :
        (r : SendEnd K) (p : Tcp K)
        → descriptors r.2 ≡ descriptors p.kernel
        → Owner p
        → Owner (after_loop os r p).1
    unfolding after_loop report_error record_send set_healthy
    after_loop-IsOwner (true, total, k) p same own = grind (arith, same, own)
    after_loop-IsOwner (false, total, k) p same own = disconnect-IsOwner _ (same ∙ own)

    finish-IsOwner :
        (o : Option (SendEnd K)) (p : Tcp K) (r : ℤ × Tcp K)
        → ((l : SendEnd K) → o ≡ some l → descriptors l.2 ≡ descriptors p.kernel)
        → finish os o p ≡ some r
        → Owner p
        → Owner r.1
    unfolding finish
    finish-IsOwner none p r same e own = grind (arith, e)
    finish-IsOwner (some l) p r same e own =
        grind (arith, e, after_loop-IsOwner l p (same l refl) own)

    transmit-IsOwner :
        (fuel : ℕ) (bytes : List ℕ) (p : Tcp K) (r : ℤ × Tcp K)
        → transmit os fuel bytes p ≡ some r
        → Owner p
        → Owner r.1
    unfolding transmit report_error
    transmit-IsOwner fuel bytes p r e own =
        grind (arith, e, own, send_loop-descriptors, finish-IsOwner)

    pub send-IsOwner :
        (fuel : ℕ) (p : Tcp K) (bytes : List ℕ) (r : ℤ × Tcp K)
        → send os fuel p bytes ≡ some r
        → Owner p
        → Owner r.1
    unfolding send after_ensure report_error
    send-IsOwner fuel p bytes r e own =
        grind (
          arith,
          e,
          own,
          transmit-IsOwner,
          ensure_connected-IsOwner os descriptors lawful base p own,
        )

    after_receive-IsOwner :
        (r : Answer (List ℕ) × K) (p : Tcp K)
        → descriptors r.1 ≡ descriptors p.kernel
        → Owner p
        → Owner (after_receive os r p).2
    unfolding after_receive report_error record_receive set_healthy
    after_receive-IsOwner (failed e, k) p same own = grind (
      arith,
      same,
      own,
      disconnect-IsOwner (set_healthy false (report_error receive_failed (record p { kernel = k })))
          (same ∙ own),
    )
    after_receive-IsOwner (done [], k) p same own =
        disconnect-IsOwner (set_healthy false (record p { kernel = k })) (same ∙ own)
    after_receive-IsOwner (done (x ∷ xs), k) p same own = same ∙ own

    take_in-IsOwner :
        (max_size : ℕ) (buffer : List ℕ) (r : Bool × Tcp K)
        → Owner r.1
        → Owner (take_in os max_size buffer r).2
    unfolding take_in report_error
    take_in-IsOwner max_size buffer (false, p) own = own
    take_in-IsOwner max_size buffer (true, p) own =
        grind (arith, own, lawful.after_receive, after_receive-IsOwner)

    pub receive-IsOwner :
        (p : Tcp K) (buffer : List ℕ) (max_size : ℕ)
        → Owner p
        → Owner (receive os p buffer max_size).2
    unfolding receive report_error
    receive-IsOwner p buffer max_size own = grind (
      arith,
      own,
      take_in-IsOwner max_size buffer (ensure_connected os p)
          (ensure_connected-IsOwner os descriptors lawful base p own),
    )
