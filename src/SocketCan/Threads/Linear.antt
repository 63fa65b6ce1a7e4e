-- ===== src/SocketCan/Threads/Linear.antt =====
-- Several threads in `SocketCAN::send` stay in step with the same calls made one after another, in the
-- order of their log.
use mathlib.Core.List.{append-nil}
use com_lib.Posix.{Os}
use com_lib.Transport.{ErrorCode, max_u64}
use com_lib.Transport.Link.{Link, error_result}
use com_lib.SocketCan.Defs.{SocketCan, payload_limit, report_error}
use com_lib.SocketCan.Transfer.{payload_frame}
use com_lib.SocketCan.Threads.{
  Stage, ready, refused, writing, written, returned, Log, outcome, System, advance, stepped, turn,
  run,
}
use com_lib.SocketCan.Threads.Effects.{
  denied, granted, Access-cases, effect, settle, Fits, AllFit, Fits-writing, settle-effect,
  settle-set, get_elem?-Fits, set-AllFit,
}
use com_lib.SocketCan.Threads.Single.{
  access, access_kept, Explains, Explains-append, send-denied, send_empty, send_writes, aim-denied,
  aim-granted, advance-written,
}
use com_lib.Prelude.Int.{ℤ, pos}
use com_lib.Prelude.{
  ℕ, min, ◌≤◌, Bool, List, [], ◌∷◌, ◌++◌, some, length, is_empty, get_elem?, set, Option-cases,
  Bool-cases, ◌≡◌, ◌∙◌, ap, sym, inl, inr, refl, arith,
}

module _ {K : Type 0} (os : Os K) where
  -- The object that the log leads to: the same but for the records still to come.
  pub record IsLinear (p : SocketCan K) (sys : System K) : Type 0 where
    pub sequential : SocketCan K
    pub explained : Explains os p sys.log sequential
    pub config : sequential.config ≡ sys.object.config
    pub socket : sequential.socket ≡ sys.object.socket
    pub kernel : sequential.kernel ≡ sys.object.kernel
    pub link : sequential.link ≡ settle sys.stages sys.object.link
    pub stages : AllFit (access p) sys.stages
    pub kept_config : sys.object.config ≡ p.config
    pub kept_socket : sys.object.socket ≡ p.socket

  module _ (p : SocketCan K) where
    module _ (i : ℕ) (sys : System K) (l : IsLinear p sys) where
      object_access : access sys.object ≡ access p
      object_access = access_kept p sys.object l.kept_config l.kept_socket

      sequential_access : access l.sequential ≡ access p
      sequential_access =
          access_kept p l.sequential (l.config ∙ l.kept_config) (l.socket ∙ l.kept_socket)

      -- A step after which the record of `s'` is still to come, and that may change the kernel.
      deferred :
          (s s' : Stage) (q : SocketCan K) (k : K) (log : Log)
          → Explains os p log q
          → q.config ≡ l.sequential.config
          → q.socket ≡ l.sequential.socket
          → q.kernel ≡ k
          → q.link ≡ effect s' l.sequential.link
          → get_elem? sys.stages i ≡ some s
          → Fits (access p) s'
          → ((k : Link) → effect s k ≡ k)
          → IsLinear p (record {
            object = record sys.object { kernel = k };
            stages = set sys.stages i s';
            log = log;
          })
      deferred s s' q k log x c d e g h f quiet = record {
        sequential = q;
        explained = x;
        config = c ∙ l.config;
        socket = d ∙ l.socket;
        kernel = e;
        link =
            g
            ∙ ap (effect s') l.link
            ∙ sym (settle-set (access p) sys.stages i s s' sys.object.link h l.stages f)
            ∙ quiet (settle (set sys.stages i s') sys.object.link);
        stages = set-AllFit (access p) sys.stages i s' l.stages f;
        kept_config = l.kept_config;
        kept_socket = l.kept_socket;
      }

      -- The step that makes the record of `s`.
      recorded :
          (s : Stage) (r : ℤ)
          → get_elem? sys.stages i ≡ some s
          → IsLinear p (record {
            object = record sys.object { link = effect s sys.object.link };
            stages = set sys.stages i (returned r);
            log = sys.log ++ [];
          })
      unfolding effect
      recorded s r h =
          let f : Fits (access p) s = get_elem?-Fits (access p) sys.stages i h l.stages in
          let fits : AllFit (access p) (set sys.stages i (returned r)) =
            set-AllFit (access p) sys.stages i (returned r) l.stages tt in
          record {
            sequential = l.sequential;
            explained = rw append-nil l.explained;
            config = l.config;
            socket = l.socket;
            kernel = l.kernel;
            link = cc (
              l.link,
              settle-set (access p) sys.stages i s (returned r) sys.object.link h l.stages tt,
              settle-effect (access p) (set sys.stages i (returned r)) s sys.object.link fits f,
            );
            stages = fits;
            kept_config = l.kept_config;
            kept_socket = l.kept_socket;
          }

      module _ (bytes : List ℕ) (h : get_elem? sys.stages i ≡ some (ready bytes)) where
        denied-IsLinear :
            (code : ErrorCode)
            → access p ≡ denied code
            → IsLinear p (stepped os i (ready bytes) sys)
        unfolding advance effect
        denied-IsLinear code e = rw (aim-denied os sys.object bytes code (object_access ∙ e)) (
            deferred (ready bytes) (refused code) _ sys.object.kernel
              (sys.log ++ (i, bytes, error_result) ∷ [])
              (Explains-append os sys.log p l.sequential _ i bytes error_result l.explained
                (send-denied os l.sequential bytes code (sequential_access ∙ e)))
              refl refl l.kernel refl h (rw e refl) (λ k. refl))

        granted-IsLinear :
            (fd : ℕ) (is_fd : Bool)
            → access p ≡ granted fd is_fd
            → IsLinear p (stepped os i (ready bytes) sys)
        unfolding advance effect
        granted-IsLinear fd is_fd e =
            rw (aim-granted os sys.object bytes fd is_fd (object_access ∙ e))
              (elim (Bool-cases (is_empty bytes)) [
                | inl empty ↦ rw empty (
                    deferred (ready bytes) (returned (pos 0)) l.sequential sys.object.kernel
                      (sys.log ++ (i, bytes, pos 0) ∷ [])
                      (Explains-append os sys.log p l.sequential l.sequential i bytes (pos 0)
                        l.explained
                        (send_empty os l.sequential bytes fd is_fd (sequential_access ∙ e) empty))
                      refl refl l.kernel refl h tt (λ k. refl))
                | inr full ↦ rw full (
                    deferred (ready bytes) (writing fd is_fd bytes) l.sequential sys.object.kernel
                      (sys.log ++ []) (rw append-nil l.explained) refl refl l.kernel refl h
                      (rw e (refl, refl, full)) (λ k. refl))
              ])

        ready-IsLinear : IsLinear p (stepped os i (ready bytes) sys)
        ready-IsLinear = elim (Access-cases (access p)) [
          | inl (code, e) ↦ denied-IsLinear code e
          | inr (fd, is_fd, e) ↦ granted-IsLinear fd is_fd e
        ]

      writing-IsLinear :
          (fd : ℕ) (is_fd : Bool) (bytes : List ℕ)
          → get_elem? sys.stages i ≡ some (writing fd is_fd bytes)
          → IsLinear p (stepped os i (writing fd is_fd bytes) sys)
      unfolding advance effect
      writing-IsLinear fd is_fd bytes h =
          let (e, full) =
            Fits-writing (access p) fd is_fd bytes
              (get_elem?-Fits (access p) sys.stages i h l.stages) in
          let n = min (length bytes) (payload_limit is_fd) in
          let (answer, k) =
            os.write_frame fd is_fd (payload_frame os is_fd bytes) sys.object.kernel in
          let bounded : n ≤ max_u64 = ground arith in
          deferred (writing fd is_fd bytes) (written n answer) _ k
            (sys.log ++ (i, bytes, outcome n answer) ∷ [])
            (Explains-append os sys.log p l.sequential _ i bytes (outcome n answer) l.explained (
              send_writes os l.sequential bytes fd is_fd answer k (sequential_access ∙ e) full
                (rw l.kernel refl)))
            refl refl refl refl h (rw e bounded) (λ k. refl)

    stepped-IsLinear :
        (i : ℕ) (s : Stage) (sys : System K)
        → get_elem? sys.stages i ≡ some s
        → IsLinear p sys
        → IsLinear p (stepped os i s sys)
    unfolding advance effect report_error
    stepped-IsLinear i (ready bytes) sys h l = ready-IsLinear i sys l bytes h
    stepped-IsLinear i (refused code) sys h l = recorded i sys l (refused code) error_result h
    stepped-IsLinear i (writing fd is_fd bytes) sys h l = writing-IsLinear i sys l fd is_fd bytes h
    stepped-IsLinear i (written n answer) sys h l =
        rw (advance-written os n answer sys.object)
          (recorded i sys l (written n answer) (outcome n answer) h)
    stepped-IsLinear i (returned r) sys h l = recorded i sys l (returned r) r h

    pub turn-IsLinear : (i : ℕ) (sys : System K) → IsLinear p sys → IsLinear p (turn os i sys)
    unfolding turn
    turn-IsLinear i sys l = elim (Option-cases (get_elem? sys.stages i)) [
      | inl absent ↦ rw (absent, turn) l
      | inr (s, present) ↦ rw (present, turn) (stepped-IsLinear i s sys present l)
    ]

    pub run-IsLinear :
        (schedule : List ℕ) (sys : System K) → IsLinear p sys → IsLinear p (run os schedule sys)
    unfolding run
    run-IsLinear [] sys l = l
    run-IsLinear (i ∷ schedule) sys l =
        run-IsLinear schedule (turn os i sys) (turn-IsLinear i sys l)
