-- ===== src/Udp/Setup.antt =====
-- `configureSocket`, `bindSocket`, `joinMulticastGroup` and the end of the handle.
use com_lib.Posix.{
  Os, Answer, done, failed, SocketOption, reuse_address, broadcast, multicast_ttl, multicast_loop,
  membership,
}
use com_lib.Posix.Endpoint.{Endpoint, local_address}
use com_lib.Posix.Options.{timeout_options, set_options, set_nonblocking}
use com_lib.Transport.{Mode, multicast, open_failed, invalid_configuration}
use com_lib.Udp.Defs.{UdpConfig, UdpHandle, Udp, report_error}
use com_lib.Prelude.{
  ℕ, Bool, true, false, ◌||◌, List, [], ◌∷◌, ◌++◌, Option, none, some, is_empty, if◌then◌else◌,
}

abbrev pub is_multicast : Mode → Bool
is_multicast multicast = true
is_multicast _ = false

-- `config_.mode == Mode::Multicast || config_.joinMulticast`
abbrev pub uses_multicast : UdpConfig → Bool
uses_multicast c = is_multicast c.mode || c.join_multicast

-- The options that `configureSocket` sets after `O_NONBLOCK`, in its order.
unfoldable pub later_options : UdpConfig → List SocketOption
later_options c =
    (if c.allow_broadcast then broadcast ∷ [] else [])
    ++ timeout_options c.receive_timeout c.send_timeout
    ++ (if uses_multicast c
        then multicast_ttl c.multicast_ttl ∷ multicast_loop c.multicast_loopback ∷ []
        else [])

-- INADDR_ANY
abbrev pub any_interface : ℕ
any_interface = 0

module _ {K : Type 0} (os : Os K) where
  -- `handle_.reset()`, with `~SocketHandle`.
  unfoldable pub reset_handle : Udp K → Udp K
  reset_handle p = elim p.handle [
    | none ↦ p
    | some h ↦ record p { handle = none; kernel = os.close_fd h.socket p.kernel }
  ]

  unfoldable pub configure_socket : Udp K → Bool × Udp K
  configure_socket p = elim p.handle [
    | none ↦ (false, p)
    | some h ↦
        let k = set_options os h.socket (reuse_address ∷ []) p.kernel in
        let k' = if p.config.non_blocking then set_nonblocking os h.socket k else k in
        (true, record p { kernel = set_options os h.socket (later_options p.config) k' })
  ]

  unfoldable pub after_bind : UdpHandle → ℕ → Answer (Unit {0}) × K → Udp K → Bool × Udp K
  after_bind h address (failed e, k) p = (false, report_error open_failed (record p { kernel = k }))
  after_bind h address (done u, k) p = (
    true,
    record p {
      kernel = k;
      handle = some (record h { local = some (address, p.config.local.port) });
    },
  )

  unfoldable pub bind_socket : Udp K → Bool × Udp K
  unfolding after_bind
  bind_socket p = elim p.handle [
    | none ↦ (false, p)
    | some h ↦ elim (os.parse_address (local_address p.config.local)) [
      | none ↦ (false, report_error invalid_configuration p)
      | some address ↦
          after_bind h address (os.bind h.socket address p.config.local.port p.kernel) p
    ]
  ]

  unfoldable pub after_join : Answer (Unit {0}) × K → Udp K → Bool × Udp K
  after_join (failed e, k) p = (false, report_error open_failed (record p { kernel = k }))
  after_join (done u, k) p = (true, record p { kernel = k })

  -- The interface to join on: any, if the local address is empty.
  abbrev pub join_interface : Endpoint → Option ℕ
  join_interface local =
      if is_empty local.address then some any_interface else os.parse_address local.address

  unfoldable pub join_multicast_group : Udp K → Bool × Udp K
  unfolding after_join
  join_multicast_group p =
      if is_empty p.config.multicast_group
      then (false, report_error invalid_configuration p)
      else elim p.handle [
        | none ↦ (false, p)
        | some h ↦ elim (os.parse_address p.config.multicast_group) [
          | none ↦ (false, report_error invalid_configuration p)
          | some group ↦ elim (join_interface p.config.local) [
            | none ↦ (false, report_error invalid_configuration p)
            | some interface ↦
                after_join (os.set_option h.socket (membership group interface) p.kernel) p
          ]
        ]
      ]
