-- ===== src/SocketCan/Lifecycle.antt =====
-- Opening, closing, configuration and the callbacks.
pub mod Descriptors
use com_lib.Posix.{
  Os, Answer, done, failed, raw_can, SocketOption, loopback, receive_own, fd_frames, filter_list,
}
use com_lib.Posix.Options.{timeout_options, set_options}
use com_lib.Transport.{
  Protocol, can, ErrorCode, open_failed, invalid_configuration, is_receive_enabled,
}
use com_lib.SocketCan.Defs.{
  CanFilter, SocketCanConfig, SocketCan, report_error, set_healthy, start_receive_loop,
  stop_receive_loop, is_open,
}
use com_lib.Prelude.{
  ℕ, Bool, true, false, ◌&&◌, not, List, [], ◌∷◌, ◌++◌, map, Option, none, some, take, is_empty,
  if◌then◌else◌,
}

abbrev pub is_can : Protocol → Bool
is_can can = true
is_can _ = false

-- IFNAMSIZ - 1 of net/if.h: `strncpy` cuts a longer name.
abbrev pub name_limit : ℕ
name_limit = 15

-- The options that `open` sets, in its order.
unfoldable pub open_options : SocketCanConfig → List SocketOption
open_options c =
    loopback c.loopback
    ∷ receive_own c.receive_own_messages
    ∷ (timeout_options c.receive_timeout c.send_timeout
        ++ (if c.enable_fd then fd_frames ∷ [] else []))

abbrev pub native_filter : CanFilter → ℕ × ℕ
native_filter f = (f.id, f.mask)

module _ {K : Type 0} (os : Os K) where
  unfoldable pub after_filters : Answer (Unit {0}) × K → SocketCan K → Bool × SocketCan K
  after_filters (failed e, k) p =
      (false, report_error invalid_configuration (record p { kernel = k }))
  after_filters (done u, k) p = (true, record p { kernel = k })

  unfoldable pub apply_filters : SocketCan K → Bool × SocketCan K
  unfolding after_filters
  apply_filters p = elim p.socket [
    | none ↦ (false, p)
    | some fd ↦
        after_filters (os.set_option fd (filter_list (map native_filter p.config.filters)) p.kernel)
          p
  ]

  -- `::close(socket_); socket_ = -1;`
  unfoldable pub drop_socket : SocketCan K → SocketCan K
  drop_socket p = elim p.socket [
    | none ↦ p
    | some fd ↦ record p { kernel = os.close_fd fd p.kernel; socket = none }
  ]

  -- The end of `open`, with the filters in place.
  unfoldable pub finish_open : SocketCan K → Bool × SocketCan K
  finish_open p =
      let p' = set_healthy true p in
      (
        true,
        if is_receive_enabled p'.config.direction
              && (p'.link.has_receive_callback && p'.config.spawn_receive_thread)
            then start_receive_loop p'
            else p',
      )

  unfoldable pub filtered : Bool × SocketCan K → Bool × SocketCan K
  unfolding finish_open drop_socket
  filtered (true, p) = finish_open p
  filtered (false, p) = (false, drop_socket p)

  -- From the binding on.
  unfoldable pub bound : ℕ → Answer (Unit {0}) × K → SocketCan K → Bool × SocketCan K
  unfolding filtered apply_filters drop_socket finish_open open_options
  bound fd (failed e, k) p =
      (false, drop_socket (report_error open_failed (record p { kernel = k })))
  bound fd (done u, k) p =
      let p' = record p { kernel = set_options os fd (open_options p.config) k } in
      if not (is_empty p'.config.filters) then filtered (apply_filters p') else finish_open p'

  -- From the interface's index on.
  unfoldable pub resolved : ℕ → Answer ℕ × K → SocketCan K → Bool × SocketCan K
  unfolding bound drop_socket
  resolved fd (failed e, k) p =
      (false, drop_socket (report_error open_failed (record p { kernel = k })))
  resolved fd (done index, k) p = bound fd (os.bind_interface fd index k) p

  -- From the new socket on.
  unfoldable pub created : Answer ℕ × K → SocketCan K → Bool × SocketCan K
  unfolding resolved
  created (failed e, k) p = (false, report_error open_failed (record p { kernel = k }))
  created (done fd, k) p =
      resolved fd (os.interface_index fd (take name_limit p.config.interface) k)
        (record p { socket = some fd; kernel = k })

  unfoldable pub open_device : SocketCan K → Bool × SocketCan K
  unfolding created
  open_device p = if is_open p then (true, p) else created (os.create raw_can p.kernel) p

  unfoldable pub close : SocketCan K → Bool × SocketCan K
  unfolding drop_socket
  close p = (true, drop_socket (stop_receive_loop p))

  unfoldable pub configure : SocketCan K → SocketCanConfig → Bool × SocketCan K
  unfolding apply_filters
  configure p config =
      if not (is_can config.protocol)
      then (false, p)
      else let p' = record p { config = config } in
        if is_open p' && not (is_empty config.filters) then apply_filters p' else (true, p')

  unfoldable pub set_receive_callback : SocketCan K → Bool → SocketCan K
  set_receive_callback p present =
      let p' = record p { link = record p.link { has_receive_callback = present } } in
      if is_open p' && (is_receive_enabled p'.config.direction && p'.config.spawn_receive_thread)
      then start_receive_loop p'
      else p'

  unfoldable pub set_error_callback : SocketCan K → Bool → SocketCan K
  set_error_callback p present = record p { link = record p.link { has_error_callback = present } }
