-- ===== src/Tcp/Lifecycle.antt =====
-- Opening, closing, configuration, the callbacks and the receive thread.
pub mod Descriptors
use com_lib.Posix.{Os, Answer, done, failed, stream}
use com_lib.Transport.{Protocol, tcp, ErrorCode, open_failed, is_receive_enabled}
use com_lib.Transport.Link
use com_lib.Tcp.Defs.{
  TcpConfig, SocketHandle, Tcp, report_error, set_healthy, is_server, is_some, is_open,
}
use com_lib.Tcp.Connection.{
  reset_handle, close_active_socket, after_listen, connect_remote, guarded, prepared,
}
use com_lib.Prelude.{ℕ, Bool, true, false, ◌&&◌, ◌||◌, not, Option, none, some, if◌then◌else◌}

abbrev pub is_tcp : Protocol → Bool
is_tcp tcp = true
is_tcp _ = false

abbrev pub has_channel : Option SocketHandle → Bool
has_channel none = false
has_channel (some h) = h.server || is_some h.socket

module _ {K : Type 0} (os : Os K) where
  abbrev pub should_spawn_receive_thread : Tcp K → Bool
  should_spawn_receive_thread p =
      p.config.spawn_receive_thread
      && (is_receive_enabled p.config.direction && has_channel p.handle)

  unfoldable pub start_receive_loop : Tcp K → Tcp K
  start_receive_loop p =
      if not (should_spawn_receive_thread p) || not p.link.has_receive_callback
      then p
      else record p { link = Link.launch p.link }

  unfoldable pub stop_receive_loop : Tcp K → Tcp K
  unfolding close_active_socket
  stop_receive_loop p =
      if not p.link.running
      then p
      else close_active_socket os (record p { link = Link.halt p.link })

  -- The end of `open`, under the lock.
  unfoldable pub established : Bool → ℕ → Tcp K → Bool × Tcp K
  unfolding guarded after_listen connect_remote
  established true sock p =
      guarded os sock (after_listen os (os.listen sock p.config.listen_backlog p.kernel) p) (λ p'. (
        true,
        set_healthy true (record p' {
          handle = some (record { socket = none; listen = some sock; server = true });
        }),
      ))
  established false sock p = guarded os sock (connect_remote os sock p) (λ p'. (
    true,
    set_healthy true (record p' {
      handle = some (record { socket = some sock; listen = none; server = false });
    }),
  ))

  -- The launch of the receive thread, without the lock.
  unfoldable pub launched : Bool × Tcp K → Bool × Tcp K
  unfolding start_receive_loop
  launched (false, p) = (false, p)
  launched (true, p) = (
    true,
    if p.config.spawn_receive_thread
          && (is_receive_enabled p.config.direction && p.link.has_receive_callback)
        then start_receive_loop p
        else p,
  )

  unfoldable pub created : Answer ℕ × K → Tcp K → Bool × Tcp K
  unfolding launched prepared established
  created (failed e, k) p = (false, report_error open_failed (record p { kernel = k }))
  created (done sock, k) p = launched (
      prepared os sock (record p { kernel = k })
        (λ p'. established (is_server p'.config.role) sock p'))

  unfoldable pub open_device : Tcp K → Bool × Tcp K
  unfolding created
  open_device p = if is_open p then (true, p) else created (os.create stream p.kernel) p

  unfoldable pub close : Tcp K → Bool × Tcp K
  unfolding stop_receive_loop reset_handle
  close p = (true, reset_handle os (stop_receive_loop p))

  -- The destructor: `close`, and the join of a thread that is left.
  unfoldable pub destroy : Tcp K → Tcp K
  unfolding close
  destroy p =
      let q = (close p).1 in
      if q.link.joinable then record q { link = record q.link { joinable = false } } else q

  unfoldable pub configure : Tcp K → TcpConfig → Bool × Tcp K
  unfolding open_device close stop_receive_loop start_receive_loop
  configure p config =
      if not (is_tcp config.protocol)
      then (false, p)
      else let p' = record p { config = config } in
        if is_open p
        then open_device (close p').1
        else if not config.spawn_receive_thread && p.config.spawn_receive_thread
        then (true, stop_receive_loop p')
        else if config.spawn_receive_thread
            && (p.link.has_receive_callback && is_receive_enabled config.direction)
        then (true, start_receive_loop p')
        else (true, p')

  unfoldable pub set_receive_callback : Tcp K → Bool → Tcp K
  unfolding start_receive_loop
  set_receive_callback p present =
      let p' = record p { link = record p.link { has_receive_callback = present } } in
      if (is_open p' && (p'.config.spawn_receive_thread && is_receive_enabled p'.config.direction))
        && p'.link.has_receive_callback
      then start_receive_loop p'
      else p'

  unfoldable pub set_error_callback : Tcp K → Bool → Tcp K
  set_error_callback p present = record p { link = record p.link { has_error_callback = present } }
