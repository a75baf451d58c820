-- ===== src/Network/Server.antt =====
-- src/Networking/TCP-Server.hpp: the listening socket and the connections that it accepts.
use hermes_orderbook.Prelude.{
  ℕ, ◌%◌, ◌^◌, ◌≡◌, ◌≢◌, refl, ◌∙◌, Bool, true, false, List, Option, none, some, arith,
}
use hermes_orderbook.Network.{
  size_of_int, Os, Action, opening, binding, listening, accepting, reading, Exception,
  socket_exception, runtime_error, Outcome, returns, throws, Same, Opens, close_handle,
  closed_again,
}

-- `m_Socket` and `m_ListeningSocket`, `none` for `InvalidSocket`.
pub record TcpConnection : Type 0 where
  pub socket : Option ℕ

pub record TcpServer : Type 0 where
  pub listening_socket : Option ℕ

abbrev pub new_server : TcpServer
new_server = record { listening_socket = none }

module _ (os : Os) where
  -- The destructor of `TcpConnection`.
  abbrev pub destroy : TcpConnection → os.World → os.World
  destroy c w = close_handle os c.socket w

  abbrev pub after_recv : Option (List ℕ) × os.World → Outcome (List ℕ) × os.World
  after_recv (none, w) = (throws (socket_exception reading (os.last_error w)), w)
  after_recv (some bytes, w) = (returns bytes, w)

  abbrev pub handle : ℕ → Option ℕ → ℕ
  handle bad_handle none = bad_handle
  handle bad_handle (some h) = h

  -- `Receive`: the bytes put in the buffer, none of them at the end of the stream. `bad_handle` is what
  -- `InvalidSocket` is to the system.
  unfoldable pub receive : ℕ → ℕ → TcpConnection → os.World → Outcome (List ℕ) × os.World
  receive bad_handle size c w =
      after_recv (os.recv (handle bad_handle c.socket) (size_of_int size) w)

  -- `Stop`
  abbrev pub stop : TcpServer × os.World → TcpServer × os.World
  stop (s, w) = (record { listening_socket = none }, close_handle os s.listening_socket w)

  -- An early end of `Start`: the error is read before the socket is closed.
  abbrev pub give_up : Action → ℕ → os.World → Outcome Unit × (TcpServer × os.World)
  give_up action h w = (
    throws (socket_exception action (os.last_error w)),
    stop (record { listening_socket = some h }, w),
  )

  abbrev pub after_listen : ℕ → Bool × os.World → Outcome Unit × (TcpServer × os.World)
  after_listen h (true, w) = (returns tt, (record { listening_socket = some h }, w))
  after_listen h (false, w) = give_up listening h w

  abbrev pub after_bind : ℕ → Bool × os.World → Outcome Unit × (TcpServer × os.World)
  after_bind h (true, w) = after_listen h (os.listen h w)
  after_bind h (false, w) = give_up binding h w

  abbrev pub after_socket : ℕ → Option ℕ × os.World → Outcome Unit × (TcpServer × os.World)
  after_socket port (none, w) =
      (throws (socket_exception opening (os.last_error w)), (record { listening_socket = none }, w))
  after_socket port (some h, w) =
      after_bind h (os.bind h (port % 2 ^ 16) (os.set_reuse_address h w))

  -- `Start`; `port` is the 32 bits of the argument, of which `htons` takes 16.
  unfoldable pub start_server : ℕ → TcpServer × os.World → Outcome Unit × (TcpServer × os.World)
  start_server port (s, w) = after_socket port (os.socket w)

  abbrev pub after_accept : Option ℕ × os.World → Outcome TcpConnection × os.World
  after_accept (none, w) = (throws (socket_exception accepting (os.last_error w)), w)
  after_accept (some h, w) = (returns (record { socket = some h }), w)

  abbrev pub accept_on : Option ℕ → os.World → Outcome TcpConnection × os.World
  accept_on none w = (throws runtime_error, w)
  accept_on (some l) w = after_accept (os.accept l w)

  -- `AcceptNextClient`
  unfoldable pub accept_next_client : TcpServer → os.World → Outcome TcpConnection × os.World
  accept_next_client s w = accept_on s.listening_socket w

  -- The outcome of `Start`.
  pub data Started (w : os.World) : Outcome Unit × (TcpServer × os.World) → Type 0 where
    started :
        (h : ℕ) (v : os.World)
        → Opens os h w v
        → Started w (returns tt, (record { listening_socket = some h }, v))
    failed :
        (action : Action) (err : ℕ) (v : os.World)
        → Same os w v
        → Started w (throws (socket_exception action err), (record { listening_socket = none }, v))

  give_up-Started :
      (action : Action) (h : ℕ) (w v : os.World) → Opens os h w v → Started w (give_up action h v)
  give_up-Started action h w v o =
      failed action (os.last_error v) (os.close h v) (closed_again os h w v o)

  after_listen-Started :
      (h : ℕ) (w : os.World) (r : Bool × os.World) → Opens os h w r.1 → Started w (after_listen h r)
  after_listen-Started h w (true, v) o = started h v o
  after_listen-Started h w (false, v) o = give_up-Started listening h w v o

  after_bind-Started :
      (h : ℕ) (w : os.World) (r : Bool × os.World) → Opens os h w r.1 → Started w (after_bind h r)
  after_bind-Started h w (true, v) o =
      after_listen-Started h w (os.listen h v) (o.0, λ x. os.listen-keeps h v x ∙ o.1 x)
  after_bind-Started h w (false, v) o = give_up-Started binding h w v o

  after_socket-Started :
      (port : ℕ) (w : os.World) (r : Option ℕ × os.World)
      → ((h : ℕ) → r.0 ≡ some h → Opens os h w r.1)
      → (r.0 ≡ none → Same os w r.1)
      → Started w (after_socket port r)
  after_socket-Started port w (none, v) opened same = failed opening (os.last_error v) v (same refl)
  after_socket-Started port w (some h, v) opened same =
      let o = opened h refl in
      let u = os.set_reuse_address h v in
      after_bind-Started h w (os.bind h (port % 2 ^ 16) u)
        (o.0, λ x. os.bind-keeps h (port % 2 ^ 16) u x ∙ os.set_reuse_address-keeps h v x ∙ o.1 x)

  -- Either `Start` returns and the server holds a new handle, the only one opened, or it throws a
  -- `SocketException`, the server holds none, and the same handles are open as before.
  pub start_server-Started :
      (port : ℕ) (s : TcpServer) (w : os.World) → Started w (start_server port (s, w))
  unfolding start_server
  start_server-Started port s w =
      after_socket-Started port w (os.socket w)
        (λ h e. (os.socket-new w h e, os.socket-opens w h e)) (os.socket-fails w)

  -- The outcome of `AcceptNextClient`.
  pub data Accepted (s : TcpServer) (w : os.World) : Outcome TcpConnection × os.World → Type 0 where
    accepted :
        (h : ℕ) (v : os.World)
        → s.listening_socket ≢ none
        → Opens os h w v
        → Accepted s w (returns (record { socket = some h }), v)
    refused : (e : Exception) (v : os.World) → Same os w v → Accepted s w (throws e, v)

  after_accept-Accepted :
      (s : TcpServer) (w : os.World) (r : Option ℕ × os.World)
      → s.listening_socket ≢ none
      → ((h : ℕ) → r.0 ≡ some h → Opens os h w r.1)
      → (r.0 ≡ none → Same os w r.1)
      → Accepted s w (after_accept r)
  after_accept-Accepted s w (none, v) ne opened same =
      refused (socket_exception accepting (os.last_error v)) v (same refl)
  after_accept-Accepted s w (some h, v) ne opened same = accepted h v ne (opened h refl)

  accept_on-Accepted :
      (s : TcpServer) (l : Option ℕ) (w : os.World)
      → s.listening_socket ≡ l
      → Accepted s w (accept_on l w)
  accept_on-Accepted s none w e = refused runtime_error w (λ x. refl)
  accept_on-Accepted s (some l) w e =
      after_accept-Accepted s w (os.accept l w) (λ ne. absurd (grind arith))
        (λ h k. (os.accept-new l w h k, os.accept-opens l w h k)) (os.accept-fails l w)

  -- `AcceptNextClient` returns a connection with a new handle, the only one opened, which it does only
  -- if the server listens, or it throws and the same handles are open as before.
  pub accept_next_client-Accepted :
      (s : TcpServer) (w : os.World) → Accepted s w (accept_next_client s w)
  unfolding accept_next_client
  accept_next_client-Accepted s w = accept_on-Accepted s s.listening_socket w refl
