-- ===== src/Network/Client.antt =====
-- src/Networking/TCP-Client.hpp: the client's socket.
use hermes_orderbook.Prelude.{
  ℕ, ◌%◌, ◌^◌, ◌≡◌, ◌≢◌, refl, ◌∙◌, Bool, true, false, List, length, Option, none, some, arith,
}
use mathlib.Core.Option.{some-injective}
use hermes_orderbook.Network.{
  size_of_int, Os, Action, opening, parsing, connecting, sending, socket_exception, runtime_error,
  Outcome, returns, throws, Same, Opens, close_handle, closed_again,
}

-- `m_Socket`, `none` for `InvalidSocket`.
pub record TcpClient : Type 0 where
  pub socket : Option ℕ

abbrev pub new_client : TcpClient
new_client = record { socket = none }

module _ (os : Os) where
  -- `Disconnect`
  abbrev pub disconnect : TcpClient × os.World → TcpClient × os.World
  disconnect (c, w) = (record { socket = none }, close_handle os c.socket w)

  -- An early end of `Connect`: the error is read before the socket is closed.
  abbrev pub give_up : Action → ℕ → os.World → Outcome Unit × (TcpClient × os.World)
  give_up action h w = (
    throws (socket_exception action (os.last_error w)),
    disconnect (record { socket = some h }, w),
  )

  -- The end of `Connect`, with what `connect` answers.
  abbrev pub after_connect : ℕ → Bool × os.World → Outcome Unit × (TcpClient × os.World)
  after_connect h (true, w) = (returns tt, (record { socket = some h }, w))
  after_connect h (false, w) = give_up connecting h w

  abbrev pub after_inet_pton :
      ℕ → ℕ → Option os.Address → os.World → Outcome Unit × (TcpClient × os.World)
  after_inet_pton h port none w = give_up parsing h w
  after_inet_pton h port (some a) w = after_connect h (os.connect h a (port % 2 ^ 16) w)

  abbrev pub after_socket : List ℕ → ℕ → Option ℕ × os.World → Outcome Unit × (TcpClient × os.World)
  after_socket ip port (none, w) =
      (throws (socket_exception opening (os.last_error w)), (record { socket = none }, w))
  after_socket ip port (some h, w) = after_inet_pton h port (os.inet_pton ip) w

  -- `Connect`; `port` is the 32 bits of the argument, of which `htons` takes 16.
  unfoldable pub connect : List ℕ → ℕ → TcpClient × os.World → Outcome Unit × (TcpClient × os.World)
  connect ip port (c, w) = after_socket ip port (os.socket w)

  abbrev pub after_send : TcpClient → Option ℕ × os.World → Outcome ℕ × (TcpClient × os.World)
  after_send c (none, w) = (throws (socket_exception sending (os.last_error w)), (c, w))
  after_send c (some sent, w) = (returns sent, (c, w))

  abbrev pub send_on : Option ℕ → List ℕ → TcpClient × os.World → Outcome ℕ × (TcpClient × os.World)
  send_on none data_bytes s = (throws runtime_error, s)
  send_on (some h) data_bytes (c, w) =
      after_send c (os.send h data_bytes (size_of_int (length data_bytes)) w)

  -- `Send`: the number of bytes that were sent, which may be fewer than were given.
  unfoldable pub send : List ℕ → TcpClient × os.World → Outcome ℕ × (TcpClient × os.World)
  send data_bytes (c, w) = send_on c.socket data_bytes (c, w)

  -- The outcome of `Connect`.
  pub data Connected (w : os.World) : Outcome Unit × (TcpClient × os.World) → Type 0 where
    connected :
        (h : ℕ) (v : os.World)
        → Opens os h w v
        → Connected w (returns tt, (record { socket = some h }, v))
    failed :
        (action : Action) (err : ℕ) (v : os.World)
        → Same os w v
        → Connected w (throws (socket_exception action err), (record { socket = none }, v))

  give_up-Connected :
      (action : Action) (h : ℕ) (w v : os.World) → Opens os h w v → Connected w (give_up action h v)
  give_up-Connected action h w v o =
      failed action (os.last_error v) (os.close h v) (closed_again os h w v o)

  after_connect-Connected :
      (h : ℕ) (w : os.World) (r : Bool × os.World)
      → Opens os h w r.1
      → Connected w (after_connect h r)
  after_connect-Connected h w (true, v) o = connected h v o
  after_connect-Connected h w (false, v) o = give_up-Connected connecting h w v o

  after_inet_pton-Connected :
      (h port : ℕ) (a : Option os.Address) (w v : os.World)
      → Opens os h w v
      → Connected w (after_inet_pton h port a v)
  after_inet_pton-Connected h port none w v o = give_up-Connected parsing h w v o
  after_inet_pton-Connected h port (some a) w v o =
      after_connect-Connected h w (os.connect h a (port % 2 ^ 16) v)
        (o.0, λ x. os.connect-keeps h a (port % 2 ^ 16) v x ∙ o.1 x)

  after_socket-Connected :
      (ip : List ℕ) (port : ℕ) (w : os.World) (r : Option ℕ × os.World)
      → ((h : ℕ) → r.0 ≡ some h → Opens os h w r.1)
      → (r.0 ≡ none → Same os w r.1)
      → Connected w (after_socket ip port r)
  after_socket-Connected ip port w (none, v) opened same =
      failed opening (os.last_error v) v (same refl)
  after_socket-Connected ip port w (some h, v) opened same =
      after_inet_pton-Connected h port (os.inet_pton ip) w v (opened h refl)

  -- Either `Connect` returns and the client holds a new handle, the only one opened, or it throws a
  -- `SocketException`, the client holds none, and the same handles are open as before.
  pub connect-Connected :
      (ip : List ℕ) (port : ℕ) (c : TcpClient) (w : os.World) → Connected w (connect ip port (c, w))
  unfolding connect
  connect-Connected ip port c w =
      after_socket-Connected ip port w (os.socket w)
        (λ h e. (os.socket-new w h e, os.socket-opens w h e)) (os.socket-fails w)

  still_open :
      (old : ℕ) (w : os.World) (r : Outcome Unit × (TcpClient × os.World))
      → Connected w r
      → os.is_open w old ≡ true
      → (os.is_open (r.1).1 old ≡ true) × ((r.1).0.socket ≢ some old)
  still_open old w _ (connected h v o) k = (
    rw (o.1 old, k) (ground arith),
    λ e. let same : h ≡ old = some-injective _ _ e in absurd (grind (arith, same, o.0, k)),
  )
  still_open old w _ (failed action err v same) k = (same old ∙ k, λ e. absurd (grind arith))

  -- A handle that is open before `Connect` is open after it, and the client does not hold it then: a
  -- client that calls `Connect` while it holds a handle leaks it.
  pub connect-leaks :
      (ip : List ℕ) (port old : ℕ) (c : TcpClient) (w : os.World)
      → os.is_open w old ≡ true
      → (os.is_open ((connect ip port (c, w)).1).1 old ≡ true)
        × (((connect ip port (c, w)).1).0.socket ≢ some old)
  connect-leaks ip port old c w k =
      still_open old w (connect ip port (c, w)) (connect-Connected ip port c w) k
