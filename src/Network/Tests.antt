-- ===== src/Network/Tests.antt =====
-- A system of sockets, and the theorems at it.
use hermes_orderbook.Prelude.{
  ℕ, suc, ◌≡◌, ◌≢◌, refl, Bool, true, false, not, ◌&&◌, ◌||◌, ltb, ◌==◌, [], ◌∷◌, Option, none,
  some, Bool-cases, inl, inr, arith,
}
use mathlib.Core.Option.{some-injective}
use hermes_orderbook.Network.{Os}
use hermes_orderbook.Network.Client.{
  new_client, TcpClient, connect, Connected, connect-Connected, connect-leaks,
}
use hermes_orderbook.Network.Server.{
  TcpServer, new_server, TcpConnection, start_server, accept_next_client, Started,
  start_server-Started, Accepted, accept_next_client-Accepted,
}
use hermes_orderbook.Network.Lifetimes.{Accounted, Reach, start, starts, accepts, Reach-Accounted}

-- The next handle, and which of those before it are open.
abbrev Handles : Type 0
Handles = ℕ × (ℕ → Bool)

abbrev handle_open : Handles → ℕ → Bool
handle_open (n, f) x = ltb x n && f x

abbrev new_handle : Handles → Option ℕ × Handles
new_handle (n, f) = (some n, (suc n, λ x. (x == n) || f x))

abbrev closing : ℕ → Handles → Handles
closing h (n, f) = (n, λ x. not (x == h) && f x)

new_handle-new : (w : Handles) (h : ℕ) → (new_handle w).0 ≡ some h → handle_open w h ≡ false
new_handle-new (n, f) h e =
    let same : n ≡ h = some-injective _ _ e in
    elim (Bool-cases (f h)) [ inl t ↦ rw t (ground arith) | inr t ↦ rw t (ground arith) ]

new_handle-opens :
    (w : Handles) (h : ℕ)
    → (new_handle w).0 ≡ some h
    → (x : ℕ) → handle_open (new_handle w).1 x ≡ (x == h) || handle_open w x
new_handle-opens (n, f) h e x =
    let same : n ≡ h = some-injective _ _ e in
    elim (Bool-cases (f x)) [ inl t ↦ rw t (ground arith) | inr t ↦ rw t (ground arith) ]

closing-closes :
    (h : ℕ) (w : Handles) (x : ℕ) → handle_open (closing h w) x ≡ not (x == h) && handle_open w x
closing-closes h (n, f) x = elim (Bool-cases (f x)) [
  | inl t ↦ rw t (ground arith)
  | inr t ↦ rw t (ground arith)
]

never_fails :
    (w : Handles)
    → (new_handle w).0 ≡ none
    → (x : ℕ) → handle_open (new_handle w).1 x ≡ handle_open w x
never_fails (n, f) e = absurd (grind arith)

-- Every call succeeds, on any address but the empty one.
abbrev loopback : Os
loopback = record {
  World = Handles;
  Address = Unit;
  socket = new_handle;
  set_reuse_address = λ h w. w;
  inet_pton = λ ip. elim ip [ [] ↦ none | _ ∷ _ ↦ some tt ];
  connect = λ h a port w. (true, w);
  bind = λ h port w. (true, w);
  listen = λ h w. (true, w);
  accept = λ l w. new_handle w;
  send = λ h bytes size w. (some size, w);
  recv = λ h size w. (some [], w);
  close = closing;
  last_error = λ w. 0;
  is_open = handle_open;
  socket-new = new_handle-new;
  socket-opens = new_handle-opens;
  socket-fails = never_fails;
  accept-new = λ l. new_handle-new;
  accept-opens = λ l. new_handle-opens;
  accept-fails = λ l. never_fails;
  close-closes = closing-closes;
  set_reuse_address-keeps = λ h w x. refl;
  connect-keeps = λ h a port w x. refl;
  bind-keeps = λ h port w x. refl;
  listen-keeps = λ h w x. refl;
  recv-keeps = λ h size w x. refl;
}

-- Handles 0, 1 and 2, of which 1 is closed.
abbrev three : Handles
three = (3, λ x. not (x == 1))

connect-Connected_example :
    Connected loopback three (connect loopback (1 ∷ []) 9099 (new_client, three))
connect-Connected_example = connect-Connected loopback (1 ∷ []) 9099 new_client three

abbrev holder : TcpClient
holder = record { socket = some 2 }

connect-leaks_example :
    (handle_open ((connect loopback [] 9099 (holder, three)).1).1 2 ≡ true)
    × (((connect loopback [] 9099 (holder, three)).1).0.socket ≢ some 2)
connect-leaks_example = connect-leaks loopback [] 9099 2 holder three refl

start_server-Started_example :
    Started loopback three (start_server loopback 9099 (new_server, three))
start_server-Started_example = start_server-Started loopback 9099 new_server three

abbrev listening_at : TcpServer
listening_at = record { listening_socket = some 2 }

accept_next_client-Accepted_example :
    Accepted loopback listening_at three (accept_next_client loopback listening_at three)
accept_next_client-Accepted_example = accept_next_client-Accepted loopback listening_at three

abbrev connection : TcpConnection
connection = record { socket = some 4 }

abbrev with_one : Handles
with_one =
    (accept_next_client loopback (record { listening_socket = some 3 })
      ((start_server loopback 9099 (new_server, three)).1).1).1

with_one-Reach :
    Reach loopback three (record { listening_socket = some 3 }) (connection ∷ []) with_one
unfolding start_server accept_next_client
with_one-Reach = accepts (starts 9099 start refl)

Reach-Accounted_example :
    Accounted loopback three (record { listening_socket = some 3 }) (connection ∷ []) with_one
Reach-Accounted_example = Reach-Accounted loopback three with_one-Reach
