-- ===== src/Network/Lifetimes.antt =====
-- src/Networking/TCP-Server.hpp: a server and its connections over time, and the handles they hold.
use hermes_orderbook.Prelude.{
  ℕ, ◌+◌, ◌≡◌, ◌≤◌, refl, ap, ◌∙◌, Bool, true, false, ◌==◌, ==_iff, List, [], ◌∷◌, ◌++◌, Option,
  none, some, Bool-cases, inl, inr, arith,
}
use hermes_orderbook.Network.{size_of_int, Os, Outcome, returns, throws, Same, Opens, close_handle}
use hermes_orderbook.Network.Server.{
  TcpConnection, TcpServer, new_server, start_server, stop, accept_next_client, receive, after_recv,
  handle, destroy, Started, started, failed, start_server-Started, Accepted, accepted, refused,
  accept_next_client-Accepted,
}

abbrev pub bit : Bool → ℕ
bit true = 1
bit false = 0

-- How often the handle `x` is held.
abbrev pub held : ℕ → Option ℕ → ℕ
held x none = 0
held x (some h) = bit (x == h)

abbrev pub held_by : ℕ → List TcpConnection → ℕ
held_by x [] = 0
held_by x (c ∷ cs) = held x c.socket + held_by x cs

-- The connections after a call of `AcceptNextClient`.
abbrev pub with_accepted : Outcome TcpConnection → List TcpConnection → List TcpConnection
with_accepted (returns c) cs = c ∷ cs
with_accepted (throws e) cs = cs

module _ (os : Os) (w0 : os.World) where
  -- What a program may do with one server that it starts only when it is stopped.
  pub data Reach : TcpServer → List TcpConnection → os.World → Type 0 where
    start : Reach new_server [] w0
    starts :
        {s : TcpServer} {cs : List TcpConnection} {w : os.World} (port : ℕ)
        → Reach s cs w
        → s.listening_socket ≡ none
        → Reach ((start_server os port (s, w)).1).0 cs ((start_server os port (s, w)).1).1
    accepts :
        {s : TcpServer} {cs : List TcpConnection} {w : os.World}
        → Reach s cs w
        → Reach s (with_accepted (accept_next_client os s w).0 cs) (accept_next_client os s w).1
    receives :
        {s : TcpServer} {cs : List TcpConnection} {w : os.World} (bad_handle size : ℕ)
        (c : TcpConnection)
        → Reach s cs w
        → Reach s cs (receive os bad_handle size c w).1
    destroys :
        {s : TcpServer} {w : os.World} (before : List TcpConnection) (c : TcpConnection)
        (after : List TcpConnection)
        → Reach s (before ++ (c ∷ after)) w
        → Reach s (before ++ after) (destroy os c w)
    stops :
        {s : TcpServer} {cs : List TcpConnection} {w : os.World}
        → Reach s cs w
        → Reach (stop os (s, w)).0 cs (stop os (s, w)).1

  -- Every handle is held at most once, and open if it was at the start or is held, not both.
  abbrev pub Accounted : TcpServer → List TcpConnection → os.World → Type 0
  Accounted s cs w =
      (x : ℕ)
      → bit (os.is_open w x) ≡ bit (os.is_open w0 x) + held x s.listening_socket + held_by x cs

  Opens-bit :
      (h : ℕ) (w v : os.World)
      → Opens os h w v
      → (x : ℕ) → bit (os.is_open v x) ≡ bit (os.is_open w x) + bit (x == h)
  Opens-bit h w v o x = elim (Bool-cases (x == h)) [
    | inl e ↦
        let same : x ≡ h = (==_iff x h).0 e in
        let was : os.is_open w x ≡ false = ap (os.is_open w) same ∙ o.0 in rw (o.1 x, e, was) refl
    | inr ne ↦ rw (o.1 x, ne) (omega arith)
  ]

  bit-small : (b : Bool) → bit b ≤ 1
  bit-small true = omega arith
  bit-small false = omega arith

  -- Closing a handle that is held.
  closes-bit :
      (h : Option ℕ) (w : os.World) (rest : ℕ → ℕ)
      → ((x : ℕ) → bit (os.is_open w x) ≡ held x h + rest x)
      → (x : ℕ) → bit (os.is_open (close_handle os h w) x) ≡ rest x
  closes-bit none w rest k x = let sum = k x in omega arith
  closes-bit (some h) w rest k x = elim (Bool-cases (x == h)) [
    | inl e ↦
        let once = bit-small (os.is_open w x) in
        let sum : bit (os.is_open w x) ≡ 1 + rest x = k x ∙ rw e refl in
        rw (os.close-closes h w x, e) (omega arith)
    | inr ne ↦ rw (os.close-closes h w x, ne) (k x ∙ rw ne (omega arith))
  ]

  held_by-append :
      (x : ℕ) (before : List TcpConnection) (c : TcpConnection) (after : List TcpConnection)
      → held_by x (before ++ (c ∷ after)) ≡ held x c.socket + held_by x (before ++ after)
  held_by-append x [] c after = refl
  held_by-append x (b ∷ bs) c after = let r = held_by-append x bs c after in omega arith

  start-Accounted :
      (cs : List TcpConnection) (w : os.World) (r : Outcome Unit × (TcpServer × os.World))
      → Started os w r
      → ((x : ℕ) → bit (os.is_open w x) ≡ bit (os.is_open w0 x) + held_by x cs)
      → Accounted (r.1).0 cs (r.1).1
  start-Accounted cs w _ (started h v o) k x =
      let more = Opens-bit h w v o x in let sum = k x in omega arith
  start-Accounted cs w _ (failed action err v same) k x =
      let sum = k x in let kept = ap bit (same x) in omega arith

  accept-Accounted :
      (s : TcpServer) (cs : List TcpConnection) (w : os.World)
      (r : Outcome TcpConnection × os.World)
      → Accepted os s w r
      → Accounted s cs w
      → Accounted s (with_accepted r.0 cs) r.1
  accept-Accounted s cs w _ (accepted h v ne o) k x =
      let more = Opens-bit h w v o x in let sum = k x in omega arith
  accept-Accounted s cs w _ (refused e v same) k x = ap bit (same x) ∙ k x

  after_recv-world : (r : Option (List ℕ) × os.World) → Same os r.1 (after_recv os r).1
  after_recv-world (none, w) x = refl
  after_recv-world (some bytes, w) x = refl

  receive-Same :
      (bad_handle size : ℕ) (c : TcpConnection) (w : os.World)
      → Same os w (receive os bad_handle size c w).1
  unfolding receive
  receive-Same bad_handle size c w x =
      after_recv-world (os.recv (handle os bad_handle c.socket) (size_of_int size) w) x
      ∙ os.recv-keeps (handle os bad_handle c.socket) (size_of_int size) w x

  -- However a program uses one server that it starts only when it is stopped, every handle is held at
  -- most once, by the server or by a connection, and the open handles are those open at first and
  -- those held, no handle being both: none is leaked, and none that is held is closed.
  pub Reach-Accounted :
      {s : TcpServer} {cs : List TcpConnection} {w : os.World} → Reach s cs w → Accounted s cs w
  Reach-Accounted start x = omega arith
  Reach-Accounted (starts {s = s} {cs = cs} {w = w} port r e) x =
      start-Accounted cs w (start_server os port (s, w)) (start_server-Started os port s w)
        (λ y. let sum = Reach-Accounted r y in let none_held = ap (held y) e in omega arith) x
  Reach-Accounted (accepts {s = s} {cs = cs} {w = w} r) x =
      accept-Accounted s cs w (accept_next_client os s w) (accept_next_client-Accepted os s w)
        (Reach-Accounted r) x
  Reach-Accounted (receives {w = w} bad_handle size c r) x =
      ap bit (receive-Same bad_handle size c w x) ∙ Reach-Accounted r x
  Reach-Accounted (destroys {s = s} {w = w} before c after r) x =
      closes-bit c.socket w
        (λ y. bit (os.is_open w0 y) + held y s.listening_socket + held_by y (before ++ after))
        (λ y.
          let sum = Reach-Accounted r y in
          let split = held_by-append y before c after in omega arith)
        x
  Reach-Accounted (stops {s = s} {cs = cs} {w = w} r) x =
      let rest =
        closes-bit s.listening_socket w (λ y. bit (os.is_open w0 y) + held_by y cs)
          (λ y. let sum = Reach-Accounted r y in omega arith) x in
      omega arith
