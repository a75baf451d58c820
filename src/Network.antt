-- ===== src/Network.antt =====
-- src/Networking/SocketCommon.h: the sockets of the operating system, as the client and the server see
-- them.
pub mod Client
pub mod Server
pub mod Lifetimes
mod Tests
use hermes_orderbook.Prelude.{
  ℕ, ◌+◌, ◌-◌, ◌%◌, ◌^◌, ltb, if◌then◌else◌, ◌≡◌, Bool, true, false, not, ◌&&◌, ◌||◌, ◌==◌, List,
  Option, none, some, Bool-cases, inl, inr, ◌⊎◌, sym, ap, ◌∙◌, refl, ==_iff,
}

-- The calls that the source makes. A handle is a number, and `none` is `InvalidSocket`; a call that may
-- fail says whether it succeeded; `recv` gives the bytes it put in the buffer. `is_open` says which
-- handles are open: a new one is not open before, and only `close` closes one.
pub record Os : Type 1 where
  pub World : Type 0
  pub Address : Type 0
  pub socket : World → Option ℕ × World
  pub set_reuse_address : ℕ → World → World
  pub inet_pton : List ℕ → Option Address
  pub connect : ℕ → Address → ℕ → World → Bool × World
  pub bind : ℕ → ℕ → World → Bool × World
  pub listen : ℕ → World → Bool × World
  pub accept : ℕ → World → Option ℕ × World
  pub send : ℕ → List ℕ → ℕ → World → Option ℕ × World
  pub recv : ℕ → ℕ → World → Option (List ℕ) × World
  pub close : ℕ → World → World
  pub last_error : World → ℕ
  pub is_open : World → ℕ → Bool
  pub socket-new : (w : World) (h : ℕ) → (socket w).0 ≡ some h → is_open w h ≡ false
  pub socket-opens :
      (w : World) (h : ℕ)
      → (socket w).0 ≡ some h
      → (x : ℕ) → is_open (socket w).1 x ≡ (x == h) || is_open w x
  pub socket-fails :
      (w : World) → (socket w).0 ≡ none → (x : ℕ) → is_open (socket w).1 x ≡ is_open w x
  pub accept-new : (l : ℕ) (w : World) (h : ℕ) → (accept l w).0 ≡ some h → is_open w h ≡ false
  pub accept-opens :
      (l : ℕ) (w : World) (h : ℕ)
      → (accept l w).0 ≡ some h
      → (x : ℕ) → is_open (accept l w).1 x ≡ (x == h) || is_open w x
  pub accept-fails :
      (l : ℕ) (w : World) → (accept l w).0 ≡ none → (x : ℕ) → is_open (accept l w).1 x ≡ is_open w x
  pub close-closes :
      (h : ℕ) (w : World) (x : ℕ) → is_open (close h w) x ≡ not (x == h) && is_open w x
  pub set_reuse_address-keeps :
      (h : ℕ) (w : World) (x : ℕ) → is_open (set_reuse_address h w) x ≡ is_open w x
  pub connect-keeps :
      (h : ℕ) (a : Address) (port : ℕ) (w : World) (x : ℕ)
      → is_open (connect h a port w).1 x ≡ is_open w x
  pub bind-keeps : (h port : ℕ) (w : World) (x : ℕ) → is_open (bind h port w).1 x ≡ is_open w x
  pub listen-keeps : (h : ℕ) (w : World) (x : ℕ) → is_open (listen h w).1 x ≡ is_open w x
  pub recv-keeps : (h size : ℕ) (w : World) (x : ℕ) → is_open (recv h size w).1 x ≡ is_open w x

-- `static_cast<i32>` of a size, where `recv` and `send` take a `size_t` again: the low 32 bits, with the
-- sign in the upper ones.
unfoldable pub size_of_int : ℕ → ℕ
size_of_int size =
    let low = size % 2 ^ 32 in if ltb low (2 ^ 31) then low else low + (2 ^ 64 - 2 ^ 32)

-- What a `SocketException` says was tried.
pub data Action : Type 0 where
  opening parsing connecting sending binding listening accepting reading : Action

pub data Exception : Type 0 where
  socket_exception : Action → ℕ → Exception
  runtime_error : Exception

pub data Outcome (A : Type 0) : Type 0 where
  returns : A → Outcome A
  throws : Exception → Outcome A

module _ (os : Os) where
  -- The same handles are open in the two states.
  abbrev pub Same : os.World → os.World → Type 0
  Same w v = (x : ℕ) → os.is_open v x ≡ os.is_open w x

  -- One more handle is open in the second, which was not open in the first.
  abbrev pub Opens : ℕ → os.World → os.World → Type 0
  Opens h w v = (os.is_open w h ≡ false) × ((x : ℕ) → os.is_open v x ≡ (x == h) || os.is_open w x)

  -- `Disconnect` and `Stop`: the handle is closed, if there is one, and forgotten.
  abbrev pub close_handle : Option ℕ → os.World → os.World
  close_handle none w = w
  close_handle (some h) w = os.close h w

  -- Closing the new handle restores the handles open before.
  pub closed_again : (h : ℕ) (w v : os.World) → Opens h w v → Same w (os.close h v)
  closed_again h w v o x = elim (Bool-cases (x == h)) [
    | inl e ↦
        let same : x ≡ h = (==_iff x h).0 e in
        rw (os.close-closes h v x, e) (sym (ap (os.is_open w) same ∙ o.0))
    | inr ne ↦ rw (os.close-closes h v x, o.1 x, ne) refl
  ]
