-- ===== src/Core/FileStream.antt =====
-- src/Core/FileStream.hpp: the writers of bytes, and the buffer in front of a file.
pub mod Framing
pub mod Kept
pub mod Tests
use hermes_orderbook.Prelude.{
  ℕ, ◌+◌, ◌-◌, ◌≤◌, ◌<◌, ◌≡◌, Bool, true, false, not, ◌&&◌, if◌then◌else◌, ltb, List, [], ◌∷◌, ◌++◌,
  Option, none, some, is_empty, length, take,
}

-- The bytes of each of a row of objects.
abbrev pub all_bytes {ℓ} : {A : Type ℓ} → (A → List ℕ) → List A → List ℕ
all_bytes repr [] = []
all_bytes repr (x ∷ xs) = repr x ++ all_bytes repr xs

-- `WriteRaw`; `repr` gives the bytes that represent an object, which are the compiler's.
abbrev pub write_raw {ℓ} : {A : Type ℓ} → (A → List ℕ) → A → List ℕ → List ℕ
write_raw repr x buffer = buffer ++ repr x

-- `WriteArray`; `none` for the null pointer. `size_bytes` represents a `u64`.
unfoldable pub write_array {ℓ} :
    {A : Type ℓ} → (ℕ → List ℕ) → (A → List ℕ) → Option (List A) → ℕ → Bool → List ℕ → List ℕ
write_array size_bytes repr none count write_size buffer =
    if ltb 0 count then buffer else if write_size then write_raw size_bytes count buffer else buffer
write_array size_bytes repr (some xs) count write_size buffer =
    (if write_size then write_raw size_bytes count buffer else buffer)
    ++ all_bytes repr (take count xs)

abbrev pub byte_bytes : ℕ → List ℕ
byte_bytes b = b ∷ []

-- `WriteString`: the characters, with their number in front if `write_size`.
unfoldable pub write_string : (ℕ → List ℕ) → List ℕ → Bool → List ℕ → List ℕ
unfolding write_array
write_string size_bytes str write_size buffer =
    write_array size_bytes byte_bytes (some str) (length str) write_size buffer

-- `std::ofstream`: `written` is what it has taken of the bytes it was given, `stored` what has reached
-- the file. A stream that is good after a write has taken all of it, and may keep it for later; a
-- stream that is good after a flush has stored all that it took. One that is bad stays so.
pub record Stream : Type 1 where
  pub State : Type 0
  pub write : List ℕ → State → State
  pub flush : State → State
  pub is_good : State → Bool
  pub written : State → List ℕ
  pub stored : State → List ℕ
  pub written-write :
      (xs : List ℕ) (s : State)
      → is_good (write xs s) ≡ true
      → written (write xs s) ≡ written s ++ xs
  pub is_good-write : (xs : List ℕ) (s : State) → is_good (write xs s) ≡ true → is_good s ≡ true
  pub written-flush : (s : State) → written (flush s) ≡ written s
  pub stored-flush : (s : State) → is_good (flush s) ≡ true → stored (flush s) ≡ written (flush s)
  pub is_good-flush : (s : State) → is_good (flush s) ≡ true → is_good s ≡ true

pub record OutputFileStream (S : Stream) : Type 0 where
  pub buffer : List ℕ
  pub stream : S.State

module _ (S : Stream) where
  -- The constructor: `none` for the exception, if the file could not be opened.
  abbrev pub open_stream : Option S.State → Option (OutputFileStream S)
  open_stream none = none
  open_stream (some s) = some (record { buffer = []; stream = s })

  -- `WriteToBuffer`, where `serialize` is `WriteRaw` or the type's own `Serialize`.
  abbrev pub write_to_buffer : (List ℕ → List ℕ) → OutputFileStream S → OutputFileStream S
  write_to_buffer serialize f = record f { buffer = serialize f.buffer }

  -- `WriteBufferToFile`, with what it returns: the stream is tested before the flush, not after it.
  unfoldable pub write_buffer_to_file : OutputFileStream S → Bool × OutputFileStream S
  write_buffer_to_file f =
      if is_empty f.buffer
      then (true, record f { stream = S.flush f.stream })
      else if not (S.is_good (S.write f.buffer f.stream))
      then (false, record f { stream = S.write f.buffer f.stream })
      else (true, record { buffer = []; stream = S.flush (S.write f.buffer f.stream) })
