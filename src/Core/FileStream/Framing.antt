-- ===== src/Core/FileStream/Framing.antt =====
-- A string with its size in front, and the reading of it.
use hermes_orderbook.Prelude.{
  ℕ, zero, suc, ◌^◌, ◌<◌, ◌≡◌, refl, sym, ap, ◌∙◌, true, List, [], ◌∷◌, ◌++◌, append_assoc, length,
  take,
}
use hermes_orderbook.Core.FileStream.{all_bytes, byte_bytes, write_array, write_string}

abbrev pub drop {ℓ} : {A : Type ℓ} → ℕ → List A → List A
drop zero xs = xs
drop (suc n) [] = []
drop (suc n) (x ∷ xs) = drop n xs

take-length {ℓ} : {A : Type ℓ} (xs ys : List A) → take (length xs) (xs ++ ys) ≡ xs
take-length [] ys = refl
take-length (x ∷ xs) ys = ap (λ zs. x ∷ zs) (take-length xs ys)

drop-length {ℓ} : {A : Type ℓ} (xs ys : List A) → drop (length xs) (xs ++ ys) ≡ ys
drop-length [] ys = refl
drop-length (x ∷ xs) ys = drop-length xs ys

take_all {ℓ} : {A : Type ℓ} (xs : List A) → take (length xs) xs ≡ xs
take_all [] = refl
take_all (x ∷ xs) = ap (λ zs. x ∷ zs) (take_all xs)

all_bytes-byte : (xs : List ℕ) → all_bytes byte_bytes xs ≡ xs
all_bytes-byte [] = refl
all_bytes-byte (x ∷ xs) = ap (λ ys. x ∷ ys) (all_bytes-byte xs)

-- The eight bytes of a `u64` give its value back.
pub record IsRepresentation (size_bytes : ℕ → List ℕ) (size_of : List ℕ → ℕ) : Type 0 where
  pub width : (n : ℕ) → length (size_bytes n) ≡ 8
  pub value : (n : ℕ) → n < 2 ^ 64 → size_of (size_bytes n) ≡ n

-- The string at the front of some bytes, and the bytes behind it.
unfoldable pub read_string : (List ℕ → ℕ) → List ℕ → List ℕ × List ℕ
read_string size_of bytes =
    let n = size_of (take 8 bytes) in (take n (drop 8 bytes), drop n (drop 8 bytes))

-- What `WriteString` appends to a buffer: the size's eight bytes and the characters.
write_string-appends :
    (size_bytes : ℕ → List ℕ) (str buffer rest : List ℕ)
    → write_string size_bytes str true buffer ++ rest
      ≡ buffer ++ (size_bytes (length str) ++ (str ++ rest))
unfolding write_string write_array
write_string-appends size_bytes str buffer rest = rw take_all (
    rw all_bytes-byte (
      append_assoc (buffer ++ size_bytes (length str)) str rest
      ∙ append_assoc buffer (size_bytes (length str)) (str ++ rest)))

read_string-front :
    (size_bytes : ℕ → List ℕ) (size_of : List ℕ → ℕ) (str rest : List ℕ)
    → IsRepresentation size_bytes size_of
    → length str < 2 ^ 64
    → read_string size_of (size_bytes (length str) ++ (str ++ rest)) ≡ (str, rest)
unfolding read_string
read_string-front size_bytes size_of str rest r h =
    let eight : 8 ≡ length (size_bytes (length str)) = sym (r.width (length str)) in
    let size : take 8 (size_bytes (length str) ++ (str ++ rest)) ≡ size_bytes (length str) =
      ap (λ n. take n (size_bytes (length str) ++ (str ++ rest))) eight
      ∙ take-length (size_bytes (length str)) (str ++ rest) in
    let body : drop 8 (size_bytes (length str) ++ (str ++ rest)) ≡ str ++ rest =
      ap (λ n. drop n (size_bytes (length str) ++ (str ++ rest))) eight
      ∙ drop-length (size_bytes (length str)) (str ++ rest) in
    rw size (
      rw body
        (rw (r.value (length str) h) (rw (take-length str rest) (rw (drop-length str rest) refl))))

-- A string of fewer than 2 ^ 64 characters that `WriteString` writes with its size behind a buffer can
-- be read back from there, whatever follows it, if a `u64` can be read back from its bytes.
pub read_string-write_string :
    (size_bytes : ℕ → List ℕ) (size_of : List ℕ → ℕ) (str buffer rest : List ℕ)
    → IsRepresentation size_bytes size_of
    → length str < 2 ^ 64
    → read_string size_of (drop (length buffer) (write_string size_bytes str true buffer ++ rest))
      ≡ (str, rest)
read_string-write_string size_bytes size_of str buffer rest r h =
    rw (write_string-appends size_bytes str buffer rest) (
      rw (drop-length buffer (size_bytes (length str) ++ (str ++ rest)))
        (read_string-front size_bytes size_of str rest r h))
