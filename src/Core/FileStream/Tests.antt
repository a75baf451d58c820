-- ===== src/Core/FileStream/Tests.antt =====
-- A file in memory that takes up to eight bytes, and the theorems at it.
use hermes_orderbook.Prelude.{
  ℕ, zero, suc, ◌+◌, ◌*◌, ◌/◌, ◌%◌, ◌^◌, ◌≡◌, ◌<◌, refl, ap, Bool, true, false, ◌&&◌, leb,
  if◌then◌else◌, List, [], ◌∷◌, ◌++◌, length, Bool-cases, inl, inr, arith,
}
use hermes_orderbook.Core.FileStream.{Stream, OutputFileStream, write_buffer_to_file, write_string}
use hermes_orderbook.Core.FileStream.Kept.{Flushed, write_buffer_to_file-Flushed}
use hermes_orderbook.Core.FileStream.Framing.{
  IsRepresentation, read_string, read_string-write_string, drop,
}

-- The bytes taken, and whether every write succeeded.
pub record Disk : Type 0 where
  pub taken : List ℕ
  pub good : Bool

abbrev pub put : List ℕ → Disk → Disk
put xs d =
    if d.good && leb (length d.taken + length xs) 8
    then record d { taken = d.taken ++ xs }
    else record d { good = false }

pub put-all :
    (xs : List ℕ) (d : Disk)
    → (put xs d).good ≡ true
    → ((put xs d).taken ≡ d.taken ++ xs) × (d.good ≡ true)
put-all xs d h = elim (Bool-cases (d.good && leb (length d.taken + length xs) 8)) [
  | inl ok ↦ (rw ok refl, ground arith)
  | inr full ↦ absurd (grind arith)
]

abbrev pub memory : Stream
memory = record {
  State = Disk;
  write = put;
  flush = λ d. d;
  is_good = λ d. d.good;
  written = λ d. d.taken;
  written-write = λ xs d h. (put-all xs d h).0;
  is_good-write = λ xs d h. (put-all xs d h).1;
  stored = λ d. d.taken;
  written-flush = λ d. refl;
  stored-flush = λ d h. refl;
  is_good-flush = λ d h. h;
}

abbrev pub blank : Disk
blank = record { taken = []; good = true }

abbrev half_full : OutputFileStream memory
half_full = record { buffer = 7 ∷ 9 ∷ []; stream = record { taken = 5 ∷ []; good = true } }

write_buffer_to_file-Flushed_example :
    Flushed memory half_full (write_buffer_to_file memory half_full)
write_buffer_to_file-Flushed_example = write_buffer_to_file-Flushed memory half_full

-- The low byte first.
abbrev bytes_of : ℕ → ℕ → List ℕ
bytes_of zero n = []
bytes_of (suc k) n = n % 256 ∷ bytes_of k (n / 256)

abbrev number_of : List ℕ → ℕ
number_of [] = 0
number_of (b ∷ bs) = b + 256 * number_of bs

bytes_of-width : (k n : ℕ) → length (bytes_of k n) ≡ k
bytes_of-width zero n = refl
bytes_of-width (suc k) n = ap suc (bytes_of-width k (n / 256))

bytes_of-value : (n : ℕ) → n < 2 ^ 64 → number_of (bytes_of 8 n) ≡ n
bytes_of-value n h = omega arith

little_endian : IsRepresentation (bytes_of 8) number_of
little_endian = record { width = bytes_of-width 8; value = bytes_of-value }

read_string-write_string_example :
    read_string number_of
      (drop 2 (write_string (bytes_of 8) (72 ∷ 105 ∷ []) true (1 ∷ 2 ∷ []) ++ (3 ∷ [])))
    ≡ (72 ∷ 105 ∷ [], 3 ∷ [])
read_string-write_string_example =
    read_string-write_string (bytes_of 8) number_of (72 ∷ 105 ∷ []) (1 ∷ 2 ∷ []) (3 ∷ [])
      little_endian (omega arith)
