-- ===== src/Prelude/Digits.antt =====
-- Exclusive or of binary digits.
use Prim.Native.Nat.{
  ℕ, zero, suc, ◌+◌, ◌*◌, ◌/◌, ◌%◌, ◌≤◌, ◌<◌, min, ◌-◌, bit_xor, bit_and, digits, differ,
  bit_xor-bitwise, bit_and-bitwise,
}
use mathlib.Core.Path.{◌≡◌, refl, sym, ap, ◌∙◌}
use native.Mathlib.Nat.{mod-eq_of_lt, mod-lt, mod-add-div, add-mul-mod_self_left, mul_assoc}
use native.Mathlib.Omega.{arith}

-- The count of digits to go does not matter, if it is enough.
module _ (z : ℕ → ℕ) (f : ℕ → ℕ → ℕ) where
  digits_enough : (n m a b : ℕ) → a ≤ n → a ≤ m → digits z f n a b ≡ digits z f m a b
  digits_enough zero zero a b p q = refl
  digits_enough zero (suc m) zero b p q = refl
  digits_enough zero (suc m) (suc a) b p q = absurd (omega arith)
  digits_enough (suc n) zero zero b p q = refl
  digits_enough (suc n) zero (suc a) b p q = absurd (omega arith)
  digits_enough (suc n) (suc m) zero b p q = refl
  digits_enough (suc n) (suc m) (suc a) b p q =
      ap (λ x. x * 2 + f (suc a % 2) (b % 2))
        (digits_enough n m (suc a / 2) (b / 2) (omega arith) (omega arith))

differ-sum : (x y : ℕ) → x < 2 → y < 2 → differ x y ≡ (x + y) % 2
differ-sum zero zero h k = refl
differ-sum zero (suc zero) h k = refl
differ-sum zero (suc (suc y)) h k = absurd (omega arith)
differ-sum (suc zero) zero h k = refl
differ-sum (suc zero) (suc zero) h k = refl
differ-sum (suc zero) (suc (suc y)) h k = absurd (omega arith)
differ-sum (suc (suc x)) y h k = absurd (omega arith)

-- The lowest digit, and the others.
pub bit_xor_step : (a b : ℕ) → bit_xor a b ≡ bit_xor (a / 2) (b / 2) * 2 + (a + b) % 2
bit_xor_step zero b = omega (arith, zero_xor b, zero_xor (b / 2))
  where
    zero_xor : (b : ℕ) → bit_xor 0 b ≡ b
    zero_xor b = bit_xor-bitwise 0 b
bit_xor_step (suc a) b = omega (
  arith,
  bit_xor-bitwise (suc a) b,
  bit_xor-bitwise (suc a / 2) (b / 2),
  differ-sum (suc a % 2) (b % 2) (omega arith) (omega arith),
  digits_enough (λ x. x) differ a (suc a / 2) (suc a / 2) (b / 2) (omega arith) (omega arith),
)

cancel_fuel : (n a b : ℕ) → a ≤ n → b ≤ n → bit_xor (bit_xor a b) b ≡ a
cancel_fuel zero zero zero h k = refl
cancel_fuel zero zero (suc b) h k = absurd (omega arith)
cancel_fuel zero (suc a) b h k = absurd (omega arith)
cancel_fuel (suc n) a b h k =
    let half : bit_xor a b / 2 ≡ bit_xor (a / 2) (b / 2) = omega (arith, bit_xor_step a b) in
    let others : bit_xor (bit_xor a b / 2) (b / 2) ≡ a / 2 =
      ap (λ x. bit_xor x (b / 2)) half
      ∙ cancel_fuel n (a / 2) (b / 2) (omega arith) (omega arith) in
    omega (arith, bit_xor_step (bit_xor a b) b, bit_xor_step a b, others)

pub bit_xor_cancel : (a b : ℕ) → bit_xor (bit_xor a b) b ≡ a
bit_xor_cancel a b = cancel_fuel (a + b) a b (omega arith) (omega arith)

xor_zero_fuel : (n a : ℕ) → a ≤ n → bit_xor a 0 ≡ a
xor_zero_fuel zero zero h = refl
xor_zero_fuel zero (suc a) h = absurd (omega arith)
xor_zero_fuel (suc n) a h = omega (arith, bit_xor_step a 0, xor_zero_fuel n (a / 2) (omega arith))

pub bit_xor_zero : (a : ℕ) → bit_xor a 0 ≡ a
bit_xor_zero a = xor_zero_fuel a a (omega arith)

-- Two to the power k, by doubling.
abbrev pub doubled : ℕ → ℕ
doubled zero = 1
doubled (suc k) = 2 * doubled k

pub bit_xor-lt : (k a b : ℕ) → a < doubled k → b < doubled k → bit_xor a b < doubled k
bit_xor-lt zero zero zero h j = omega arith
bit_xor-lt zero zero (suc b) h j = absurd (omega arith)
bit_xor-lt zero (suc a) b h j = absurd (omega arith)
bit_xor-lt (suc k) a b h j =
    omega (arith, bit_xor_step a b, bit_xor-lt k (a / 2) (b / 2) (omega arith) (omega arith))

abbrev halved : ℕ → ℕ → ℕ
halved zero n = n
halved (suc k) n = halved k (n / 2)

bit_xor-halved : (k a b : ℕ) → halved k (bit_xor a b) ≡ bit_xor (halved k a) (halved k b)
bit_xor-halved zero a b = refl
bit_xor-halved (suc k) a b =
    let half : bit_xor a b / 2 ≡ bit_xor (a / 2) (b / 2) = omega (arith, bit_xor_step a b) in
    ap (halved k) half ∙ bit_xor-halved k (a / 2) (b / 2)

halved-sixteen : (n : ℕ) → halved 16 n ≡ n / 65536
halved-sixteen n = omega arith

-- A shift to the right by sixteen digits.
pub bit_xor-shift : (a b : ℕ) → bit_xor a b / 65536 ≡ bit_xor (a / 65536) (b / 65536)
bit_xor-shift a b =
    sym (halved-sixteen (bit_xor a b))
    ∙ bit_xor-halved 16 a b
    ∙ ap (λ x. bit_xor x (halved 16 b)) (halved-sixteen a)
    ∙ ap (bit_xor (a / 65536)) (halved-sixteen b)

and_step : (a b : ℕ) → bit_and a b ≡ bit_and (a / 2) (b / 2) * 2 + min (a % 2) (b % 2)
and_step zero b = omega (arith, bit_and-bitwise 0 b, bit_and-bitwise 0 (b / 2))
and_step (suc a) b = omega (
  arith,
  bit_and-bitwise (suc a) b,
  bit_and-bitwise (suc a / 2) (b / 2),
  digits_enough (λ x. 0) min a (suc a / 2) (suc a / 2) (b / 2) (omega arith) (omega arith),
)

and_none : (n a : ℕ) → a ≤ n → bit_and a 0 ≡ 0
and_none zero zero h = refl
and_none zero (suc a) h = absurd (omega arith)
and_none (suc n) a h = omega (arith, and_step a 0, and_none n (a / 2) (omega arith))

pub doubled-pos : (k : ℕ) → 0 < doubled k
doubled-pos zero = omega arith
doubled-pos (suc k) = omega (arith, doubled-pos k)

mod-double : (d a : ℕ) → 0 < d → a % (2 * d) ≡ (a / 2 % d) * 2 + a % 2
mod-double d a h =
    let r = a / 2 % d in
    let small : r < d = mod-lt (a / 2) h in
    let parts : r + d * (a / 2 / d) ≡ a / 2 = mod-add-div (a / 2) d in
    let whole : a ≡ (r * 2 + a % 2) + 2 * d * (a / 2 / d) =
      omega (arith, parts, mul_assoc 2 d (a / 2 / d)) in
    ap (λ x. x % (2 * d)) whole
    ∙ add-mul-mod_self_left (r * 2 + a % 2) (2 * d) (a / 2 / d)
    ∙ mod-eq_of_lt (omega arith)

-- A mask of k ones takes the remainder by the power of two.
pub bit_and-mask : (k a : ℕ) → bit_and a (doubled k - 1) ≡ a % doubled k
bit_and-mask zero a = omega (arith, and_none a a (omega arith))
bit_and-mask (suc k) a =
    let pos = doubled-pos k in
    let half : (2 * doubled k - 1) / 2 ≡ doubled k - 1 = omega arith in
    let step = and_step a (2 * doubled k - 1) in
    let inner = ap (bit_and (a / 2)) half ∙ bit_and-mask k (a / 2) in
    omega (arith, step, inner, mod-double (doubled k) a pos)
