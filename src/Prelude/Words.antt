-- ===== src/Prelude/Words.antt =====
-- Unsigned 64-bit arithmetic, which wraps, and the chaining of steps that may fail.
use Prim.Native.Nat.{ℕ, ◌+◌, ◌-◌, ◌%◌, ◌^◌, ◌≤◌, ◌<◌}
use mathlib.Core.Path.{◌≡◌, refl, subst}
use mathlib.Core.Option.{Option, none, some, some-injective}
use native.Mathlib.Omega.{arith}

-- `u64` addition and subtraction.
abbrev pub add64 : ℕ → ℕ → ℕ
add64 a b = (a + b) % 2 ^ 64

abbrev pub sub64 : ℕ → ℕ → ℕ
sub64 a b = (a + 2 ^ 64 - b) % 2 ^ 64

pub add64-lt : (a b : ℕ) → add64 a b < 2 ^ 64
add64-lt a b = omega arith

pub sub64-lt : (a b : ℕ) → sub64 a b < 2 ^ 64
sub64-lt a b = omega arith

-- Without a borrow the subtraction is the one on numbers.
pub sub64-eq : (a b : ℕ) → a < 2 ^ 64 → b ≤ a → sub64 a b ≡ a - b
sub64-eq a b h k = omega arith

pub add64-sub64 : (a b : ℕ) → a < 2 ^ 64 → b < 2 ^ 64 → add64 (sub64 a b) b ≡ a
add64-sub64 a b h k = omega arith

-- `none` is a step that has no defined result.
infixl 5 ◌>>=◌ ◌>>◌
abbrev pub ◌>>=◌ {ℓ κ} : {A : Type ℓ} {B : Type κ} → Option A → (A → Option B) → Option B
some a >>= f = f a
none >>= f = none

abbrev pub ◌>>◌ {ℓ κ} : {A : Type ℓ} {B : Type κ} → Option A → Option B → Option B
m >> k = m >>= λ _. k

pub >>=-eq-some {ℓ κ} :
    {A : Type ℓ} {B : Type κ} (m : Option A) (f : A → Option B) {b : B}
    → (m >>= f) ≡ some b
    → record { value : A; computed : m ≡ some value; rest : f value ≡ some b }
>>=-eq-some (some a) f h = record { value = a; computed = refl; rest = h }
>>=-eq-some none f h = absurd (cc)

-- What holds of the result, if there is one.
abbrev pub OnSome {ℓ κ} : {A : Type ℓ} → (A → Type κ) → Option A → Type κ
OnSome P none = Unit
OnSome P (some a) = P a

pub >>=-OnSome {ℓ κ μ} :
    {A : Type ℓ} {B : Type κ} (P : B → Type μ) (m : Option A) (f : A → Option B)
    → ((a : A) → m ≡ some a → OnSome P (f a))
    → OnSome P (m >>= f)
>>=-OnSome P none f h = tt
>>=-OnSome P (some a) f h = h a refl

pub OnSome-some {ℓ κ} :
    {A : Type ℓ} (P : A → Type κ) (m : Option A) (a : A) → OnSome P m → m ≡ some a → P a
OnSome-some P none a h e = absurd (cc)
OnSome-some P (some b) a h e = subst P (some-injective _ _ e) h

pub OnSome-weaken {ℓ κ μ} :
    {A : Type ℓ} (P : A → Type κ) (Q : A → Type μ) (m : Option A)
    → ((a : A) → P a → Q a)
    → OnSome P m
    → OnSome Q m
OnSome-weaken P Q none f h = tt
OnSome-weaken P Q (some a) f h = f a h
