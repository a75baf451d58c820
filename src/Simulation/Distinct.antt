-- ===== src/Simulation/Distinct.antt =====
-- The way back from the numbers of `fast_rand` to its counts.
use hermes_orderbook.Prelude.{
  ℕ, ◌*◌, ◌/◌, ◌%◌, ◌^◌, ◌<◌, ◌≡◌, sym, ap, ◌∙◌, bit_xor, bit_xor_cancel, bit_xor_zero, bit_xor-lt,
  bit_xor-shift, arith,
}
use hermes_orderbook.Simulation.{fast_rand}

xor-lt : (a b : ℕ) → a < 2 ^ 32 → b < 2 ^ 32 → bit_xor a b < 2 ^ 32
xor-lt a b h k = bit_xor-lt 32 a b h k

-- A number that is mixed with its own upper half is recovered by mixing again.
abbrev mixed : ℕ → ℕ
mixed x = bit_xor x (x / 2 ^ 16)

mixed-mixed : (x : ℕ) → x < 2 ^ 32 → mixed (mixed x) ≡ x
mixed-mixed x h =
    let none_above : x / 2 ^ 16 / 2 ^ 16 ≡ 0 = omega arith in
    let upper : mixed x / 2 ^ 16 ≡ x / 2 ^ 16 =
      bit_xor-shift x (x / 2 ^ 16)
      ∙ ap (bit_xor (x / 2 ^ 16)) none_above
      ∙ bit_xor_zero (x / 2 ^ 16) in
    ap (bit_xor (mixed x)) upper ∙ bit_xor_cancel x (x / 2 ^ 16)

mixed-lt : (x : ℕ) → x < 2 ^ 32 → mixed x < 2 ^ 32
mixed-lt x h = xor-lt x (x / 2 ^ 16) h (omega arith)

-- The factors are odd, so they have inverses modulo 2 ^ 32.
first_factor : (x : ℕ) → x < 2 ^ 32 → (x * 747796405 % 2 ^ 32) * 3425435293 % 2 ^ 32 ≡ x
first_factor x h = omega arith

second_factor : (x : ℕ) → x < 2 ^ 32 → (x * 2891336453 % 2 ^ 32) * 3694381517 % 2 ^ 32 ≡ x
second_factor x h = omega arith

-- The way back.
abbrev recovered : ℕ → ℕ → ℕ
recovered n seed = bit_xor (mixed (mixed n * 3694381517 % 2 ^ 32) * 3425435293 % 2 ^ 32) seed

recovers : (i seed : ℕ) → i < 2 ^ 32 → seed < 2 ^ 32 → recovered (fast_rand i seed) seed ≡ i
unfolding fast_rand
recovers i seed h k =
    let a = bit_xor i seed in
    let b = a * 747796405 % 2 ^ 32 in
    let d = mixed b * 2891336453 % 2 ^ 32 in
    let a_small : a < 2 ^ 32 = xor-lt i seed h k in
    let b_small : b < 2 ^ 32 = omega arith in
    let d_small : d < 2 ^ 32 = omega arith in
    ap (λ x. bit_xor (mixed (x * 3694381517 % 2 ^ 32) * 3425435293 % 2 ^ 32) seed)
      (mixed-mixed d d_small)
    ∙ ap (λ x. bit_xor (mixed x * 3425435293 % 2 ^ 32) seed)
        (second_factor (mixed b) (mixed-lt b b_small))
    ∙ ap (λ x. bit_xor (x * 3425435293 % 2 ^ 32) seed) (mixed-mixed b b_small)
    ∙ ap (λ x. bit_xor x seed) (first_factor a a_small)
    ∙ bit_xor_cancel i seed

-- For one seed of 32 bits, `fast_rand` gives two counts of 32 bits the same number only if they are
-- the same count.
pub fast_rand-distinct :
    (i j seed : ℕ)
    → i < 2 ^ 32
    → j < 2 ^ 32
    → seed < 2 ^ 32
    → fast_rand i seed ≡ fast_rand j seed
    → i ≡ j
fast_rand-distinct i j seed h k s e =
    sym (recovers i seed h s) ∙ ap (λ n. recovered n seed) e ∙ recovers j seed k s
