-- ===== src/Queue/Spsc/Wrap.antt =====
-- The indices of the ring as counters taken around it.
use hermes_orderbook.Prelude.{
  ℕ, zero, suc, ◌+◌, ◌-◌, ◌%◌, ◌≤◌, ◌<◌, ◌≡◌, ◌≢◌, sym, ap, ◌∙◌, bit_and, bit_and-mask, doubled-pos,
  arith, ◌⊎◌, inl, inr, dec_lt,
}
use native.Mathlib.Nat.{mod-eq_of_lt, mod_self}
use hermes_orderbook.Queue.Spsc.{next_index, IsPower}

abbrev pub wrap : ℕ → ℕ → ℕ
wrap size zero = 0
wrap size (suc n) = next_index size (wrap size n)

pub IsPower-pos : (size : ℕ) → IsPower size → 0 < size
IsPower-pos size (k, e) = omega (arith, e, doubled-pos k)

next_index-mod : (size i : ℕ) → IsPower size → next_index size i ≡ (i + 1) % size
unfolding next_index
next_index-mod size i (k, e) =
    ap (λ m. bit_and (i + 1) (m - 1)) e ∙ bit_and-mask k (i + 1) ∙ ap (λ m. (i + 1) % m) (sym e)

next_index-inside : (size i : ℕ) → IsPower size → i + 1 < size → next_index size i ≡ i + 1
next_index-inside size i p h = next_index-mod size i p ∙ mod-eq_of_lt h

next_index-end : (size i : ℕ) → IsPower size → i + 1 ≡ size → next_index size i ≡ 0
next_index-end size i p h = next_index-mod size i p ∙ ap (λ k. k % size) h ∙ mod_self size

wrap-lt : (size n : ℕ) → IsPower size → wrap size n < size
wrap-lt size zero h = IsPower-pos size h
wrap-lt size (suc n) h = elim (dec_lt (wrap size n + 1) size) [
  | yes inside ↦ omega (arith, next_index-inside size (wrap size n) h inside)
  | no last ↦
      let e : wrap size n + 1 ≡ size = omega (arith, wrap-lt size n h) in
      omega (arith, next_index-end size (wrap size n) h e)
]

suc_add : (d n : ℕ) → suc d + n ≡ suc (d + n)
suc_add d n = omega arith

-- At most one turn of the ring further on.
wrap_turn :
    (size n d : ℕ)
    → IsPower size
    → d ≤ size
    → ((wrap size n + d < size) × (wrap size (d + n) ≡ wrap size n + d))
      ⊎ ((size ≤ wrap size n + d) × (wrap size (d + n) + size ≡ wrap size n + d))
wrap_turn size n zero h k =
    let same : 0 + n ≡ n = omega arith in
    inl (omega (arith, wrap-lt size n h), ap (wrap size) same ∙ omega arith)
wrap_turn size n (suc d) h k =
    let w : ℕ = wrap size (d + n) in
    let more : wrap size (suc d + n) ≡ next_index size w = ap (wrap size) (suc_add d n) in
    let low : w < size = wrap-lt size (d + n) h in
    elim (wrap_turn size n d h (omega arith)) [
      | inl (a, e) ↦ elim (dec_lt (wrap size n + suc d) size) [
        | yes inside ↦
            inl (inside, omega (arith, more, e, next_index-inside size w h (omega (arith, e))))
        | no last ↦
            inr (omega arith, omega (arith, more, e, next_index-end size w h (omega (arith, e))))
      ]
      | inr (a, e) ↦ inr (
        omega arith,
        omega (arith, more, e, next_index-inside size w h (omega (arith, e, wrap-lt size n h))),
      )
    ]

pub wrap_inj :
    (size i j : ℕ) → IsPower size → i ≤ j → j < i + size → wrap size i ≡ wrap size j → i ≡ j
wrap_inj size i j h k l e =
    let t = wrap_turn size i (j - i) h (omega arith) in
    let same : j - i + i ≡ j = omega arith in omega (arith, t, ap (wrap size) same)

pub wrap_around : (size n : ℕ) → IsPower size → wrap size (size + n) ≡ wrap size n
wrap_around size n h =
    omega
      (arith, wrap_turn size n size h (omega arith), wrap-lt size n h, wrap-lt size (size + n) h)

-- A counter less than a turn behind the next one, and not at its place, is less than that behind.
pub room_ahead :
    (size t h : ℕ)
    → IsPower size
    → h < t + size
    → wrap size (suc h) ≢ wrap size t
    → suc h < t + size
room_ahead size t h p r ne = elim (dec_lt (suc h) (t + size)) [
  | yes a ↦ a
  | no a ↦
      let e : suc h ≡ size + t = omega arith in
      absurd (ne (ap (wrap size) e ∙ wrap_around size t p))
]

pub something_ahead : (size t h : ℕ) → t ≤ h → wrap size t ≢ wrap size h → t < h
something_ahead size t h le ne = elim (dec_lt t h) [
  | yes a ↦ a
  | no a ↦ let e : t ≡ h = omega arith in absurd (ne (ap (wrap size) e))
]
