-- ===== src/Queue/Spsc/Answers.antt =====
-- The answers of `push` and `pop`, and the slots at which the two threads stand.
use hermes_orderbook.Prelude.{ℕ, ◌<◌, ◌≡◌, ◌≢◌, sym, ap, ◌∙◌, arith, List}
use hermes_orderbook.Queue.Spsc.{writing, reading, SpscQueue, IsPower, Reach}
use hermes_orderbook.Queue.Spsc.Wrap.{wrap, wrap_inj}
use hermes_orderbook.Queue.Spsc.Indices.{is_past}
use hermes_orderbook.Queue.Spsc.Fifo.{Reach-Inv}

module _ {ℓ} {A : Type ℓ} where
  module _ (size : ℕ) {q : SpscQueue A} {ins outs : List A} (p : IsPower size)
      (r : Reach size q ins outs) where
    -- In every reachable state of a ring whose size is a power of two, a producer about to write and a consumer about to read are at two slots.
    pub Reach-apart : (v : A) → q.producer ≡ writing v → q.consumer ≡ reading → q.head ≢ q.tail
    Reach-apart v at at' e =
        let i = Reach-Inv size p r in
        let x = i.indices in
        let same : wrap size i.t ≡ wrap size i.h = sym x.tail ∙ sym e ∙ x.head in
        let some_ahead : i.t < x.hc = x.can_read (ap is_past at') in
        omega (
          arith,
          wrap_inj size i.t i.h p (omega (arith, x.ahead, x.known))
              (omega (arith, x.room, x.behind)) same,
          x.known,
        )
