-- ===== src/Queue/Spsc.antt =====
-- src/Data-Structures/SPSC-Queue.hpp: the ring of one producer and one consumer. `push` and `pop` are
-- cut into the steps between which the other thread may act; the release and acquire orders on the two
-- indices make these steps interleave as in one sequence.
pub mod Wrap
pub mod Indices
pub mod Fifo
pub mod Answers
use hermes_orderbook.Prelude.{
  ℕ, ◌+◌, ◌-◌, bit_and, doubled, ◌≡◌, Bool, true, false, ◌==◌, if◌then◌else◌, List, [], ◌∷◌, ◌++◌,
}

-- Where a thread stands: outside of `push`, past its test, past its write.
pub data Producer {ℓ} (A : Type ℓ) : Type ℓ where
  idle : Producer A
  writing : A → Producer A
  publishing : A → Producer A

-- Outside of `pop`, past its test, past its read.
pub data Consumer {ℓ} (A : Type ℓ) : Type ℓ where
  waiting : Consumer A
  reading : Consumer A
  releasing : A → Consumer A

pub record SpscQueue {ℓ} (A : Type ℓ) : Type ℓ where
  pub buffer : ℕ → A
  pub head : ℕ
  pub tail_cache : ℕ
  pub tail : ℕ
  pub head_cache : ℕ
  pub producer : Producer A
  pub consumer : Consumer A

-- What the `requires` clause asks of `Size`.
abbrev pub IsPower : ℕ → Type 0
IsPower size = (k : ℕ) × (size ≡ doubled k)

-- `(i + 1) & BitMask`, where `BitMask` is `Size - 1`.
unfoldable pub next_index : ℕ → ℕ → ℕ
next_index size i = bit_and (i + 1) (size - 1)

module _ {ℓ} {A : Type ℓ} where
  abbrev pub empty_queue : A → SpscQueue A
  empty_queue blank = record {
    buffer = λ _. blank;
    head = 0;
    tail_cache = 0;
    tail = 0;
    head_cache = 0;
    producer = idle;
    consumer = waiting;
  }

  -- A write of a slot.
  abbrev pub store : ℕ → A → (ℕ → A) → ℕ → A
  store i v buffer j = if j == i then v else buffer j

  -- The test at the head of `push`: it stays `idle`, and returns false, if the ring is full.
  unfoldable pub push_check : ℕ → A → SpscQueue A → SpscQueue A
  push_check size v q =
      if next_index size q.head == q.tail_cache
      then if next_index size q.head == q.tail
        then record q { tail_cache = q.tail }
        else record q { tail_cache = q.tail; producer = writing v }
      else record q { producer = writing v }

  abbrev pub push_write : A → SpscQueue A → SpscQueue A
  push_write v q = record q { buffer = store q.head v q.buffer; producer = publishing v }

  abbrev pub push_publish : ℕ → SpscQueue A → SpscQueue A
  push_publish size q = record q { head = next_index size q.head; producer = idle }

  -- The test at the head of `pop`: it stays `waiting`, and returns false, if the ring is empty.
  unfoldable pub pop_check : SpscQueue A → SpscQueue A
  pop_check q =
      if q.tail == q.head_cache
      then if q.tail == q.head
        then record q { head_cache = q.head }
        else record q { head_cache = q.head; consumer = reading }
      else record q { consumer = reading }

  abbrev pub pop_read : SpscQueue A → SpscQueue A
  pop_read q = record q { consumer = releasing (q.buffer q.tail) }

  abbrev pub pop_release : ℕ → SpscQueue A → SpscQueue A
  pop_release size q = record q { tail = next_index size q.tail; consumer = waiting }

  -- What the two threads may do, with the values that `push` has published and `pop` has delivered.
  pub data Reach (size : ℕ) : SpscQueue A → List A → List A → Type ℓ where
    start : (blank : A) → Reach size (empty_queue blank) [] []
    checks_push :
        {q : SpscQueue A} {ins outs : List A} (v : A)
        → Reach size q ins outs
        → q.producer ≡ idle
        → Reach size (push_check size v q) ins outs
    writes :
        {q : SpscQueue A} {ins outs : List A} (v : A)
        → Reach size q ins outs
        → q.producer ≡ writing v
        → Reach size (push_write v q) ins outs
    publishes :
        {q : SpscQueue A} {ins outs : List A} (v : A)
        → Reach size q ins outs
        → q.producer ≡ publishing v
        → Reach size (push_publish size q) (ins ++ (v ∷ [])) outs
    checks_pop :
        {q : SpscQueue A} {ins outs : List A}
        → Reach size q ins outs
        → q.consumer ≡ waiting
        → Reach size (pop_check q) ins outs
    reads :
        {q : SpscQueue A} {ins outs : List A}
        → Reach size q ins outs
        → q.consumer ≡ reading
        → Reach size (pop_read q) ins outs
    releases :
        {q : SpscQueue A} {ins outs : List A} (v : A)
        → Reach size q ins outs
        → q.consumer ≡ releasing v
        → Reach size (pop_release size q) ins (outs ++ (v ∷ []))
