-- ===== src/Queue/Spsc/Indices.antt =====
-- The indices of the ring: the published and delivered counts, and the caches that lag behind them.
use hermes_orderbook.Prelude.{
  ℕ, suc, ◌+◌, ◌≤◌, ◌<◌, ◌≡◌, ◌≢◌, refl, ap, arith, Bool, true, false, ◌==◌, Bool-cases, inl, inr,
}
use hermes_orderbook.Queue.Spsc.{
  Producer, idle, writing, publishing, Consumer, waiting, reading, releasing, SpscQueue, next_index,
  IsPower, empty_queue, push_check, push_write, push_publish, pop_check, pop_read, pop_release,
}
use hermes_orderbook.Queue.Spsc.Wrap.{IsPower-pos, wrap, room_ahead, something_ahead}

module _ {ℓ} {A : Type ℓ} where
  abbrev pub is_busy : Producer A → Bool
  is_busy idle = false
  is_busy _ = true

  abbrev pub is_past : Consumer A → Bool
  is_past waiting = false
  is_past _ = true

  -- `t` values are delivered and `h` published; the caches stand where the counts were at `tc` and `hc`.
  pub record Indices (size : ℕ) (q : SpscQueue A) (t h : ℕ) : Type 0 where
    pub tc : ℕ
    pub hc : ℕ
    pub head : q.head ≡ wrap size h
    pub tail : q.tail ≡ wrap size t
    pub tail_cache : q.tail_cache ≡ wrap size tc
    pub head_cache : q.head_cache ≡ wrap size hc
    pub behind : tc ≤ t
    pub ahead : t ≤ hc
    pub known : hc ≤ h
    pub room : h < tc + size
    pub can_write : is_busy q.producer ≡ true → suc h < tc + size
    pub can_read : is_past q.consumer ≡ true → t < hc

  pub Indices-start : (size : ℕ) (blank : A) → IsPower size → Indices size (empty_queue blank) 0 0
  Indices-start size blank p =
      let pos = IsPower-pos size p in
      record {
        tc = 0;
        hc = 0;
        head = refl;
        tail = refl;
        tail_cache = refl;
        head_cache = refl;
        behind = omega arith;
        ahead = omega arith;
        known = omega arith;
        room = omega arith;
        can_write = λ e. absurd (cc);
        can_read = λ e. absurd (cc);
      }

  module _ (size : ℕ) (p : IsPower size) {q : SpscQueue A} {t h : ℕ} (x : Indices size q t h) where
    -- The producer with a new cache.
    producer_at :
        (tc cache : ℕ) (state : Producer A)
        → cache ≡ wrap size tc
        → x.tc ≤ tc
        → tc ≤ t
        → (is_busy state ≡ true → wrap size (suc h) ≢ wrap size tc)
        → Indices size (record q { tail_cache = cache; producer = state }) t h
    producer_at tc cache state c le le' ne = record {
      tc = tc;
      hc = x.hc;
      head = x.head;
      tail = x.tail;
      tail_cache = c;
      head_cache = x.head_cache;
      behind = le';
      ahead = x.ahead;
      known = x.known;
      room = omega (arith, x.room);
      can_write = λ e. room_ahead size tc h p (omega (arith, x.room)) (ne e);
      can_read = x.can_read;
    }

    pub Indices-push_check : (v : A) → q.producer ≡ idle → Indices size (push_check size v q) t h
    unfolding push_check
    Indices-push_check v at =
        let next : next_index size q.head ≡ wrap size (suc h) = ap (next_index size) x.head in
        elim (Bool-cases (next_index size q.head == q.tail_cache)) [
          | inr ne ↦ rw ne (
              producer_at x.tc q.tail_cache (writing v) x.tail_cache (omega arith) x.behind
                (λ _ e. ground (arith, next, e, x.tail_cache)))
          | inl eq ↦ elim (Bool-cases (next_index size q.head == q.tail)) [
            | inr ne ↦
                rw (eq, ne)
                  (producer_at t q.tail (writing v) x.tail x.behind (omega arith)
                    (λ _ e. ground (arith, next, e, x.tail)))
            | inl full ↦
                rw (eq, full)
                  (producer_at t q.tail q.producer x.tail x.behind (omega arith)
                    (λ busy. absurd (cc)))
          ]
        ]

    pub Indices-push_write : (v : A) → q.producer ≡ writing v → Indices size (push_write v q) t h
    Indices-push_write v at = record {
      tc = x.tc;
      hc = x.hc;
      head = x.head;
      tail = x.tail;
      tail_cache = x.tail_cache;
      head_cache = x.head_cache;
      behind = x.behind;
      ahead = x.ahead;
      known = x.known;
      room = x.room;
      can_write = λ _. x.can_write (ap is_busy at);
      can_read = x.can_read;
    }

    pub Indices-push_publish :
        (v : A) → q.producer ≡ publishing v → Indices size (push_publish size q) t (suc h)
    Indices-push_publish v at = record {
      tc = x.tc;
      hc = x.hc;
      head = ap (next_index size) x.head;
      tail = x.tail;
      tail_cache = x.tail_cache;
      head_cache = x.head_cache;
      behind = x.behind;
      ahead = x.ahead;
      known = omega (arith, x.known);
      room = x.can_write (ap is_busy at);
      can_write = λ e. absurd (cc);
      can_read = x.can_read;
    }

    -- The consumer with a new cache.
    consumer_at :
        (hc cache : ℕ) (state : Consumer A)
        → cache ≡ wrap size hc
        → x.hc ≤ hc
        → hc ≤ h
        → (is_past state ≡ true → wrap size t ≢ wrap size hc)
        → Indices size (record q { head_cache = cache; consumer = state }) t h
    consumer_at hc cache state c le le' ne = record {
      tc = x.tc;
      hc = hc;
      head = x.head;
      tail = x.tail;
      tail_cache = x.tail_cache;
      head_cache = c;
      behind = x.behind;
      ahead = omega (arith, x.ahead);
      known = le';
      room = x.room;
      can_write = x.can_write;
      can_read = λ e. something_ahead size t hc (omega (arith, x.ahead)) (ne e);
    }

    pub Indices-pop_check : q.consumer ≡ waiting → Indices size (pop_check q) t h
    unfolding pop_check
    Indices-pop_check at = elim (Bool-cases (q.tail == q.head_cache)) [
      | inr ne ↦ rw ne (
          consumer_at x.hc q.head_cache reading x.head_cache (omega arith) x.known
            (λ _ e. ground (arith, e, x.tail, x.head_cache)))
      | inl eq ↦ elim (Bool-cases (q.tail == q.head)) [
        | inr ne ↦
            rw (eq, ne)
              (consumer_at h q.head reading x.head x.known (omega arith)
                (λ _ e. ground (arith, e, x.tail, x.head)))
        | inl nothing ↦
            rw (eq, nothing)
              (consumer_at h q.head q.consumer x.head x.known (omega arith) (λ past. absurd (cc)))
      ]
    ]

    pub Indices-pop_read : q.consumer ≡ reading → Indices size (pop_read q) t h
    Indices-pop_read at = record {
      tc = x.tc;
      hc = x.hc;
      head = x.head;
      tail = x.tail;
      tail_cache = x.tail_cache;
      head_cache = x.head_cache;
      behind = x.behind;
      ahead = x.ahead;
      known = x.known;
      room = x.room;
      can_write = x.can_write;
      can_read = λ _. x.can_read (ap is_past at);
    }

    pub Indices-pop_release :
        (v : A) → q.consumer ≡ releasing v → Indices size (pop_release size q) (suc t) h
    Indices-pop_release v at = record {
      tc = x.tc;
      hc = x.hc;
      head = x.head;
      tail = ap (next_index size) x.tail;
      tail_cache = x.tail_cache;
      head_cache = x.head_cache;
      behind = omega (arith, x.behind);
      ahead = x.can_read (ap is_past at);
      known = x.known;
      room = x.room;
      can_write = x.can_write;
      can_read = λ e. absurd (cc);
    }
