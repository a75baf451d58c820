-- ===== src/Queue/Spsc/Fifo.antt =====
-- The values in the ring, against what is published and what is delivered.
use hermes_orderbook.Prelude.{
  ℕ, suc, ◌+◌, ◌≤◌, ◌<◌, ◌≡◌, ◌≢◌, refl, sym, ap, ◌∙◌, arith, true, false, ◌==◌, ==_iff, Bool-cases,
  inl, inr, dec_lt, List, [], ◌∷◌, ◌++◌, some, length, length-append, take, get_elem?,
  get_elem?-append_left, get_elem?-snoc, take-append_left, take-next,
}
use hermes_orderbook.Queue.Spsc.{
  Producer, idle, writing, publishing, Consumer, waiting, reading, releasing, SpscQueue, next_index,
  IsPower, empty_queue, push_check, push_write, push_publish, pop_check, pop_read, pop_release,
  Reach, start, checks_push, writes, publishes, checks_pop, reads, releases,
}
use hermes_orderbook.Queue.Spsc.Wrap.{wrap, wrap_inj}
use hermes_orderbook.Queue.Spsc.Indices.{
  Indices, Indices-start, Indices-push_check, Indices-push_write, Indices-push_publish,
  Indices-pop_check, Indices-pop_read, Indices-pop_release, is_past,
}

module _ {ℓ} {A : Type ℓ} where
  -- The slots from `t` to `h` hold what is published and not delivered.
  pub record Values (size : ℕ) (q : SpscQueue A) (ins outs : List A) (t h : ℕ) : Type ℓ where
    pub delivered : length outs ≡ t
    pub published : length ins ≡ h
    pub in_order : outs ≡ take t ins
    pub stored : (i : ℕ) → t ≤ i → i < h → some (q.buffer (wrap size i)) ≡ get_elem? ins i
    pub written : (v : A) → q.producer ≡ publishing v → q.buffer q.head ≡ v
    pub read : (v : A) → q.consumer ≡ releasing v → some v ≡ get_elem? ins t

  pub record Inv (size : ℕ) (q : SpscQueue A) (ins outs : List A) : Type ℓ where
    pub t : ℕ
    pub h : ℕ
    pub indices : Indices size q t h
    pub values : Values size q ins outs t h

  module _ (size : ℕ) (p : IsPower size) {q : SpscQueue A} {ins outs : List A} {t h : ℕ}
      (x : Indices size q t h) (y : Values size q ins outs t h) where
    producer_at :
        (cache : ℕ) (state : Producer A)
        → ((v : A) → state ≢ publishing v)
        → Values size (record q { tail_cache = cache; producer = state }) ins outs t h
    producer_at cache state calm = record {
      delivered = y.delivered;
      published = y.published;
      in_order = y.in_order;
      stored = y.stored;
      written = λ v e. absurd (calm v e);
      read = y.read;
    }

    consumer_at :
        (cache : ℕ) (state : Consumer A)
        → ((v : A) → state ≢ releasing v)
        → Values size (record q { head_cache = cache; consumer = state }) ins outs t h
    consumer_at cache state calm = record {
      delivered = y.delivered;
      published = y.published;
      in_order = y.in_order;
      stored = y.stored;
      written = y.written;
      read = λ v e. absurd (calm v e);
    }

    Values-push_check : (v : A) → q.producer ≡ idle → Values size (push_check size v q) ins outs t h
    unfolding push_check
    Values-push_check v at = elim (Bool-cases (next_index size q.head == q.tail_cache)) [
      | inr ne ↦ rw ne (producer_at q.tail_cache (writing v) (λ w e. cc))
      | inl eq ↦ elim (Bool-cases (next_index size q.head == q.tail)) [
        | inr ne ↦ rw (eq, ne) (producer_at q.tail (writing v) (λ w e. cc))
        | inl full ↦ rw (eq, full) (producer_at q.tail q.producer (λ w e. cc))
      ]
    ]

    Values-push_write : (v : A) → q.producer ≡ writing v → Values size (push_write v q) ins outs t h
    Values-push_write v at = record {
      delivered = y.delivered;
      published = y.published;
      in_order = y.in_order;
      stored = λ i a b. rw (ne i a b) (y.stored i a b);
      written = λ w e. let self : (q.head == q.head) ≡ true = ground arith in rw self (cc);
      read = y.read;
    }
      where
        ne : (i : ℕ) → t ≤ i → i < h → (wrap size i == q.head) ≡ false
        ne i a b = elim (Bool-cases (wrap size i == q.head)) [
          | inr e ↦ e
          | inl e ↦
              let same : wrap size i ≡ wrap size h = (==_iff _ _).0 e ∙ x.head in
              let at' : i ≡ h =
                wrap_inj size i h p (omega arith) (omega (arith, x.room, x.behind)) same in
              absurd (omega arith)
        ]

    Values-push_publish :
        (v : A)
        → q.producer ≡ publishing v
        → Values size (push_publish size q) (ins ++ (v ∷ [])) outs t (suc h)
    Values-push_publish v at = record {
      delivered = y.delivered;
      published = omega (arith, length-append ins (v ∷ []), y.published);
      in_order =
          y.in_order
          ∙ sym (take-append_left t ins (v ∷ []) (omega (arith, x.ahead, x.known, y.published)));
      stored = λ i a b. elim (dec_lt i h) [
        | yes inside ↦
            y.stored i a inside
            ∙ sym (get_elem?-append_left ins (v ∷ []) i (omega (arith, y.published)))
        | no last ↦
            let e : i ≡ h = omega arith in
            ap (λ j. some (q.buffer (wrap size j))) e
            ∙ ap (λ j. some (q.buffer j)) (sym x.head)
            ∙ ap some (y.written v at)
            ∙ sym (get_elem?-snoc ins v i (omega (arith, y.published)))
      ];
      written = λ w e. absurd (cc);
      read = λ w e.
          let before_end : t < h = omega (arith, x.can_read (ap is_past e), x.known) in
          y.read w e ∙ sym (get_elem?-append_left ins (v ∷ []) t (omega (arith, y.published)));
    }

    Values-pop_check : q.consumer ≡ waiting → Values size (pop_check q) ins outs t h
    unfolding pop_check
    Values-pop_check at = elim (Bool-cases (q.tail == q.head_cache)) [
      | inr ne ↦ rw ne (consumer_at q.head_cache reading (λ w e. cc))
      | inl eq ↦ elim (Bool-cases (q.tail == q.head)) [
        | inr ne ↦ rw (eq, ne) (consumer_at q.head reading (λ w e. cc))
        | inl nothing ↦ rw (eq, nothing) (consumer_at q.head q.consumer (λ w e. cc))
      ]
    ]

    Values-pop_read : q.consumer ≡ reading → Values size (pop_read q) ins outs t h
    Values-pop_read at = record {
      delivered = y.delivered;
      published = y.published;
      in_order = y.in_order;
      stored = y.stored;
      written = y.written;
      read = λ v e.
          let slot : some (q.buffer (wrap size t)) ≡ get_elem? ins t =
            y.stored t (omega arith) (omega (arith, x.can_read (ap is_past at), x.known)) in
          let here : q.buffer q.tail ≡ q.buffer (wrap size t) = ap q.buffer x.tail in cc;
    }

    Values-pop_release :
        (v : A)
        → q.consumer ≡ releasing v
        → Values size (pop_release size q) ins (outs ++ (v ∷ [])) (suc t) h
    Values-pop_release v at = record {
      delivered = omega (arith, length-append outs (v ∷ []), y.delivered);
      published = y.published;
      in_order = ap (λ r. r ++ (v ∷ [])) y.in_order ∙ sym (take-next t ins v (y.read v at));
      stored = λ i a b. y.stored i (omega arith) b;
      written = y.written;
      read = λ w e. absurd (cc);
    }

  Inv-start : (size : ℕ) (blank : A) → IsPower size → Inv size (empty_queue blank) [] []
  Inv-start size blank p = record {
    t = 0;
    h = 0;
    indices = Indices-start size blank p;
    values = record {
      delivered = refl;
      published = refl;
      in_order = refl;
      stored = λ i a b. absurd (omega arith);
      written = λ v e. absurd (cc);
      read = λ v e. absurd (cc);
    };
  }

  pub Reach-Inv :
      (size : ℕ) {q : SpscQueue A} {ins outs : List A}
      → IsPower size
      → Reach size q ins outs
      → Inv size q ins outs
  Reach-Inv size p (start blank) = Inv-start size blank p
  Reach-Inv size p (checks_push v r at) =
      let i = Reach-Inv size p r in
      record {
        t = i.t;
        h = i.h;
        indices = Indices-push_check size p i.indices v at;
        values = Values-push_check size p i.indices i.values v at;
      }
  Reach-Inv size p (writes v r at) =
      let i = Reach-Inv size p r in
      record {
        t = i.t;
        h = i.h;
        indices = Indices-push_write size p i.indices v at;
        values = Values-push_write size p i.indices i.values v at;
      }
  Reach-Inv size p (publishes v r at) =
      let i = Reach-Inv size p r in
      record {
        t = i.t;
        h = suc i.h;
        indices = Indices-push_publish size p i.indices v at;
        values = Values-push_publish size p i.indices i.values v at;
      }
  Reach-Inv size p (checks_pop r at) =
      let i = Reach-Inv size p r in
      record {
        t = i.t;
        h = i.h;
        indices = Indices-pop_check size p i.indices at;
        values = Values-pop_check size p i.indices i.values at;
      }
  Reach-Inv size p (reads r at) =
      let i = Reach-Inv size p r in
      record {
        t = i.t;
        h = i.h;
        indices = Indices-pop_read size p i.indices at;
        values = Values-pop_read size p i.indices i.values at;
      }
  Reach-Inv size p (releases v r at) =
      let i = Reach-Inv size p r in
      record {
        t = suc i.t;
        h = i.h;
        indices = Indices-pop_release size p i.indices v at;
        values = Values-pop_release size p i.indices i.values v at;
      }

  -- For a ring whose size is a power of two, whatever the two threads do in whatever order, the values
  -- delivered are the first of the values published, in their order, and fewer than `size` are
  -- published and not delivered.
  pub Reach-fifo :
      (size : ℕ) {q : SpscQueue A} {ins outs : List A}
      → IsPower size
      → Reach size q ins outs
      → (outs ≡ take (length outs) ins)
        × (length outs ≤ length ins)
        × (length ins < length outs + size)
  Reach-fifo size {ins = ins} p r =
      let i = Reach-Inv size p r in
      let v = i.values in
      let x = i.indices in
      (
        v.in_order ∙ ap (λ n. take n ins) (sym v.delivered),
        omega (arith, v.delivered, v.published, x.ahead, x.known),
        omega (arith, v.delivered, v.published, x.room, x.behind),
      )
