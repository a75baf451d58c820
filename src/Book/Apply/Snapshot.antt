-- ===== src/Book/Apply/Snapshot.antt =====
-- `GetSnapshot`, against the queries of a level's volume.
use hermes_orderbook.Prelude.{
  ℕ, zero, suc, ◌+◌, ◌-◌, ◌≡◌, refl, sym, ap, ◌∙◌, true, List, [], ◌∷◌, map, none, some, arith,
  take, take-nil, take_none, take-suc, dec_lt, eqb_ℤ_refl,
}
use hermes_orderbook.Core.Types.{Price, Quantity, Side, buy, sell}
use hermes_orderbook.Core.Messages.{SnapshotLevel}
use hermes_orderbook.Book.Levels.{Level, before, find_level}
use hermes_orderbook.Book.State.{Book, levels}
use hermes_orderbook.Book.Apply.{volume_at_price, snapshot_level, snapshot_side, get_snapshot}
use hermes_orderbook.Book.View.{IsValid, SideIsValid, AllAfter}
use hermes_orderbook.Book.View.Levels.{before-eqb}

snapshot_side-take :
    (curr depth : ℕ) (ls : List Level)
    → snapshot_side curr depth ls ≡ take (depth - curr) (map snapshot_level ls)
unfolding snapshot_side
snapshot_side-take curr depth [] = sym (take-nil (depth - curr))
snapshot_side-take curr depth (l ∷ ls) = elim (dec_lt curr depth) [
  | yes room ↦
      let rest = snapshot_side-take (curr + 1) depth ls in
      let one = take-suc (depth - curr) (snapshot_level l) (map snapshot_level ls) (omega arith) in
      let same : depth - curr - 1 ≡ depth - (curr + 1) = omega arith in
      ground (arith, rest, one, ap (λ k. take k (map snapshot_level ls)) same)
  | no full ↦
      let none_left =
        take_none (depth - curr) (snapshot_level l ∷ map snapshot_level ls) (omega arith) in
      ground (arith, none_left)
]

snapshot_side-first :
    (depth : ℕ) (ls : List Level) → snapshot_side 0 depth ls ≡ take depth (map snapshot_level ls)
snapshot_side-first depth ls =
    snapshot_side-take 0 depth ls ∙ ap (λ k. take k (map snapshot_level ls)) (omega arith)

-- The entries of a side, best price first.
abbrev pub AllWorse : Side → Price → List SnapshotLevel → Type 0
AllWorse s p [] = Unit {0}
AllWorse s p (e ∷ es) = (before s p e.price ≡ true) × AllWorse s p es

abbrev pub InPriceOrder : Side → List SnapshotLevel → Type 0
InPriceOrder s [] = Unit {0}
InPriceOrder s (e ∷ es) = AllWorse s e.price es × InPriceOrder s es

-- Each entry states what `volume_of` says of its price.
abbrev pub AllQuoted : (Price → Quantity) → List SnapshotLevel → Type 0
AllQuoted volume_of [] = Unit {0}
AllQuoted volume_of (e ∷ es) = (e.quantity ≡ volume_of e.price) × AllQuoted volume_of es

AllQuoted-take :
    (f : Price → Quantity) (n : ℕ) (es : List SnapshotLevel)
    → AllQuoted f es
    → AllQuoted f (take n es)
AllQuoted-take f zero es h = tt
AllQuoted-take f (suc n) [] h = tt
AllQuoted-take f (suc n) (e ∷ es) h = (h.0, AllQuoted-take f n es h.1)

AllWorse-take :
    (s : Side) (p : Price) (n : ℕ) (es : List SnapshotLevel)
    → AllWorse s p es
    → AllWorse s p (take n es)
AllWorse-take s p zero es h = tt
AllWorse-take s p (suc n) [] h = tt
AllWorse-take s p (suc n) (e ∷ es) h = (h.0, AllWorse-take s p n es h.1)

InPriceOrder-take :
    (s : Side) (n : ℕ) (es : List SnapshotLevel) → InPriceOrder s es → InPriceOrder s (take n es)
InPriceOrder-take s zero es h = tt
InPriceOrder-take s (suc n) [] h = tt
InPriceOrder-take s (suc n) (e ∷ es) h =
    (AllWorse-take s e.price n es h.0, InPriceOrder-take s n es h.1)

AllWorse-of :
    (s : Side) (p : Price) (ls : List Level)
    → AllAfter s p ls
    → AllWorse s p (map snapshot_level ls)
AllWorse-of s p [] h = tt
AllWorse-of s p (l ∷ ls) h = (h.0, AllWorse-of s p ls h.1)

InPriceOrder-of :
    (s : Side) (ls : List Level) → SideIsValid s ls → InPriceOrder s (map snapshot_level ls)
InPriceOrder-of s [] v = tt
InPriceOrder-of s (l ∷ ls) v = (AllWorse-of s l.price ls v.0, InPriceOrder-of s ls v.3)

-- A level in front, of another price, changes no entry's volume.
AllQuoted-later :
    (s : Side) (f g : Price → Quantity) (p : Price) (es : List SnapshotLevel)
    → ((q : Price) → before s p q ≡ true → f q ≡ g q)
    → AllWorse s p es
    → AllQuoted f es
    → AllQuoted g es
AllQuoted-later s f g p [] same w h = tt
AllQuoted-later s f g p (e ∷ es) same w h =
    (h.0 ∙ same e.price w.0, AllQuoted-later s f g p es same w.1 h.1)

abbrev volume_in : List Level → Price → Quantity
volume_in ls p = elim (find_level p ls) [ none ↦ 0 | some l ↦ l.volume ]

find_level-here : (l : Level) (ls : List Level) → find_level l.price (l ∷ ls) ≡ some l
unfolding find_level
find_level-here l ls = ground (arith, eqb_ℤ_refl l.price)

find_level-later :
    (s : Side) (l : Level) (ls : List Level) (q : Price)
    → before s l.price q ≡ true
    → find_level q (l ∷ ls) ≡ find_level q ls
unfolding find_level
find_level-later s l ls q h = ground (arith, before-eqb s l.price q h)

AllQuoted-of :
    (s : Side) (ls : List Level)
    → SideIsValid s ls
    → AllQuoted (volume_in ls) (map snapshot_level ls)
AllQuoted-of s [] v = tt
AllQuoted-of s (l ∷ ls) v = (
  rw (volume_in, find_level-here l ls) refl,
  AllQuoted-later s (volume_in ls) (volume_in (l ∷ ls)) l.price (map snapshot_level ls)
      (λ q h. rw (volume_in, find_level-later s l ls q h) refl) (AllWorse-of s l.price ls v.0)
      (AllQuoted-of s ls v.3),
)

-- One side of a snapshot: the best levels, `depth` of them if there are as many, in price order,
-- each with the volume that the book states for its price.
pub record SideQuoted (s : Side) (depth : ℕ) (b : Book) (es : List SnapshotLevel) : Type 0 where
  pub best : es ≡ take depth (map snapshot_level (levels s b))
  pub ordered : InPriceOrder s es
  pub quoted : AllQuoted (λ p. volume_at_price s p b) es

side_quoted :
    (s : Side) (depth : ℕ) (b : Book)
    → IsValid b
    → SideQuoted s depth b (snapshot_side 0 depth (levels s b))
unfolding volume_at_price
side_quoted s depth b v = rw (snapshot_side-first depth (levels s b)) (record {
  best = refl;
  ordered = InPriceOrder-take s depth _ (InPriceOrder-of s (levels s b) (v.side_valid s));
  quoted =
      AllQuoted-take (volume_in (levels s b)) depth _
        (AllQuoted-of s (levels s b) (v.side_valid s));
})

-- On a well-formed book each side of a snapshot holds its best levels, as many as there are up to
-- `depth`, best price first, each with the volume that the query at its price returns.
pub get_snapshot-quoted :
    (depth : ℕ) (b : Book)
    → IsValid b
    → SideQuoted buy depth b (get_snapshot depth b).bids
      × SideQuoted sell depth b (get_snapshot depth b).asks
unfolding get_snapshot
get_snapshot-quoted depth b v =
    (unfold levels in side_quoted buy depth b v, unfold levels in side_quoted sell depth b v)
