-- ===== src/Book/Samples.antt =====
-- Books for the tests, with the commands that lead to them.
use hermes_orderbook.Prelude.{ℕ, ◌≡◌, refl, List, [], ◌∷◌, some, pos, arith, ltb_ℤ, eqb_ℤ}
use hermes_orderbook.Core.Types.{
  Side, buy, sell, limit, gtc, standard, is_visible, is_post_only, TimeInForce, Flags,
}
use hermes_orderbook.Core.Order.{Order, new_order}
use hermes_orderbook.Core.Messages.{AddCommand, add, order_accepted}
use hermes_orderbook.Book.Levels.{Level, before, find_level, set_level, try_emplace}
use hermes_orderbook.Book.State.{
  Book, OrderEntry, empty_book, levels, with_levels, emplace_entry, closed,
}
use hermes_orderbook.Book.Operations.{push_event}
use hermes_orderbook.Book.Matching.{match_order, best_order, stops, outside}
use hermes_orderbook.Book.Commands.{internal_add_order}
use hermes_orderbook.Book.Apply.{apply}
use hermes_orderbook.Book.Apply.History.{Reach, start, next, Reach-IsValid}
use hermes_orderbook.Book.View.{IsValid}

abbrev pub add_with : TimeInForce → Flags → ℕ → ℕ → ℕ → Side → AddCommand
add_with tif flags client price quantity side = record {
  client_id = client;
  price = pos price;
  quantity = quantity;
  flags = flags;
  side = side;
  order_type = limit;
  tif = tif;
  match_type = standard;
}

-- A limit order, good till cancelled, that shows.
abbrev pub plain : ℕ → ℕ → ℕ → Side → AddCommand
plain = add_with gtc 0

abbrev pub resting : ℕ → ℕ → ℕ → ℕ → Side → Order
resting id client price quantity side =
    new_order (pos 0) id client (pos price) quantity side limit gtc standard 0

abbrev pub entry : ℕ → ℕ → Side → OrderEntry
entry id price side = record { level_side = side; level_price = pos price; list_it = id }

abbrev pub level : ℕ → ℕ → List Order → Level
level price volume orders = record { price = pos price; volume = volume; orders = orders }

-- An ask of 10 at 100.
abbrev pub one_ask : Book
one_ask = record {
  bids = [];
  asks = level 100 10 (resting 1 1 100 10 sell ∷ []) ∷ [];
  index = (1, entry 1 100 sell) ∷ [];
  scratch = order_accepted 1 1 ∷ [];
  order_counter = 2;
  trade_counter = 1;
  market_state = closed;
}

-- An ask of 5 at 100 behind it.
abbrev pub two_asks : Book
two_asks = record {
  bids = [];
  asks = level 100 15 (resting 1 1 100 10 sell ∷ resting 2 1 100 5 sell ∷ []) ∷ [];
  index = (1, entry 1 100 sell) ∷ (2, entry 2 100 sell) ∷ [];
  scratch = order_accepted 1 2 ∷ [];
  order_counter = 3;
  trade_counter = 1;
  market_state = closed;
}

-- And a bid of 4 at 98.
abbrev pub both_sides : Book
both_sides = record {
  bids = level 98 4 (resting 3 2 98 4 buy ∷ []) ∷ [];
  asks = level 100 15 (resting 1 1 100 10 sell ∷ resting 2 1 100 5 sell ∷ []) ∷ [];
  index = (1, entry 1 100 sell) ∷ (2, entry 2 100 sell) ∷ (3, entry 3 98 buy) ∷ [];
  scratch = order_accepted 2 3 ∷ [];
  order_counter = 4;
  trade_counter = 1;
  market_state = closed;
}

pub one_ask-run : apply (pos 0) (add (plain 1 100 10 sell)) empty_book ≡ some one_ask
unfolding apply internal_add_order match_order levels with_levels best_order try_emplace find_level
    set_level emplace_entry push_event eqb_ℤ ltb_ℤ before is_post_only is_visible stops outside
one_ask-run = refl

pub two_asks-run : apply (pos 0) (add (plain 1 100 5 sell)) one_ask ≡ some two_asks
unfolding apply internal_add_order match_order levels with_levels best_order try_emplace find_level
    set_level emplace_entry push_event eqb_ℤ ltb_ℤ before is_post_only is_visible stops outside
two_asks-run = refl

pub both_sides-run : apply (pos 0) (add (plain 2 98 4 buy)) two_asks ≡ some both_sides
unfolding apply internal_add_order match_order levels with_levels best_order try_emplace find_level
    set_level emplace_entry push_event eqb_ℤ ltb_ℤ before is_post_only is_visible stops outside
both_sides-run = refl

pub both_sides-Reach : Reach 3 both_sides
both_sides-Reach = next _ _ (next _ _ (next _ _ start one_ask-run) two_asks-run) both_sides-run

pub both_sides-IsValid : IsValid both_sides
both_sides-IsValid = Reach-IsValid (omega arith) both_sides-Reach
