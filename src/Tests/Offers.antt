-- ===== src/Tests/Offers.antt =====
-- Offers of the market: browsed, and deleted.
use quata_trade.Prelude.{ℕ, ◌≡◌, ◌≤◌, refl, Option, none, some, List, [], ◌∷◌, All, length, arith}
use quata_trade.Domain.{usdt_trc20, sell, active, paused, deleted}
use quata_trade.Errors.{PgCode}
use quata_trade.Db.{Db, Offer}
use quata_trade.Escrow.{find_offer}
use quata_trade.Tables.{find_user}
use quata_trade.Offers.{
  OffersQuery, OfferPage, CreateOffer, UpdateOffer, to_active, list_offers, matches_query, side_eq,
  select_offers, order_by_price, insert_by_price, skip, limit,
}
use quata_trade.Offers.Listed.{list_offers_in_market}
use quata_trade.Offers.Deleted.{OfferCall, create, update, change, run_offers, deleted_offer_stays}
use quata_trade.Tests.Market.{member, market, sell_offer}

abbrev no_aborts : ℕ → Option PgCode
no_aborts n = none

-- A dearer offer, one of another country, and one that is paused.
abbrev busy_market : Db
busy_market = record market {
  offers =
      record sell_offer { id = 31; price_xaf_per_unit = 700_000 }
      ∷ record sell_offer { id = 32; country = 33 }
      ∷ record sell_offer { id = 33; status = paused }
      ∷ sell_offer
      ∷ [];
}

abbrev query : OffersQuery
query = record {
  side = some sell;
  method = some 1;
  min_amount = some 10;
  max_amount = none;
  page = 1;
  page_size = 20;
}

abbrev first_page : OfferPage
first_page = record {
  items = sell_offer ∷ record sell_offer { id = 31; price_xaf_per_unit = 700_000 } ∷ [];
  total = 2;
}

list_offers_in_market_example :
    All (λ o. (o.country ≡ 237) × (o.status ≡ active)) first_page.items
    × (length first_page.items ≤ 20)
unfolding find_user list_offers matches_query side_eq select_offers order_by_price insert_by_price
    skip limit
list_offers_in_market_example =
    list_offers_in_market 8 query busy_market (member 8) first_page refl refl

abbrev deleted_offer : Offer
deleted_offer = record sell_offer { status = deleted }

abbrev deleted_market : Db
deleted_market = record market { offers = deleted_offer ∷ [] }

abbrev dearer : UpdateOffer
dearer = record {
  price_xaf_per_unit = some 700_000;
  min_trade = none;
  max_trade = none;
  payment_methods = none;
}

abbrev small_offer : CreateOffer
small_offer = record {
  side = sell;
  asset = usdt_trc20;
  price_xaf_per_unit = 650_000;
  min_trade = 1;
  max_trade = 100;
  total_amount = 100;
  payment_methods = 1 ∷ [];
}

abbrev offer_calls : List ((ℕ → Option PgCode) × OfferCall)
offer_calls =
    (no_aborts, change 7 30 to_active)
    ∷ (no_aborts, update 7 30 dearer)
    ∷ (no_aborts, create 3 7 small_offer)
    ∷ []

deleted_offer_stays_example :
    find_offer 30 (run_offers offer_calls deleted_market).offers ≡ some deleted_offer
unfolding find_offer
deleted_offer_stays_example =
    deleted_offer_stays offer_calls deleted_offer deleted_market refl refl (omega arith)
