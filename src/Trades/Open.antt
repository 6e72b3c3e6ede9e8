-- ===== src/Trades/Open.antt =====
-- `openTrade` of TradesService (backend/src/modules/trades/trades.service.ts). What the settings and
-- the promotions answer is a record of arguments.
use quata_trade.Prelude.{
  ℕ, zero, suc, ◌+◌, ◌-◌, ◌*◌, pos, Bool, true, false, not, ◌||◌, Option, none, some, ◌∷◌, ltb, leb,
  ◌==◌, if◌then◌else◌, contains,
}
use quata_trade.Domain.{
  AssetCode, OfferStatus, active, paused, exhausted, deleted, sell, buy, opened, escrow_locked,
  UserStatus, active_user,
}
use quata_trade.Errors.{
  PgCode, pg, other_code, trades_paused, offer_unavailable, offer_not_found, offer_status,
  own_offer, method_not_accepted, amount_outside_limits, insufficient_remaining, market_disabled,
  party_not_active, cross_market, tier_limit, fiat_too_small,
}
use quata_trade.Tx.{
  Result, ok, err, Tx, Service, pure, throw_if, lift, gets, ◌>>=◌, ◌>>◌, with_money_transaction,
}
use quata_trade.Ledger.{Actor, buyer_actor, seller_actor}
use quata_trade.Fees.{Number, integer, PerSideSplit, split_per_side, fiat_value_xaf}
use quata_trade.Tables.{find_user, new_id}
use quata_trade.Db.{Db, Trade, Offer, User}
use quata_trade.Escrow.{find_offer, set_offer, record_creation, lock_escrow}

pub record OpenTradeRequest : Type 0 where
  pub offer_id : ℕ
  pub amount : ℕ
  pub payment_method : ℕ

-- The answers of the settings and of the promotions, and the time.
pub record TradeSettings : Type 0 where
  pub trades_paused : Bool
  pub now : ℕ
  pub window_minutes : ℕ
  pub fee_bps : Number
  pub seller_fee_bps : Number
  pub max_trade : ℕ → ℕ
  pub promo_bps : ℕ → Option Number

abbrev pub is_active_offer : OfferStatus → Bool
is_active_offer active = true
is_active_offer paused = false
is_active_offer exhausted = false
is_active_offer deleted = false

abbrev pub is_active_account : UserStatus → Bool
is_active_account active_user = true
is_active_account _ = false

-- The checks on the locked offer.
unfoldable pub check_offer : Offer → ℕ → OpenTradeRequest → Result (Unit {0})
check_offer offer taker_id dto =
    if not (is_active_offer offer.status)
    then err (offer_unavailable offer_status)
    else if offer.user_id == taker_id
    then err (offer_unavailable own_offer)
    else if not (contains offer.payment_methods dto.payment_method)
    then err (offer_unavailable method_not_accepted)
    else if ltb dto.amount offer.min_trade || ltb offer.max_trade dto.amount
    then err (offer_unavailable amount_outside_limits)
    else if ltb offer.remaining dto.amount
    then err (offer_unavailable insufficient_remaining)
    else ok tt

abbrev pub seller_of : Offer → ℕ → ℕ
seller_of offer taker_id = elim offer.side [ sell ↦ offer.user_id | buy ↦ taker_id ]

abbrev pub buyer_of : Offer → ℕ → ℕ
buyer_of offer taker_id = elim offer.side [ sell ↦ taker_id | buy ↦ offer.user_id ]

abbrev pub taker_actor : Offer → ℕ → Actor
taker_actor offer taker_id = elim offer.side [
  | sell ↦ buyer_actor taker_id
  | buy ↦ seller_actor taker_id
]

-- One round of the loop over the two parties.
unfoldable pub check_party : TradeSettings → Offer → ℕ → Option User → Result (Unit {0})
check_party s offer amount none = err (offer_unavailable party_not_active)
check_party s offer amount (some u) =
    if not (is_active_account u.status)
    then err (offer_unavailable party_not_active)
    else if not (u.country == offer.country)
    then err (offer_unavailable cross_market)
    else if ltb (s.max_trade u.kyc_tier) amount
    then err (offer_unavailable tier_limit)
    else ok tt

abbrev pub buyer_rate : TradeSettings → Offer → Number
buyer_rate s offer = elim (s.promo_bps offer.country) [ none ↦ s.fee_bps | some bps ↦ bps ]

abbrev pub seller_rate : TradeSettings → Offer → Number
seller_rate s offer = elim (s.promo_bps offer.country) [
  | none ↦ s.seller_fee_bps
  | some bps ↦ integer (pos 0)
]

-- ASSET_DECIMALS of shared/src/constants.ts
abbrev pub asset_decimals : AssetCode → Number
asset_decimals asset = integer (pos 6)

-- `EXHAUSTED` where nothing remains of an active offer.
abbrev pub after_decrement : OfferStatus → ℕ → OfferStatus
after_decrement active zero = exhausted
after_decrement active (suc n) = active
after_decrement paused n = paused
after_decrement exhausted n = exhausted
after_decrement deleted n = deleted

abbrev pub taken : Offer → ℕ → Offer
taken offer amount = record offer {
  remaining = offer.remaining - amount;
  status = after_decrement offer.status (offer.remaining - amount);
}

-- The guarded decrement and the UPDATE to `EXHAUSTED`.
unfoldable pub decrement_offer : ℕ → ℕ → Tx Db (Unit {0})
decrement_offer offer_id amount db = elim (find_offer offer_id db.offers) [
  | none ↦ err (offer_unavailable insufficient_remaining)
  | some row ↦
      if not (leb amount row.remaining)
      then err (offer_unavailable insufficient_remaining)
      else ok (tt, record db { offers = set_offer (taken row amount) db.offers })
]

abbrev pub rate_of : Number → ℕ
rate_of (integer (pos bps)) = bps
rate_of _ = 0

-- The row, and the CHECKs of the table: a positive amount, two parties, fees below the amount.
unfoldable pub insert_trade : Trade → Tx Db (Unit {0})
insert_trade t db =
    if t.amount == 0 || t.buyer_id == t.seller_id || leb t.amount t.fee_amount
    then err (pg other_code)
    else ok (tt, record db { trades = t ∷ db.trades })

abbrev pub opened_trade :
    TradeSettings → Offer → ℕ → OpenTradeRequest → PerSideSplit → ℕ → ℕ → Trade
opened_trade s offer taker_id dto fees fiat id = record {
  id = id;
  country = offer.country;
  offer_id = offer.id;
  seller_id = seller_of offer taker_id;
  buyer_id = buyer_of offer taker_id;
  asset = offer.asset;
  amount = dto.amount;
  price_xaf_per_unit = offer.price_xaf_per_unit;
  fiat_amount_xaf = fiat;
  payment_method = dto.payment_method;
  fee_bps = rate_of (buyer_rate s offer);
  fee_amount = fees.buyer_fee;
  seller_fee_bps = rate_of (seller_rate s offer);
  seller_fee_amount = fees.seller_fee;
  status = opened;
  payment_deadline = none;
  completed_at = none;
  escrow_journal_id = none;
  release_journal_id = none;
}

-- From the decrement on: everything that writes.
unfoldable pub create_trade :
    TradeSettings → Offer → ℕ → OpenTradeRequest → PerSideSplit → ℕ → Tx Db Trade
create_trade s offer taker_id dto fees fiat = do
  decrement_offer offer.id dto.amount
  id ← new_id
  let trade = opened_trade s offer taker_id dto fees fiat id
  insert_trade trade
  record_creation id (taker_actor offer taker_id)
  let deadline = s.now + s.window_minutes * 60_000
  lock_escrow trade (taker_actor offer taker_id) deadline
  pure (record trade { status = escrow_locked; payment_deadline = some deadline })

-- `SELECT … FROM offers WHERE id FOR UPDATE`
unfoldable pub lock_offer : ℕ → Tx Db Offer
lock_offer id db = elim (find_offer id db.offers) [
  | none ↦ err (offer_unavailable offer_not_found)
  | some offer ↦ ok (offer, db)
]

unfoldable pub open_trade_tx : TradeSettings → ℕ → OpenTradeRequest → Tx Db Trade
open_trade_tx s taker_id dto = do
  offer ← lock_offer dto.offer_id
  lift (check_offer offer taker_id dto)
  enabled ← gets (λ db. contains db.enabled_countries offer.country)
  throw_if (not enabled) (offer_unavailable market_disabled)
  seller ← gets (λ db. find_user (seller_of offer taker_id) db.users)
  buyer ← gets (λ db. find_user (buyer_of offer taker_id) db.users)
  lift (check_party s offer dto.amount seller)
  lift (check_party s offer dto.amount buyer)
  fees ← lift (split_per_side (pos dto.amount) (buyer_rate s offer) (seller_rate s offer))
  fiat ←
      lift (
        fiat_value_xaf (pos dto.amount) (pos offer.price_xaf_per_unit) (asset_decimals offer.asset))
  throw_if (fiat == 0) (offer_unavailable fiat_too_small)
  create_trade s offer taker_id dto fees fiat

unfoldable pub open_trade :
    (ℕ → Option PgCode) → TradeSettings → ℕ → OpenTradeRequest → Service Db Trade
open_trade aborts s taker_id dto db =
    if s.trades_paused
    then (err trades_paused, db)
    else with_money_transaction aborts (open_trade_tx s taker_id dto) db
