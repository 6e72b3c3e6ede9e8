-- ===== src/Offers.antt =====
-- OffersService (backend/src/modules/offers/offers.service.ts), with the CHECKs of
-- backend/src/db/migrations/0004_trading.ts.
unfoldable pub use Browse.*
mod Browse
pub mod Deleted
pub mod Listed
use quata_trade.Prelude.{
  ℕ, ◌+◌, ◌-◌, ◌*◌, ℤ, pos, neg_ℤ, ltb_ℤ, Bool, true, false, not, ◌&&◌, ◌||◌, Option, none, some,
  List, [], ◌∷◌, ltb, leb, ◌==◌, if◌then◌else◌, contains, length,
}
use quata_trade.Domain.{
  AssetCode, OfferStatus, active, paused, exhausted, deleted, OfferSide, sell, buy, user_available,
  platform_treasury, advertisement_fee,
}
use quata_trade.Errors.{
  PgCode, pg, other_code, not_found, offer_unavailable, account_not_active, market_disabled,
  balance_does_not_back,
}
use quata_trade.Tx.{
  Result, ok, err, Tx, Service, pure, gets, ◌>>=◌, ◌>>◌, execute, with_money_transaction,
}
use quata_trade.Ledger.{
  JournalInput, Ledger, balance_of, word, uuid, bare_actor, offer_ref, get_or_create_account,
  post_journal,
}
use quata_trade.Db.{Db, Offer, User, on_ledger}
use quata_trade.Tables.{find_user}
use quata_trade.Escrow.{find_offer, set_offer}
use quata_trade.Wallet.{is_active_status}

pub record CreateOffer : Type 0 where
  pub side : OfferSide
  pub asset : AssetCode
  pub price_xaf_per_unit : ℕ
  pub min_trade : ℕ
  pub max_trade : ℕ
  pub total_amount : ℕ
  pub payment_methods : List ℕ

abbrev pub created_offer : ℕ → User → CreateOffer → Offer
created_offer id user dto = record {
  id = id;
  user_id = user.id;
  country = user.country;
  side = dto.side;
  asset = dto.asset;
  price_xaf_per_unit = dto.price_xaf_per_unit;
  min_trade = dto.min_trade;
  max_trade = dto.max_trade;
  remaining = dto.total_amount;
  payment_methods = dto.payment_methods;
  status = active;
}

-- The CHECKs of the table.
abbrev pub fits_table : Offer → Bool
fits_table o = ltb 0 o.price_xaf_per_unit && ltb 0 o.min_trade && leb o.min_trade o.max_trade

unfoldable pub insert_offer : Offer → Tx Db Offer
insert_offer o db =
    if not (fits_table o) then err (pg other_code) else ok (o, record db { offers = o ∷ db.offers })

-- The listing and the maker's fee, in one transaction.
unfoldable pub insert_with_fee : ℕ → Offer → Tx Db Offer
insert_with_fee ad_fee o = do
  offer ← insert_offer o
  maker ← on_ledger (get_or_create_account (some o.user_id) user_available o.asset)
  treasury ← on_ledger (get_or_create_account none platform_treasury o.asset)
  posted ← on_ledger (
      post_journal (record {
        reason = advertisement_fee;
        reference_type = offer_ref;
        reference_id = o.id;
        idempotency_key = word "advertisement_fee" ∷ uuid o.id ∷ [];
        created_by = bare_actor o.user_id;
        asset = o.asset;
        legs =
            record { account_id = maker; amount = neg_ℤ (pos ad_fee) }
            ∷ record { account_id = treasury; amount = pos ad_fee }
            ∷ [];
      }))
  pure offer

-- The balance that a SELL offer is measured by.
unfoldable pub available_balance : ℕ → AssetCode → Tx Db ℤ
available_balance user_id asset = do
  account ← on_ledger (get_or_create_account (some user_id) user_available asset)
  gets (λ db. balance_of account db.ledger.balances)

unfoldable pub list_offer : (ℕ → Option PgCode) → ℕ → User → CreateOffer → Service Db Offer
list_offer aborts ad_fee user dto db =
    let o = created_offer db.next_id user dto in
    let drawn = record db { next_id = db.next_id + 1 } in
    if ltb 0 ad_fee
    then with_money_transaction aborts (insert_with_fee ad_fee o) drawn
    else execute (insert_offer o) drawn

unfoldable pub after_balance :
    (ℕ → Option PgCode) → ℕ → User → CreateOffer → Result ℤ × Db → Result Offer × Db
after_balance aborts ad_fee user dto (err e, db) = (err e, db)
after_balance aborts ad_fee user dto (ok available, db) =
    if ltb_ℤ available (pos dto.total_amount)
    then (err (offer_unavailable balance_does_not_back), db)
    else list_offer aborts ad_fee user dto db

unfoldable pub create_for :
    (ℕ → Option PgCode) → ℕ → User → CreateOffer → OfferSide → Service Db Offer
create_for aborts ad_fee user dto sell db =
    after_balance aborts ad_fee user dto (execute (available_balance user.id dto.asset) db)
create_for aborts ad_fee user dto buy db = list_offer aborts ad_fee user dto db

-- `ad_fee` is the answer of the settings.
unfoldable pub create_offer : (ℕ → Option PgCode) → ℕ → ℕ → CreateOffer → Service Db Offer
create_offer aborts ad_fee user_id dto db = elim (find_user user_id db.users) [
  | none ↦ (err (offer_unavailable account_not_active), db)
  | some user ↦
      if not (is_active_status user.status)
      then (err (offer_unavailable account_not_active), db)
      else if not (contains db.enabled_countries user.country)
      then (err (offer_unavailable market_disabled), db)
      else create_for aborts ad_fee user dto dto.side db
]

-- ------------------------------------------------- updates

pub record UpdateOffer : Type 0 where
  pub price_xaf_per_unit : Option ℕ
  pub min_trade : Option ℕ
  pub max_trade : Option ℕ
  pub payment_methods : Option (List ℕ)

abbrev pub given {ℓ} : {A : Type ℓ} → Option A → A → A
given none old = old
given (some new) old = new

abbrev pub updated_offer : UpdateOffer → Offer → Offer
updated_offer dto o = record o {
  price_xaf_per_unit = given dto.price_xaf_per_unit o.price_xaf_per_unit;
  min_trade = given dto.min_trade o.min_trade;
  max_trade = given dto.max_trade o.max_trade;
  payment_methods = given dto.payment_methods o.payment_methods;
}

abbrev pub is_editable : OfferStatus → Bool
is_editable active = true
is_editable paused = true
is_editable exhausted = false
is_editable deleted = false

-- An UPDATE of the owner's row where its status allows it, and the table's CHECKs.
unfoldable pub update_own : ℕ → ℕ → (OfferStatus → Bool) → (Offer → Offer) → Tx Db Offer
update_own user_id offer_id allowed set db = elim (find_offer offer_id db.offers) [
  | none ↦ err not_found
  | some o ↦
      if not (o.user_id == user_id && allowed o.status)
      then err not_found
      else if not (fits_table (set o))
      then err (pg other_code)
      else ok (set o, record db { offers = set_offer (set o) db.offers })
]

unfoldable pub update_offer : ℕ → ℕ → UpdateOffer → Service Db Offer
update_offer user_id offer_id dto =
    execute (update_own user_id offer_id is_editable (updated_offer dto))

pub data NewStatus : Type 0 where
  to_active to_paused to_deleted : NewStatus

abbrev pub new_status : NewStatus → OfferStatus
new_status to_active = active
new_status to_paused = paused
new_status to_deleted = deleted

unfoldable pub set_offer_status : ℕ → ℕ → NewStatus → Service Db Offer
set_offer_status user_id offer_id status =
    execute
      (update_own user_id offer_id is_not_deleted (λ o. record o { status = new_status status }))
