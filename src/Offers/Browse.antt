-- ===== src/Offers/Browse.antt =====
-- How offers are looked up and listed (backend/src/modules/offers/offers.service.ts).
use quata_trade.Prelude.{
  ℕ, ◌-◌, ◌*◌, Bool, true, false, ◌&&◌, Option, none, some, List, [], ◌∷◌, leb, ◌==◌, if◌then◌else◌,
  contains, length,
}
use quata_trade.Domain.{OfferStatus, active, paused, exhausted, deleted, OfferSide, sell, buy}
use quata_trade.Errors.{not_found}
use quata_trade.Tx.{Result, ok, err}
use quata_trade.Db.{Db, Offer}
use quata_trade.Tables.{find_user}
use quata_trade.Escrow.{find_offer}

abbrev pub is_not_deleted : OfferStatus → Bool
is_not_deleted active = true
is_not_deleted paused = true
is_not_deleted exhausted = true
is_not_deleted deleted = false

pub record OffersQuery : Type 0 where
  pub side : Option OfferSide
  pub method : Option ℕ
  pub min_amount : Option ℕ
  pub max_amount : Option ℕ
  pub page : ℕ
  pub page_size : ℕ

unfoldable pub side_eq : OfferSide → OfferSide → Bool
side_eq sell sell = true
side_eq buy buy = true
side_eq _ _ = false

abbrev pub if_given {ℓ} : {A : Type ℓ} → Option A → (A → Bool) → Bool
if_given none test = true
if_given (some a) test = test a

abbrev pub is_open : OfferStatus → Bool
is_open active = true
is_open paused = false
is_open exhausted = false
is_open deleted = false

-- The WHERE of the list.
unfoldable pub matches_query : ℕ → OffersQuery → Offer → Bool
matches_query country q o =
    o.country == country
    && is_open o.status
    && if_given q.side (side_eq o.side)
    && if_given q.method (contains o.payment_methods)
    && if_given q.min_amount (λ n. leb n o.max_trade)
    && if_given q.max_amount (λ n. leb o.min_trade n)

unfoldable pub select_offers : (Offer → Bool) → List Offer → List Offer
select_offers test [] = []
select_offers test (o ∷ os) = let rest = select_offers test os in if test o then o ∷ rest else rest

-- `asc`, and for the BUY side `desc`.
abbrev pub comes_before : Option OfferSide → Offer → Offer → Bool
comes_before (some buy) o p = leb p.price_xaf_per_unit o.price_xaf_per_unit
comes_before (some sell) o p = leb o.price_xaf_per_unit p.price_xaf_per_unit
comes_before none o p = leb o.price_xaf_per_unit p.price_xaf_per_unit

unfoldable pub insert_by_price : Option OfferSide → Offer → List Offer → List Offer
insert_by_price side o [] = o ∷ []
insert_by_price side o (p ∷ ps) =
    let rest = insert_by_price side o ps in if comes_before side o p then o ∷ p ∷ ps else p ∷ rest

unfoldable pub order_by_price : Option OfferSide → List Offer → List Offer
order_by_price side [] = []
order_by_price side (o ∷ os) = insert_by_price side o (order_by_price side os)

unfoldable pub skip : ℕ → List Offer → List Offer
skip n [] = []
skip n (o ∷ os) = if n == 0 then o ∷ os else skip (n - 1) os

unfoldable pub limit : ℕ → List Offer → List Offer
limit n [] = []
limit n (o ∷ os) = let rest = limit (n - 1) os in if n == 0 then [] else o ∷ rest

pub record OfferPage : Type 0 where
  pub items : List Offer
  pub total : ℕ

unfoldable pub list_offers : ℕ → OffersQuery → Db → Result OfferPage
list_offers viewer_id q db = elim (find_user viewer_id db.users) [
  | none ↦ err not_found
  | some viewer ↦
      let found = select_offers (matches_query viewer.country q) db.offers in
      ok (record {
        items = limit q.page_size (skip ((q.page - 1) * q.page_size) (order_by_price q.side found));
        total = length found;
      })
]

unfoldable pub visible_offer : ℕ → Option Offer → Option Offer
visible_offer country none = none
visible_offer country (some o) =
    if o.country == country && is_not_deleted o.status then some o else none

unfoldable pub get_public : ℕ → ℕ → Db → Result (Option Offer)
get_public viewer_id offer_id db = elim (find_user viewer_id db.users) [
  | none ↦ err not_found
  | some viewer ↦ ok (visible_offer viewer.country (find_offer offer_id db.offers))
]

unfoldable pub list_for_user : ℕ → Db → List Offer
list_for_user user_id db =
    select_offers (λ o. o.user_id == user_id && is_not_deleted o.status) db.offers
