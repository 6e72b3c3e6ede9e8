-- ===== src/Offers/Listed.antt =====
-- What a browser of the offers sees (backend/src/modules/offers/offers.service.ts).
use quata_trade.Prelude.{
  ℕ, ◌-◌, ◌*◌, ◌≤◌, ◌≡◌, refl, Bool, Bool-cases, true, Option, some, inl, inr, List, [], ◌∷◌, All,
  ◌==◌, arith, length,
}
use quata_trade.Domain.{OfferSide, active}
use quata_trade.Tx.{ok}
use quata_trade.Tx.Guards.{ok_inj}
use quata_trade.Db.{Db, Offer, User}
use quata_trade.Tables.{find_user}
use quata_trade.Offers.{
  OffersQuery, OfferPage, matches_query, comes_before, select_offers, insert_by_price,
  order_by_price, skip, limit, list_offers,
}

module _ (P : Offer → Type 0) where
  All-insert_by_price :
      (side : Option OfferSide) (o : Offer) (os : List Offer)
      → P o
      → All P os
      → All P (insert_by_price side o os)
  unfolding insert_by_price
  All-insert_by_price side o [] p h = (p, tt)
  All-insert_by_price side o (x ∷ os) p h = elim (Bool-cases (comes_before side o x)) [
    | inl before ↦ simp before (p, h)
    | inr after ↦ simp after (h.0, All-insert_by_price side o os p h.1)
  ]

  All-order_by_price :
      (side : Option OfferSide) (os : List Offer) → All P os → All P (order_by_price side os)
  unfolding order_by_price
  All-order_by_price side [] h = tt
  All-order_by_price side (o ∷ os) h =
      All-insert_by_price side o (order_by_price side os) h.0 (All-order_by_price side os h.1)

  All-skip : (n : ℕ) (os : List Offer) → All P os → All P (skip n os)
  unfolding skip
  All-skip n [] h = tt
  All-skip n (o ∷ os) h = elim (Bool-cases (n == 0)) [
    | inl done ↦ simp done h
    | inr more ↦ simp more (All-skip (n - 1) os h.1)
  ]

  All-limit : (n : ℕ) (os : List Offer) → All P os → All P (limit n os)
  unfolding limit
  All-limit n [] h = tt
  All-limit n (o ∷ os) h = elim (Bool-cases (n == 0)) [
    | inl done ↦ simp done tt
    | inr more ↦ simp more (h.0, All-limit (n - 1) os h.1)
  ]

All-select_offers :
    (test : Offer → Bool) (os : List Offer) → All (λ o. test o ≡ true) (select_offers test os)
unfolding select_offers
All-select_offers test [] = tt
All-select_offers test (o ∷ os) = elim (Bool-cases (test o)) [
  | inl good ↦ simp good (refl, All-select_offers test os)
  | inr bad ↦ simp bad (All-select_offers test os)
]

length-limit : (n : ℕ) (os : List Offer) → length (limit n os) ≤ n
unfolding limit
length-limit n [] = omega arith
length-limit n (o ∷ os) = elim (Bool-cases (n == 0)) [
  | inl done ↦ simp done (omega arith)
  | inr more ↦ let rest = length-limit (n - 1) os in simp more (ground arith)
]

IsShown : ℕ → Offer → Type 0
IsShown country o = (o.country ≡ country) × (o.status ≡ active)

matches-IsShown :
    (country : ℕ) (q : OffersQuery) (o : Offer)
    → matches_query country q o ≡ true
    → IsShown country o
unfolding matches_query IsShown
matches-IsShown country q o h = (ground arith, ground arith)

All-weaken :
    {P Q : Offer → Type 0} → ((o : Offer) → P o → Q o) → (os : List Offer) → All P os → All Q os
All-weaken f [] h = tt
All-weaken f (o ∷ os) h = (f o h.0, All-weaken f os h.1)

-- Every offer on a page of the list is active and of the viewer's own country, and a page has at
-- most as many as the query asks for.
pub list_offers_in_market :
    (viewer_id : ℕ) (q : OffersQuery) (db : Db) (viewer : User) (page : OfferPage)
    → find_user viewer_id db.users ≡ some viewer
    → list_offers viewer_id q db ≡ ok page
    → All (λ o. (o.country ≡ viewer.country) × (o.status ≡ active)) page.items
      × (length page.items ≤ q.page_size)
unfolding list_offers IsShown
list_offers_in_market viewer_id q db viewer page found h =
    let same = ok_inj (rw (found, list_offers) at h) in
    let test : Offer → Bool = matches_query viewer.country q in
    let ordered = All-order_by_price _ q.side _ (All-select_offers test db.offers) in
    let shown = All-limit _ q.page_size _ (All-skip _ ((q.page - 1) * q.page_size) _ ordered) in
    simp same
      (All-weaken (λ o. matches-IsShown viewer.country q o) _ shown, length-limit q.page_size _)
