-- ===== src/Offers/Deleted.antt =====
-- A deleted offer stays deleted (backend/src/modules/offers/offers.service.ts).
use quata_trade.Prelude.{
  ℕ, ◌+◌, ◌<◌, ◌≡◌, ◌≢◌, refl, ap, ◌∙◌, sym, Bool, Bool-cases, true, false, ◌&&◌, Option, some,
  Option-cases, inl, inr, List, [], ◌∷◌, ◌==◌, ltb, ltb_ℤ, pos, ℤ, arith, contains,
}
use quata_trade.Domain.{OfferStatus, deleted, OfferSide, sell, buy, AssetCode, AccountKind}
use quata_trade.Errors.{PgCode}
use quata_trade.Tx.{Result, ok, err, gets}
use quata_trade.Tx.Preserves.{
  Preserves, preserves_rules, with_money_transaction-keeps, execute-keeps,
}
use quata_trade.Ledger.{JournalInput, get_or_create_account, post_journal}
use quata_trade.Db.{Db, Offer, User, on_ledger}
use quata_trade.Tables.{find_user}
use quata_trade.Escrow.{find_offer, set_offer}
use quata_trade.Escrow.History.{on_ledger-Preserves}
use quata_trade.Wallet.{is_active_status}
use quata_trade.Offers.{
  CreateOffer, created_offer, fits_table, insert_offer, insert_with_fee, available_balance,
  list_offer, after_balance, create_for, create_offer, UpdateOffer, updated_offer, is_editable,
  is_not_deleted, update_own, update_offer, NewStatus, new_status, set_offer_status,
}

find_offer-id : (id : ℕ) (os : List Offer) {o : Offer} → find_offer id os ≡ some o → o.id ≡ id
unfolding find_offer
find_offer-id id [] h = cc
find_offer-id id (x ∷ os) {o} h = ground (arith, find_offer-id id os {o = o})

find_offer-set_ne :
    (id : ℕ) (v : Offer) (os : List Offer)
    → id ≢ v.id
    → find_offer id (set_offer v os) ≡ find_offer id os
unfolding find_offer set_offer
find_offer-set_ne id v [] h = refl
find_offer-set_ne id v (x ∷ os) h = ground (arith, find_offer-set_ne id v os h)

some_inj : {A : Type 0} {a b : A} → some a ≡ some b → a ≡ b
some_inj h = cc

both_true : (a b : Bool) → a && b ≡ true → b ≡ true
both_true true b h = h
both_true false b h = cc

-- The row is there, and its id has been given out.
abbrev Has : Offer → Db → Type 0
Has o db = (find_offer o.id db.offers ≡ some o) × (o.id < db.next_id)

module _ (o : Offer) (gone : o.status ≡ deleted) where
  update_own-Has :
      (user id : ℕ) (allowed : OfferStatus → Bool) (set : Offer → Offer)
      → allowed deleted ≡ false
      → ((p : Offer) → (set p).id ≡ p.id)
      → Preserves (Has o) (update_own user id allowed set)
  unfolding update_own
  update_own-Has user id allowed set barred keeps = record {
    at = λ db h. elim (Option-cases (find_offer id db.offers)) [
      | inl absent ↦ rw (absent, update_own) tt
      | inr (p, found) ↦ elim (Bool-cases (p.user_id == user && allowed p.status)) [
        | inr refused ↦ rw (found, update_own) (simp refused tt)
        | inl good ↦ elim (Bool-cases (fits_table (set p))) [
          | inr unfit ↦ rw (found, update_own) (simp (good, unfit) tt)
          | inl fit ↦ rw (found, update_own) (simp (good, fit) (written db p h found good))
        ]
      ]
    ];
  }
    where
      written :
          (db : Db) (p : Offer)
          → Has o db
          → find_offer id db.offers ≡ some p
          → p.user_id == user && allowed p.status ≡ true
          → Has o (record db { offers = set_offer (set p) db.offers })
      written db p h found good =
          let ne : o.id ≢ (set p).id = λ e.
            let same : p ≡ o = some_inj (
              sym found
              ∙ ap (λ i. find_offer i db.offers)
                  (sym (e ∙ keeps p ∙ find_offer-id id db.offers found))
              ∙ h.0) in
            cc (
              sym (both_true (p.user_id == user) (allowed p.status) good)
              ∙ ap (λ (r : Offer). allowed r.status) same
              ∙ ap allowed gone
              ∙ barred) in
          (find_offer-set_ne o.id (set p) db.offers ne ∙ h.0, h.1)

  insert_offer-Has : (p : Offer) → o.id ≢ p.id → Preserves (Has o) (insert_offer p)
  unfolding insert_offer find_offer
  insert_offer-Has p ne = record {
    at = λ db h. elim (Bool-cases (fits_table p)) [
      | inr unfit ↦ simp unfit tt
      | inl fit ↦ simp fit (let apart : (p.id == o.id) ≡ false = ground arith in rw apart h.0, h.1)
    ];
  }

  account-Has :
      (p : Option ℕ) (k : AccountKind) (c : AssetCode)
      → Preserves (Has o) (on_ledger (get_or_create_account p k c))
  account-Has p k c = on_ledger-Preserves (get_or_create_account p k c) (λ db a l e h. h)

  posting-Has : (input : JournalInput) → Preserves (Has o) (on_ledger (post_journal input))
  posting-Has input = on_ledger-Preserves (post_journal input) (λ db a l e h. h)

  gets-Has : {A : Type 0} (f : Db → A) → Preserves (Has o) (gets f)
  gets-Has f = record { at = λ db h. h }

  insert_with_fee-Has :
      (fee : ℕ) (p : Offer) → o.id ≢ p.id → Preserves (Has o) (insert_with_fee fee p)
  unfolding insert_with_fee
  insert_with_fee-Has fee p ne =
      search (preserves_rules, insert_offer-Has, ne, account-Has, posting-Has) depth 12

  available_balance-Has : (user : ℕ) (c : AssetCode) → Preserves (Has o) (available_balance user c)
  unfolding available_balance
  available_balance-Has user c = search (preserves_rules, account-Has, gets-Has) depth 8

  list_offer-Has :
      (aborts : ℕ → Option PgCode) (fee : ℕ) (user : User) (dto : CreateOffer) (db : Db)
      → Has o db
      → Has o (list_offer aborts fee user dto db).1
  unfolding list_offer
  list_offer-Has aborts fee user dto db h =
      let p : Offer = created_offer db.next_id user dto in
      let ne : o.id ≢ p.id = λ e. let older = h.1 in absurd (omega arith) in
      let drawn : Has o (record db { next_id = db.next_id + 1 }) =
        (h.0, let older = h.1 in omega arith) in
      elim (Bool-cases (ltb 0 fee)) [
        | inl paid ↦
            simp paid (with_money_transaction-keeps aborts _ _ (insert_with_fee-Has fee p ne) drawn)
        | inr free ↦ simp free (execute-keeps _ _ (insert_offer-Has p ne) drawn)
      ]

  after_balance-Has :
      (aborts : ℕ → Option PgCode) (fee : ℕ) (user : User) (dto : CreateOffer) (r : Result ℤ × Db)
      → Has o r.1
      → Has o (after_balance aborts fee user dto r).1
  unfolding after_balance
  after_balance-Has aborts fee user dto (err e, db) h = h
  after_balance-Has aborts fee user dto (ok available, db) h =
      elim (Bool-cases (ltb_ℤ available (pos dto.total_amount))) [
        | inl short ↦ simp short h
        | inr enough ↦ simp enough (list_offer-Has aborts fee user dto db h)
      ]

  create_for-Has :
      (aborts : ℕ → Option PgCode) (fee : ℕ) (user : User) (dto : CreateOffer) (side : OfferSide)
      (db : Db)
      → Has o db
      → Has o (create_for aborts fee user dto side db).1
  unfolding create_for
  create_for-Has aborts fee user dto sell db h =
      after_balance-Has aborts fee user dto _
        (execute-keeps _ db (available_balance-Has user.id dto.asset) h)
  create_for-Has aborts fee user dto buy db h = list_offer-Has aborts fee user dto db h

  create_offer-Has :
      (aborts : ℕ → Option PgCode) (fee user : ℕ) (dto : CreateOffer) (db : Db)
      → Has o db
      → Has o (create_offer aborts fee user dto db).1
  unfolding create_offer
  create_offer-Has aborts fee user dto db h = elim (Option-cases (find_user user db.users)) [
    | inl absent ↦ rw (absent, create_offer) h
    | inr (u, found) ↦ elim (Bool-cases (is_active_status u.status)) [
      | inr inactive ↦ rw (found, create_offer) (simp inactive h)
      | inl live ↦ elim (Bool-cases (contains db.enabled_countries u.country)) [
        | inr shut ↦ rw (found, create_offer) (simp (live, shut) h)
        | inl served ↦
            rw (found, create_offer)
              (simp (live, served) (create_for-Has aborts fee u dto dto.side db h))
      ]
    ]
  ]

-- The calls of the service that write.
pub data OfferCall : Type 0 where
  create : (ad_fee user_id : ℕ) → CreateOffer → OfferCall
  update : (user_id offer_id : ℕ) → UpdateOffer → OfferCall
  change : (user_id offer_id : ℕ) → NewStatus → OfferCall

unfoldable pub run_offer : (ℕ → Option PgCode) → OfferCall → Db → Db
run_offer aborts (create fee user dto) db = (create_offer aborts fee user dto db).1
run_offer aborts (update user id dto) db = (update_offer user id dto db).1
run_offer aborts (change user id status) db = (set_offer_status user id status db).1

unfoldable pub run_offers : List ((ℕ → Option PgCode) × OfferCall) → Db → Db
run_offers [] db = db
run_offers ((aborts, call) ∷ calls) db = run_offers calls (run_offer aborts call db)

module _ (o : Offer) (gone : o.status ≡ deleted) where
  run_offer-Has :
      (aborts : ℕ → Option PgCode) (call : OfferCall) (db : Db)
      → Has o db
      → Has o (run_offer aborts call db)
  unfolding run_offer update_offer set_offer_status
  run_offer-Has aborts (create fee user dto) db h = create_offer-Has o gone aborts fee user dto db h
  run_offer-Has aborts (update user id dto) db h =
      execute-keeps _ db
        (update_own-Has o gone user id is_editable (updated_offer dto) refl (λ p. refl)) h
  run_offer-Has aborts (change user id status) db h =
      execute-keeps _ db
        (update_own-Has o gone user id is_not_deleted (λ p. record p { status = new_status status })
          refl (λ p. refl))
        h

  run_offers-Has :
      (calls : List ((ℕ → Option PgCode) × OfferCall)) (db : Db)
      → Has o db
      → Has o (run_offers calls db)
  unfolding run_offers
  run_offers-Has [] db h = h
  run_offers-Has ((aborts, call) ∷ calls) db h =
      run_offers-Has calls (run_offer aborts call db) (run_offer-Has aborts call db h)

-- Whatever calls create, update or change offers, whoever makes them: the row of a deleted offer
-- whose id has been given out stays as it is.
pub deleted_offer_stays :
    (calls : List ((ℕ → Option PgCode) × OfferCall)) (o : Offer) (db : Db)
    → o.status ≡ deleted
    → find_offer o.id db.offers ≡ some o
    → o.id < db.next_id
    → find_offer o.id (run_offers calls db).offers ≡ some o
deleted_offer_stays calls o db gone found older = (run_offers-Has o gone calls db (found, older)).0
