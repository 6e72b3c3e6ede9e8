-- ===== src/Withdrawals/Refused.antt =====
-- When `request` of WithdrawalsService (backend/src/modules/withdrawals/withdrawals.service.ts)
-- refuses, step by step.
use quata_trade.Prelude.{
  ℕ, ◌<◌, ◌≡◌, refl, true, Option, none, some, contains, arith, Bool-cases, inl, inr, ltb,
}
use quata_trade.Errors.{PgCode}
use quata_trade.Tx.{Result, ok, err, Service, Result-cases}
use quata_trade.Db.{Db, User, WithdrawalAddress}
use quata_trade.Withdrawals.Factors.{is_locked}
use quata_trade.Withdrawals.Request.{
  WithdrawalRequest, Outside, find_address, check_whitelist, check_destination, request_checked,
  and_then,
}

abbrev pub IsRefused : {A : Type 0} → Result A → Type 0
IsRefused (ok a) = ⊥
IsRefused (err e) = Unit

module _ {B : Type 0} where
  then-IsRefused :
      (r : Result (Unit {0}) × Db) (k : Service Db B)
      → IsRefused (k r.1).0
      → IsRefused (elim r.0 as (λ _. Result B × Db) [ ok u ↦ k r.1 | err e ↦ (err e, r.1) ]).0
  then-IsRefused (ok u, db) k h = h
  then-IsRefused (err e, db) k h = tt

  -- The first service call leaves tables from which the second is refused.
  pub and_then-IsRefused :
      (m : Service Db (Unit {0})) (k : Service Db B) (db : Db)
      → IsRefused (k (m db).1).0
      → IsRefused (and_then m k db).0
  unfolding and_then
  and_then-IsRefused m k db h = then-IsRefused (m db) k h

pub whitelist-IsRefused :
    (now : ℕ) (saved : Option WithdrawalAddress)
    → ((a : WithdrawalAddress) → saved ≡ some a → now < a.usable_at)
    → IsRefused (check_whitelist now saved)
unfolding check_whitelist
whitelist-IsRefused now none h = tt
whitelist-IsRefused now (some a) h = elim (Bool-cases a.is_active) [
  | inl active ↦
      let early : ltb now a.usable_at ≡ true = ground (arith, h a refl) in rw (active, early) tt
  | inr inactive ↦ rw inactive tt
]

module _ (o : Outside) (user : User) (dto : WithdrawalRequest) where
  pub unsaved-IsRefused :
      (db : Db)
      → IsRefused (
          check_whitelist o.now
            (find_address user.id dto.asset dto.to_address db.withdrawal_addresses))
      → IsRefused (check_destination o user dto db)
  unfolding check_destination
  unsaved-IsRefused db refused =
      elim (Result-cases (
        check_whitelist o.now
          (find_address user.id dto.asset dto.to_address db.withdrawal_addresses))) [
            | inl (u, e) ↦ absurd (rw e at refused)
            | inr (x, e) ↦ elim (Bool-cases o.is_tron_address) [
              | inr foreign ↦ simp (check_destination, foreign) tt
              | inl tron ↦ elim (Bool-cases (contains db.deposit_addresses dto.to_address)) [
                | inl own ↦ simp (check_destination, tron, own) tt
                | inr other ↦ elim (Bool-cases (is_locked user.withdrawal_hold_until o.now)) [
                  | inl locked ↦ simp (check_destination, tron, other, locked) tt
                  | inr free ↦ simp (check_destination, tron, other, free, e) tt
                ]
              ]
            ]
          ]

  pub checked-IsRefused :
      (aborts : ℕ → Option PgCode) (db : Db)
      → IsRefused (check_destination o user dto db)
      → IsRefused (request_checked aborts o user dto db).0
  unfolding request_checked
  checked-IsRefused aborts db h = elim (Result-cases (check_destination o user dto db)) [
    | inl (p, e) ↦ absurd (rw e at h)
    | inr (x, e) ↦ rw (e, request_checked) tt
  ]
