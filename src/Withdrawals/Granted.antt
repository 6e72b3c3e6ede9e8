-- ===== src/Withdrawals/Granted.antt =====
-- What a withdrawal that `request` of WithdrawalsService grants is, beside `quote`
-- (backend/src/modules/withdrawals/withdrawals.service.ts).
use quata_trade.Prelude.{
  ℕ, ◌+◌, ◌≤◌, ◌<◌, ◌≡◌, refl, sym, ◌∙◌, ap, true, Option, none, some, arith, Bool-cases,
  Option-cases, inl, inr, ltb,
}
use quata_trade.Domain.{approved}
use quata_trade.Errors.{PgCode}
use quata_trade.Tx.{Result, ok, err, Service, Result-cases, with_money_transaction}
use quata_trade.Tx.Returns.{Returns-run}
use quata_trade.Tx.Retry.{with_money_transaction-IsAtomic}
use quata_trade.Db.{Db, User, Withdrawal, WithdrawalAddress}
use quata_trade.Risk.{risk_hold_score}
use quata_trade.Tables.{find_user}
use quata_trade.Withdrawals.Factors.{verify_totp, verify_pin}
use quata_trade.Withdrawals.Untouched.{totp_keeps, pin_keeps}
use quata_trade.Withdrawals.Secrets.{find_user-id}
use quata_trade.Withdrawals.Request.{
  WithdrawalRequest, Outside, find_by_key, find_address, daily_withdrawn_amount, withdrawal_charge,
  initial_status, check_account, check_whitelist, check_destination, min_limit, request_tx,
  request_checked, request_new, and_then, request,
}
use quata_trade.Withdrawals.Recorded.{IsRecorded, request_tx_lem}
use quata_trade.Withdrawals.Refused.{IsRefused, unsaved-IsRefused}
use quata_trade.Withdrawals.Reads.{quote}

-- The destination is saved, active, and past its cooldown.
pub record IsUsable (user : ℕ) (o : Outside) (dto : WithdrawalRequest) (db : Db) : Type 0 where
  pub row : WithdrawalAddress
  pub saved : find_address user dto.asset dto.to_address db.withdrawal_addresses ≡ some row
  pub is_active : row.is_active ≡ true
  pub waited : row.usable_at ≤ o.now

-- A row within every cap, charged as it is quoted, to a destination that may be used, and approved
-- without an admin only below both limits.
pub record IsGranted (user_id : ℕ) (o : Outside) (dto : WithdrawalRequest) (db : Db)
    (w : Withdrawal) : Type 0 where
  pub owner : w.user_id ≡ user_id
  pub asset : w.asset ≡ dto.asset
  pub destination : w.to_address ≡ dto.to_address
  pub amount : w.amount ≡ dto.amount
  pub usable : IsUsable user_id o dto db
  pub within_one : dto.amount ≤ o.per_tx_max
  pub within_day :
      daily_withdrawn_amount user_id o.start_of_day db.withdrawals + dto.amount ≤ o.daily_max
  pub user : User
  pub found : find_user user_id db.users ≡ some user
  pub within_tier :
      daily_withdrawn_amount user_id o.start_of_day db.withdrawals + dto.amount
      ≤ o.tier_daily_withdrawal user.kyc_tier
  pub quoted :
      (network_fee : ℕ)
      → quote network_fee o user_id dto.amount db
        ≡ ok (record {
          amount = w.amount;
          fee = w.fee;
          network_fee_estimate = network_fee;
          total = w.amount + w.fee;
        })
  pub unreviewed :
      w.status ≡ approved
      → (dto.amount < o.auto_approve_below)
        × (dto.amount < o.dual_approval_threshold)
        × (w.risk_score < risk_hold_score)

whitelist_ok :
    (now : ℕ) (saved : Option WithdrawalAddress) {u : Unit {0}}
    → check_whitelist now saved ≡ ok u
    → (a : WithdrawalAddress) × (saved ≡ some a) × (a.is_active ≡ true) × (a.usable_at ≤ now)
unfolding check_whitelist
whitelist_ok now none h = cc
whitelist_ok now (some a) h = (a, refl, ground arith, ground arith)

usable_lem :
    (user : User) (o : Outside) (dto : WithdrawalRequest) (db : Db) {p : Unit {0} × Db}
    → check_destination o user dto db ≡ ok p
    → IsUsable user.id o dto db
usable_lem user o dto db h =
    let saved : Option WithdrawalAddress =
      find_address user.id dto.asset dto.to_address db.withdrawal_addresses in
    elim (Result-cases (check_whitelist o.now saved)) [
      | inr (x, e) ↦
          let refused : IsRefused (check_destination o user dto db) =
            unsaved-IsRefused o user dto db (rw e tt) in
          absurd (rw h at refused)
      | inl (u, e) ↦
          let (a, is, active, waited) = whitelist_ok o.now saved e in
          record { row = a; saved = is; is_active = active; waited = waited }
    ]

min_limit_lem : (n a b : ℕ) → n ≤ min_limit a b → n ≤ a
min_limit_lem n a b h = ground arith

min_limit_other : (n a b : ℕ) → n ≤ min_limit a b → n ≤ b
min_limit_other n a b h = ground arith

approved_lem :
    (o : Outside) (score amount : ℕ)
    → (initial_status o score amount).0 ≡ approved
    → (amount < o.auto_approve_below)
      × (amount < o.dual_approval_threshold)
      × (score < risk_hold_score)
unfolding initial_status
approved_lem o score amount h = ground arith

and_then_ok :
    {A : Type 0} (r : Result (Unit {0}) × Db) (k : Service Db A) {a : A} {db' : Db}
    → elim r.0 as (λ _. Result A × Db) [ ok u ↦ k r.1 | err e ↦ (err e, r.1) ] ≡ (ok a, db')
    → k r.1 ≡ (ok a, db')
and_then_ok (ok u, db) k h = h
and_then_ok (err e, db) k h = cc (ap (λ p. p.0) h)

-- What the steps from the destination on settle.
record IsChecked (o : Outside) (user : User) (dto : WithdrawalRequest) (db : Db) (w : Withdrawal)
    : Type 0 where
  usable : IsUsable user.id o dto db
  within_one : dto.amount ≤ o.per_tx_max
  fee : ℕ
  charge : withdrawal_charge o dto.amount ≡ ok fee
  recorded : IsRecorded o user dto fee db.withdrawals w

module _ (aborts : ℕ → Option PgCode) (o : Outside) (user : User) (dto : WithdrawalRequest)
    (w : Withdrawal) where
  committed :
      (fee : ℕ) (db db' : Db)
      → find_by_key dto.idempotency_key db.withdrawals ≡ none
      → with_money_transaction aborts (request_tx o user dto fee) db ≡ (ok w, db')
      → IsRecorded o user dto fee db.withdrawals w
  committed fee db db' fresh h =
      Returns-run (request_tx o user dto fee) db
        (request_tx_lem o user dto fee db.withdrawals fresh) refl
        (rw h at (with_money_transaction-IsAtomic aborts (request_tx o user dto fee) db))

  checked_lem :
      (db db' : Db)
      → find_by_key dto.idempotency_key db.withdrawals ≡ none
      → request_checked aborts o user dto db ≡ (ok w, db')
      → IsChecked o user dto db w
  unfolding request_checked
  checked_lem db db' fresh h = elim (Result-cases (check_destination o user dto db)) [
    | inr (x, e) ↦ cc (ap (λ p. p.0) (rw (e, request_checked) at h))
    | inl (p, e) ↦ elim (Result-cases (withdrawal_charge o dto.amount)) [
      | inr (x, e') ↦ cc (ap (λ p. p.0) (rw (e, e', request_checked) at h))
      | inl (fee, e') ↦ elim (Bool-cases (ltb o.per_tx_max dto.amount)) [
        | inl above ↦ cc (ap (λ p. p.0) (rw (e, e', above, request_checked) at h))
        | inr within ↦ record {
          usable = usable_lem user o dto db e;
          within_one = ground arith;
          fee = fee;
          charge = e';
          recorded = committed fee db db' fresh (rw (e, e', within, request_checked) at h);
        }
      ]
    ]
  ]

  new_lem :
      (db db' : Db)
      → find_by_key dto.idempotency_key db.withdrawals ≡ none
      → request_new aborts o user dto db ≡ (ok w, db')
      → (t : Db) × (t ≡ record db { users = t.users }) × IsChecked o user dto t w
  unfolding request_new and_then
  new_lem db db' fresh h = elim (Result-cases (check_account user)) [
    | inr (x, e) ↦ cc (ap (λ p. p.0) (rw (e, request_new) at h))
    | inl (u, e) ↦
        let after_totp : Db = (verify_totp user o.totp_step db).1 in
        let after_pin : Db = (verify_pin user o.now o.pin_matches after_totp).1 in
        let same : after_pin ≡ record db { users = after_pin.users } =
          pin_keeps user o.now o.pin_matches after_totp
          ∙ ap {A = Db} (λ t. record t { users = after_pin.users })
              (totp_keeps user o.totp_step db) in
        let at_pin : and_then (verify_pin user o.now o.pin_matches)
              (request_checked aborts o user dto) after_totp
            ≡ (ok w, db') =
          and_then_ok (verify_totp user o.totp_step db)
            (and_then (verify_pin user o.now o.pin_matches) (request_checked aborts o user dto))
            (rw (e, request_new) at h) in
        let passed : request_checked aborts o user dto after_pin ≡ (ok w, db') =
          and_then_ok (verify_pin user o.now o.pin_matches after_totp)
            (request_checked aborts o user dto) at_pin in
        (
          after_pin,
          same,
          checked_lem after_pin db'
              (ap (λ t. find_by_key dto.idempotency_key t.withdrawals) same ∙ fresh) passed,
        )
  ]

quote_lem :
    (network_fee : ℕ) (o : Outside) (user_id : ℕ) (db : Db) {user : User} {amount fee : ℕ}
    → find_user user_id db.users ≡ some user
    → withdrawal_charge o amount ≡ ok fee
    → quote network_fee o user_id amount db
      ≡ ok (record {
        amount = amount;
        fee = fee;
        network_fee_estimate = network_fee;
        total = amount + fee;
      })
unfolding quote
quote_lem network_fee o user_id db found charge = rw (found, charge, quote) refl

module _ (user_id : ℕ) (o : Outside) (dto : WithdrawalRequest) (db t : Db) (user : User)
    (w : Withdrawal) where
  granted_lem :
      find_user user_id db.users ≡ some user
      → t ≡ record db { users = t.users }
      → IsChecked o user dto t w
      → IsGranted user_id o dto db w
  granted_lem found same c =
      let id : user.id ≡ user_id = find_user-id user_id db.users found in
      let lists : t.withdrawals ≡ db.withdrawals = ap (λ s. s.withdrawals) same in
      let r = c.recorded in
      record {
        owner = r.owner ∙ id;
        asset = r.asset;
        destination = r.destination;
        amount = r.amount;
        usable = record {
          row = c.usable.row;
          saved =
              ap (λ n. find_address n dto.asset dto.to_address db.withdrawal_addresses) (sym id)
              ∙ ap (λ s. find_address user.id dto.asset dto.to_address s.withdrawal_addresses)
                  (sym same)
              ∙ c.usable.saved;
          is_active = c.usable.is_active;
          waited = c.usable.waited;
        };
        within_one = c.within_one;
        within_day =
            rw (id, lists) at
              (min_limit_lem _ o.daily_max (o.tier_daily_withdrawal user.kyc_tier) r.below_caps);
        user = user;
        found = found;
        within_tier =
            rw (id, lists) at
              (min_limit_other _ o.daily_max (o.tier_daily_withdrawal user.kyc_tier) r.below_caps);
        quoted = λ n. rw (r.amount, r.charge) (quote_lem n o user_id db found c.charge);
        unreviewed =
            λ approved_now. approved_lem o w.risk_score dto.amount (sym r.status ∙ approved_now);
      }

-- A request under a new key that succeeds returns a withdrawal of the user who asks, of the asset,
-- the amount and the destination asked for, charged as the quote for that amount says. The
-- destination is saved, active and past its cooldown, the amount is within the limit of one
-- withdrawal, with what was used today within the platform's limit of the day and that of the
-- user's tier, and it is approved at once only below both limits of automatic approval and below
-- the score for a hold.
pub request_grants :
    (aborts : ℕ → Option PgCode) (o : Outside) (user_id : ℕ) (dto : WithdrawalRequest) (db db' : Db)
    (w : Withdrawal)
    → find_by_key dto.idempotency_key db.withdrawals ≡ none
    → request aborts o user_id dto db ≡ (ok w, db')
    → IsGranted user_id o dto db w
unfolding request
request_grants aborts o user_id dto db db' w fresh h = elim (Bool-cases o.withdrawals_paused) [
  | inl paused ↦ cc (ap (λ p. p.0) (rw (paused, request) at h))
  | inr running ↦ elim (Option-cases (find_user user_id db.users)) [
    | inl unknown ↦ cc (ap (λ p. p.0) (rw (running, fresh, unknown, request) at h))
    | inr (user, found) ↦
        let (t, same, checked) =
          new_lem aborts o user dto w db db' fresh (rw (running, fresh, found, request) at h) in
        granted_lem user_id o dto db t user w found same checked
  ]
]
