-- ===== src/Withdrawals/Secrets.antt =====
-- The second factors of a withdrawal: `verifyTotp` and `verifyPin` of WithdrawalsService
-- (backend/src/modules/withdrawals/withdrawals.service.ts).
use quata_trade.Prelude.{
  ℕ, ◌≤◌, ◌≡◌, refl, ap, ◌∙◌, sym, true, false, some, Option-cases, Bool-cases, inl, inr, List, [],
  ◌∷◌, ◌==◌, arith,
}
use quata_trade.Errors.{withdrawal_verification}
use quata_trade.Tx.{ok, err}
use quata_trade.Db.{Db, User}
use quata_trade.Tables.{find_user, update_user}
use quata_trade.Withdrawals.Factors.{consume_step, accept_step, verify_totp, is_fresh_step}

pub find_user-id : (id : ℕ) (us : List User) {u : User} → find_user id us ≡ some u → u.id ≡ id
unfolding find_user
find_user-id id [] h = cc
find_user-id id (x ∷ us) {u} h = ground (arith, find_user-id id us {u = u})

find_user-update_user :
    (id : ℕ) (set : User → User) (us : List User) {u : User}
    → ((v : User) → (set v).id ≡ v.id)
    → find_user id us ≡ some u
    → find_user id (update_user id set us) ≡ some (set u)
unfolding find_user update_user
find_user-update_user id set [] keeps h = cc
find_user-update_user id set (x ∷ us) {u} keeps h = elim (Bool-cases (x.id == id)) [
  | inl here ↦
      let same : x ≡ u = cc (rw here at h) in
      let set_here : ((set x).id == id) ≡ true = ap (λ n. n == id) (keeps x) ∙ here in
      rw (here, set_here) (ap (λ v. some (set v)) same)
  | inr later ↦ rw (later, later) (find_user-update_user id set us keeps (rw later at h))
]

-- The row once a step was accepted.
abbrev stepped : ℕ → User → User
stepped step u = record u { totp_last_step = some step }

consume_ok :
    (id step : ℕ) (db db' : Db) {u : Unit {0}}
    → consume_step id step db ≡ (ok u, db')
    → (row : User) × (find_user id db'.users ≡ some row) × (row.totp_last_step ≡ some step)
unfolding consume_step
consume_ok id step db db' h = elim (Option-cases (find_user id db.users)) [
  | inl absent ↦ cc (ap (λ p. p.0) (rw (absent, consume_step) at h))
  | inr (row, found) ↦ elim (Bool-cases (is_fresh_step row.totp_last_step step)) [
    | inr used ↦ cc (ap (λ p. p.0) (rw (found, used, consume_step) at h))
    | inl fresh ↦ (
      stepped step row,
      ap (λ us. find_user id us) (sym (ap (λ p. p.1.users) (rw (found, fresh, consume_step) at h)))
          ∙ find_user-update_user id (stepped step) db.users (λ v. refl) found,
      refl,
    )
  ]
]

refused_step :
    (id step : ℕ) (db : Db) (row : User)
    → find_user id db.users ≡ some row
    → is_fresh_step row.totp_last_step step ≡ false
    → consume_step id step db ≡ (err withdrawal_verification, db)
unfolding consume_step
refused_step id step db row found used = rw (found, used, consume_step) refl

-- After a one-time code was accepted, no code of the same or an earlier time step is accepted for
-- that user, and the refusal writes nothing.
pub totp_used_once :
    (user again : User) (step other : ℕ) (db db' : Db)
    → verify_totp user (some step) db ≡ (ok tt, db')
    → again.id ≡ user.id
    → other ≤ step
    → verify_totp again (some other) db' ≡ (err withdrawal_verification, db')
unfolding verify_totp accept_step
totp_used_once user again step other db db' h same earlier =
    elim (Bool-cases user.has_totp_secret) [
      | inr no_secret ↦ cc (ap (λ p. p.0) (rw (no_secret, verify_totp) at h))
      | inl secret ↦
          let (row, found, last) = consume_ok user.id step db db' (rw (secret, verify_totp) at h) in
          elim (Bool-cases again.has_totp_secret) [
            | inr none_left ↦ rw (none_left, verify_totp) refl
            | inl has ↦
                rw (has, verify_totp)
                  (refused_step again.id other db' row
                    (ap (λ n. find_user n db'.users) same ∙ found)
                    (rw last (ground (arith, earlier))))
          ]
    ]
