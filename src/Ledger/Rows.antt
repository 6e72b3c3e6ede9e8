-- ===== src/Ledger/Rows.antt =====
-- The rows of `account_balances` under the updates of a journal.
use quata_trade.Prelude.{
  ℕ, ◌+◌, ◌≡◌, ◌≢◌, refl, sym, ap, ◌∙◌, ℤ, pos, ◌+ℤ◌, int_laws, true, Option, none, some,
  Option-cases, Bool-cases, inl, inr, List, [], ◌∷◌, All, ◌==◌, if◌then◌else◌, arith, zero_+ℤ,
  +ℤ_comm, ◌⊎◌, ◌≤ℤ◌,
}
use quata_trade.Ledger.{
  Leg, Balance, find_balance, set_balance, apply_updates, balance_of, compute_updates, new_balance,
}
use quata_trade.Domain.{is_external}
use quata_trade.Ledger.Legs.{legs_sum, net, Avoids, Distinct}
use quata_trade.Tx.{ok, Result-cases}

-- The row of one account with an amount added.
unfoldable pub credit : Leg → List Balance → List Balance
credit leg [] = []
credit leg (b ∷ bs) =
    if b.account_id == leg.account_id
    then (record b { balance = b.balance +ℤ leg.amount; version = b.version + 1 }) ∷ bs
    else b ∷ credit leg bs

-- The legs added one after another: the meaning of a journal.
unfoldable pub apply_legs : List Leg → List Balance → List Balance
apply_legs [] bs = bs
apply_legs (leg ∷ legs) bs = apply_legs legs (credit leg bs)

pub find_balance-id :
    (a : ℕ) (bs : List Balance) {b : Balance} → find_balance a bs ≡ some b → b.account_id ≡ a
unfolding find_balance
find_balance-id a [] h = cc
find_balance-id a (x ∷ bs) {b} h = ground (arith, find_balance-id a bs {b = b})

set_balance-eq-credit :
    (leg : Leg) (bs : List Balance) {b : Balance}
    → find_balance leg.account_id bs ≡ some b
    → set_balance leg.account_id (b.balance +ℤ leg.amount) bs ≡ credit leg bs
unfolding find_balance set_balance credit
set_balance-eq-credit leg [] h = refl
set_balance-eq-credit leg (x ∷ bs) {b} h = ground (arith, set_balance-eq-credit leg bs {b = b})

pub find_balance-credit_ne :
    (a : ℕ) (leg : Leg) (bs : List Balance)
    → a ≢ leg.account_id
    → find_balance a (credit leg bs) ≡ find_balance a bs
unfolding find_balance credit
find_balance-credit_ne a leg [] h = refl
find_balance-credit_ne a leg (x ∷ bs) h = ground (arith, find_balance-credit_ne a leg bs)

abbrev pub credited : ℤ → Option Balance → Option Balance
credited v none = none
credited v (some b) = some (record b { balance = b.balance +ℤ v; version = b.version + 1 })

pub find_balance-credit_self :
    (leg : Leg) (bs : List Balance)
    → find_balance leg.account_id (credit leg bs)
      ≡ credited leg.amount (find_balance leg.account_id bs)
unfolding find_balance credit
find_balance-credit_self leg [] = refl
find_balance-credit_self leg (x ∷ bs) = ground (arith, find_balance-credit_self leg bs)

-- The rows that the updates were computed from, and those that they are written to.
abbrev pub Agrees : List Leg → List Balance → List Balance → Type 0
Agrees legs locked bs =
    All (λ leg. find_balance leg.account_id bs ≡ find_balance leg.account_id locked) legs

Agrees-credit :
    (leg : Leg) (legs : List Leg) (locked bs : List Balance)
    → Avoids leg.account_id legs
    → Agrees legs locked bs
    → Agrees legs locked (credit leg bs)
Agrees-credit leg [] locked bs h a = tt
Agrees-credit leg (x ∷ legs) locked bs h a =
    (find_balance-credit_ne x.account_id leg bs h.0 ∙ a.0, Agrees-credit leg legs locked bs h.1 a.1)

new_balance-found :
    (leg : Leg) (locked : List Balance) {v : ℤ}
    → new_balance leg locked ≡ ok v
    → (b : Balance) × (find_balance leg.account_id locked ≡ some b) × (v ≡ b.balance +ℤ leg.amount)
unfolding new_balance
new_balance-found leg locked h = elim (Option-cases (find_balance leg.account_id locked)) [
  | inl e ↦ cc (rw (e, new_balance) at h)
  | inr (b, e) ↦ (b, e, ground arith)
]

compute_updates-cons :
    (leg : Leg) (legs : List Leg) (locked : List Balance) {us : List (ℕ × ℤ)}
    → compute_updates (leg ∷ legs) locked ≡ ok us
    → (v : ℤ) × (rest : List (ℕ × ℤ)) × (new_balance leg locked ≡ ok v)
      × (compute_updates legs locked ≡ ok rest)
      × (us ≡ (leg.account_id, v) ∷ rest)
unfolding compute_updates
compute_updates-cons leg legs locked h = elim (Result-cases (new_balance leg locked)) [
  | inr (e, bad) ↦ cc (rw (bad, compute_updates) at h)
  | inl (v, good) ↦ elim (Result-cases (compute_updates legs locked)) [
    | inr (e, bad) ↦ cc (rw (good, bad, compute_updates) at h)
    | inl (rest, more) ↦ (v, rest, good, more, ground arith)
  ]
]

-- The balances computed from the rows as they were locked are those of the legs added in turn.
pub apply_updates-eq-apply_legs :
    (legs : List Leg) (locked bs : List Balance) {us : List (ℕ × ℤ)}
    → Distinct legs
    → Agrees legs locked bs
    → compute_updates legs locked ≡ ok us
    → apply_updates us bs ≡ apply_legs legs bs
unfolding compute_updates apply_updates apply_legs
apply_updates-eq-apply_legs [] locked bs d a h = ground arith
apply_updates-eq-apply_legs (leg ∷ legs) locked bs d a h =
    let (v, rest, hv, hr, hu) = compute_updates-cons leg legs locked h in
    let (b, found, sum) = new_balance-found leg locked hv in
    ap (λ u. apply_updates u bs) hu
    ∙ ap (λ w. apply_updates rest (set_balance leg.account_id w bs)) sum
    ∙ ap (apply_updates rest) (set_balance-eq-credit leg bs (a.0 ∙ found))
    ∙ apply_updates-eq-apply_legs legs locked (credit leg bs) d.1
        (Agrees-credit leg legs locked bs d.0 a.1) hr

-- ------------------------------------------------- what the legs do to the balances

balance_of-credit :
    (a : ℕ) (leg : Leg) (bs : List Balance)
    → find_balance leg.account_id bs ≢ none
    → balance_of a (credit leg bs)
      ≡ (if leg.account_id == a then leg.amount +ℤ balance_of a bs else balance_of a bs)
unfolding balance_of
balance_of-credit a leg bs h = elim (Option-cases (find_balance leg.account_id bs)) [
  | inl absent ↦ absurd (h absent)
  | inr (b, found) ↦ ground (
    arith,
    find_balance-credit_ne a leg bs,
    find_balance-credit_self leg bs,
    +ℤ_comm b.balance leg.amount,
  )
]

-- Every leg's account has a balance row.
abbrev pub Present : List Leg → List Balance → Type 0
Present legs bs = All (λ leg. find_balance leg.account_id bs ≢ none) legs

Present-credit :
    (leg : Leg) (legs : List Leg) (bs : List Balance)
    → Present legs bs
    → Present legs (credit leg bs)
Present-credit leg [] bs h = tt
Present-credit leg (x ∷ legs) bs h = (
  ground (arith, find_balance-credit_ne x.account_id leg bs, find_balance-credit_self leg bs, h.0),
  Present-credit leg legs bs h.1,
)

-- Each account's balance moves by what the legs move on it.
pub balance_of-apply_legs :
    (a : ℕ) (legs : List Leg) (bs : List Balance)
    → Present legs bs
    → balance_of a (apply_legs legs bs) ≡ net a legs +ℤ balance_of a bs
unfolding apply_legs
balance_of-apply_legs a [] bs h = sym (zero_+ℤ _)
balance_of-apply_legs a (leg ∷ legs) bs h =
    balance_of-apply_legs a legs (credit leg bs) (Present-credit leg legs bs h.1)
    ∙ ap (λ v. net a legs +ℤ v) (balance_of-credit a leg bs h.0)
    ∙ elim (Bool-cases (leg.account_id == a)) [
      | inl same ↦ rw same (omega int_laws)
      | inr other ↦ rw other refl
    ]

-- The sum of all cached balances.
abbrev pub total : List Balance → ℤ
total [] = pos 0
total (b ∷ bs) = b.balance +ℤ total bs

total-credit :
    (leg : Leg) (bs : List Balance)
    → find_balance leg.account_id bs ≢ none
    → total (credit leg bs) ≡ leg.amount +ℤ total bs
unfolding find_balance credit
total-credit leg [] h = absurd (h refl)
total-credit leg (x ∷ bs) h = grind (int_laws, total-credit leg bs)

pub total-apply_legs :
    (legs : List Leg) (bs : List Balance)
    → Present legs bs
    → total (apply_legs legs bs) ≡ legs_sum legs +ℤ total bs
unfolding apply_legs
total-apply_legs [] bs h = sym (zero_+ℤ _)
total-apply_legs (leg ∷ legs) bs h =
    total-apply_legs legs (credit leg bs) (Present-credit leg legs bs h.1)
    ∙ ap (λ v. legs_sum legs +ℤ v) (total-credit leg bs h.0)
    ∙ omega int_laws

-- ------------------------------------------------- no account is overdrawn

-- An account of the users or of the platform holds zero or more.
abbrev pub NonNegative : List Balance → Type 0
NonNegative = All (λ b. (is_external b.kind ≡ true) ⊎ (pos 0 ≤ℤ b.balance))

abbrev Covered : Leg → List Balance → Type 0
Covered leg bs =
    (b : Balance)
    → find_balance leg.account_id bs ≡ some b
    → (is_external b.kind ≡ true) ⊎ (pos 0 ≤ℤ b.balance +ℤ leg.amount)

NonNegative-credit :
    (leg : Leg) (bs : List Balance) → NonNegative bs → Covered leg bs → NonNegative (credit leg bs)
unfolding credit find_balance
NonNegative-credit leg [] n c = tt
NonNegative-credit leg (x ∷ bs) n c = elim (Bool-cases (x.account_id == leg.account_id)) [
  | inl same ↦ rw same (c x (rw same refl), n.1)
  | inr other ↦ rw other (n.0, NonNegative-credit leg bs n.1 (λ b h. c b (rw other h)))
]

new_balance-Covered :
    (leg : Leg) (locked : List Balance) {v : ℤ} → new_balance leg locked ≡ ok v → Covered leg locked
unfolding new_balance
new_balance-Covered leg locked h b found = ground arith

pub NonNegative-apply_legs :
    (legs : List Leg) (locked bs : List Balance) {us : List (ℕ × ℤ)}
    → Distinct legs
    → Agrees legs locked bs
    → compute_updates legs locked ≡ ok us
    → NonNegative bs
    → NonNegative (apply_legs legs bs)
unfolding apply_legs
NonNegative-apply_legs [] locked bs d a h n = n
NonNegative-apply_legs (leg ∷ legs) locked bs d a h n =
    let (v, rest, hv, hr, _) = compute_updates-cons leg legs locked h in
    NonNegative-apply_legs legs locked (credit leg bs) d.1
      (Agrees-credit leg legs locked bs d.0 a.1) hr
      (NonNegative-credit leg bs n λ b e. new_balance-Covered leg locked hv b (sym a.0 ∙ e))

-- A leg whose new balance was computed has a row.
pub compute_updates-Present :
    (legs : List Leg) (locked bs : List Balance) {us : List (ℕ × ℤ)}
    → Agrees legs locked bs
    → compute_updates legs locked ≡ ok us
    → Present legs bs
compute_updates-Present [] locked bs a h = tt
compute_updates-Present (leg ∷ legs) locked bs a h =
    let (v, rest, hv, hr, _) = compute_updates-cons leg legs locked h in
    let (b, found, _) = new_balance-found leg locked hv in
    (λ absent. cc (sym absent ∙ a.0 ∙ found), compute_updates-Present legs locked bs a.1 hr)
