-- ===== src/Ledger/Legs.antt =====
-- What `validate` establishes of the legs of a journal.
use quata_trade.Prelude.{
  ℕ, ◌≡◌, ◌≢◌, ap, ℤ, pos, ◌+ℤ◌, int_laws, true, false, List, [], ◌∷◌, All, contains, ◌==◌,
  if◌then◌else◌, arith, +ℤ_assoc, zero_+ℤ, sym, ◌∙◌, length, ◌≤◌,
}
use quata_trade.Tx.{ok}
use quata_trade.Ledger.{Leg, JournalInput, scan_legs, validate, key_length}

-- The sum of the amounts of all legs.
abbrev pub legs_sum : List Leg → ℤ
legs_sum [] = pos 0
legs_sum (leg ∷ legs) = leg.amount +ℤ legs_sum legs

-- What the legs move on one account.
abbrev pub net : ℕ → List Leg → ℤ
net a [] = pos 0
net a (leg ∷ legs) = if leg.account_id == a then leg.amount +ℤ net a legs else net a legs

abbrev pub Avoids : ℕ → List Leg → Type 0
Avoids a = All (λ leg. leg.account_id ≢ a)

-- No account occurs twice.
abbrev pub Distinct : List Leg → Type 0
Distinct [] = Unit
Distinct (leg ∷ legs) = Avoids leg.account_id legs × Distinct legs

abbrev pub NonZero : List Leg → Type 0
NonZero = All (λ leg. leg.amount ≢ pos 0)

-- What the loop has checked of the legs that it has yet to pass, given the accounts seen.
abbrev pub Fresh : List ℕ → List Leg → Type 0
Fresh seen [] = Unit
Fresh seen (leg ∷ legs) =
    (contains seen leg.account_id ≡ false)
    × (leg.amount ≢ pos 0)
    × Fresh (leg.account_id ∷ seen) legs

scan_legs-Fresh :
    (legs : List Leg) (seen : List ℕ) (sum : ℤ) {total : ℤ}
    → scan_legs legs seen sum ≡ ok total
    → Fresh seen legs × (total ≡ sum +ℤ legs_sum legs)
unfolding scan_legs
scan_legs-Fresh [] seen sum h = (tt, grind int_laws)
scan_legs-Fresh (leg ∷ legs) seen sum {total} h = ground (
  arith,
  scan_legs-Fresh legs (leg.account_id ∷ seen) (sum +ℤ leg.amount) {total = total},
  +ℤ_assoc sum leg.amount (legs_sum legs),
)

Fresh-Avoids :
    (a : ℕ) (legs : List Leg) (seen : List ℕ)
    → contains seen a ≡ true
    → Fresh seen legs
    → Avoids a legs
Fresh-Avoids a [] seen h f = tt
Fresh-Avoids a (leg ∷ legs) seen h f =
    (λ e. cc (ap (contains seen) e), Fresh-Avoids a legs (leg.account_id ∷ seen) (ground arith) f.2)

Fresh-Distinct : (legs : List Leg) (seen : List ℕ) → Fresh seen legs → Distinct legs
Fresh-Distinct [] seen f = tt
Fresh-Distinct (leg ∷ legs) seen f = (
  Fresh-Avoids leg.account_id legs (leg.account_id ∷ seen) (ground arith) f.2,
  Fresh-Distinct legs (leg.account_id ∷ seen) f.2,
)

Fresh-NonZero : (legs : List Leg) (seen : List ℕ) → Fresh seen legs → NonZero legs
Fresh-NonZero [] seen f = tt
Fresh-NonZero (leg ∷ legs) seen f = (f.1, Fresh-NonZero legs (leg.account_id ∷ seen) f.2)

-- A journal that `validate` lets through.
pub record IsBalanced (input : JournalInput) : Type 0 where
  pub two_legs : 2 ≤ length input.legs
  pub distinct : Distinct input.legs
  pub non_zero : NonZero input.legs
  pub balanced : legs_sum input.legs ≡ pos 0
  pub long_key : 8 ≤ key_length input.idempotency_key

scanned :
    (input : JournalInput) {u : Unit {0}}
    → validate input ≡ ok u
    → (2 ≤ length input.legs)
      × (scan_legs input.legs [] (pos 0) ≡ ok (pos 0))
      × (8 ≤ key_length input.idempotency_key)
unfolding validate
scanned input h = ground arith

pub validate-IsBalanced :
    (input : JournalInput) {u : Unit {0}} → validate input ≡ ok u → IsBalanced input
validate-IsBalanced input h =
    let (two, scan, long) = scanned input h in
    let (fresh, sum) = scan_legs-Fresh input.legs [] (pos 0) scan in
    record {
      two_legs = two;
      distinct = Fresh-Distinct input.legs [] fresh;
      non_zero = Fresh-NonZero input.legs [] fresh;
      balanced = sym (sum ∙ zero_+ℤ _);
      long_key = long;
    }
