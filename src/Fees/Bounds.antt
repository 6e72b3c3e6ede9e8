-- ===== src/Fees/Bounds.antt =====
-- The fee functions: rounding, conservation, and when they throw.
use quata_trade.Prelude.{
  ℕ, zero, suc, ◌+◌, ◌*◌, ◌/◌, ◌^◌, ◌≤◌, ◌<◌, ◌≡◌, ◌↔◌, inl, inr, refl, sym, ◌∙◌, ℤ, pos, negsuc,
  ◌+ℤ◌, ◌-ℤ◌, ◌≤ℤ◌, int_laws, Bool-cases, ltb, ltb→lt, eqb_ℤ_self, arith,
}
use native.Mathlib.Nat.{pow-suc}
use quata_trade.Tx.{ok, IsOk}
use quata_trade.Fees.{
  Number, integer, not_integer, compute_fee, FeeSplit, split, PerSideSplit, split_per_side,
  fiat_value_xaf,
}

-- The rates that the fee functions accept.
abbrev pub IsRate : Number → Type 0
IsRate not_integer = ⊥
IsRate (integer (negsuc n)) = ⊥
IsRate (integer (pos bps)) = bps ≤ 9999

abbrev pub bps_of : Number → ℕ
bps_of not_integer = 0
bps_of (integer (negsuc n)) = 0
bps_of (integer (pos bps)) = bps

ok_injective : {A : Type 0} {a b : A} → ok a ≡ ok b → a ≡ b
ok_injective h = cc

bps_of-le : (bps : Number) → IsRate bps → bps_of bps ≤ 9999
bps_of-le not_integer h = absurd h
bps_of-le (integer (negsuc n)) h = absurd h
bps_of-le (integer (pos b)) h = h

compute_fee_ok :
    (amount : ℕ) (bps : Number)
    → IsRate bps
    → compute_fee (pos amount) bps ≡ ok (amount * bps_of bps / 10_000)
unfolding compute_fee
compute_fee_ok amount not_integer h = absurd h
compute_fee_ok amount (integer (negsuc n)) h = absurd h
compute_fee_ok amount (integer (pos bps)) h = ground arith

compute_fee-IsRate :
    (amount : ℤ) (bps : Number) {fee : ℕ}
    → compute_fee amount bps ≡ ok fee
    → IsRate bps × (pos 0 ≤ℤ amount)
unfolding compute_fee
compute_fee-IsRate (negsuc n) bps h = cc
compute_fee-IsRate (pos amount) not_integer h = cc
compute_fee-IsRate (pos amount) (integer (negsuc n)) h = cc
compute_fee-IsRate (pos amount) (integer (pos bps)) h = ground arith

scaled : (n b : ℕ) → b ≤ 9999 → n * b ≤ n * 9999
scaled n b h = grind arith

-- The fee is the product with the rate in basis points, rounded down: it never exceeds the exact
-- share, misses it by less than one unit, and is less than any positive amount.
pub compute_fee_bounds :
    (amount : ℕ) (bps : Number) {fee : ℕ}
    → compute_fee (pos amount) bps ≡ ok fee
    → (fee * 10_000 ≤ amount * bps_of bps)
      × (amount * bps_of bps < (fee + 1) * 10_000)
      × (0 < amount → fee < amount)
compute_fee_bounds amount bps {fee} h =
    let rate = compute_fee-IsRate (pos amount) bps h in
    let value : fee ≡ amount * bps_of bps / 10_000 =
      ok_injective (sym h ∙ compute_fee_ok amount bps rate.0) in
    let below : bps_of bps ≤ 9999 = bps_of-le bps rate.0 in
    let small : amount * bps_of bps ≤ amount * 9999 = scaled amount (bps_of bps) below in
    (omega arith, omega arith, λ positive. omega arith)

-- The two fees of a trade split into two are together at most the fee of the whole trade, and
-- less than it by at most one unit.
pub compute_fee_parts :
    (a b : ℕ) (bps : Number) {fee_a fee_b fee : ℕ}
    → compute_fee (pos a) bps ≡ ok fee_a
    → compute_fee (pos b) bps ≡ ok fee_b
    → compute_fee (pos (a + b)) bps ≡ ok fee
    → (fee_a + fee_b ≤ fee) × (fee ≤ fee_a + fee_b + 1)
compute_fee_parts a b bps {fee_a} {fee_b} {fee} ha hb h =
    let (la, ua, _) = compute_fee_bounds a bps ha in
    let (lb, ub, _) = compute_fee_bounds b bps hb in
    let (l, u, _) = compute_fee_bounds (a + b) bps h in
    let whole : (a + b) * bps_of bps ≡ a * bps_of bps + b * bps_of bps = omega arith in
    (omega arith, omega arith)

-- `computeFee` gives a fee exactly when the amount is not negative and the rate is an integer of 0
-- to 9999.
pub compute_fee_total :
    (amount : ℤ) (bps : Number) → IsOk (compute_fee amount bps) ↔ (IsRate bps × (pos 0 ≤ℤ amount))
unfolding compute_fee
compute_fee_total (negsuc n) bps = (λ h. elim h [ ], λ h. absurd (omega arith))
compute_fee_total (pos amount) not_integer = (λ h. elim h [ ], λ h. elim h.0 [ ])
compute_fee_total (pos amount) (integer (negsuc n)) = (λ h. elim h [ ], λ h. elim h.0 [ ])
compute_fee_total (pos amount) (integer (pos b)) = elim (Bool-cases (ltb 9999 b)) [
  | inl big ↦ (λ h. absurd (rw big at h), λ h. absurd (omega (arith, ltb→lt 9999 b big)))
  | inr small ↦ (λ h. (ground arith, omega arith), λ h. rw small tt)
]

split_value :
    (amount : ℕ) (bps : Number) {fee : ℕ}
    → compute_fee (pos amount) bps ≡ ok fee
    → split (pos amount) bps ≡ ok (record { buyer_credit = pos amount -ℤ pos fee; fee = fee })
unfolding split
split_value amount bps {fee} h =
    let back : pos amount -ℤ pos fee +ℤ pos fee ≡ pos amount = omega int_laws in
    rw (h, split, back, eqb_ℤ_self (pos amount)) refl

-- At a rate that `computeFee` accepts, `split` never trips its own check: credit and fee add up to
-- the amount, and of a positive amount the buyer gets a positive part.
split_conserves :
    (amount : ℕ) (bps : Number)
    → IsRate bps
    → (s : FeeSplit) × (split (pos amount) bps ≡ ok s)
      × (s.buyer_credit +ℤ pos s.fee ≡ pos amount)
      × (0 < amount → pos 1 ≤ℤ s.buyer_credit)
split_conserves amount bps rate =
    let h = compute_fee_ok amount bps rate in
    let (_, _, less) = compute_fee_bounds amount bps h in
    (
      _,
      split_value amount bps h,
      omega int_laws,
      λ positive. let l = less positive in omega int_laws,
    )

per_side_value :
    (amount : ℕ) (buyer_bps seller_bps : Number) {f g : ℕ}
    → compute_fee (pos amount) buyer_bps ≡ ok f
    → compute_fee (pos amount) seller_bps ≡ ok g
    → split_per_side (pos amount) buyer_bps seller_bps
      ≡ ok (record {
        buyer_fee = f;
        seller_fee = g;
        buyer_credit = pos amount -ℤ pos f;
        seller_lock = pos amount +ℤ pos g;
        total_fee = f + g;
      })
unfolding split_per_side
per_side_value amount buyer_bps seller_bps {f} {g} h k =
    let same : pos amount -ℤ pos f +ℤ pos (f + g) ≡ pos amount +ℤ pos g = omega int_laws in
    rw (h, k, split_per_side, same, eqb_ℤ_self (pos amount +ℤ pos g)) refl

-- At two rates that `computeFee` accepts, `splitPerSide` never trips its own check: what the
-- seller locks is what the buyer gets and the two fees, and of a positive amount the buyer gets a
-- positive part.
pub split_per_side_conserves :
    (amount : ℕ) (buyer_bps seller_bps : Number)
    → IsRate buyer_bps
    → IsRate seller_bps
    → (s : PerSideSplit) × (split_per_side (pos amount) buyer_bps seller_bps ≡ ok s)
      × (s.seller_lock ≡ s.buyer_credit +ℤ pos s.total_fee)
      × (s.total_fee ≡ s.buyer_fee + s.seller_fee)
      × (0 < amount → pos 1 ≤ℤ s.buyer_credit)
split_per_side_conserves amount buyer_bps seller_bps rate_b rate_s =
    let h = compute_fee_ok amount buyer_bps rate_b in
    let k = compute_fee_ok amount seller_bps rate_s in
    let (_, _, less) = compute_fee_bounds amount buyer_bps h in
    (
      _,
      per_side_value amount buyer_bps seller_bps h k,
      omega int_laws,
      refl,
      λ positive. let l = less positive in omega int_laws,
    )

pow_positive : (d : ℕ) → 0 < 10 ^ d
pow_positive zero = omega arith
pow_positive (suc d) = rw (pow-suc 10 d) (omega (arith, pow_positive d))

div_bounds : (n d : ℕ) → 0 < d → (n / d * d ≤ n) × (n < (n / d + 1) * d)
div_bounds n d h = grind arith

-- The fiat value is the product with the price in whole units, rounded down.
pub fiat_value_xaf_bounds :
    (amount price decimals : ℕ) {v : ℕ}
    → fiat_value_xaf (pos amount) (pos price) (integer (pos decimals)) ≡ ok v
    → (v * 10 ^ decimals ≤ amount * price) × (amount * price < (v + 1) * 10 ^ decimals)
unfolding fiat_value_xaf
fiat_value_xaf_bounds amount zero decimals h = cc
fiat_value_xaf_bounds amount (suc price) decimals {v} h =
    let value : v ≡ amount * suc price / 10 ^ decimals = ground arith in
    rw value (div_bounds (amount * suc price) (10 ^ decimals) (pow_positive decimals))
