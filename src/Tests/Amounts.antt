-- ===== src/Tests/Amounts.antt =====
-- The fee functions at concrete amounts, and an amount as text.
use quata_trade.Prelude.{
  some, [], ◌∷◌, ◌+◌, ◌*◌, ◌^◌, ◌≤◌, ◌<◌, ◌≡◌, refl, ◌↔◌, pos, ◌+ℤ◌, ◌≤ℤ◌, arith,
}
use quata_trade.Amounts.{serialize_amount, parse_amount, serialize_amount-parse_amount}
use quata_trade.Tx.{ok, IsOk}
use quata_trade.Fees.{
  integer, not_integer, PerSideSplit, compute_fee, split_per_side, fiat_value_xaf,
}
use quata_trade.Fees.Bounds.{
  IsRate, compute_fee_bounds, compute_fee_parts, compute_fee_total, split_per_side_conserves,
  fiat_value_xaf_bounds,
}

fee_of_250 : compute_fee (pos 250) (integer (pos 99)) ≡ ok 2
unfolding compute_fee
fee_of_250 = refl

fee_of_1000 : compute_fee (pos 1_000) (integer (pos 99)) ≡ ok 9
unfolding compute_fee
fee_of_1000 = refl

fee_of_1250 : compute_fee (pos 1_250) (integer (pos 99)) ≡ ok 12
unfolding compute_fee
fee_of_1250 = refl

compute_fee_bounds_example :
    (9 * 10_000 ≤ 1_000 * 99) × (1_000 * 99 < (9 + 1) * 10_000) × (0 < 1_000 → 9 < 1_000)
compute_fee_bounds_example = compute_fee_bounds 1_000 (integer (pos 99)) fee_of_1000

compute_fee_parts_example : (2 + 9 ≤ 12) × (12 ≤ 2 + 9 + 1)
compute_fee_parts_example =
    compute_fee_parts 250 1_000 (integer (pos 99)) fee_of_250 fee_of_1000 fee_of_1250

compute_fee_total_example :
    IsOk (compute_fee (pos 5) not_integer) ↔ (IsRate not_integer × (pos 0 ≤ℤ pos 5))
compute_fee_total_example = compute_fee_total (pos 5) not_integer

split_per_side_conserves_example :
    (s : PerSideSplit) × (split_per_side (pos 1_000) (integer (pos 100)) (integer (pos 50)) ≡ ok s)
    × (s.seller_lock ≡ s.buyer_credit +ℤ pos s.total_fee)
    × (s.total_fee ≡ s.buyer_fee + s.seller_fee)
    × (0 < 1_000 → pos 1 ≤ℤ s.buyer_credit)
split_per_side_conserves_example =
    split_per_side_conserves 1_000 (integer (pos 100)) (integer (pos 50)) (omega arith)
      (omega arith)

value_of_1500 : fiat_value_xaf (pos 1_500) (pos 655) (integer (pos 3)) ≡ ok 982
unfolding fiat_value_xaf
value_of_1500 = refl

fiat_value_xaf_bounds_example : (982 * 10 ^ 3 ≤ 1_500 * 655) × (1_500 * 655 < (982 + 1) * 10 ^ 3)
fiat_value_xaf_bounds_example = fiat_value_xaf_bounds 1_500 655 3 value_of_1500

serialize_amount-parse_amount_example :
    (serialize_amount (pos 120) ≡ some (b'1' ∷ b'2' ∷ b'0' ∷ []))
    ↔ (parse_amount (b'1' ∷ b'2' ∷ b'0' ∷ []) ≡ some 120)
serialize_amount-parse_amount_example = serialize_amount-parse_amount 120 (b'1' ∷ b'2' ∷ b'0' ∷ [])
