-- ===== src/Fees.antt =====
-- backend/src/modules/fees/fees.ts: the fee functions, over bigint amounts.
pub mod Bounds
use quata_trade.Prelude.{
  ℕ, zero, suc, ◌+◌, ◌*◌, ◌/◌, ◌^◌, ℤ, pos, negsuc, ◌+ℤ◌, ◌-ℤ◌, eqb_ℤ, Bool, true, false, not, ltb,
  if◌then◌else◌,
}
use quata_trade.Errors.{
  fee_error, negative_amount, bps_out_of_range, negative_fixed_fee, split_violated,
  invalid_fiat_input, invalid_asset_decimals,
}
use quata_trade.Tx.{Result, ok, err}

-- A `number` argument: an integer, or something that `Number.isInteger` refuses.
pub data Number : Type 0 where
  integer : ℤ → Number
  not_integer : Number

-- MAX_FEE_BPS of shared/src/constants.ts
abbrev pub max_fee_bps : ℕ
max_fee_bps = 9999

infixl 5 ◌>>=◌
abbrev ◌>>=◌ : {A B : Type 0} → Result A → (A → Result B) → Result B
ok a >>= f = f a
err e >>= f = err e

-- `bps` lies in 0 … MAX_FEE_BPS.
fee_at : ℕ → Number → Result ℕ
fee_at amount not_integer = err (fee_error bps_out_of_range)
fee_at amount (integer (negsuc n)) = err (fee_error bps_out_of_range)
fee_at amount (integer (pos bps)) =
    if ltb max_fee_bps bps then err (fee_error bps_out_of_range) else ok (amount * bps / 10_000)

unfoldable pub compute_fee : ℤ → Number → Result ℕ
unfolding fee_at
compute_fee (negsuc n) bps = err (fee_error negative_amount)
compute_fee (pos amount) bps = fee_at amount bps

unfoldable pub compute_deposit_fee : ℤ → ℤ → Number → Result ℕ
compute_deposit_fee amount (negsuc n) bps = err (fee_error negative_fixed_fee)
compute_deposit_fee amount (pos fixed_fee) bps = do
  fee ← compute_fee amount bps
  ok (fixed_fee + fee)

pub record FeeSplit : Type 0 where
  pub buyer_credit : ℤ
  pub fee : ℕ

unfoldable pub split : ℤ → Number → Result FeeSplit
split amount bps = do
  fee ← compute_fee amount bps
  let buyer_credit = amount -ℤ pos fee
  if not (eqb_ℤ (buyer_credit +ℤ pos fee) amount)
      then err (fee_error split_violated)
      else ok (record { buyer_credit = buyer_credit; fee = fee })

pub record PerSideSplit : Type 0 where
  pub buyer_fee : ℕ
  pub seller_fee : ℕ
  pub buyer_credit : ℤ
  pub seller_lock : ℤ
  pub total_fee : ℕ

unfoldable pub split_per_side : ℤ → Number → Number → Result PerSideSplit
split_per_side amount buyer_bps seller_bps = do
  buyer_fee ← compute_fee amount buyer_bps
  seller_fee ← compute_fee amount seller_bps
  let buyer_credit = amount -ℤ pos buyer_fee
  let seller_lock = amount +ℤ pos seller_fee
  let total_fee = buyer_fee + seller_fee
  if not (eqb_ℤ seller_lock (buyer_credit +ℤ pos total_fee))
      then err (fee_error split_violated)
      else ok (record {
        buyer_fee = buyer_fee;
        seller_fee = seller_fee;
        buyer_credit = buyer_credit;
        seller_lock = seller_lock;
        total_fee = total_fee;
      })

fiat_at : ℕ → ℕ → Number → Result ℕ
fiat_at amount price not_integer = err (fee_error invalid_asset_decimals)
fiat_at amount price (integer (negsuc n)) = err (fee_error invalid_asset_decimals)
fiat_at amount price (integer (pos decimals)) =
    if ltb 18 decimals
    then err (fee_error invalid_asset_decimals)
    else ok (amount * price / 10 ^ decimals)

unfoldable pub fiat_value_xaf : ℤ → ℤ → Number → Result ℕ
unfolding fiat_at
fiat_value_xaf (negsuc n) price decimals = err (fee_error invalid_fiat_input)
fiat_value_xaf (pos amount) (negsuc n) decimals = err (fee_error invalid_fiat_input)
fiat_value_xaf (pos amount) (pos zero) decimals = err (fee_error invalid_fiat_input)
fiat_value_xaf (pos amount) (pos (suc price)) decimals = fiat_at amount (suc price) decimals
