-- ===== src/Amounts.antt =====
-- The amounts on the wire (shared/src/money.ts): `isAmountString`, `parseAmount` and
-- `serializeAmount`. A text is the list of its codes; `BigInt(text)` and `toString(10)` read and write
-- decimal digits. `none` is a thrown error.
use quata_trade.Prelude.{
  ℕ, zero, suc, ◌+◌, ◌-◌, ◌*◌, ◌/◌, ◌%◌, ◌≤◌, ◌<◌, ℤ, pos, negsuc, ◌≡◌, refl, sym, ap, ◌∙◌, ◌↔◌,
  Bool, true, false, ◌&&◌, Bool-cases, inl, inr, Option, none, some, List, [], ◌∷◌, ◌++◌, ltb, leb,
  if◌then◌else◌, arith,
}
use mathlib.Core.List.{append-nil}

abbrev pub Text : Type 0
Text = List ℕ

abbrev is_digit : ℕ → Bool
is_digit c = leb b'0' c && leb c b'9'

all_digits : Text → Bool
all_digits [] = true
all_digits (c ∷ s) = is_digit c && all_digits s

-- /^(0|[1-9]\d*)$/
unfoldable pub is_amount_string : Text → Bool
unfolding all_digits
is_amount_string [] = false
is_amount_string (c ∷ []) = is_digit c
is_amount_string (c ∷ d ∷ s) = leb b'1' c && leb c b'9' && all_digits (d ∷ s)

-- `BigInt` on digits, after the number `n`.
read_digits : ℕ → Text → ℕ
read_digits n [] = n
read_digits n (c ∷ s) = read_digits (n * 10 + (c - b'0')) s

unfoldable pub parse_amount : Text → Option ℕ
unfolding is_amount_string read_digits
parse_amount value = if is_amount_string value then some (read_digits 0 value) else none

-- The digits of `n` before `rest`. As much fuel as the number is enough.
write_digits : ℕ → ℕ → Text → Text
write_digits zero n rest = (b'0' + n % 10) ∷ rest
write_digits (suc fuel) n rest =
    let more = write_digits fuel (n / 10) ((b'0' + n % 10) ∷ rest) in
    if ltb n 10 then (b'0' + n) ∷ rest else more

unfoldable pub serialize_amount : ℤ → Option Text
unfolding write_digits
serialize_amount (negsuc n) = none
serialize_amount (pos n) = some (write_digits n n [])

-- ---------------------------------------------------------------- what is written

write_digits_fuel :
    (f g n : ℕ) (rest : Text) → n ≤ f → n ≤ g → write_digits f n rest ≡ write_digits g n rest
unfolding write_digits
write_digits_fuel zero zero n rest hf hg = refl
write_digits_fuel zero (suc g) n rest hf hg = ground arith
write_digits_fuel (suc f) zero n rest hf hg = ground arith
write_digits_fuel (suc f) (suc g) n rest hf hg =
    ground (arith, write_digits_fuel f g (n / 10) ((b'0' + n % 10) ∷ rest))

-- One digit more.
write_step :
    (a d : ℕ) (rest : Text)
    → 0 < a
    → d < 10
    → write_digits (a * 10 + d) (a * 10 + d) rest ≡ write_digits a a ((b'0' + d) ∷ rest)
unfolding write_digits
write_step a d rest ha hd = go (a * 10 + d) refl
  where
    go : (n : ℕ) → a * 10 + d ≡ n → write_digits n n rest ≡ write_digits a a ((b'0' + d) ∷ rest)
    go zero e = absurd (omega arith)
    go (suc m) e =
        let tenth : suc m / 10 ≡ a = omega arith in
        let unit : suc m % 10 ≡ d = omega arith in
        let small : ltb (suc m) 10 ≡ false = ground arith in
        rw (small, tenth, unit) (write_digits_fuel m a a _ (omega arith) (omega arith))

read_write :
    (f n : ℕ) (rest : Text) → n ≤ f → read_digits 0 (write_digits f n rest) ≡ read_digits n rest
unfolding write_digits read_digits
read_write zero n rest h = ground arith
read_write (suc f) n rest h = elim (Bool-cases (ltb n 10)) [
  | inl small ↦ rw small (ap (λ (k : ℕ). read_digits k rest) (omega arith))
  | inr large ↦ rw large (
      read_write f (n / 10) ((b'0' + n % 10) ∷ rest) (ground arith)
      ∙ ap (λ (k : ℕ). read_digits k rest) (omega arith))
]

-- A first digit of 1 to 9, and digits after it.
abbrev is_numeral : Text → Bool
is_numeral [] = false
is_numeral (c ∷ s) = leb b'1' c && leb c b'9' && all_digits s

write_digits-is_numeral :
    (f n : ℕ) (rest : Text)
    → n ≤ f
    → 0 < n
    → all_digits rest ≡ true
    → is_numeral (write_digits f n rest) ≡ true
unfolding write_digits all_digits
write_digits-is_numeral zero n rest h p d = absurd (omega arith)
write_digits-is_numeral (suc f) n rest h p d = elim (Bool-cases (ltb n 10)) [
  | inl small ↦ rw small (ground arith)
  | inr large ↦ rw large (
      write_digits-is_numeral f (n / 10) ((b'0' + n % 10) ∷ rest) (ground arith) (ground arith)
        (ground arith))
]

numeral_is_amount : (s : Text) → is_numeral s ≡ true → is_amount_string s ≡ true
unfolding is_amount_string all_digits
numeral_is_amount [] h = h
numeral_is_amount (c ∷ []) h = ground arith
numeral_is_amount (c ∷ d ∷ s) h = h

written_is_amount : (n : ℕ) → is_amount_string (write_digits n n []) ≡ true
unfolding is_amount_string write_digits all_digits
written_is_amount zero = refl
written_is_amount (suc n) =
    numeral_is_amount (write_digits (suc n) (suc n) [])
      (write_digits-is_numeral (suc n) (suc n) [] (omega arith) (omega arith) refl)

-- ---------------------------------------------------------------- what is read

write_read :
    (a : ℕ) (s rest : Text)
    → 0 < a
    → all_digits s ≡ true
    → write_digits (read_digits a s) (read_digits a s) rest ≡ write_digits a a (s ++ rest)
unfolding read_digits all_digits
write_read a [] rest ha h = refl
write_read a (c ∷ s) rest ha h =
    let digit : is_digit c ≡ true = ground arith in
    let back : b'0' + (c - b'0') ≡ c = ground arith in
    write_read (a * 10 + (c - b'0')) s rest (omega arith) (ground arith)
    ∙ write_step a (c - b'0') (s ++ rest) ha (ground arith)
    ∙ ap (λ (k : ℕ). write_digits a a (k ∷ s ++ rest)) back

write_one : (d : ℕ) (rest : Text) → d < 10 → write_digits d d rest ≡ (b'0' + d) ∷ rest
unfolding write_digits
write_one zero rest h = refl
write_one (suc m) rest h = let small : ltb (suc m) 10 ≡ true = ground arith in rw small refl

read_back :
    (s : Text) → is_amount_string s ≡ true → write_digits (read_digits 0 s) (read_digits 0 s) [] ≡ s
unfolding is_amount_string read_digits
read_back [] h = cc
read_back (c ∷ []) h =
    let back : b'0' + (0 * 10 + (c - b'0')) ≡ c = ground arith in
    write_one (0 * 10 + (c - b'0')) [] (ground arith) ∙ ap (λ (k : ℕ). k ∷ []) back
read_back (c ∷ d ∷ s) h =
    let back : b'0' + (0 * 10 + (c - b'0')) ≡ c = ground arith in
    write_read (0 * 10 + (c - b'0')) (d ∷ s) [] (ground arith) (ground arith)
    ∙ write_one (0 * 10 + (c - b'0')) ((d ∷ s) ++ []) (ground arith)
    ∙ ap (λ (k : ℕ). k ∷ (d ∷ s) ++ []) back
    ∙ ap (λ (r : Text). c ∷ r) (append-nil (d ∷ s))

some_inj : {A : Type 0} {a b : A} → some a ≡ some b → a ≡ b
some_inj h = cc

-- A text is what an amount is written as exactly when it is read as that amount: what is written is
-- read back, what is not written is refused, and no amount has two texts.
pub serialize_amount-parse_amount :
    (n : ℕ) (value : Text) → (serialize_amount (pos n) ≡ some value) ↔ (parse_amount value ≡ some n)
unfolding serialize_amount parse_amount
serialize_amount-parse_amount n value = (
  λ h.
      let same : write_digits n n [] ≡ value = some_inj h in
      rw (sym same)
        (rw (written_is_amount n) (ap some (read_write n n [] (omega arith) ∙ read_end n))),
  λ h. elim (Bool-cases (is_amount_string value)) [
    | inl good ↦
        let same : read_digits 0 value ≡ n = some_inj (rw good at h) in
        ap some (ap (λ (k : ℕ). write_digits k k []) (sym same) ∙ read_back value good)
    | inr bad ↦ cc (rw bad at h)
  ],
)
  where
    read_end : (k : ℕ) → read_digits k [] ≡ k
    read_end k = unfold read_digits in refl
