-- ===== src/Ledger/Types.antt =====
-- The rows of the ledger's four tables and the input of `postJournal`
-- (backend/src/db/migrations/0002_ledger.ts, backend/src/modules/ledger/ledger.service.ts).
-- Ids are uuids in the program and numbers here. Nothing reads the id of an entry: it is left out.
use text.Mathlib.Text.{◌==◌ as str_eq}
use Prim.Native.String.{count}
use quata_trade.Prelude.{
  ℕ, zero, suc, ◌+◌, ◌/◌, ℤ, String, Bool, true, false, ◌&&◌, Option, List, [], ◌∷◌, ltb, ◌==◌,
  if◌then◌else◌,
}
use quata_trade.Domain.{AssetCode, AccountKind, EntryReason}

-- A text is read in pieces, split at its colons. A piece that is the text of a uuid is `uuid n`, one
-- of 64 hexadecimal digits, as a transaction's hash has, is `hash n`, one that is any other decimal
-- number is `num n`, and the rest are `word w`.
pub data Piece : Type 0 where
  word : String → Piece
  uuid : ℕ → Piece
  num : ℕ → Piece
  hash : ℕ → Piece

-- Every text is such a list, so this is what a client may send too.
abbrev pub Key : Type 0
Key = List Piece

abbrev pub piece_eq : Piece → Piece → Bool
piece_eq (word v) (word w) = str_eq v w
piece_eq (uuid m) (uuid n) = m == n
piece_eq (num m) (num n) = m == n
piece_eq (hash m) (hash n) = m == n
piece_eq _ _ = false

unfoldable pub key_eq : Key → Key → Bool
key_eq [] [] = true
key_eq (a ∷ k) (b ∷ l) = piece_eq a b && key_eq k l
key_eq _ _ = false

digit_count : ℕ → ℕ → ℕ
digit_count zero n = 1
digit_count (suc fuel) n = let rest = digit_count fuel (n / 10) in if ltb n 10 then 1 else suc rest

piece_length : Piece → ℕ
unfolding digit_count
piece_length (word w) = count w
piece_length (uuid n) = 36
piece_length (num n) = digit_count n n
piece_length (hash n) = 64

-- `key.length`, the colons included.
unfoldable pub key_length : Key → ℕ
unfolding piece_length
key_length [] = 0
key_length (p ∷ []) = piece_length p
key_length (p ∷ q ∷ k) = piece_length p + 1 + key_length (q ∷ k)

-- `created_by` and the actors of events: "seller:<id>", "admin:<id>", "system" and so on.
pub data Actor : Type 0 where
  seller_actor buyer_actor user_actor admin_actor bare_actor : ℕ → Actor
  system : Actor

pub data ReferenceType : Type 0 where
  trade_ref withdrawal_ref deposit_ref offer_ref dispute_ref transfer_ref : ReferenceType

pub record Account : Type 0 where
  pub id : ℕ
  pub owner : Option ℕ
  pub kind : AccountKind
  pub asset : AssetCode

pub record Balance : Type 0 where
  pub account_id : ℕ
  pub kind : AccountKind
  pub balance : ℤ
  pub version : ℕ

pub record Journal : Type 0 where
  pub id : ℕ
  pub reason : EntryReason
  pub reference_type : ReferenceType
  pub reference_id : ℕ
  pub idempotency_key : Key
  pub created_by : Actor

pub record Entry : Type 0 where
  pub journal_id : ℕ
  pub account_id : ℕ
  pub asset : AssetCode
  pub amount : ℤ

-- Positive is a credit, negative a debit.
pub record Leg : Type 0 where
  pub account_id : ℕ
  pub amount : ℤ

pub record JournalInput : Type 0 where
  pub reason : EntryReason
  pub reference_type : ReferenceType
  pub reference_id : ℕ
  pub idempotency_key : Key
  pub created_by : Actor
  pub asset : AssetCode
  pub legs : List Leg

pub record JournalResult : Type 0 where
  pub journal_id : ℕ
  pub replayed : Bool

-- The tables, and the number that `newId()` gives next to an account or a journal.
pub record Ledger : Type 0 where
  pub accounts : List Account
  pub balances : List Balance
  pub journals : List Journal
  pub entries : List Entry
  pub next_id : ℕ
