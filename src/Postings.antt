-- ===== src/Postings.antt =====
-- The pattern by which the services move money: some accounts are found or opened, one journal is
-- posted over them, and the transaction goes on.
use quata_trade.Prelude.{ℕ, ℤ, ◌≡◌, refl, sym, ap, ◌∙◌, inl, inr, Option, none, some, List, [], ◌∷◌}
use quata_trade.Domain.{AccountKind, AssetCode}
use quata_trade.Tx.{ok, Tx, ◌>>=◌, Result-cases}
use quata_trade.Tx.Guards.{bind_ok, bind_runs, ok_inj}
use quata_trade.Ledger.{
  JournalInput, JournalResult, Ledger, find_journal, get_or_create_account, post_journal,
}
use quata_trade.Ledger.Holdings.{Ref, account_of, IsIndexed}
use quata_trade.Ledger.Movements.{Names}
use quata_trade.Ledger.Transfers.{
  Grown, not-Grown, grow, ref, Transferred, transfer, Aside, transfer-Aside,
}
use quata_trade.Db.{Db, on_ledger}

pub on_ledger_ok :
    {A : Type 0} (m : Tx Ledger A) (db db' : Db) {a : A}
    → on_ledger m db ≡ ok (a, db')
    → (l : Ledger) × (m db.ledger ≡ ok (a, l)) × (db' ≡ record db { ledger = l })
unfolding on_ledger
on_ledger_ok m db db' {a} h = elim (Result-cases (m db.ledger)) [
  | inr (e, bad) ↦ cc (rw (bad, on_ledger) at h)
  | inl ((b, l), good) ↦
      let same = ok_inj (rw (good, on_ledger) at h) in
      (l, good ∙ ap (λ p. ok (p.0, l)) (sym same), ap (λ p. p.1) same)
]

-- A sequence starts with a call on the ledger.
pub ledger_step :
    {A B : Type 0} (m : Tx Ledger A) (f : A → Tx Db B) (db db' : Db) {b : B}
    → (on_ledger m >>= f) db ≡ ok (b, db')
    → (a : A) × (l : Ledger) × (m db.ledger ≡ ok (a, l))
      × (f a (record db { ledger = l }) ≡ ok (b, db'))
ledger_step m f db db' h =
    let (a, t, first, rest) = bind_ok (on_ledger m) f db db' h in
    let (l, called, same) = on_ledger_ok m db t first in (a, l, called, rw same at rest)

on_ledger_runs :
    {A : Type 0} (m : Tx Ledger A) (db : Db) {a : A} {l : Ledger}
    → m db.ledger ≡ ok (a, l)
    → on_ledger m db ≡ ok (a, record db { ledger = l })
unfolding on_ledger
on_ledger_runs m db h = rw (h, on_ledger) refl

ledger_runs :
    {A B : Type 0} (m : Tx Ledger A) (f : A → Tx Db B) (db : Db) {a : A} {l : Ledger}
    → m db.ledger ≡ ok (a, l)
    → (on_ledger m >>= f) db ≡ f a (record db { ledger = l })
ledger_runs m f db h = bind_runs (on_ledger m) f db (on_ledger_runs m db h)

-- Two accounts, and a journal that moves `v` and `w` on them.
module _ {B : Type 0} (o1 o2 : Option ℕ) (k1 k2 : AccountKind) (c : AssetCode) (v w : ℤ)
    (input : ℕ → ℕ → JournalInput) (f : JournalResult → Tx Db B) where
  abbrev pub pair_posting : Tx Db B
  pair_posting = do
    a ← on_ledger (get_or_create_account o1 k1 c)
    b ← on_ledger (get_or_create_account o2 k2 c)
    r ← on_ledger (post_journal (input a b))
    f r

  pub pair_posting_runs :
      (db : Db) {a b : ℕ} {l1 l2 l3 : Ledger} {r : JournalResult}
      → get_or_create_account o1 k1 c db.ledger ≡ ok (a, l1)
      → get_or_create_account o2 k2 c l1 ≡ ok (b, l2)
      → post_journal (input a b) l2 ≡ ok (r, l3)
      → pair_posting db ≡ f r (record db { ledger = l3 })
  pair_posting_runs db {a} {b} {l1} {l2} e1 e2 e3 =
      ledger_runs _ _ db e1
      ∙ ledger_runs _ _ (record db { ledger = l1 }) e2
      ∙ ledger_runs _ _ (record db { ledger = l2 }) e3

  -- The accounts are there when the journal is posted.
  record Paired (db db' : Db) (x : B) : Type 0 where
    r : JournalResult
    a : ℕ
    b : ℕ
    opened : Ledger
    l : Ledger
    grown : Grown db.ledger opened
    at_a : account_of (ref o1 k1 c) opened.accounts ≡ some a
    at_b : account_of (ref o2 k2 c) opened.accounts ≡ some b
    posted : post_journal (input a b) opened ≡ ok (r, l)
    rest : f r (record db { ledger = l }) ≡ ok (x, db')

  paired :
      (db db' : Db) {x : B} → IsIndexed db.ledger → pair_posting db ≡ ok (x, db') → Paired db db' x
  paired db db' x h =
      let (a, l1, first, h1) = ledger_step _ _ db db' h in
      let (b, l2, second, h2) = ledger_step _ _ (record db { ledger = l1 }) db' h1 in
      let (r, l3, posted, h3) = ledger_step _ _ (record db { ledger = l2 }) db' h2 in
      let (g1, at_a, s1) = grow db.ledger o1 k1 c (not-Grown db.ledger x) first in
      let (g2, at_b, s2) = grow db.ledger o2 k2 c g1 second in
      record {
        r = r;
        a = a;
        b = b;
        opened = l2;
        l = l3;
        grown = g2;
        at_a = s2.keeps (ref o1 k1 c) a at_a;
        at_b = at_b;
        posted = posted;
        rest = h3;
      }

  abbrev pub MovesPair : Type 0
  MovesPair =
      (a b : ℕ)
      → (input a b).legs
        ≡ record { account_id = a; amount = v } ∷ record { account_id = b; amount = w } ∷ []

  abbrev pub pair_moves : List (Ref × ℤ)
  pair_moves = (ref o1 k1 c, v) ∷ (ref o2 k2 c, w) ∷ []

  pub pair_posting_ok :
      (db db' : Db) {x : B}
      → IsIndexed db.ledger
      → MovesPair
      → ((a b : ℕ) → find_journal (input a b).idempotency_key db.ledger.journals ≡ none)
      → pair_posting db ≡ ok (x, db')
      → (r : JournalResult) × (a : ℕ) × (b : ℕ) × (l : Ledger) × Transferred pair_moves
          (input a b)
          db.ledger
          l
        × (f r (record db { ledger = l }) ≡ ok (x, db'))
  pair_posting_ok db db' x legs unused h =
      let p = paired db db' x h in
      (
        p.r,
        p.a,
        p.b,
        p.l,
        transfer pair_moves (input p.a p.b) db.ledger p.opened p.l p.grown (unused p.a p.b)
            (rw (legs p.a p.b) (p.at_a, refl, (p.at_b, refl, tt))) p.posted,
        p.rest,
      )

  -- Whether or not the key has been used.
  pub pair_posting-Aside :
      (db db' : Db) {x : B}
      → IsIndexed db.ledger
      → MovesPair
      → pair_posting db ≡ ok (x, db')
      → (r : JournalResult) × (a : ℕ) × (b : ℕ) × (l : Ledger) × Aside pair_moves
          (input a b)
          db.ledger
          l
        × (f r (record db { ledger = l }) ≡ ok (x, db'))
  pair_posting-Aside db db' x legs h =
      let p = paired db db' x h in
      (
        p.r,
        p.a,
        p.b,
        p.l,
        transfer-Aside pair_moves (input p.a p.b) db.ledger p.opened p.l p.grown
            (rw (legs p.a p.b) (p.at_a, refl, (p.at_b, refl, tt))) p.posted,
        p.rest,
      )

-- Three accounts, and a journal over them, whose legs may leave one out.
module _ {B : Type 0} (o1 o2 o3 : Option ℕ) (k1 k2 k3 : AccountKind) (c : AssetCode)
    (ms : List (Ref × ℤ)) (input : ℕ → ℕ → ℕ → JournalInput) (f : JournalResult → Tx Db B) where
  abbrev pub triple_posting : Tx Db B
  triple_posting = do
    a ← on_ledger (get_or_create_account o1 k1 c)
    b ← on_ledger (get_or_create_account o2 k2 c)
    d ← on_ledger (get_or_create_account o3 k3 c)
    r ← on_ledger (post_journal (input a b d))
    f r

  pub triple_posting_runs :
      (db : Db) {a b d : ℕ} {l1 l2 l3 l4 : Ledger} {r : JournalResult}
      → get_or_create_account o1 k1 c db.ledger ≡ ok (a, l1)
      → get_or_create_account o2 k2 c l1 ≡ ok (b, l2)
      → get_or_create_account o3 k3 c l2 ≡ ok (d, l3)
      → post_journal (input a b d) l3 ≡ ok (r, l4)
      → triple_posting db ≡ f r (record db { ledger = l4 })
  triple_posting_runs db {l1 = l1} {l2 = l2} {l3 = l3} e1 e2 e3 e4 =
      ledger_runs _ _ db e1
      ∙ ledger_runs _ _ (record db { ledger = l1 }) e2
      ∙ ledger_runs _ _ (record db { ledger = l2 }) e3
      ∙ ledger_runs _ _ (record db { ledger = l3 }) e4

  pub triple_posting_ok :
      (db db' : Db) {x : B}
      → IsIndexed db.ledger
      → ((a b d : ℕ) (l : Ledger)
          → account_of (ref o1 k1 c) l.accounts ≡ some a
          → account_of (ref o2 k2 c) l.accounts ≡ some b
          → account_of (ref o3 k3 c) l.accounts ≡ some d
          → Names ms (input a b d).legs l.accounts)
      → ((a b d : ℕ) → find_journal (input a b d).idempotency_key db.ledger.journals ≡ none)
      → triple_posting db ≡ ok (x, db')
      → (r : JournalResult) × (a : ℕ) × (b : ℕ) × (d : ℕ) × (l : Ledger) × Transferred ms
          (input a b d)
          db.ledger
          l
        × (f r (record db { ledger = l }) ≡ ok (x, db'))
  triple_posting_ok db db' x names unused h =
      let (a, l1, first, h1) = ledger_step _ _ db db' h in
      let (b, l2, second, h2) = ledger_step _ _ (record db { ledger = l1 }) db' h1 in
      let (d, l3, third, h3) = ledger_step _ _ (record db { ledger = l2 }) db' h2 in
      let (r, l4, posted, h4) = ledger_step _ _ (record db { ledger = l3 }) db' h3 in
      let (g1, at_a, s1) = grow db.ledger o1 k1 c (not-Grown db.ledger x) first in
      let (g2, at_b, s2) = grow db.ledger o2 k2 c g1 second in
      let (g3, at_d, s3) = grow db.ledger o3 k3 c g2 third in
      let a_then : account_of (ref o1 k1 c) l3.accounts ≡ some a =
        s3.keeps (ref o1 k1 c) a (s2.keeps (ref o1 k1 c) a at_a) in
      let b_then : account_of (ref o2 k2 c) l3.accounts ≡ some b = s3.keeps (ref o2 k2 c) b at_b in
      (
        r,
        a,
        b,
        d,
        l4,
        transfer ms (input a b d) db.ledger l3 l4 g3 (unused a b d)
            (names a b d l3 a_then b_then at_d) posted,
        h4,
      )
