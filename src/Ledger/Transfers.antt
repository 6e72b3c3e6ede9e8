-- ===== src/Ledger/Transfers.antt =====
-- What opening some accounts and posting one journal over them does to everyone's holdings.
use quata_trade.Prelude.{
  ℕ, ℤ, pos, zero_+ℤ, false, ◌+ℤ◌, ◌≡◌, refl, sym, ap, ◌∙◌, Option, none, some, Option-cases, inl,
  inr, List, ◌∷◌,
}
use mathlib.Core.Path.{subst}
use quata_trade.Domain.{AccountKind, AssetCode}
use quata_trade.Tx.{ok}
use quata_trade.Tx.Guards.{ok_inj}
use quata_trade.Ledger.{
  Key, key_eq, Journal, JournalInput, JournalResult, Ledger, find_journal, to_journal,
  get_or_create_account, post_journal,
}
use quata_trade.Ledger.Post.{Posted, PostOutcome, post_journal-PostOutcome}
use quata_trade.Ledger.Holdings.{Ref, account_of, holding, moved, IsIndexed}
use quata_trade.Ledger.Opening.{Opened, get_or_create_account-Opened}
use quata_trade.Ledger.Movements.{Names, holding-Posted, Posted-IsIndexed}

-- Accounts were opened, and nothing else.
pub record Grown (l l' : Ledger) : Type 0 where
  pub keeps :
      (s : Ref) (b : ℕ) → account_of s l.accounts ≡ some b → account_of s l'.accounts ≡ some b
  pub same : (s : Ref) → holding l' s ≡ holding l s
  pub indexed : IsIndexed l'
  pub journals : l'.journals ≡ l.journals
  pub entries : l'.entries ≡ l.entries

pub not-Grown : (l : Ledger) → IsIndexed l → Grown l l
not-Grown l x = record {
  keeps = λ s b e. e;
  same = λ s. refl;
  indexed = x;
  journals = refl;
  entries = refl;
}

abbrev pub ref : Option ℕ → AccountKind → AssetCode → Ref
ref o k c = record { owner = o; kind = k; asset = c }

-- One more account.
pub grow :
    (l : Ledger) {l1 l2 : Ledger} (o : Option ℕ) (k : AccountKind) (c : AssetCode) {a : ℕ}
    → Grown l l1
    → get_or_create_account o k c l1 ≡ ok (a, l2)
    → Grown l l2 × (account_of (ref o k c) l2.accounts ≡ some a) × Grown l1 l2
grow l {l1} {l2} o k c {a} g h =
    let (b, l3, e, w) = get_or_create_account-Opened o k c l1 g.indexed in
    let same_pair : ◌≡◌ {A = ℕ × Ledger} (b, l3) (a, l2) = ok_inj (sym h ∙ e) in
    let opens : Opened (ref o k c) a l1 l2 =
      subst (λ (p : ℕ × Ledger). Opened (ref o k c) p.0 l1 p.1) same_pair w in
    (
      record {
        keeps = λ s d q. opens.keeps s d (g.keeps s d q);
        same = λ s. opens.same s ∙ g.same s;
        indexed = opens.indexed;
        journals = opens.journals ∙ g.journals;
        entries = opens.entries ∙ g.entries;
      },
      opens.found,
      record {
        keeps = opens.keeps;
        same = opens.same;
        indexed = opens.indexed;
        journals = opens.journals;
        entries = opens.entries;
      },
    )

-- One journal was posted over accounts that may have been opened for it: everyone holds as much
-- more as the movements say, and the journal is the newest.
pub record Transferred (ms : List (Ref × ℤ)) (input : JournalInput) (l l' : Ledger) : Type 0 where
  pub moves : (t : Ref) → holding l' t ≡ moved ms t +ℤ holding l t
  pub indexed : IsIndexed l'
  pub recorded : (id : ℕ) × (l'.journals ≡ to_journal id input ∷ l.journals)

fresh_Posted :
    (input : JournalInput) (l : Ledger) (f : Option Journal) (r : JournalResult) (l' : Ledger)
    → PostOutcome input l f (ok (r, l'))
    → f ≡ none
    → Posted input l l'
fresh_Posted input l none r l' o h = o.1
fresh_Posted input l (some j) r l' o h = cc

pub transfer :
    (ms : List (Ref × ℤ)) (input : JournalInput) (l l1 l2 : Ledger) {r : JournalResult}
    → Grown l l1
    → find_journal input.idempotency_key l.journals ≡ none
    → Names ms input.legs l1.accounts
    → post_journal input l1 ≡ ok (r, l2)
    → Transferred ms input l l2
transfer ms input l l1 l2 {r} g unused names h =
    let p : Posted input l1 l2 =
      fresh_Posted input l1 (find_journal input.idempotency_key l1.journals) r l2
        (rw h at (post_journal-PostOutcome input l1))
        (ap (find_journal input.idempotency_key) g.journals ∙ unused) in
    record {
      moves = λ t. holding-Posted p g.indexed ms names t ∙ ap (λ v. moved ms t +ℤ v) (g.same t);
      indexed = Posted-IsIndexed p g.indexed;
      recorded = (l1.next_id, p.journals ∙ ap (λ js. to_journal l1.next_id input ∷ js) g.journals);
    }

-- What a posting leaves alone, under a fresh key or a used one: the accounts that its movements
-- do not move, and the journals of the other keys.
pub record Aside (ms : List (Ref × ℤ)) (input : JournalInput) (l l' : Ledger) : Type 0 where
  pub same : (t : Ref) → moved ms t ≡ pos 0 → holding l' t ≡ holding l t
  pub indexed : IsIndexed l'
  pub journals :
      (k : Key)
      → key_eq input.idempotency_key k ≡ false
      → find_journal k l'.journals ≡ find_journal k l.journals

Transferred-Aside :
    (ms : List (Ref × ℤ)) (input : JournalInput) (l l' : Ledger)
    → Transferred ms input l l'
    → Aside ms input l l'
unfolding find_journal
Transferred-Aside ms input l l' d =
    let (id, newest) = d.recorded in
    record {
      same = λ t e. d.moves t ∙ rw e (zero_+ℤ (holding l t));
      indexed = d.indexed;
      journals = λ k ne. ap (find_journal k) newest ∙ rw ne refl;
    }

replayed_same :
    (input : JournalInput) (l : Ledger) (f : Option Journal) (j : Journal) (r : JournalResult)
    (l' : Ledger)
    → PostOutcome input l f (ok (r, l'))
    → f ≡ some j
    → l' ≡ l
replayed_same input l none j r l' o h = cc
replayed_same input l (some i) j r l' o h = o.1

pub transfer-Aside :
    (ms : List (Ref × ℤ)) (input : JournalInput) (l l1 l2 : Ledger) {r : JournalResult}
    → Grown l l1
    → Names ms input.legs l1.accounts
    → post_journal input l1 ≡ ok (r, l2)
    → Aside ms input l l2
transfer-Aside ms input l l1 l2 {r} g names h =
    elim (Option-cases (find_journal input.idempotency_key l.journals)) [
      | inl unused ↦ Transferred-Aside ms input l l2 (transfer ms input l l1 l2 g unused names h)
      | inr (j, used) ↦
          let unchanged : l2 ≡ l1 =
            replayed_same input l1 (find_journal input.idempotency_key l1.journals) j r l2
              (rw h at (post_journal-PostOutcome input l1))
              (ap (find_journal input.idempotency_key) g.journals ∙ used) in
          rw unchanged (record {
            same = λ t e. g.same t;
            indexed = g.indexed;
            journals = λ k ne. ap (find_journal k) g.journals;
          })
    ]
