-- ===== src/Escrow/Replay.antt =====
-- What `confirmRelease` of EscrowService
-- (backend/src/modules/escrow/escrow.service.ts) does where the ledger has the key of the release
-- already.
use quata_trade.Prelude.{
  ℕ, ◌≡◌, refl, ap, ◌∙◌, not, ◌&&◌, ◌==◌, Option, none, some, Option-cases, String, inl, inr, List,
}
use quata_trade.Domain.{
  TradeStatus, AccountKind, AssetCode, completed, payment_submitted, status_eq,
}
use quata_trade.Errors.{PgCode, trade_not_found, illegal_transition}
use quata_trade.Tx.{ok, Result-cases}
use quata_trade.Tx.Guards.{ok_inj}
use quata_trade.Tx.Preserves.{
  Preserves, preserves_rules, Preserves-bind, Preserves-bind_where, Preserves-if, Preserves-pure,
  Preserves-throw, Preserves-throw_if, with_money_transaction-keeps,
}
use quata_trade.Ledger.{
  Actor, JournalInput, JournalResult, Journal, Entry, find_account, Ledger, Key, find_journal,
  get_or_create_account, post_journal,
}
use quata_trade.Ledger.Post.{PostOutcome, post_journal-PostOutcome}
use quata_trade.Db.{Db, Trade, on_ledger}
use quata_trade.Escrow.{
  is_some, find_trade, lock_trade, transition, write_transition, Extra, trade_key, post_release,
  release_and_complete, confirm_release_tx, confirm_release,
}
use quata_trade.Escrow.Progress.{Transitioned, transition_ok, find_trade-id}
use quata_trade.Escrow.History.{on_ledger-Preserves}

-- The entries are `es`, and the journal of the key is `j`.
record Holding (key : Key) (j : Journal) (es : List Entry) (db : Db) : Type 0 where
  entries : db.ledger.entries ≡ es
  used : find_journal key db.ledger.journals ≡ some j

opened_only :
    (o : Option ℕ) (k : AccountKind) (c : AssetCode) (l l' : Ledger) {a : ℕ}
    → get_or_create_account o k c l ≡ ok (a, l')
    → (l'.entries ≡ l.entries) × (l'.journals ≡ l.journals)
unfolding get_or_create_account
opened_only o k c l l' h = elim (Option-cases (find_account o k c l.accounts)) [
  | inl absent ↦
      let e = ok_inj (rw (absent, get_or_create_account) at h) in
      (ap (λ p. p.1.entries) e, ap (λ p. p.1.journals) e)
  | inr (a, found) ↦
      let e = ok_inj (rw (found, get_or_create_account) at h) in
      (ap (λ p. p.1.entries) e, ap (λ p. p.1.journals) e)
]

replayed_same :
    (input : JournalInput) (l l' : Ledger) (j : Journal) (f : Option Journal) (r : JournalResult)
    → PostOutcome input l f (ok (r, l'))
    → f ≡ some j
    → l' ≡ l
replayed_same input l l' j none r o h = cc
replayed_same input l l' j (some i) r o h = o.1

module _ (key : Key) (j : Journal) (es : List Entry) where
  account-Holding :
      (o : Option ℕ) (k : AccountKind) (c : AssetCode)
      → Preserves (Holding key j es) (on_ledger (get_or_create_account o k c))
  account-Holding o k c = on_ledger-Preserves (get_or_create_account o k c) (λ db a l e h.
      let (same_entries, same_journals) = opened_only o k c db.ledger l e in
      record {
        entries = same_entries ∙ h.entries;
        used = ap (find_journal key) same_journals ∙ h.used;
      })

  posting-Holding :
      (input : JournalInput)
      → input.idempotency_key ≡ key
      → Preserves (Holding key j es) (on_ledger (post_journal input))
  posting-Holding input same = on_ledger-Preserves (post_journal input) (λ db a l e h.
      let unchanged : l ≡ db.ledger =
        replayed_same input db.ledger l j (find_journal input.idempotency_key db.ledger.journals) a
          (rw e at (post_journal-PostOutcome input db.ledger))
          (ap (λ k. find_journal k db.ledger.journals) same ∙ h.used) in
      record {
        entries = ap (λ (x : Ledger). x.entries) unchanged ∙ h.entries;
        used = ap (λ (x : Ledger). find_journal key x.journals) unchanged ∙ h.used;
      })

  move-Holding :
      (t : Trade) (to : TradeStatus) (actor : Actor) (m : Option String) (x : Extra)
      → Preserves (Holding key j es) (transition t to actor m x)
  unfolding write_transition
  move-Holding t to actor m x = record {
    at = λ db h. elim (Result-cases (transition t to actor m x db)) [
      | inr (e, bad) ↦ rw bad tt
      | inl ((u, db'), good) ↦ rw good (moved db db' h (transition_ok t to actor m x db good))
    ];
  }
    where
      moved :
          (db db' : Db)
          → Holding key j es db
          → Transitioned t to actor m x db db'
          → Holding key j es db'
      moved db db' h w = rw w.written (record { entries = h.entries; used = h.used })

  post_release-Holding :
      (t : Trade) (actor : Actor)
      → trade_key t.id "release" ≡ key
      → Preserves (Holding key j es) (post_release t actor)
  unfolding post_release
  post_release-Holding t actor same =
      search (preserves_rules, account-Holding, posting-Holding, same) depth 12

  release-Holding :
      (now : ℕ) (t : Trade) (seller : ℕ)
      → trade_key t.id "release" ≡ key
      → Preserves (Holding key j es) (release_and_complete now t seller)
  unfolding release_and_complete
  release-Holding now t seller same =
      search (preserves_rules, post_release-Holding, same, move-Holding) depth 12

locked_id : (id : ℕ) (db db' : Db) (t : Trade) → lock_trade id db ≡ ok (t, db') → t.id ≡ id
unfolding lock_trade
locked_id id db db' t h = elim (Option-cases (find_trade id db.trades)) [
  | inl absent ↦ cc (rw (absent, lock_trade) at h)
  | inr (u, found) ↦
      let e = ok_inj (rw (found, lock_trade) at h) in
      ap (λ p. p.0.id) e ∙ find_trade-id id db.trades found
]

lock-Holding :
    (key : Key) (j : Journal) (es : List Entry) (id : ℕ)
    → Preserves (Holding key j es) (lock_trade id)
unfolding lock_trade
lock-Holding key j es id = record {
  at = λ db h. elim (Option-cases (find_trade id db.trades)) [
    | inl absent ↦ rw (absent, lock_trade) tt
    | inr (t, found) ↦ rw (found, lock_trade) h
  ];
}

confirm-Holding :
    (j : Journal) (es : List Entry) (now id seller : ℕ)
    → Preserves (Holding (trade_key id "release") j es) (confirm_release_tx now id seller)
unfolding confirm_release_tx
confirm-Holding j es now id seller =
    let key = trade_key id "release" in
    Preserves-bind_where _ _ (λ t. t.id ≡ id) (λ db db' t. locked_id id db db' t)
      (lock-Holding key j es id)
      (λ t same.
        let release =
          release-Holding key j es now t seller (ap (λ n. trade_key n "release") same) in
        Preserves-bind _ _ (Preserves-throw_if (not (t.seller_id == seller)) (trade_not_found id))
          (λ u.
            Preserves-if (status_eq t.status completed && is_some t.release_journal_id) _ _
              (Preserves-pure t)
              (Preserves-if (not (status_eq t.status payment_submitted)) _ _
                (Preserves-throw (illegal_transition t.status completed)) release)))

-- Where the ledger has a journal under the key of a trade's release, whoever posted it, confirming
-- the release writes no entry, however it ends.
pub used_key_moves_nothing :
    (aborts : ℕ → Option PgCode) (now id seller : ℕ) (db : Db) (j : Journal)
    → find_journal (trade_key id "release") db.ledger.journals ≡ some j
    → (confirm_release aborts now id seller db).1.ledger.entries ≡ db.ledger.entries
unfolding confirm_release
used_key_moves_nothing aborts now id seller db j used =
    let kept =
      with_money_transaction-keeps aborts (confirm_release_tx now id seller) db
        (confirm-Holding j db.ledger.entries now id seller)
        (record { entries = refl; used = used }) in
    kept.entries
