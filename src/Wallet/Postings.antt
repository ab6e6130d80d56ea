-- ===== src/Wallet/Postings.antt =====
-- Postings on the wallet tables: what keeps balances in step with the recorded transactions, and
-- what keeps them above zero.
use mathlib.Core.Option
use nestora_server.Prelude.{
  ℕ, ==_iff, ap, ◌≡◌, refl, Bool, true, false, List, [], ◌∷◌, ◌==◌, arith, if◌then◌else◌,
}
use nestora_server.Prelude.Int.{ℤ, pos_part, neg_part, pos, ◌+ℤ◌, ◌-ℤ◌, ◌≤ℤ◌, ◌<ℤ◌, int_laws}
use nestora_server.Prelude.Table.{All, first, update, insert, All-update}
use nestora_server.Wallet.Data.{Wallet, WalletTransaction}
use nestora_server.Wallet.Repository.{has_id, add_amount, owned_by}
use nestora_server.Wallet.Ledger.{effect, net, net-insert, Tracks, bump, Tracks-update, Tracks-eq}

books_step :
    (b : Bool) (o n d : ℤ)
    → (if b then o +ℤ n +ℤ d else o +ℤ n) ≡ o +ℤ (n +ℤ (if b then d else pos 0))
books_step true o n d = omega int_laws
books_step false o n d = omega int_laws

module _ (opening : ℕ → ℤ) where
  -- Moving a balance and recording a transaction of the same effect keeps the books.
  pub posted-Tracks :
      (t : WalletTransaction) (ts : List WalletTransaction) (ws : List Wallet)
      → Tracks (λ i. opening i +ℤ net i ts) ws
      → Tracks
          (λ i. opening i +ℤ net i (insert t ts))
          (update (has_id t.wallet_id) (add_amount (effect t.type t.amount)) ws)
  posted-Tracks t ts ws h =
      Tracks-eq (bump (λ i. opening i +ℤ net i ts) t.wallet_id (effect t.type t.amount)) _ _
        (λ i. rw net-insert (books_step (t.wallet_id == i) (opening i) (net i ts) _))
        (Tracks-update (λ i. opening i +ℤ net i ts) t.wallet_id (effect t.type t.amount) ws h)

  -- Recording a transaction that moves nothing keeps them too.
  pub recorded-Tracks :
      (t : WalletTransaction) (ts : List WalletTransaction) (ws : List Wallet)
      → effect t.type t.amount ≡ pos 0
      → Tracks (λ i. opening i +ℤ net i ts) ws
      → Tracks (λ i. opening i +ℤ net i (insert t ts)) ws
  recorded-Tracks t ts ws z h =
      Tracks-eq (λ i. opening i +ℤ net i ts) _ _
        (λ i. rw (net-insert, z) (unmoved (t.wallet_id == i) (opening i) (net i ts))) h
    where
      unmoved : (b : Bool) (o n : ℤ) → o +ℤ n ≡ o +ℤ (n +ℤ (if b then pos 0 else pos 0))
      unmoved true o n = omega int_laws
      unmoved false o n = omega int_laws

abbrev pub NonNegative : List Wallet → Type 0
NonNegative = All (λ (w : Wallet). pos 0 ≤ℤ w.balance)

-- A credit keeps the balances above zero.
pub credited-NonNegative :
    (k : ℕ) (amount : ℤ) (ws : List Wallet)
    → pos 0 <ℤ amount
    → NonNegative ws
    → NonNegative (update (has_id k) (add_amount amount) ws)
credited-NonNegative k amount ws h valid =
    All-update _ (has_id k) (add_amount amount) ws valid (λ w e b. omega int_laws)

-- So does a debit that the wallet covers: rows of one id have one balance.
pub debited-NonNegative :
    (f : ℕ → ℤ) (v : Wallet) (amount : ℤ) (ws : List Wallet)
    → Tracks f ws
    → v.balance ≡ f v.id
    → amount ≤ℤ v.balance
    → NonNegative ws
    → NonNegative (update (has_id v.id) (add_amount (pos 0 -ℤ amount)) ws)
unfolding update
debited-NonNegative f v amount [] h e c valid = tt
debited-NonNegative f v amount (w ∷ ws) h e c valid =
    (kept (w.id == v.id) refl, debited-NonNegative f v amount ws h.1 e c valid.1)
  where
    same_balance : (w.id == v.id) ≡ true → w.balance ≡ v.balance
    same_balance q = ground (arith, ==_iff w.id v.id)

    kept :
        (b : Bool)
        → (w.id == v.id) ≡ b
        → pos 0 ≤ℤ (if b then add_amount (pos 0 -ℤ amount) w else w).balance
    kept true q = omega (int_laws, ap pos_part (same_balance q), ap neg_part (same_balance q))
    kept false q = valid.0

-- Moving a balance changes which wallet is found for no account.
pub first_owned-update :
    (a k : ℕ) (d : ℤ) (ws : List Wallet)
    → first (owned_by a) (update (has_id k) (add_amount d) ws)
      ≡ Option.map (λ (w : Wallet). if w.id == k then add_amount d w else w) (first (owned_by a) ws)
unfolding first update
first_owned-update a k d [] = refl
first_owned-update a k d (w ∷ ws) = rw (first_owned-update a k d ws) (ground arith)
