-- ===== src/Wallet/Transfer.antt =====
-- A transfer between wallets: what it leaves in both, in every other wallet, and in the sum.
use nestora_server.Prelude.{
  ℕ, ◌+◌, ◌++◌, map, ◌≡◌, ◌≢◌, refl, Bool, true, false, some, List, [], ◌∷◌, ◌==◌, ap, sym, ◌∙◌,
  subst, ==_refl, arith, if◌then◌else◌, inl, inr, Bool-cases,
}
use nestora_server.Prelude.Int.{ℤ, pos, ◌+ℤ◌, ◌-ℤ◌, ◌≤ℤ◌, int_laws}
use nestora_server.Prelude.Table.{All, All-first, first, first-holds, update, insert}
use nestora_server.Prelude.Text.{text}
use nestora_server.Http.{ok}
use nestora_server.Account.{Account}
use nestora_server.Wallet.Data.{Wallet, PaymentType, Db, Mutation, SendMoneyRequest}
use nestora_server.Wallet.Repository.{has_id, add_amount, owned_by, find_by_email}
use nestora_server.Wallet.Service.{send_money, wrong_pin, transfer_description}
use nestora_server.Wallet.Postings.{first_owned-update}
use nestora_server.Wallet.Effects.{Sent, send_money-Sent}

-- The sum of the balances of all wallets.
unfoldable pub total : List Wallet → ℤ
total [] = pos 0
total (w ∷ ws) = w.balance +ℤ total ws

-- `id` is the primary key: no later row has the id of an earlier one.
abbrev pub IsKeyed : List Wallet → Type 0
IsKeyed [] = Unit
IsKeyed (w ∷ ws) = All (λ (v : Wallet). (v.id == w.id) ≡ false) ws × IsKeyed ws

-- What adding `d` to the rows of the id `k` adds to the sum.
shift : ℕ → ℤ → List Wallet → ℤ
shift k d [] = pos 0
shift k d (w ∷ ws) = (if w.id == k then d else pos 0) +ℤ shift k d ws

total-update :
    (k : ℕ) (d : ℤ) (ws : List Wallet)
    → total (update (has_id k) (add_amount d) ws) ≡ total ws +ℤ shift k d ws
unfolding total update shift
total-update k d [] = omega int_laws
total-update k d (w ∷ ws) = rw (total-update k d ws) (by_test (w.id == k))
  where
    by_test :
        (b : Bool)
        → (if b then add_amount d w else w).balance +ℤ (total ws +ℤ shift k d ws)
          ≡ w.balance +ℤ total ws +ℤ ((if b then d else pos 0) +ℤ shift k d ws)
    by_test true = omega int_laws
    by_test false = omega int_laws

shift-update :
    (k j : ℕ) (d c : ℤ) (ws : List Wallet)
    → shift k d (update (has_id j) (add_amount c) ws) ≡ shift k d ws
unfolding shift update
shift-update k j d c [] = refl
shift-update k j d c (w ∷ ws) = rw (shift-update k j d c ws) (ground arith)

shift_absent :
    (k : ℕ) (d : ℤ) (ws : List Wallet)
    → All (λ (v : Wallet). (v.id == k) ≡ false) ws
    → shift k d ws ≡ pos 0
unfolding shift
shift_absent k d [] h = refl
shift_absent k d (w ∷ ws) h = rw (h.0, shift_absent k d ws h.1) (omega int_laws)

All-first_id :
    (a j : ℕ) (ws : List Wallet) (v : Wallet)
    → All (λ (w : Wallet). (w.id == j) ≡ false) ws
    → first (owned_by a) ws ≡ some v
    → (v.id == j) ≡ false
All-first_id a j ws v = All-first (λ (w : Wallet). (w.id == j) ≡ false) (owned_by a) ws v

-- A wallet that is found has its id once.
shift_found :
    (a : ℕ) (d : ℤ) (ws : List Wallet) (v : Wallet)
    → IsKeyed ws
    → first (owned_by a) ws ≡ some v
    → shift v.id d ws ≡ d
unfolding shift first
shift_found a d [] v h e = absurd (cc)
shift_found a d (w ∷ ws) v h e = elim (Bool-cases (owned_by a w)) [
  | inl mine ↦
      let same : w ≡ v = ground arith in
      subst (λ (u : Wallet). (if w.id == u.id then d else pos 0) +ℤ shift u.id d ws ≡ d) same
        (rw (==_refl w.id, shift_absent w.id d ws h.0) (omega int_laws))
  | inr other ↦
      let later : first (owned_by a) ws ≡ some v = ground arith in
      let apart : (v.id == w.id) ≡ false = All-first_id a w.id ws v h.0 later in
      let flipped : (w.id == v.id) ≡ false = ground arith in
      rw (flipped, shift_found a d ws v h.1 later) (omega int_laws)
]

-- Where wallet ids are unique, a successful transfer leaves the sum of all balances as it was.
pub send_money-total :
    (account : Account) (p : SendMoneyRequest) (s : Db) (r : Mutation)
    → IsKeyed s.wallets
    → (send_money account p s).0 ≡ ok r
    → total (send_money account p s).1.wallets ≡ total s.wallets
send_money-total account p s r keyed h =
    let d = send_money-Sent account s p r h in
    subst (λ (t : Db). total t.wallets ≡ total s.wallets) (sym d.left)
      (rw
        (
          total-update d.recipient.id p.amount
              (update (has_id d.sender.id) (add_amount (pos 0 -ℤ p.amount)) s.wallets),
          total-update d.sender.id (pos 0 -ℤ p.amount) s.wallets,
          shift-update d.recipient.id d.sender.id p.amount (pos 0 -ℤ p.amount) s.wallets,
          shift_found account.id (pos 0 -ℤ p.amount) s.wallets d.sender keyed d.found_sender,
          shift_found d.recipient_id p.amount s.wallets d.recipient keyed d.found_recipient,
        )
        (omega int_laws))

-- Two wallets that are found and share an id are one.
found-eq :
    (a b : ℕ) (ws : List Wallet) (u v : Wallet)
    → IsKeyed ws
    → first (owned_by a) ws ≡ some u
    → first (owned_by b) ws ≡ some v
    → (u.id == v.id) ≡ true
    → u ≡ v
unfolding first
found-eq a b [] u v h eu ev same = absurd (cc)
found-eq a b (w ∷ ws) u v h eu ev same = elim (Bool-cases (owned_by a w)) [
  | inl mine ↦ elim (Bool-cases (owned_by b w)) [
    | inl too ↦ ground arith
    | inr other ↦ absurd (ground (arith, All-first_id b w.id ws v h.0))
  ]
  | inr other ↦ elim (Bool-cases (owned_by b w)) [
    | inl too ↦ absurd (ground (arith, All-first_id a w.id ws u h.0))
    | inr neither ↦ found-eq a b ws u v h.1 (ground arith) (ground arith) same
  ]
]

owned_by-account : (a : ℕ) (w : Wallet) → owned_by a w ≡ true → w.account_id ≡ a
owned_by-account a w h = ground arith

-- Sender and recipient of a transfer are different wallets.
distinct_wallets :
    (account : Account) (p : SendMoneyRequest) (s s' : Db) (d : Sent account p s s')
    → IsKeyed s.wallets
    → (d.sender.id == d.recipient.id) ≡ false
distinct_wallets account p s s' d keyed = elim (Bool-cases (d.sender.id == d.recipient.id)) [
  | inr differ ↦ differ
  | inl same ↦
      let one =
        found-eq account.id d.recipient_id s.wallets d.sender d.recipient keyed d.found_sender
          d.found_recipient same in
      let mine =
        owned_by-account account.id d.sender
          (first-holds (owned_by account.id) s.wallets d.sender d.found_sender) in
      let theirs =
        owned_by-account d.recipient_id d.recipient
          (first-holds (owned_by d.recipient_id) s.wallets d.recipient d.found_recipient) in
      absurd (d.other (sym theirs ∙ ap (λ (w : Wallet). w.account_id) (sym one) ∙ mine))
]

-- What a transfer from the wallet `sender` to the wallet `recipient` does to each row: their ids
-- tell them from the others.
abbrev pub reposted : ℤ → Wallet → Wallet → Wallet → Wallet
reposted amount sender recipient w =
    if w.id == sender.id
    then record w { balance = w.balance -ℤ amount }
    else if w.id == recipient.id
    then record w { balance = w.balance +ℤ amount }
    else w

-- From `s` to `s'` the amount moved from the wallet of `account`, which held as much and whose PIN
-- was given, to that of the active account of the given address, and both rows were recorded.
pub record Transferred (account : Account) (p : SendMoneyRequest) (s s' : Db) : Type 0 where
  pub sender : Wallet
  pub recipient : Wallet
  pub recipient_id : ℕ
  pub named : find_by_email p.recipient_email s.directory.accounts ≡ some recipient_id
  pub other : recipient_id ≢ account.id
  pub pin : wrong_pin sender.security_pin p.pin ≡ false
  pub covered : p.amount ≤ℤ sender.balance
  pub sender_before : first (owned_by account.id) s.wallets ≡ some sender
  pub recipient_before : first (owned_by recipient_id) s.wallets ≡ some recipient
  pub sender_after :
      first (owned_by account.id) s'.wallets ≡ some (add_amount (pos 0 -ℤ p.amount) sender)
  pub recipient_after :
      first (owned_by recipient_id) s'.wallets ≡ some (add_amount p.amount recipient)
  pub wallets : s'.wallets ≡ map (reposted p.amount sender recipient) s.wallets
  pub transactions :
      s'.transactions
      ≡ insert
          (record {
            id = s.next_uuid + 1;
            wallet_id = recipient.id;
            type = PaymentType.credit;
            amount = p.amount;
            status = "Completed";
            description = text "Transfer from " ++ account.email;
            created_at = s.now;
            is_deleted = false;
          })
          (insert
            (record {
              id = s.next_uuid;
              wallet_id = sender.id;
              type = PaymentType.debit;
              amount = p.amount;
              status = "Completed";
              description = transfer_description p;
              created_at = s.now;
              is_deleted = false;
            })
            s.transactions)

reposted_row :
    (amount : ℤ) (sender recipient w : Wallet)
    → (sender.id == recipient.id) ≡ false
    → (let half = if has_id sender.id w then add_amount (pos 0 -ℤ amount) w else w in
        if has_id recipient.id half then add_amount amount half else half)
      ≡ reposted amount sender recipient w
unfolding ◌+ℤ◌ ◌-ℤ◌
reposted_row amount sender recipient w apart = ground arith

update-reposted :
    (amount : ℤ) (sender recipient : Wallet) (ws : List Wallet)
    → (sender.id == recipient.id) ≡ false
    → update
        (has_id recipient.id)
        (add_amount amount)
        (update (has_id sender.id) (add_amount (pos 0 -ℤ amount)) ws)
      ≡ map (reposted amount sender recipient) ws
unfolding update
update-reposted amount sender recipient [] apart = refl
update-reposted amount sender recipient (w ∷ ws) apart =
    rw (update-reposted amount sender recipient ws apart)
      (rw (reposted_row amount sender recipient w apart))

-- Where wallet ids are unique, a successful transfer takes the amount from the sender's wallet, which
-- held as much and whose PIN was given, adds it to the wallet of the different account that is active
-- under the recipient's address, leaves every other wallet as it was, and records the debit and the
-- credit.
pub send_money-Transferred :
    (account : Account) (p : SendMoneyRequest) (s : Db) (r : Mutation)
    → IsKeyed s.wallets
    → (send_money account p s).0 ≡ ok r
    → Transferred account p s (send_money account p s).1
send_money-Transferred account p s r keyed h =
    let d = send_money-Sent account s p r h in
    let apart = distinct_wallets account p s _ d keyed in
    record {
      sender = d.sender;
      recipient = d.recipient;
      recipient_id = d.recipient_id;
      named = d.named;
      other = d.other;
      pin = d.pin;
      covered = d.covered;
      sender_before = d.found_sender;
      recipient_before = d.found_recipient;
      sender_after =
          rw d.left (rw (first_owned-update, first_owned-update, d.found_sender) (ground arith));
      recipient_after =
          rw d.left (rw (first_owned-update, first_owned-update, d.found_recipient) (ground arith));
      wallets =
          ap (λ (t : Db). t.wallets) d.left
          ∙ update-reposted p.amount d.sender d.recipient s.wallets apart;
      transactions = ap (λ (t : Db). t.transactions) d.left;
    }
