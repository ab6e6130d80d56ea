-- ===== src/Wallet/Effects.antt =====
-- What each writing method of the wallet service has read and written when it returns.
use nestora_server.Prelude.{
  ℕ, ◌+◌, ◌++◌, ◌≡◌, ◌≢◌, inl, inr, Option-cases, ◌==◌, false, some, arith,
}
use nestora_server.Prelude.Int.{ℤ, pos, ◌≤ℤ◌, ◌-ℤ◌}
use nestora_server.Prelude.Table.{first, update, insert, exists}
use nestora_server.Prelude.Text.{Text, text}
use nestora_server.Http.{Result-cases, ok}
use nestora_server.Account.{Account}
use nestora_server.Wallet.Data.{
  Wallet, PaymentType, Db, PinRequest, SendMoneyRequest, AddMoneyRequest, PayDuesRequest,
  PayDuesUpiRequest, Mutation,
}
use nestora_server.Wallet.Repository
use nestora_server.Wallet.Repository.{
  owned_by, find_by_email, has_id, add_amount, new_transaction, is_dues, dues_description,
  find_rate, update_balance,
}
use nestora_server.Wallet.Service.{
  require_role, require_wallet, wrong_pin, validate_debit, require_assessment, send_money,
  recipient_of, transfer_description, add_money, pay_dues, pay_dues_upi, setup_pin,
}
use nestora_server.Wallet.Checks.{
  IsRate, require_wallet_state, require_wallet_found, validate_debit_lem, validate_debit_state,
  require_assessment_state, assessed_amount, require_assessment_amount,
}

-- A transaction row of the wallet `k` is recorded.
abbrev pub recorded : ℕ → PaymentType → ℤ → Text → Db → Db
recorded k type amount description s = record s {
  transactions = insert (new_transaction k type amount description s) s.transactions;
  next_uuid = s.next_uuid + 1;
}

-- The wallet `k` is changed by `delta`.
abbrev pub moved : ℕ → ℤ → Db → Db
moved k delta s = record s { wallets = update (has_id k) (add_amount delta) s.wallets }

-- The wallet `k` has a new PIN.
abbrev pub pinned : ℕ → Text → Db → Db
pinned k pin s = record s {
  wallets = update (has_id k) (λ w. record w { security_pin = some pin }) s.wallets;
}

pub record PinSet (account : Account) (p : PinRequest) (s s' : Db) : Type 0 where
  pub wallet : Wallet
  pub found : first (owned_by account.id) s.wallets ≡ some wallet
  pub left : s' ≡ pinned wallet.id p.pin s

pub record Added (account : Account) (p : AddMoneyRequest) (s s' : Db) : Type 0 where
  pub wallet : Wallet
  pub found : first (owned_by account.id) s.wallets ≡ some wallet
  pub left :
      s'
      ≡ recorded wallet.id PaymentType.credit p.amount
          (text "Added via " ++ p.method)
          (moved wallet.id p.amount s)

-- The dues of `account` were unpaid in `s`, and `amount` is its configured rate.
pub record PaidDues (account : Account) (amount : ℤ) (s : Db) (wallet : Wallet) : Type 0 where
  pub found : first (owned_by account.id) s.wallets ≡ some wallet
  pub rate : IsRate account s amount
  pub unpaid : exists (is_dues wallet.id s.month_start) s.transactions ≡ false

pub record PaidFromWallet (account : Account) (p : PayDuesRequest) (s s' : Db) : Type 0 where
  pub wallet : Wallet
  pub dues : PaidDues account p.amount s wallet
  pub covered : p.amount ≤ℤ wallet.balance
  pub pin : wrong_pin wallet.security_pin p.pin ≡ false
  pub left :
      s'
      ≡ recorded wallet.id PaymentType.debit p.amount
          (text dues_description)
          (moved wallet.id (pos 0 -ℤ p.amount) s)

pub record PaidByUpi (account : Account) (p : PayDuesUpiRequest) (s s' : Db) : Type 0 where
  pub wallet : Wallet
  pub dues : PaidDues account p.amount s wallet
  pub left : s' ≡ recorded wallet.id PaymentType.upi p.amount (text dues_description) s

pub record Sent (account : Account) (p : SendMoneyRequest) (s s' : Db) : Type 0 where
  pub sender : Wallet
  pub recipient : Wallet
  pub recipient_id : ℕ
  pub named : find_by_email p.recipient_email s.directory.accounts ≡ some recipient_id
  pub found_sender : first (owned_by account.id) s.wallets ≡ some sender
  pub found_recipient : first (owned_by recipient_id) s.wallets ≡ some recipient
  pub other : recipient_id ≢ account.id
  pub covered : p.amount ≤ℤ sender.balance
  pub pin : wrong_pin sender.security_pin p.pin ≡ false
  pub left :
      s'
      ≡ recorded recipient.id PaymentType.credit p.amount (text "Transfer from " ++ account.email) (
          recorded sender.id PaymentType.debit p.amount
            (transfer_description p)
            (moved recipient.id p.amount (moved sender.id (pos 0 -ℤ p.amount) s)))

module _ (account : Account) (s : Db) where
  pub setup_pin-PinSet :
      (p : PinRequest) (r : Mutation)
      → (setup_pin account p s).0 ≡ ok r
      → PinSet account p s (setup_pin account p s).1
  unfolding require_wallet require_role Repository.wallet setup_pin Repository.set_pin
  setup_pin-PinSet p r h = elim (Option-cases (first (owned_by account.id) s.wallets)) [
    | inl missing ↦ absurd (ground arith)
    | inr (w, found) ↦ record { wallet = w; found = found; left = ground arith }
  ]

  pub add_money-Added :
      (p : AddMoneyRequest) (r : Mutation)
      → (add_money account p s).0 ≡ ok r
      → Added account p s (add_money account p s).1
  unfolding require_wallet require_role Repository.wallet add_money Repository.update_balance
      Repository.add_transaction
  add_money-Added p r h = elim (Option-cases (first (owned_by account.id) s.wallets)) [
    | inl missing ↦ absurd (ground arith)
    | inr (w, found) ↦ record { wallet = w; found = found; left = ground arith }
  ]

  -- An UPDATE that succeeds moved the balance.
  update_balance-moved :
      (k : ℕ) (d : ℤ) (t : Db) (u : Unit)
      → (update_balance k d t).0 ≡ ok u
      → (update_balance k d t).1 ≡ moved k d t
  unfolding update_balance
  update_balance-moved k d t u h = ground arith

  pub send_money-Sent :
      (p : SendMoneyRequest) (r : Mutation)
      → (send_money account p s).0 ≡ ok r
      → Sent account p s (send_money account p s).1
  unfolding Repository.wallet Repository.account_id_by_email send_money recipient_of
      Repository.add_transaction
  send_money-Sent p r h = elim (Result-cases (validate_debit account p.pin p.amount s).0) [
    | inl (e, raised) ↦ absurd (ground arith)
    | inr (w, valid) ↦
        let debit = validate_debit_lem account s p.pin p.amount w valid in
        let kept = validate_debit_state account s p.pin p.amount in
        elim (Option-cases (find_by_email p.recipient_email s.directory.accounts)) [
          | inl missing ↦ absurd (ground arith)
          | inr (i, named) ↦ elim (Option-cases (first (owned_by i) s.wallets)) [
            | inl missing ↦ absurd (ground arith)
            | inr (v, theirs) ↦
                let apart : (i == account.id) ≡ false = ground arith in
                record {
                  sender = w;
                  recipient = v;
                  recipient_id = i;
                  named = named;
                  found_sender = debit.0;
                  found_recipient = theirs;
                  other = ground arith;
                  covered = debit.1;
                  pin = debit.2;
                  left = posted p w v i r valid kept named theirs apart h;
                }
          ]
        ]
  ]
    where
      posted :
          (p : SendMoneyRequest) (w v : Wallet) (i : ℕ) (r : Mutation)
          → (validate_debit account p.pin p.amount s).0 ≡ ok w
          → (validate_debit account p.pin p.amount s).1 ≡ s
          → find_by_email p.recipient_email s.directory.accounts ≡ some i
          → first (owned_by i) s.wallets ≡ some v
          → (i == account.id) ≡ false
          → (send_money account p s).0 ≡ ok r
          → (send_money account p s).1
            ≡ recorded v.id PaymentType.credit p.amount (text "Transfer from " ++ account.email) (
                recorded w.id PaymentType.debit p.amount
                  (transfer_description p)
                  (moved v.id p.amount (moved w.id (pos 0 -ℤ p.amount) s)))
      posted p w v i r valid kept named theirs apart h =
          elim (Result-cases (update_balance w.id (pos 0 -ℤ p.amount) s).0) [
            | inl (e, raised) ↦ absurd (ground arith)
            | inr (u, debited) ↦
                let s1 = update_balance-moved w.id (pos 0 -ℤ p.amount) s u debited in
                elim (Result-cases
                  (update_balance v.id p.amount (moved w.id (pos 0 -ℤ p.amount) s)).0) [
                    | inl (e, raised) ↦ absurd (ground arith)
                    | inr (u', credited) ↦
                        let s2 =
                          update_balance-moved v.id p.amount (moved w.id (pos 0 -ℤ p.amount) s) u'
                            credited in
                        ground arith
                  ]
          ]

  pub pay_dues_upi-PaidByUpi :
      (p : PayDuesUpiRequest) (r : Mutation)
      → (pay_dues_upi account p s).0 ≡ ok r
      → PaidByUpi account p s (pay_dues_upi account p s).1
  unfolding pay_dues_upi Repository.dues_paid_this_month Repository.add_transaction
  pay_dues_upi-PaidByUpi p r h = elim (Result-cases (require_wallet account s).0) [
    | inl (e, raised) ↦ absurd (ground arith)
    | inr (w, found) ↦ elim (Result-cases (require_assessment account p.amount s).0) [
      | inl (e, raised) ↦ absurd (ground (arith, require_wallet_state account s))
      | inr (a, configured) ↦ record {
        wallet = w;
        dues = record {
          found = require_wallet_found account s w found;
          rate = assessed_amount account s p.amount a configured;
          unpaid =
              ground (
                arith,
                require_wallet_state account s,
                require_assessment_state account s p.amount,
              );
        };
        left = ground (
          arith,
          require_wallet_state account s,
          require_assessment_state account s p.amount,
          require_assessment_amount account s p.amount a,
        );
      }
    ]
  ]

  pub pay_dues-PaidFromWallet :
      (p : PayDuesRequest) (r : Mutation)
      → (pay_dues account p s).0 ≡ ok r
      → PaidFromWallet account p s (pay_dues account p s).1
  unfolding pay_dues Repository.dues_paid_this_month Repository.add_transaction
      Repository.update_balance
  pay_dues-PaidFromWallet p r h = elim (Result-cases (require_assessment account p.amount s).0) [
    | inl (e, raised) ↦ absurd (ground arith)
    | inr (a, configured) ↦ elim (Result-cases (validate_debit account p.pin a s).0) [
      | inl (e, raised) ↦ absurd (ground (arith, require_assessment_state account s p.amount))
      | inr (w, found) ↦
          let same = require_assessment_amount account s p.amount a configured in
          let debit = validate_debit_lem account s p.pin a w found in
          record {
            wallet = w;
            dues = record {
              found = debit.0;
              rate = assessed_amount account s p.amount a configured;
              unpaid = ground (
                arith,
                require_assessment_state account s p.amount,
                validate_debit_state account s p.pin a,
              );
            };
            covered = rw (← same) at debit.1;
            pin = debit.2;
            left = ground (
              arith,
              same,
              require_assessment_state account s p.amount,
              validate_debit_state account s p.pin a,
            );
          }
    ]
  ]
