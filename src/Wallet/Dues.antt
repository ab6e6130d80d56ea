-- ===== src/Wallet/Dues.antt =====
-- The dues of a month are paid once: a payment is found again, whatever comes between.
use mathlib.Core.Option
use mathlib.Core.Bool.{false≢true}
use nestora_server.Prelude.{
  ℕ, ◌≡◌, ◌≢◌, ◌≤◌, ◌==◌, refl, Bool, true, false, some, sym, ◌∙◌, subst, arith, ==_refl,
  if◌then◌else◌, List, [], ◌∷◌, inl, inr,
}
use nestora_server.Prelude.Int.{ℤ, pos, ◌-ℤ◌}
use nestora_server.Prelude.Table.{first, exists, update, some_eq, exists-insert, exists-insert_of}
use nestora_server.Prelude.Text.{Text, text, text_eq_refl}
use nestora_server.Http.{Result-cases, HttpException, err, ok}
use nestora_server.Account.{Account}
use nestora_server.Wallet.Data.{Wallet, PaymentType, Db, Mutation}
use nestora_server.Wallet.Repository.{
  owned_by, has_id, add_amount, is_dues, is_payment, new_transaction, dues_description,
}
use nestora_server.Wallet.Postings.{first_owned-update}
use nestora_server.Wallet.Effects.{
  moved, recorded, pinned, setup_pin-PinSet, add_money-Added, send_money-Sent,
  pay_dues-PaidFromWallet, pay_dues_upi-PaidByUpi,
}
use nestora_server.Wallet.Handler.{Request, execute, handle, serve}
use nestora_server.Wallet.Atomic.{handle_keeps}

-- A wallet id is found for the account, and a payment of this month's dues for that wallet.
pub record DuesPaid (account : Account) (s : Db) : Type 0 where
  pub wallet : Wallet
  pub found : first (owned_by account.id) s.wallets ≡ some wallet
  pub paid : exists (is_dues wallet.id s.month_start) s.transactions ≡ true

abbrev pub IsDues : Request → Type 0
IsDues (Request.pay_dues p) = Unit
IsDues (Request.pay_dues_upi p) = Unit
IsDues (Request.setup_pin p) = ⊥
IsDues (Request.add_money p) = ⊥
IsDues (Request.send_money p) = ⊥

first_owned-pin :
    (a k : ℕ) (pin : Text) (ws : List Wallet)
    → first (owned_by a) (update (has_id k) (λ w. record w { security_pin = some pin }) ws)
      ≡ Option.map
          (λ (w : Wallet). if w.id == k then record w { security_pin = some pin } else w)
          (first (owned_by a) ws)
unfolding first update
first_owned-pin a k pin [] = refl
first_owned-pin a k pin (w ∷ ws) = rw (first_owned-pin a k pin ws) (ground arith)

clash :
    {account : Account} {s : Db}
    → DuesPaid account s
    → (w : Wallet) → first (owned_by account.id) s.wallets ≡ some w
    → exists (is_dues w.id s.month_start) s.transactions ≡ false
    → ⊥
clash {account} {s} paid w found unpaid =
    let one = some_eq paid.wallet w (sym paid.found ∙ found) in
    false≢true (
      sym unpaid
      ∙ subst (λ (v : Wallet). exists (is_dues v.id s.month_start) s.transactions ≡ true) one
          paid.paid)

-- The row that a payment inserts is one that the query for the month's dues finds.
dues_found :
    (k : ℕ) (type : PaymentType) (amount : ℤ) (s : Db)
    → s.month_start ≤ s.now
    → is_payment type ≡ true
    → is_dues k s.month_start (new_transaction k type amount (text dues_description) s) ≡ true
unfolding is_dues
dues_found k type amount s month pays =
    rw (==_refl k, pays, text_eq_refl (text dues_description)) (ground arith)

module _ (account : Account) where
  DuesPaid-moved : (k : ℕ) (d : ℤ) (s : Db) → DuesPaid account s → DuesPaid account (moved k d s)
  DuesPaid-moved k d s h = record {
    wallet = if h.wallet.id == k then add_amount d h.wallet else h.wallet;
    found = rw (first_owned-update, h.found);
    paid = by_test (h.wallet.id == k);
  }
    where
      by_test :
          (b : Bool)
          → exists
              (is_dues (if b then add_amount d h.wallet else h.wallet).id s.month_start)
              s.transactions
            ≡ true
      by_test true = h.paid
      by_test false = h.paid

  DuesPaid-recorded :
      (k : ℕ) (type : PaymentType) (a : ℤ) (t : Text) (s : Db)
      → DuesPaid account s
      → DuesPaid account (recorded k type a t s)
  DuesPaid-recorded k type a t s h = record {
    wallet = h.wallet;
    found = h.found;
    paid =
        exists-insert_of (is_dues h.wallet.id s.month_start) (new_transaction k type a t s)
          s.transactions h.paid;
  }

  DuesPaid-pinned :
      (k : ℕ) (pin : Text) (s : Db) → DuesPaid account s → DuesPaid account (pinned k pin s)
  DuesPaid-pinned k pin s h = record {
    wallet = if h.wallet.id == k then record h.wallet { security_pin = some pin } else h.wallet;
    found = rw (first_owned-pin account.id k pin s.wallets, h.found);
    paid = by_test (h.wallet.id == k);
  }
    where
      by_test :
          (b : Bool)
          → exists
              (is_dues
                (if b then record h.wallet { security_pin = some pin } else h.wallet).id
                s.month_start)
              s.transactions
            ≡ true
      by_test true = h.paid
      by_test false = h.paid

module _ (account : Account) where
  -- Whoever makes it, a request leaves paid dues paid.
  handle-DuesPaid :
      (other : Account) (request : Request) (s : Db)
      → DuesPaid account s
      → DuesPaid account (handle other request s).1
  unfolding execute
  handle-DuesPaid other request s paid =
      handle_keeps (DuesPaid account) other request s paid (succeed request)
    where
      succeed :
          (request : Request) (r : Mutation)
          → (execute other request s).0 ≡ ok r
          → DuesPaid account (execute other request s).1
      succeed (Request.setup_pin p) r h =
          let d = setup_pin-PinSet other s p r h in
          subst (DuesPaid account) (sym d.left) (DuesPaid-pinned account _ _ s paid)
      succeed (Request.add_money p) r h =
          let d = add_money-Added other s p r h in
          subst (DuesPaid account) (sym d.left) (
            DuesPaid-recorded account _ _ _ _ (moved d.wallet.id p.amount s)
              (DuesPaid-moved account _ _ s paid))
      succeed (Request.pay_dues p) r h =
          let d = pay_dues-PaidFromWallet other s p r h in
          subst (DuesPaid account) (sym d.left) (
            DuesPaid-recorded account _ _ _ _ (moved d.wallet.id (pos 0 -ℤ p.amount) s)
              (DuesPaid-moved account _ _ s paid))
      succeed (Request.pay_dues_upi p) r h =
          let d = pay_dues_upi-PaidByUpi other s p r h in
          subst (DuesPaid account) (sym d.left) (DuesPaid-recorded account _ _ _ _ s paid)
      succeed (Request.send_money p) r h =
          let d = send_money-Sent other s p r h in
          subst (DuesPaid account) (sym d.left) (
            DuesPaid-recorded account _ _ _ _ _ (
              DuesPaid-recorded account _ _ _ _ _ (
                DuesPaid-moved account _ _ (moved d.sender.id (pos 0 -ℤ p.amount) s)
                  (DuesPaid-moved account _ _ s paid))))

  serve-DuesPaid :
      (requests : List (Account × Request)) (s : Db)
      → DuesPaid account s
      → DuesPaid account (serve requests s)
  unfolding serve
  serve-DuesPaid [] s paid = paid
  serve-DuesPaid ((other, request) ∷ rest) s paid =
      serve-DuesPaid rest (handle other request s).1 (handle-DuesPaid other request s paid)

  -- With the dues paid, no payment of them succeeds.
  DuesPaid-refuses :
      (request : Request) (s : Db) (r : Mutation)
      → IsDues request
      → DuesPaid account s
      → (execute account request s).0 ≢ ok r
  unfolding execute
  DuesPaid-refuses (Request.pay_dues p) s r _ paid h =
      let d = pay_dues-PaidFromWallet account s p r h in
      clash paid d.wallet d.dues.found d.dues.unpaid
  DuesPaid-refuses (Request.pay_dues_upi p) s r _ paid h =
      let d = pay_dues_upi-PaidByUpi account s p r h in
      clash paid d.wallet d.dues.found d.dues.unpaid
  DuesPaid-refuses (Request.setup_pin p) s r is_dues paid h = elim is_dues [ ]
  DuesPaid-refuses (Request.add_money p) s r is_dues paid h = elim is_dues [ ]
  DuesPaid-refuses (Request.send_money p) s r is_dues paid h = elim is_dues [ ]

  -- A payment that succeeds records the dues as paid.
  pay-DuesPaid :
      (request : Request) (s : Db) (r : Mutation)
      → IsDues request
      → s.month_start ≤ s.now
      → (execute account request s).0 ≡ ok r
      → DuesPaid account (execute account request s).1
  unfolding execute
  pay-DuesPaid (Request.pay_dues p) s r _ month h =
      let d = pay_dues-PaidFromWallet account s p r h in
      subst (DuesPaid account) (sym d.left) (record {
        wallet = add_amount (pos 0 -ℤ p.amount) d.wallet;
        found = rw (first_owned-update, d.dues.found) (ground arith);
        paid =
            exists-insert (is_dues d.wallet.id s.month_start)
              (new_transaction d.wallet.id PaymentType.debit p.amount (text dues_description) s)
              s.transactions (dues_found d.wallet.id PaymentType.debit p.amount s month refl);
      })
  pay-DuesPaid (Request.pay_dues_upi p) s r _ month h =
      let d = pay_dues_upi-PaidByUpi account s p r h in
      subst (DuesPaid account) (sym d.left) (record {
        wallet = d.wallet;
        found = d.dues.found;
        paid =
            exists-insert (is_dues d.wallet.id s.month_start)
              (new_transaction d.wallet.id PaymentType.upi p.amount (text dues_description) s)
              s.transactions (dues_found d.wallet.id PaymentType.upi p.amount s month refl);
      })
  pay-DuesPaid (Request.setup_pin p) s r is_dues month h = elim is_dues [ ]
  pay-DuesPaid (Request.add_money p) s r is_dues month h = elim is_dues [ ]
  pay-DuesPaid (Request.send_money p) s r is_dues month h = elim is_dues [ ]

-- Once an account has paid its dues, from the wallet or by UPI, every further payment of them by
-- that account raises while the month lasts, whatever requests any accounts make in between.
pub dues_once :
    (account : Account) (first_payment : Request) (between : List (Account × Request))
    (second_payment : Request) (s : Db) (r : Mutation)
    → IsDues first_payment
    → IsDues second_payment
    → s.month_start ≤ s.now
    → (execute account first_payment s).0 ≡ ok r
    → (e : HttpException) × ((execute account second_payment
          (serve between (execute account first_payment s).1)).0
        ≡ err e)
dues_once account a between b s r da db month h =
    let s' = serve between (execute account a s).1 in
    let paid = serve-DuesPaid account between _ (pay-DuesPaid account a s r da month h) in
    elim (Result-cases (execute account b s').0) [
      | inl raised ↦ raised
      | inr (r', returned) ↦ absurd (DuesPaid-refuses account b s' r' db paid returned)
    ]
