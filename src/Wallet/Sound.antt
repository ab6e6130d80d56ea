-- ===== src/Wallet/Sound.antt =====
-- Through any sequence of wallet requests no balance becomes negative, and every balance is its
-- opening amount plus what the recorded transactions of that wallet add up to.
use nestora_server.Prelude.{ℕ, ◌+◌, ◌++◌, ◌≡◌, refl, true, List, [], ◌∷◌, subst, sym, some}
use nestora_server.Prelude.Int.{ℤ, pos, ◌+ℤ◌, ◌-ℤ◌, ◌<ℤ◌}
use nestora_server.Prelude.Table.{All, All-first, update, insert, All-update}
use nestora_server.Http.{ok}
use nestora_server.Account.{Account}
use nestora_server.Wallet.Data.{
  Wallet, PaymentType, WalletTransaction, Db, Mutation, AddMoneyRequest, SendMoneyRequest,
  PinRequest, PayDuesRequest, PayDuesUpiRequest,
}
use nestora_server.Wallet.Repository.{
  new_transaction, dues_description, has_id, add_amount, owned_by,
}
use nestora_server.Wallet.Ledger.{net, Tracks}
use nestora_server.Wallet.Postings.{
  posted-Tracks, recorded-Tracks, NonNegative, credited-NonNegative, debited-NonNegative,
}
use nestora_server.Prelude.Text.{text}
use nestora_server.Wallet.Service.{transfer_description}
use nestora_server.Wallet.Effects.{
  pinned, PinSet, setup_pin-PinSet, Added, Sent, PaidFromWallet, PaidByUpi, add_money-Added,
  send_money-Sent, pay_dues-PaidFromWallet, pay_dues_upi-PaidByUpi,
}
use nestora_server.Wallet.Handler.{Request, execute, handle, serve}
use nestora_server.Wallet.Atomic.{handle_keeps}

-- What pydantic has checked of a payload: `Field(gt=0)` on the amounts.
abbrev pub IsValid : Request → Type 0
IsValid (Request.setup_pin p) = Unit
IsValid (Request.add_money p) = pos 0 <ℤ p.amount
IsValid (Request.pay_dues p) = pos 0 <ℤ p.amount
IsValid (Request.pay_dues_upi p) = pos 0 <ℤ p.amount
IsValid (Request.send_money p) = pos 0 <ℤ p.amount

abbrev pub balances_of : (ℕ → ℤ) → Db → ℕ → ℤ
balances_of opening s i = opening i +ℤ net i s.transactions

pub record IsSound (opening : ℕ → ℤ) (s : Db) : Type 0 where
  pub accounted : Tracks (balances_of opening s) s.wallets
  pub nonneg : NonNegative s.wallets

module _ (opening : ℕ → ℤ) (account : Account) {s : Db} where
  Added-IsSound :
      (p : AddMoneyRequest) {s' : Db}
      → pos 0 <ℤ p.amount
      → IsSound opening s
      → Added account p s s'
      → IsSound opening s'
  Added-IsSound p positive sound d = subst (IsSound opening) (sym d.left) (record {
    accounted =
        posted-Tracks opening
          (new_transaction d.wallet.id PaymentType.credit p.amount (text "Added via " ++ p.method)
            s)
          s.transactions s.wallets sound.accounted;
    nonneg = credited-NonNegative d.wallet.id p.amount s.wallets positive sound.nonneg;
  })

  PaidFromWallet-IsSound :
      (p : PayDuesRequest) {s' : Db}
      → IsSound opening s
      → PaidFromWallet account p s s'
      → IsSound opening s'
  PaidFromWallet-IsSound p sound d = subst (IsSound opening) (sym d.left) (record {
    accounted =
        posted-Tracks opening
          (new_transaction d.wallet.id PaymentType.debit p.amount (text dues_description) s)
          s.transactions s.wallets sound.accounted;
    nonneg =
        debited-NonNegative (balances_of opening s) d.wallet p.amount s.wallets sound.accounted
          (All-first _ (owned_by account.id) s.wallets d.wallet sound.accounted d.dues.found)
          d.covered sound.nonneg;
  })

  PaidByUpi-IsSound :
      (p : PayDuesUpiRequest) {s' : Db}
      → IsSound opening s
      → PaidByUpi account p s s'
      → IsSound opening s'
  PaidByUpi-IsSound p sound d = subst (IsSound opening) (sym d.left) (record {
    accounted =
        recorded-Tracks opening
          (new_transaction d.wallet.id PaymentType.upi p.amount (text dues_description) s)
          s.transactions s.wallets refl sound.accounted;
    nonneg = sound.nonneg;
  })

  Sent-IsSound :
      (p : SendMoneyRequest) {s' : Db}
      → pos 0 <ℤ p.amount
      → IsSound opening s
      → Sent account p s s'
      → IsSound opening s'
  Sent-IsSound p positive sound d = subst (IsSound opening) (sym d.left) (record {
    accounted =
        posted-Tracks opening credited_row (insert debited_row s.transactions)
          (update (has_id d.sender.id) (add_amount (pos 0 -ℤ p.amount)) s.wallets)
          (posted-Tracks opening debited_row s.transactions s.wallets sound.accounted);
    nonneg = credited-NonNegative d.recipient.id p.amount _ positive (
        debited-NonNegative (balances_of opening s) d.sender p.amount s.wallets sound.accounted
          (All-first _ (owned_by account.id) s.wallets d.sender sound.accounted d.found_sender)
          d.covered sound.nonneg);
  })
    where
      debited_row : WalletTransaction
      debited_row =
          new_transaction d.sender.id PaymentType.debit p.amount (transfer_description p) s

      credited_row : WalletTransaction
      credited_row =
          new_transaction d.recipient.id PaymentType.credit p.amount
            (text "Transfer from " ++ account.email) (record s { next_uuid = s.next_uuid + 1 })

module _ (opening : ℕ → ℤ) (account : Account) {s : Db} where
  -- A new PIN touches no balance.
  PinSet-IsSound :
      (p : PinRequest) {s' : Db} → IsSound opening s → PinSet account p s s' → IsSound opening s'
  PinSet-IsSound p sound d = subst (IsSound opening) (sym d.left) (record {
    accounted = kept _ sound.accounted (λ v e h. h);
    nonneg = kept _ sound.nonneg (λ v e h. h);
  })
    where
      kept :
          (P : Wallet → Type 0)
          → All P s.wallets
          → ((v : Wallet)
              → has_id d.wallet.id v ≡ true
              → P v
              → P (record v { security_pin = some p.pin }))
          → All P (pinned d.wallet.id p.pin s).wallets
      kept P h k =
          All-update P (has_id d.wallet.id) (λ v. record v { security_pin = some p.pin }) s.wallets
            h k

module _ (opening : ℕ → ℤ) (account : Account) {s : Db} where
  handle-IsSound :
      (request : Request)
      → IsValid request
      → IsSound opening s
      → IsSound opening (handle account request s).1
  unfolding execute
  handle-IsSound request valid sound =
      handle_keeps (IsSound opening) account request s sound (succeed request valid)
    where
      succeed :
          (request : Request)
          → IsValid request
          → (r : Mutation) → (execute account request s).0 ≡ ok r
          → IsSound opening (execute account request s).1
      succeed (Request.setup_pin p) valid r h =
          PinSet-IsSound opening account p sound (setup_pin-PinSet account s p r h)
      succeed (Request.add_money p) valid r h =
          Added-IsSound opening account p valid sound (add_money-Added account s p r h)
      succeed (Request.pay_dues p) valid r h =
          PaidFromWallet-IsSound opening account p sound (pay_dues-PaidFromWallet account s p r h)
      succeed (Request.pay_dues_upi p) valid r h =
          PaidByUpi-IsSound opening account p sound (pay_dues_upi-PaidByUpi account s p r h)
      succeed (Request.send_money p) valid r h =
          Sent-IsSound opening account p valid sound (send_money-Sent account s p r h)

-- Every payload of a sequence of requests has been validated.
abbrev pub AllValid : List (Account × Request) → Type 0
AllValid [] = Unit
AllValid ((account, request) ∷ rest) = IsValid request × AllValid rest

-- From a database whose books are sound, any sequence of validated requests, those that raise
-- included, leaves them sound: no balance is negative, and every balance is the opening amount of
-- its wallet plus the credits and minus the debits that are recorded for it.
pub serve-IsSound :
    (opening : ℕ → ℤ) (requests : List (Account × Request)) (s : Db)
    → AllValid requests
    → IsSound opening s
    → IsSound opening (serve requests s)
unfolding serve
serve-IsSound opening [] s valid sound = sound
serve-IsSound opening ((account, request) ∷ rest) s valid sound =
    serve-IsSound opening rest (handle account request s).1 valid.1
      (handle-IsSound opening account request valid.0 sound)
