-- ===== src/Wallet/Service.antt =====
-- app/modules/wallet/service.py: each method of `WalletService`. The handlers of
-- app/modules/wallet/router.py that write run it inside one `UnitOfWork`.
use nestora_server.Prelude.{
  ℕ, String, Bool, true, false, Option, none, some, [], ◌++◌, ◌∷◌, not, ◌==◌,
}
use nestora_server.Prelude.Int.{ℤ, pos, ◌+ℤ◌, ◌-ℤ◌, ltb_ℤ, leb_ℤ, eqb_ℤ}
use nestora_server.Prelude.Text.{Text, text, text_eq}
use nestora_server.Http.{Status, Exec, pure, raise, or_raise, raise_if, ◌>>=◌, ◌>>◌}
use nestora_server.Account.{RoleCode, Account, account_role}
use nestora_server.Wallet.Data.{
  Wallet, PaymentType, Db, PinRequest, AddMoneyRequest, SendMoneyRequest, PayDuesRequest,
  PayDuesUpiRequest, Mutation, AssessmentAmount,
}
use nestora_server.Wallet.Repository
use nestora_server.Wallet.Repository.{
  account_id_by_email, update_balance, add_transaction, dues_description, dues_paid_this_month,
}

-- app/modules/wallet/constants.py
abbrev pub is_wallet_role : RoleCode → Bool
is_wallet_role RoleCode.security = false
is_wallet_role RoleCode.csr = false
is_wallet_role _ = true

abbrev no_access : String
no_access = "Wallet access is not available for this role"

-- `_role`
unfoldable pub require_role : Account → Exec Db RoleCode
require_role account = do
  role ← or_raise (account_role account) Status.forbidden no_access
  raise_if (not (is_wallet_role role)) Status.forbidden no_access
  pure role

-- `_wallet`
unfoldable pub require_wallet : Account → Exec Db Wallet
require_wallet account = do
  require_role account
  found ← Repository.wallet account.id
  or_raise found Status.not_found "Wallet not found."

-- `bool(wallet["security_pin"])`: neither NULL nor the empty text.
abbrev pub has_pin : Option Text → Bool
has_pin none = false
has_pin (some []) = false
has_pin (some (c ∷ s)) = true

-- not wallet["security_pin"] or wallet["security_pin"] != pin
unfoldable pub wrong_pin : Option Text → Text → Bool
wrong_pin none pin = true
wrong_pin (some []) pin = true
wrong_pin (some (c ∷ s)) pin = not (text_eq (c ∷ s) pin)

pub record Details : Type 0 where
  pub id : ℕ
  pub balance : ℤ
  pub reward_points : ℕ
  pub has_pin : Bool

unfoldable pub details : Account → Exec Db Details
details account = do
  w ← require_wallet account
  pure (record {
    id = w.id;
    balance = w.balance;
    reward_points = elim w.reward_points [ none ↦ 0 | some n ↦ n ];
    has_pin = has_pin w.security_pin;
  })

unfoldable pub setup_pin : Account → PinRequest → Exec Db Mutation
setup_pin account payload = do
  w ← require_wallet account
  Repository.set_pin w.id payload.pin
  pure (record { message = "PIN set successfully."; balance = none })

unfoldable pub add_money : Account → AddMoneyRequest → Exec Db Mutation
add_money account payload = do
  w ← require_wallet account
  update_balance w.id payload.amount
  add_transaction w.id PaymentType.credit payload.amount (text "Added via " ++ payload.method)
  pure (record {
    message = "Money added successfully.";
    balance = some (w.balance +ℤ payload.amount);
  })

-- `_validate_debit`
unfoldable pub validate_debit : Account → Text → ℤ → Exec Db Wallet
validate_debit account pin amount = do
  w ← require_wallet account
  raise_if (wrong_pin w.security_pin pin) Status.forbidden "Invalid PIN."
  raise_if (ltb_ℤ w.balance amount) Status.bad_request "Insufficient wallet balance."
  pure w

no_assessment : Option AssessmentAmount → Exec Db AssessmentAmount
no_assessment none =
    raise Status.bad_request "No maintenance assessment is configured for this unit."
no_assessment (some a) = do
  raise_if (leb_ℤ a.amount (pos 0)) Status.bad_request
      "No maintenance assessment is configured for this unit."
  pure a

-- `_assessment_amount`
unfoldable pub require_assessment : Account → ℤ → Exec Db ℤ
unfolding no_assessment
require_assessment account supplied_amount = do
  found ← Repository.assessment_amount account.id
  assessment ← no_assessment found
  raise_if (not (eqb_ℤ supplied_amount assessment.amount)) Status.bad_request
      "Maintenance dues amount no longer matches the configured assessment."
  pure assessment.amount

unfoldable pub pay_dues : Account → PayDuesRequest → Exec Db Mutation
pay_dues account payload = do
  amount ← require_assessment account payload.amount
  w ← validate_debit account payload.pin amount
  paid ← dues_paid_this_month w.id
  raise_if paid Status.bad_request "Dues already paid for this month."
  update_balance w.id (pos 0 -ℤ amount)
  add_transaction w.id PaymentType.debit amount (text dues_description)
  pure (record { message = "Dues paid successfully."; balance = some (w.balance -ℤ amount) })

unfoldable pub pay_dues_upi : Account → PayDuesUpiRequest → Exec Db Mutation
pay_dues_upi account payload = do
  w ← require_wallet account
  amount ← require_assessment account payload.amount
  paid ← dues_paid_this_month w.id
  raise_if paid Status.bad_request "Dues already paid for this month."
  add_transaction w.id PaymentType.upi amount (text dues_description)
  pure (record { message = "UPI dues payment recorded successfully."; balance = some w.balance })

purpose_suffix : Option Text → Text
purpose_suffix none = []
purpose_suffix (some []) = []
purpose_suffix (some (c ∷ s)) = text " · " ++ c ∷ s

-- `f"Transfer to {…}" + (f" · {purpose}" if purpose else "")`
unfoldable pub transfer_description : SendMoneyRequest → Text
unfolding purpose_suffix
transfer_description payload =
    text "Transfer to " ++ payload.recipient_email ++ purpose_suffix payload.purpose

-- The recipient must be found and must not be the sender.
unfoldable pub recipient_of : Account → Option ℕ → Exec Db ℕ
recipient_of account none = raise Status.bad_request "Recipient account is invalid."
recipient_of account (some recipient_id) = do
  raise_if (recipient_id == account.id) Status.bad_request "Recipient account is invalid."
  pure recipient_id

unfoldable pub send_money : Account → SendMoneyRequest → Exec Db Mutation
unfolding recipient_of
send_money account payload = do
  sender ← validate_debit account payload.pin payload.amount
  found ← account_id_by_email payload.recipient_email
  recipient_id ← recipient_of account found
  other ← Repository.wallet recipient_id
  recipient ← or_raise other Status.not_found "Recipient wallet not found."
  update_balance sender.id (pos 0 -ℤ payload.amount)
  update_balance recipient.id payload.amount
  add_transaction sender.id PaymentType.debit payload.amount (transfer_description payload)
  add_transaction recipient.id PaymentType.credit payload.amount
      (text "Transfer from " ++ account.email)
  pure (record {
    message = "Money sent successfully.";
    balance = some (sender.balance -ℤ payload.amount);
  })
