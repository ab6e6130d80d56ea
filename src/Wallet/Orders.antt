-- ===== src/Wallet/Orders.antt =====
-- app/modules/wallet: the methods that only read or answer: the list of transactions, and the order of
-- a payment and its verification, which do not touch the database. An order id keeps the value of
-- `uuid.uuid4()` that its text is made of.
use nestora_server.Prelude.{
  ℕ, ◌+◌, String, Bool, true, false, Option, List, [], ◌∷◌, ◌&&◌, not, leb, ◌==◌, if◌then◌else◌,
}
use nestora_server.Prelude.Int.{ℤ}
use nestora_server.Prelude.Text.{Text}
use nestora_server.Http.{Exec, pure, gets, modify, ◌>>=◌, ◌>>◌}
use nestora_server.Account.{Account}
use nestora_server.Wallet.Data.{WalletTransaction, Db}
use nestora_server.Wallet.Service.{require_role, require_wallet}

-- Into a list that is ordered from the latest to the earliest.
unfoldable pub insert_latest : WalletTransaction → List WalletTransaction → List WalletTransaction
insert_latest t [] = t ∷ []
insert_latest t (u ∷ us) =
    let rest = insert_latest t us in if leb u.created_at t.created_at then t ∷ u ∷ us else u ∷ rest

-- WHERE wallet_id = :wallet_id AND COALESCE(is_deleted, 0) = 0 ORDER BY created_at DESC
unfoldable pub transactions_of : ℕ → List WalletTransaction → List WalletTransaction
unfolding insert_latest
transactions_of wallet_id [] = []
transactions_of wallet_id (t ∷ rows) =
    let rest = transactions_of wallet_id rows in
    if t.wallet_id == wallet_id && not t.is_deleted then insert_latest t rest else rest

unfoldable pub list_transactions : Account → Exec Db (List WalletTransaction)
list_transactions account = do
  w ← require_wallet account
  gets (λ s. transactions_of w.id s.transactions)

pub record CreateOrderRequest : Type 0 where
  pub amount : ℕ
  pub currency : Text
  pub receipt : Option Text

pub record CreateOrderResponse : Type 0 where
  pub order_id : ℕ
  pub amount : ℕ
  pub currency : Text
  pub receipt : Option Text

unfoldable pub create_order : Account → CreateOrderRequest → Exec Db CreateOrderResponse
create_order account payload = do
  require_role account
  uuid ← gets (λ s. s.next_uuid)
  modify (λ s. record s { next_uuid = s.next_uuid + 1 })
  pure (record {
    order_id = uuid;
    amount = payload.amount;
    currency = payload.currency;
    receipt = payload.receipt;
  })

pub record VerifyPaymentRequest : Type 0 where
  pub razorpay_payment_id : Text
  pub razorpay_order_id : Text
  pub razorpay_signature : Text
  pub amount : ℤ

pub record VerifyPaymentResponse : Type 0 where
  pub success : Bool
  pub wallet_added : Bool
  pub message : String

-- The payload is not looked at.
unfoldable pub verify_payment : Account → VerifyPaymentRequest → Exec Db VerifyPaymentResponse
verify_payment account payload = do
  require_role account
  pure (record {
    success = true;
    wallet_added = false;
    message = "Payment verified. Wallet credit is pending confirmation.";
  })
