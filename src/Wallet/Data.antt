-- ===== src/Wallet/Data.antt =====
-- The wallet tables and the directory tables that the assessment query joins
-- (app/modules/wallet/models.py), the request payloads (app/modules/wallet/schemas.py), and the
-- rate rule (app/modules/associations/assessment.py).
-- Ids are only compared, so they are numbers; amounts are in hundredths, which `Numeric(12, 2)`
-- and `decimal_places=2` make exact.
use nestora_server.Prelude.{ℕ, String, Bool, true, false, Option, none, some, List}
use nestora_server.Prelude.Int.{ℤ, pos}
use nestora_server.Prelude.Text.{Text}
pub use nestora_server.Account.{AccountStatus}

pub record Wallet : Type 0 where
  pub id : ℕ
  pub account_id : ℕ
  pub balance : ℤ
  pub reward_points : Option ℕ
  pub security_pin : Option Text
  pub is_deleted : Bool

-- The values of the `type` column that the program writes.
pub data PaymentType : Type 0 where
  credit debit upi : PaymentType

pub record WalletTransaction : Type 0 where
  pub id : ℕ
  pub wallet_id : ℕ
  pub type : PaymentType
  pub amount : ℤ
  pub status : String
  pub description : Text
  pub created_at : ℕ
  pub is_deleted : Bool

pub record AccountRow : Type 0 where
  pub account_id : ℕ
  pub user_id : Option ℕ
  pub email : Text
  pub status : AccountStatus

pub record UserDetail : Type 0 where
  pub user_id : ℕ
  pub unit_id : Option ℕ
  pub association_id : Option ℕ
  pub is_deleted : Bool

pub record UnitRow : Type 0 where
  pub id : ℕ
  pub block_id : ℕ
  pub is_rented : Option Bool

pub record BlockRow : Type 0 where
  pub id : ℕ
  pub association_id : ℕ

pub record AssessmentRule : Type 0 where
  pub association_id : ℕ
  pub default_amount : Option ℤ
  pub is_advanced_enabled : Bool
  pub owner_occupied_amount : Option ℤ
  pub rented_amount : Option ℤ

-- The tables that the wallet module only reads. An association is its id.
pub record Directory : Type 0 where
  pub accounts : List AccountRow
  pub user_details : List UserDetail
  pub units : List UnitRow
  pub blocks : List BlockRow
  pub associations : List ℕ
  pub assessment_rules : List AssessmentRule

-- `now` is CURRENT_TIMESTAMP, `month_start` is DATE_FORMAT(CURRENT_DATE, '%Y-%m-01'), and
-- `next_uuid` the value that the next `uuid.uuid4()` returns.
pub record Db : Type 0 where
  pub directory : Directory
  pub wallets : List Wallet
  pub transactions : List WalletTransaction
  pub now : ℕ
  pub month_start : ℕ
  pub next_uuid : ℕ

pub record PinRequest : Type 0 where
  pub pin : Text

pub record AddMoneyRequest : Type 0 where
  pub amount : ℤ
  pub method : Text

pub record SendMoneyRequest : Type 0 where
  pub recipient_email : Text
  pub amount : ℤ
  pub pin : Text
  pub purpose : Option Text

pub record PayDuesRequest : Type 0 where
  pub amount : ℤ
  pub pin : Text

pub record PayDuesUpiRequest : Type 0 where
  pub amount : ℤ

-- The reply of a handler that changes the wallet: `balance` is absent from some.
pub record Mutation : Type 0 where
  pub message : String
  pub balance : Option ℤ

pub record AssessmentAmount : Type 0 where
  pub amount : ℤ
  pub rate_type : String

-- `Decimal(default_amount or 0)`
unfoldable pub fallback_amount : Option ℤ → ℤ
fallback_amount none = pos 0
fallback_amount (some a) = a

-- The rented rate, else the owner-occupied rate, else the standard one.
unfoldable pub resolve_assessment_amount :
    Option ℤ → Bool → Option ℤ → Option ℤ → Bool → AssessmentAmount
unfolding fallback_amount
resolve_assessment_amount d true owner (some r) true = record {
  amount = r;
  rate_type = "Rented rate";
}
resolve_assessment_amount d true (some o) rented false = record {
  amount = o;
  rate_type = "Owner-occupied rate";
}
resolve_assessment_amount d advanced owner rented is_rented = record {
  amount = fallback_amount d;
  rate_type = "Standard rate";
}
