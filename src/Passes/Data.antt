-- ===== src/Passes/Data.antt =====
-- The tables of the event passes (app/modules/events/models.py), the tables that the pass service
-- joins, and its payloads (app/modules/events/schemas.py). Amounts are in hundredths. A pass keeps
-- the value of `uuid.uuid4()` that its code `PASS-…` is cut from; `qr_data` is a function of the
-- other columns, and an event's columns that no pass operation reads are left out.
use nestora_server.Prelude.{ℕ, String, Bool, Option, List}
use nestora_server.Prelude.Text.{Text}
use nestora_server.Wallet.Data.{Wallet, WalletTransaction, UnitRow, BlockRow, AccountStatus}

pub record Event : Type 0 where
  pub id : ℕ
  pub association_id : Option ℕ
  pub title : Text
  pub registration_deadline : Option ℕ
  pub max_capacity : Option ℕ
  pub audience : Text
  pub fee_amount : Option ℕ
  pub has_pass : Bool
  pub pass_price : Option ℕ
  pub max_passes_per_user : ℕ
  pub status : Text
  pub created_at : Option ℕ
  pub is_deleted : Bool

pub record EventRsvp : Type 0 where
  pub id : ℕ
  pub event_id : ℕ
  pub account_id : ℕ
  pub status : String
  pub is_deleted : Bool

pub record EventLike : Type 0 where
  pub event_id : ℕ
  pub account_id : ℕ
  pub is_deleted : Bool

pub record EventComment : Type 0 where
  pub id : ℕ
  pub event_id : ℕ
  pub account_id : ℕ
  pub body : Text
  pub is_deleted : Bool

-- The values of the `status` column of a pass. The program never writes Cancelled.
pub data PassStatus : Type 0 where
  active checked_in cancelled : PassStatus

pub record EventPass : Type 0 where
  pub id : ℕ
  pub event_id : ℕ
  pub account_id : ℕ
  pub buyer_name : Text
  pub buyer_mobile : Option Text
  pub total_passes : ℕ
  pub remaining_passes : ℕ
  pub checked_in_passes : ℕ
  pub pass_code : ℕ
  pub amount_paid : ℕ
  pub payment_method : String
  pub payment_status : String
  pub status : PassStatus
  pub shared_from_pass_id : Option ℕ
  pub shared_to_mobile : Option Text
  pub last_checked_in_at : Option ℕ
  pub last_checked_in_by : Option ℕ
  pub created_at : ℕ

pub record EventPassTransfer : Type 0 where
  pub id : ℕ
  pub original_pass_id : ℕ
  pub new_pass_id : ℕ
  pub event_id : ℕ
  pub sender_account_id : ℕ
  pub sender_name : Text
  pub sender_mobile : Option Text
  pub recipient_mobile : Text
  pub recipient_name : Text
  pub count : ℕ

pub record EventPassCheckIn : Type 0 where
  pub id : ℕ
  pub pass_id : ℕ
  pub event_id : ℕ
  pub admitted_count : ℕ
  pub checked_in_by : ℕ
  pub checked_in_by_name : Text
  pub notes : Option Text

pub record AccountRow : Type 0 where
  pub account_id : ℕ
  pub user_id : Option ℕ
  pub email : Text
  pub status : AccountStatus

pub record UserDetail : Type 0 where
  pub user_id : ℕ
  pub name : Option Text
  pub contact_number : Option Text
  pub unit_id : Option ℕ
  pub association_id : Option ℕ
  pub is_deleted : Bool

pub record AdminAssociation : Type 0 where
  pub admin_id : ℕ
  pub association_id : ℕ

-- app/modules/notifications. `action_url` is a function of `entity_id`, and the metadata is the event
-- and the pass.
pub record Notification : Type 0 where
  pub id : ℕ
  pub association_id : Option ℕ
  pub created_by_account_id : ℕ
  pub type : String
  pub title : String
  pub message : Text
  pub entity_type : String
  pub entity_id : ℕ
  pub event_id : ℕ

pub record NotificationRecipient : Type 0 where
  pub notification_id : ℕ
  pub account_id : ℕ
  pub delivered_at : ℕ

-- `now` is the time, `next_uuid` the value that the next `uuid.uuid4()` returns.
pub record Db : Type 0 where
  pub accounts : List AccountRow
  pub user_details : List UserDetail
  pub units : List UnitRow
  pub blocks : List BlockRow
  pub admin_associations : List AdminAssociation
  pub events : List Event
  pub rsvps : List EventRsvp
  pub likes : List EventLike
  pub comments : List EventComment
  pub passes : List EventPass
  pub transfers : List EventPassTransfer
  pub checkins : List EventPassCheckIn
  pub wallets : List Wallet
  pub transactions : List WalletTransaction
  pub notifications : List Notification
  pub recipients : List NotificationRecipient
  pub now : ℕ
  pub next_uuid : ℕ

pub data PaymentMethod : Type 0 where
  wallet upi : PaymentMethod

pub record EventPassBookingRequest : Type 0 where
  pub member_count : ℕ
  pub payment_method : PaymentMethod
  pub pin : Option Text

pub record EventPassShareRequest : Type 0 where
  pub recipient_mobile : Text
  pub count : ℕ

pub record EventPassCheckInRequest : Type 0 where
  pub admit_count : ℕ
  pub notes : Option Text
