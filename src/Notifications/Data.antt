-- ===== src/Notifications/Data.antt =====
-- The tables `notifications` and `notification_recipients` that
-- app/modules/notifications/service.py writes. The JSON of the metadata is left out.
use nestora_server.Prelude.{ℕ, String, Option, List}
use nestora_server.Prelude.Text.{Text}

pub record Notification : Type 0 where
  pub id : ℕ
  pub association_id : Option ℕ
  pub created_by_account_id : Option ℕ
  pub type : String
  pub title : Text
  pub message : Text
  pub entity_type : Option String
  pub entity_id : Option ℕ
  pub action_url : Option String
  pub created_at : ℕ

pub record NotificationRecipient : Type 0 where
  pub notification_id : ℕ
  pub account_id : ℕ
  pub delivered_at : ℕ
  pub read_at : Option ℕ
  pub archived_at : Option ℕ

pub record Inbox : Type 0 where
  pub notifications : List Notification
  pub recipients : List NotificationRecipient

-- What a caller of `notify_accounts` says, beside the recipients and the sender.
pub record Notice : Type 0 where
  pub title : Text
  pub message : Text
  pub type : String
  pub association_id : Option ℕ
  pub created_by_account_id : Option ℕ
  pub entity_type : Option String
  pub entity_id : Option ℕ
  pub action_url : Option String
