-- ===== src/Notifications/Examples.antt =====
-- An inbox of three, and the theorems at it.
use nestora_server.Prelude.{ℕ, ◌+◌, ◌≡◌, ◌≢◌, refl, true, none, some, [], ◌∷◌, arith}
use nestora_server.Prelude.Table.{length, first, sum_where}
use nestora_server.Directory.{Directory, is_in}
use nestora_server.Account.{AccountStatus}
use nestora_server.Notifications.Data.{Notification, NotificationRecipient, Inbox, Notice}
use nestora_server.Notifications.Service.{notify_accounts}
use nestora_server.Notifications.Repository.{
  Db, visible, sort, insert_item, unread_count, mark_all_read,
}
use nestora_server.Notifications.Order.{Distinct}
use nestora_server.Notifications.Paging.{read_pages, whole, read_pages-whole}
use nestora_server.Notifications.Unread.{unread_count-mark_all_read, unread_count-notify_accounts}

note : ℕ → ℕ → Notification
note id created_at = record {
  id = id;
  association_id = none;
  created_by_account_id = none;
  type = "poll";
  title = [];
  message = [];
  entity_type = none;
  entity_id = none;
  action_url = none;
  created_at = created_at;
}

row : ℕ → ℕ → NotificationRecipient
row notification_id account_id = record {
  notification_id = notification_id;
  account_id = account_id;
  delivered_at = 0;
  read_at = none;
  archived_at = none;
}

abbrev inbox : Inbox
inbox = record {
  notifications = note 1 5 ∷ note 2 5 ∷ note 3 4 ∷ [];
  recipients = row 3 7 ∷ row 1 7 ∷ row 1 8 ∷ row 2 7 ∷ [];
}

inbox-Distinct : Distinct (visible 7 inbox.notifications inbox.recipients)
unfolding visible first note row
inbox-Distinct = ((refl, (refl, tt)), ((refl, tt), (tt, tt)))

three_rows : length (whole 7 inbox) ≡ 3
unfolding visible first note row sort insert_item length
three_rows = refl

read_pages-whole_example : read_pages 4 7 2 none inbox ≡ whole 7 inbox
read_pages-whole_example =
    read_pages-whole 7 2 4 inbox inbox-Distinct (omega arith) (omega (arith, three_rows))

abbrev db : Db
db = record { inbox = inbox; now = 9 }

unread_count-mark_all_read_example :
    (unread_count 7 (mark_all_read 7 db).1.inbox ≡ 0)
    × ((b : ℕ) → b ≢ 7 → unread_count b (mark_all_read 7 db).1.inbox ≡ unread_count b inbox)
unread_count-mark_all_read_example = unread_count-mark_all_read 7 db

abbrev directory : Directory
directory = record {
  accounts =
      record {
        account_id = 7;
        user_id = none;
        email = [];
        status = AccountStatus.active;
        role_code = "tenant";
        role_is_live = true;
      }
      ∷ [];
  user_details = [];
  units = [];
  blocks = [];
  associations = [];
  admin_associations = [];
}

abbrev notice : Notice
notice = record {
  title = [];
  message = [];
  type = "poll";
  association_id = none;
  created_by_account_id = none;
  entity_type = none;
  entity_id = none;
  action_url = none;
}

unread_count-notify_accounts_example :
    unread_count 7 (notify_accounts directory (8 ∷ 7 ∷ []) notice (some 8) 9 50 inbox).0
    ≡ unread_count 7 inbox + 1
unfolding sum_where is_in
unread_count-notify_accounts_example =
    unread_count-notify_accounts 7 directory (8 ∷ 7 ∷ []) notice (some 8) 9 50 inbox
