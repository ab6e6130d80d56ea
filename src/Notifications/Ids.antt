-- ===== src/Notifications/Ids.antt =====
-- Creating notifications only hands out ids.
use nestora_server.Prelude.{ℕ, ◌≤◌, Option, List, [], ◌∷◌, some, arith}
use nestora_server.Prelude.Text.{Text}
use nestora_server.Directory.{Directory, ids_where}
use nestora_server.Account.{RoleCode}
use nestora_server.Notifications.Data.{Inbox, Notice}
use nestora_server.Notifications.Service.{
  deliver, existing_account_ids, notify_accounts, audience_role_codes, is_audience,
  notify_association_audience,
}

pub deliver_uuid :
    (ids : List ℕ) (n : Notice) (sender : Option ℕ) (now uuid : ℕ) (inbox : Inbox)
    → uuid ≤ (deliver ids n sender now uuid inbox).1
unfolding deliver
deliver_uuid [] n sender now uuid inbox = omega arith
deliver_uuid (i ∷ ids) n sender now uuid inbox = omega arith

module _ (d : Directory) (n : Notice) (sender : Option ℕ) (now uuid : ℕ) (inbox : Inbox) where
  pub notify_accounts_uuid :
      (ids : List ℕ) → uuid ≤ (notify_accounts d ids n sender now uuid inbox).1
  unfolding notify_accounts
  notify_accounts_uuid ids =
      deliver_uuid (existing_account_ids sender ids d) n sender now uuid inbox

module _ (d : Directory) (sender : Option ℕ) (now uuid : ℕ) (inbox : Inbox) where
  pub notify_association_audience_uuid :
      (n : Notice) (association_id : ℕ) (audience : Text)
      → uuid ≤ (notify_association_audience d association_id audience n sender now uuid inbox).1
  unfolding notify_association_audience
  notify_association_audience_uuid n association_id audience =
      by_roles (audience_role_codes audience)
    where
      by_roles :
          (rs : List RoleCode)
          → uuid
            ≤ (elim rs as (λ x. Inbox × ℕ) [
              | [] ↦ (inbox, uuid)
              | r ∷ rest ↦
                  notify_accounts d
                    (ids_where (is_audience association_id (r ∷ rest) d) d.accounts)
                    (record n {
                      association_id = some association_id;
                      created_by_account_id = sender;
                    })
                    sender
                    now
                    uuid
                    inbox
            ]).1
      by_roles [] = omega arith
      by_roles (r ∷ rest) =
          notify_accounts_uuid d
            (record n { association_id = some association_id; created_by_account_id = sender })
            sender now uuid inbox (ids_where (is_audience association_id (r ∷ rest) d) d.accounts)
