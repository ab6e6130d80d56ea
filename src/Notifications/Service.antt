-- ===== src/Notifications/Service.antt =====
-- app/modules/notifications/service.py. The functions read the directory, the inbox, the time and the
-- next `uuid.uuid4()`, and give the inbox and the next one after that. The sockets that
-- `publish_pending_notifications` sends to once the transaction is over are not modelled.
use nestora_server.Prelude.{
  ℕ, ◌+◌, String, Bool, false, Option, none, some, List, [], ◌∷◌, ◌++◌, map, ◌&&◌, ◌||◌, ◌==◌,
  if◌then◌else◌,
}
use package.text.Mathlib.Text.{◌==◌ as str_eq}
use nestora_server.Prelude.Table.{insert}
use nestora_server.Prelude.Text.{Text, text, text_eq, lower, strip}
use nestora_server.Account.{RoleCode, role_value}
use nestora_server.Directory.{
  AccountRow, Directory, is_in, is_active, ids_where, find_user, association_of_unit,
}
use nestora_server.Notifications.Data.{NotificationRecipient, Inbox, Notice}

abbrev pub is_sender : Option ℕ → ℕ → Bool
is_sender none account_id = false
is_sender (some sender) account_id = account_id == sender

-- The requested accounts, the sender left out. That `dict.fromkeys` drops repetitions is not seen by
-- the query, which asks whether an account is among them.
unfoldable pub requested : Option ℕ → List ℕ → List ℕ
requested sender [] = []
requested sender (i ∷ is) =
    if is_sender sender i then requested sender is else i ∷ requested sender is

-- `_existing_account_ids`: the rows of the accounts that are among the requested ones.
unfoldable pub existing_account_ids : Option ℕ → List ℕ → Directory → List ℕ
existing_account_ids sender ids d =
    ids_where (λ (a : AccountRow). is_in a.account_id (requested sender ids)) d.accounts

-- created_by_account_id or sender_account_id
abbrev author : Option ℕ → Option ℕ → Option ℕ
author (some a) sender = some a
author none sender = sender

abbrev pub unread_row : ℕ → ℕ → ℕ → NotificationRecipient
unread_row uuid now account_id = record {
  notification_id = uuid;
  account_id = account_id;
  delivered_at = now;
  read_at = none;
  archived_at = none;
}

-- One notification, and a row for each recipient. Nothing is written where there is none.
unfoldable pub deliver : List ℕ → Notice → Option ℕ → ℕ → ℕ → Inbox → Inbox × ℕ
deliver [] notice sender now uuid inbox = (inbox, uuid)
deliver (i ∷ is) notice sender now uuid inbox = (
  record {
    notifications =
        insert
          (record {
            id = uuid;
            association_id = notice.association_id;
            created_by_account_id = author notice.created_by_account_id sender;
            type = notice.type;
            title = notice.title;
            message = notice.message;
            entity_type = notice.entity_type;
            entity_id = notice.entity_id;
            action_url = notice.action_url;
            created_at = now;
          })
          inbox.notifications;
    recipients = inbox.recipients ++ map (unread_row uuid now) (i ∷ is);
  },
  uuid + 1,
)

unfoldable pub notify_accounts : Directory → List ℕ → Notice → Option ℕ → ℕ → ℕ → Inbox → Inbox × ℕ
notify_accounts d ids notice sender now uuid inbox =
    deliver (existing_account_ids sender ids d) notice sender now uuid inbox

-- `audience.strip().lower().replace("_", " ").replace("-", " ")`
unfoldable pub normalize_audience : Text → Text
normalize_audience audience =
    map (λ c. if c == b'_' || c == b'-' then 32 else c) (lower (strip audience))

unfoldable pub text_in : Text → List Text → Bool
text_in t [] = false
text_in t (u ∷ us) = text_eq t u || text_in t us

-- `_audience_role_codes`
unfoldable pub audience_role_codes : Text → List RoleCode
unfolding normalize_audience text_in
audience_role_codes audience =
    let normalized = normalize_audience audience in
    if text_in normalized (text "all" ∷ text "all members" ∷ [])
    then RoleCode.homeowner ∷ RoleCode.tenant ∷ RoleCode.board_member ∷ RoleCode.committee_member
      ∷ []
    else if text_in normalized (text "homeowner" ∷ text "homeowners" ∷ [])
    then RoleCode.homeowner ∷ RoleCode.tenant ∷ []
    else if text_in normalized (text "committee member" ∷ text "committee members" ∷ [])
    then RoleCode.committee_member ∷ []
    else if text_in normalized (text "board member" ∷ text "board members" ∷ [])
    then RoleCode.board_member ∷ []
    else []

unfoldable pub has_code : String → List RoleCode → Bool
has_code code [] = false
has_code code (r ∷ rs) = str_eq code (role_value r) || has_code code rs

abbrev is_of_association : ℕ → Option ℕ → Directory → Bool
is_of_association association_id none d = false
is_of_association association_id (some unit_id) d = elim (association_of_unit unit_id d) [
  | none ↦ false
  | some a ↦ a == association_id
]

-- accounts JOIN roles JOIN user_details JOIN units JOIN blocks, with the conditions of the query. No
-- caller that is modelled gives a block.
unfoldable pub is_audience : ℕ → List RoleCode → Directory → AccountRow → Bool
is_audience association_id codes d a =
    is_active a.status
    && a.role_is_live
    && has_code a.role_code codes
    && elim (find_user a.user_id d) [
      | none ↦ false
      | some u ↦ is_of_association association_id u.unit_id d
    ]

unfoldable pub notify_association_audience :
    Directory → ℕ → Text → Notice → Option ℕ → ℕ → ℕ → Inbox → Inbox × ℕ
notify_association_audience d association_id audience notice sender now uuid inbox =
    elim (audience_role_codes audience) [
      | [] ↦ (inbox, uuid)
      | r ∷ rs ↦
          notify_accounts d (ids_where (is_audience association_id (r ∷ rs) d) d.accounts)
            (record notice { association_id = some association_id; created_by_account_id = sender })
            sender now uuid inbox
    ]
