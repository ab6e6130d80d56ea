-- ===== src/Notifications/Repository.antt =====
-- app/modules/notifications/repository.py, and the handlers of router.py. A cursor is the pair of
-- `created_at` and `id` that its text encodes: the coding, by base64 and JSON, is that of the
-- libraries, and gives the pair back.
use nestora_server.Prelude.{
  ℕ, zero, suc, ◌+◌, Bool, true, false, Option, none, some, List, [], ◌∷◌, ◌&&◌, ◌||◌, not, ltb,
  ◌==◌, if◌then◌else◌,
}
use nestora_server.Prelude.Table.{first, update, exists, sum_where, length}
use nestora_server.Http.{Status, Exec, ok, modify, raise_if, ◌>>=◌}
use nestora_server.Notifications.Data.{Notification, NotificationRecipient, Inbox}

pub record Db : Type 0 where
  pub inbox : Inbox
  pub now : ℕ

pub record Cursor : Type 0 where
  pub created_at : ℕ
  pub id : ℕ

-- A row of an inbox page.
pub record Item : Type 0 where
  pub notification : Notification
  pub read_at : Option ℕ

abbrev pub cursor_of : Item → Cursor
cursor_of i = record { created_at = i.notification.created_at; id = i.notification.id }

abbrev pub is_missing : Option ℕ → Bool
is_missing none = true
is_missing (some t) = false

-- n.created_at < :cursor_created_at OR (n.created_at = :cursor_created_at AND n.id < :cursor_id)
abbrev pub below : Cursor → Item → Bool
below c i =
    ltb i.notification.created_at c.created_at
    || i.notification.created_at == c.created_at && ltb i.notification.id c.id

abbrev pub is_below : Option Cursor → Item → Bool
is_below none i = true
is_below (some c) i = below c i

-- notification_recipients r JOIN notifications n, for the account, not archived.
unfoldable pub visible : ℕ → List Notification → List NotificationRecipient → List Item
visible account_id notifications [] = []
visible account_id notifications (r ∷ rows) =
    let rest = visible account_id notifications rows in
    elim (first (λ (n : Notification). n.id == r.notification_id) notifications) [
      | none ↦ rest
      | some n ↦
          if r.account_id == account_id && is_missing r.archived_at
          then record { notification = n; read_at = r.read_at } ∷ rest
          else rest
    ]

unfoldable pub filter : (Item → Bool) → List Item → List Item
filter p [] = []
filter p (i ∷ is) = if p i then i ∷ filter p is else filter p is

-- ORDER BY n.created_at DESC, n.id DESC
unfoldable pub insert_item : Item → List Item → List Item
insert_item i [] = i ∷ []
insert_item i (j ∷ js) =
    let rest = insert_item i js in if below (cursor_of i) j then i ∷ j ∷ js else j ∷ rest

unfoldable pub sort : List Item → List Item
unfolding insert_item
sort [] = []
sort (i ∷ is) = insert_item i (sort is)

unfoldable pub take : ℕ → List Item → List Item
take zero is = []
take (suc n) [] = []
take (suc n) (i ∷ is) = i ∷ take n is

unfoldable pub last_cursor : List Item → Option Cursor
last_cursor [] = none
last_cursor (i ∷ []) = some (cursor_of i)
last_cursor (i ∷ j ∷ is) = last_cursor (j ∷ is)

-- `len(rows) > limit and page`
unfoldable pub page_of : ℕ → List Item → List Item × Option Cursor
unfolding take last_cursor
page_of limit rows =
    (take limit rows, if ltb limit (length rows) then last_cursor (take limit rows) else none)

unfoldable pub list_page : ℕ → ℕ → Option Cursor → Inbox → List Item × Option Cursor
unfolding sort visible filter page_of
list_page account_id limit cursor inbox = page_of limit (
    take (limit + 1)
      (sort (filter (is_below cursor) (visible account_id inbox.notifications inbox.recipients))))

abbrev pub is_unread : ℕ → NotificationRecipient → Bool
is_unread account_id r =
    r.account_id == account_id && is_missing r.archived_at && is_missing r.read_at

unfoldable pub unread_count : ℕ → Inbox → ℕ
unread_count account_id inbox =
    sum_where (is_unread account_id) (λ (r : NotificationRecipient). 1) inbox.recipients

abbrev pub set_read : ℕ → NotificationRecipient → NotificationRecipient
set_read now r = record r { read_at = some now }

abbrev pub is_unread_of : ℕ → ℕ → NotificationRecipient → Bool
is_unread_of notification_id account_id r =
    r.notification_id == notification_id && is_unread account_id r

-- The result is whether a row was changed.
unfoldable pub mark_read : ℕ → ℕ → Exec Db Bool
mark_read notification_id account_id s = (
  ok (exists (is_unread_of notification_id account_id) s.inbox.recipients),
  record s {
    inbox = record s.inbox {
      recipients =
          update (is_unread_of notification_id account_id) (set_read s.now) s.inbox.recipients;
    };
  },
)

unfoldable pub mark_all_read : ℕ → Exec Db Unit
mark_all_read account_id = modify (λ s. record s {
  inbox = record s.inbox {
    recipients = update (is_unread account_id) (set_read s.now) s.inbox.recipients;
  };
})

-- The handler of the route that marks one.
unfoldable pub mark_notification_read : ℕ → ℕ → Exec Db Unit
mark_notification_read notification_id account_id = do
  updated ← mark_read notification_id account_id
  raise_if (not updated) Status.not_found "Notification not found"
