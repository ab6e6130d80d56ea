-- ===== src/Passes/Engagement.antt =====
-- app/modules/events/service.py: likes, comments and the deletion of an event. Times are in seconds.
use nestora_server.Prelude.{
  ℕ, ◌+◌, Bool, true, false, Option, none, some, [], ◌∷◌, ◌&&◌, not, ltb, ◌==◌,
}
use nestora_server.Prelude.Table.{first, update, insert}
use nestora_server.Prelude.Text.{Text, strip}
use nestora_server.Http.{ok, Status, Exec, pure, gets, modify, raise_if, ◌>>=◌, ◌>>◌}
use nestora_server.Account.{RoleCode, Account}
use nestora_server.Passes.Data.{Event, EventLike, Db}
use nestora_server.Passes.Access.{role_code, authorized_event, manager_event}

abbrev pub is_like : ℕ → ℕ → EventLike → Bool
is_like event_id account_id l = l.event_id == event_id && l.account_id == account_id

-- A missing row is added, a row that is there is turned over. The result is whether it is liked.
unfoldable pub toggle_like : ℕ → ℕ → Option EventLike → Exec Db Bool
toggle_like event_id account_id none s = (
  ok true,
  record s {
    likes =
        insert (record { event_id = event_id; account_id = account_id; is_deleted = false })
          s.likes;
  },
)
toggle_like event_id account_id (some l) s = (
  ok l.is_deleted,
  record s {
    likes =
        update (is_like event_id account_id) (λ k. record k { is_deleted = not l.is_deleted })
          s.likes;
  },
)

unfoldable pub like : ℕ → Account → Exec Db Bool
like event_id account = do
  authorized_event event_id account
  row ← gets (λ s. first (is_like event_id account.id) s.likes)
  toggle_like event_id account.id row

-- `trim_comment`: none where the comment is blank.
unfoldable pub trim_comment : Text → Option Text
trim_comment value = elim (strip value) [ [] ↦ none | c ∷ s ↦ some (c ∷ s) ]

unfoldable pub add_comment : ℕ → Text → Account → Exec Db ℕ
add_comment event_id comment account = do
  authorized_event event_id account
  uuid ← gets (λ s. s.next_uuid)
  modify (λ s. record s {
    comments =
        insert
          (record {
            id = uuid;
            event_id = event_id;
            account_id = account.id;
            body = comment;
            is_deleted = false;
          })
          s.comments;
    next_uuid = s.next_uuid + 1;
  })
  pure uuid

-- `_check_window`: two hours.
abbrev is_board_member : RoleCode → Bool
is_board_member RoleCode.board_member = true
is_board_member _ = false

abbrev is_closed : Option ℕ → ℕ → Bool
is_closed none now = false
is_closed (some created) now = ltb (created + 7200) now

unfoldable pub check_window : Event → Account → Exec Db Unit
check_window event account = do
  role ← role_code account
  now ← gets (λ s. s.now)
  raise_if (is_board_member role && is_closed event.created_at now) Status.forbidden
      "Board members cannot edit events after 2 hours."

unfoldable pub delete_event : ℕ → Account → Exec Db Unit
delete_event event_id account = do
  event ← manager_event event_id account
  check_window event account
  modify (λ s. record s {
    events = update (λ e. e.id == event.id) (λ e. record e { is_deleted = true }) s.events;
  })
