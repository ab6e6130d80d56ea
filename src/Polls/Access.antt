-- ===== src/Polls/Access.antt =====
-- app/modules/polls/service.py: who may see, change and vote in a poll, with the queries of repository.py
-- that this takes.
use nestora_server.Prelude.{
  ℕ, ◌+◌, String, Bool, true, false, Option, none, some, List, [], ◌∷◌, ◌&&◌, not, ◌==◌, ltb,
}
use nestora_server.Prelude.Table.{first}
use nestora_server.Prelude.Text.{Text, text}
use nestora_server.Http.{Status, Exec, pure, gets, or_raise, raise_if, ◌>>=◌, ◌>>◌}
use nestora_server.Account.{Account, RoleCode, account_role}
use nestora_server.Directory.{is_in, association_ids_for_account, member_association_id}
use nestora_server.Notifications.Service.{text_in}
use nestora_server.Polls.Data.{Poll, Db}

abbrev pub forbidden_poll : String
forbidden_poll = "You do not have access to this poll."

-- POLL_MANAGER_ROLES
abbrev pub is_manager_role : RoleCode → Bool
is_manager_role RoleCode.super_admin = true
is_manager_role RoleCode.admin = true
is_manager_role RoleCode.board_member = true
is_manager_role _ = false

-- POLL_VOTER_ROLES
abbrev pub is_voter_role : RoleCode → Bool
is_voter_role RoleCode.super_admin = true
is_voter_role RoleCode.admin = true
is_voter_role RoleCode.board_member = true
is_voter_role RoleCode.committee_member = true
is_voter_role RoleCode.homeowner = true
is_voter_role RoleCode.tenant = true
is_voter_role _ = false

unfoldable pub role_code : Account → Exec Db RoleCode
role_code account = or_raise (account_role account) Status.forbidden forbidden_poll

-- `_visibility`
unfoldable pub visibility_of : RoleCode → List Text
visibility_of RoleCode.homeowner = text "All" ∷ text "Homeowner" ∷ text "Homeowners" ∷ []
visibility_of RoleCode.tenant = text "All" ∷ text "Homeowner" ∷ text "Homeowners" ∷ []
visibility_of RoleCode.committee_member =
    text "All" ∷ text "Committee Member" ∷ text "Committee Members" ∷ []
visibility_of RoleCode.board_member = text "All" ∷ text "Board Member" ∷ text "Board Members" ∷ []
visibility_of _ = text "All" ∷ []

abbrev pub is_poll : ℕ → Poll → Bool
is_poll poll_id p = p.id == poll_id && not p.is_deleted

-- `PollRepository.get`
unfoldable pub get_poll : ℕ → Exec Db Poll
get_poll poll_id = do
  found ← gets (λ s. first (is_poll poll_id) s.polls)
  or_raise found Status.not_found "Poll not found."

-- `==` of two ids, each of which may be `None`.
abbrev pub is_same_id : Option ℕ → Option ℕ → Bool
is_same_id none none = true
is_same_id none (some a) = false
is_same_id (some b) none = false
is_same_id (some b) (some a) = b == a

-- `association_id in ids`: `None` is none of them.
abbrev pub is_one_of : Option ℕ → List ℕ → Bool
is_one_of none ids = false
is_one_of (some a) ids = is_in a ids

-- `_require_association_access`, as a test.
unfoldable pub has_association_access : RoleCode → Account → Option ℕ → Db → Bool
has_association_access RoleCode.super_admin account association_id s = true
has_association_access RoleCode.admin account association_id s =
    is_one_of association_id (association_ids_for_account account.id s.directory)
has_association_access RoleCode.board_member account association_id s =
    is_same_id (member_association_id account.user_id s.directory) association_id
has_association_access _ account association_id s = false

unfoldable pub require_association_access : Account → Option ℕ → Exec Db Unit
unfolding role_code
require_association_access account association_id = do
  role ← role_code account
  allowed ← gets (has_association_access role account association_id)
  raise_if (not allowed) Status.forbidden forbidden_poll

-- The tests of `_authorized_poll`, once the poll is found.
unfoldable pub sees_poll : RoleCode → Account → Poll → Db → Bool
unfolding text_in visibility_of
sees_poll RoleCode.super_admin account poll s = true
sees_poll RoleCode.admin account poll s =
    is_one_of poll.association_id (association_ids_for_account account.id s.directory)
sees_poll role account poll s =
    is_same_id (member_association_id account.user_id s.directory) poll.association_id
    && text_in poll.visibility (visibility_of role)

unfoldable pub authorized_poll : ℕ → Account → Exec Db Poll
unfolding get_poll role_code
authorized_poll poll_id account = do
  poll ← get_poll poll_id
  role ← role_code account
  sees ← gets (sees_poll role account poll)
  raise_if (not sees) Status.forbidden forbidden_poll
  pure poll

unfoldable pub manager_poll : ℕ → Account → Exec Db Poll
unfolding get_poll role_code require_association_access
manager_poll poll_id account = do
  role ← role_code account
  raise_if (not (is_manager_role role)) Status.forbidden forbidden_poll
  poll ← get_poll poll_id
  require_association_access account poll.association_id
  pure poll

abbrev pub two_hours : ℕ
two_hours = 7200

abbrev pub is_board_member : RoleCode → Bool
is_board_member RoleCode.board_member = true
is_board_member _ = false

-- `_check_window`: the column `created_at` is never empty.
unfoldable pub check_window : Poll → Account → Exec Db Unit
unfolding role_code
check_window poll account = do
  role ← role_code account
  late ← gets (λ s. ltb (poll.created_at + two_hours) s.now)
  raise_if (is_board_member role && late) Status.forbidden
      "Board members cannot edit polls after 2 hours."
