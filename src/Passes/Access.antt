-- ===== src/Passes/Access.antt =====
-- app/modules/events/service.py: who may see an event, and who may manage it.
use nestora_server.Prelude.{
  ℕ, String, Bool, true, false, Option, none, some, List, [], ◌∷◌, ◌&&◌, ◌||◌, not, ◌==◌,
}
use nestora_server.Prelude.Text.{Text, text, text_eq}
use nestora_server.Http.{Status, Exec, pure, gets, or_raise, raise_if, ◌>>=◌, ◌>>◌}
use nestora_server.Account.{RoleCode, Account, account_role}
use nestora_server.Passes.Data.{Event, Db}
use nestora_server.Passes.Repository.{find_event, admin_association_ids, member_association_id}

abbrev forbidden_message : String
forbidden_message = "You do not have access to this event."

-- EVENT_MANAGER_ROLES
abbrev pub is_manager_role : RoleCode → Bool
is_manager_role RoleCode.super_admin = true
is_manager_role RoleCode.admin = true
is_manager_role RoleCode.board_member = true
is_manager_role _ = false

unfoldable pub role_code : Account → Exec Db RoleCode
role_code account = or_raise (account_role account) Status.forbidden forbidden_message

-- `_audiences`
unfoldable pub audiences : RoleCode → List Text
audiences RoleCode.homeowner = text "All" ∷ text "Homeowner" ∷ text "Homeowners" ∷ []
audiences RoleCode.tenant = text "All" ∷ text "Homeowner" ∷ text "Homeowners" ∷ []
audiences RoleCode.committee_member =
    text "All" ∷ text "Committee Member" ∷ text "Committee Members" ∷ []
audiences _ = text "All" ∷ []

unfoldable pub includes : Text → List Text → Bool
includes t [] = false
includes t (u ∷ us) = text_eq t u || includes t us

abbrev sees_all : RoleCode → Bool
sees_all RoleCode.super_admin = true
sees_all RoleCode.admin = true
sees_all _ = false

abbrev same_association : Option ℕ → Option ℕ → Bool
same_association none none = true
same_association none (some b) = false
same_association (some a) none = false
same_association (some a) (some b) = a == b

-- `_authorized_event`
unfoldable pub authorized_event : ℕ → Account → Exec Db Event
authorized_event event_id account = do
  found ← find_event event_id
  event ← or_raise found Status.not_found "Event not found."
  role ← role_code account
  member ← gets (member_association_id account.user_id)
  raise_if (not (sees_all role) && not (same_association member event.association_id))
      Status.forbidden forbidden_message
  raise_if (not (sees_all role) && not (includes event.audience (audiences role))) Status.forbidden
      forbidden_message
  pure event

-- association_id in association_ids
abbrev one_of : Option ℕ → List ℕ → Bool
one_of none ids = false
one_of (some a) [] = false
one_of (some a) (b ∷ ids) = a == b || one_of (some a) ids

-- `_require_association_access`
unfoldable pub has_association_access : RoleCode → Account → Option ℕ → Db → Bool
has_association_access RoleCode.super_admin account association_id s = true
has_association_access RoleCode.admin account association_id s =
    one_of association_id (admin_association_ids account.id s.admin_associations)
has_association_access RoleCode.board_member account association_id s =
    same_association association_id (member_association_id account.user_id s)
has_association_access _ account association_id s = false

-- `_manager_event`
unfoldable pub manager_event : ℕ → Account → Exec Db Event
manager_event event_id account = do
  role ← role_code account
  raise_if (not (is_manager_role role)) Status.forbidden forbidden_message
  found ← find_event event_id
  event ← or_raise found Status.not_found "Event not found."
  access ← gets (has_association_access role account event.association_id)
  raise_if (not access) Status.forbidden forbidden_message
  pure event
