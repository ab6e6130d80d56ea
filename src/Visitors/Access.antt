-- ===== src/Visitors/Access.antt =====
-- app/modules/visitor_management/service.py: who may do what at the gate.
use nestora_server.Prelude.{ℕ, String, Bool, true, false, Option, none, some, List, not}
use nestora_server.Http.{Status, Exec, pure, gets, or_raise, raise_if, ◌>>=◌, ◌>>◌}
use nestora_server.Account.{Account, RoleCode, account_role}
use nestora_server.Directory.{association_ids_for_account, unit_for_user}
use nestora_server.Visitors.Data.{Db}
use nestora_server.Visitors.Gate.{pass_is_in}

abbrev pub active_visit_not_found : String
active_visit_not_found = "Active visitor entry not found"

-- {*SECURITY_VISITOR_ROLES, *VISITOR_ADMIN_ROLES}
abbrev pub is_security_role : RoleCode → Bool
is_security_role RoleCode.security = true
is_security_role RoleCode.admin = true
is_security_role RoleCode.super_admin = true
is_security_role _ = false

-- {*RESIDENT_VISITOR_ROLES, *VISITOR_ADMIN_ROLES}
abbrev pub is_resident_role : RoleCode → Bool
is_resident_role RoleCode.homeowner = true
is_resident_role RoleCode.tenant = true
is_resident_role RoleCode.board_member = true
is_resident_role RoleCode.committee_member = true
is_resident_role RoleCode.admin = true
is_resident_role RoleCode.super_admin = true
is_resident_role _ = false

-- VISITOR_ADMIN_ROLES
abbrev pub is_admin_role : RoleCode → Bool
is_admin_role RoleCode.admin = true
is_admin_role RoleCode.super_admin = true
is_admin_role _ = false

unfoldable pub role : Account → Exec Db RoleCode
role account =
    or_raise (account_role account) Status.forbidden
      "Visitor management is not available for this role"

unfoldable pub require_security : Account → Exec Db RoleCode
unfolding role
require_security account = do
  r ← role account
  raise_if (not (is_security_role r)) Status.forbidden "Security visitor access is required"
  pure r

unfoldable pub require_resident : Account → Exec Db RoleCode
unfolding role
require_resident account = do
  r ← role account
  raise_if (not (is_resident_role r)) Status.forbidden "Resident visitor access is required"
  pure r

abbrev pub ids_of : RoleCode → Account → Exec Db (Option (List ℕ))
ids_of RoleCode.super_admin account = pure none
ids_of _ account = gets (λ s. some (association_ids_for_account account.id s.directory))

-- `none` is every association.
unfoldable pub security_association_ids : Account → Exec Db (Option (List ℕ))
unfolding require_security
security_association_ids account = require_security account >>= λ r. ids_of r account

abbrev pub pass_seen : ℕ → Option (List ℕ) → Db → Bool
pass_seen pass_id none s = true
pass_seen pass_id (some ids) s = pass_is_in pass_id ids s

unfoldable pub require_pass_security_access : ℕ → Account → Exec Db Unit
unfolding security_association_ids
require_pass_security_access pass_id account = do
  ids ← security_association_ids account
  seen ← gets (pass_seen pass_id ids)
  raise_if (not seen) Status.not_found "Visitor pass not found"

unfoldable pub resident_unit : Account → Exec Db ℕ
unfolding require_resident
resident_unit account = do
  require_resident account
  unit_id ← gets (λ s. unit_for_user account.user_id s.directory)
  or_raise unit_id Status.forbidden "Your account is not assigned to a unit"
