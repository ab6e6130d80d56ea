-- ===== src/Visitors/WalkIn.antt =====
-- app/modules/visitor_management/service.py: walk-in visits. The characters that `secrets.choice` draws
-- for a pass code are an argument.
use nestora_server.Prelude.{
  ℕ, String, Bool, true, false, Option, none, some, ◌++◌, not, ◌==◌, if◌then◌else◌,
}
use nestora_server.Prelude.Text.{Text, text}
use nestora_server.Http.{Status, Exec, pure, gets, modify, or_raise, raise_if, ◌>>=◌, ◌>>◌}
use nestora_server.Account.{Account}
use nestora_server.Directory.{account_ids_for_unit}
use nestora_server.Notifications.Data.{Notice}
use nestora_server.Notifications.Service.{notify_accounts}
use nestora_server.Visitors.Data.{VisitorVisit, Db, VisitorVisitStatus, VisitorRequest}
use nestora_server.Visitors.Repository.{
  unit_is_in, visit_is_in, save_visitor, create_visit, get_visit, get_pending_visit, update_visit,
  check_in_visit, check_out_visit,
}
use nestora_server.Visitors.Access.{
  role, require_security, security_association_ids, resident_unit, is_admin_role,
  active_visit_not_found,
}

abbrev pub approval_notice : Text → ℕ → Notice
approval_notice name visit_id = record {
  title = text "Visitor approval required";
  message = name ++ text " is waiting at the gate for your approval.";
  type = "visitor";
  association_id = none;
  created_by_account_id = none;
  entity_type = some "visitor_visit";
  entity_id = some visit_id;
  action_url = some "/visitor-management/preapproved?tab=approvals";
}

-- `notify_accounts` with the accounts of the unit.
unfoldable pub notify_unit : VisitorRequest → ℕ → Account → Exec Db Unit
notify_unit p visit_id account = modify (λ s.
    let told =
      notify_accounts s.directory (account_ids_for_unit p.unit_id s.directory)
        (approval_notice p.name visit_id) (some account.id) s.now s.next_uuid s.inbox in
    record s { inbox = told.0; next_uuid = told.1 })

unfoldable pub create_request : VisitorRequest → Account → Exec Db ℕ
create_request p account = do
  require_security account
  ids ← security_association_ids account
  seen ← gets (λ s. unit_is_in p.unit_id ids s.directory)
  raise_if (not seen) Status.not_found "Resident unit not found"
  visitor_id ← save_visitor p
  visit_id ← create_visit visitor_id p
  notify_unit p visit_id account
  pure visit_id

abbrev pub visit_not_found : String
visit_not_found = "Visitor request not found or already processed"

-- The unit whose requests the account may answer.
unfoldable pub answering_unit : VisitorVisit → Account → Exec Db ℕ
answering_unit visit account = do
  r ← role account
  if is_admin_role r then pure visit.unit_id else resident_unit account

abbrev pub denied : VisitorVisit → VisitorVisit
denied v = record v { status = VisitorVisitStatus.denied }

abbrev pub approved_with : Text → VisitorVisit → VisitorVisit
approved_with pass_code v = record v {
  status = VisitorVisitStatus.approved;
  pass_code = some pass_code;
}

unfoldable pub answer : ℕ → Bool → Text → Exec Db (Option Text)
answer visit_id false drawn = update_visit visit_id denied >> pure none
answer visit_id true drawn =
    let pass_code = text "PASS-" ++ drawn in
    update_visit visit_id (approved_with pass_code) >> pure (some pass_code)

unfoldable pub approve : ℕ → Account → Bool → Text → Exec Db (Option Text)
approve visit_id account approved drawn = do
  found ← gets (get_pending_visit visit_id)
  visit ← or_raise found Status.not_found visit_not_found
  unit_id ← answering_unit visit account
  raise_if (not (visit.unit_id == unit_id)) Status.not_found visit_not_found
  answer visit_id approved drawn

-- The guard that the methods on a walk-in visit share, with the message of each.
unfoldable pub require_visit : ℕ → Account → String → Exec Db Unit
require_visit visit_id account detail = do
  require_security account
  ids ← security_association_ids account
  seen ← gets (visit_is_in visit_id ids)
  raise_if (not seen) Status.not_found detail

unfoldable pub check_in_walk_in : ℕ → Account → Exec Db Unit
unfolding require_visit
check_in_walk_in visit_id account = do
  require_visit visit_id account visit_not_found
  changed ← check_in_visit visit_id
  raise_if (not changed) Status.bad_request "Visitor request is not approved"

unfoldable pub check_out_walk_in : ℕ → Account → Exec Db Unit
unfolding require_visit
check_out_walk_in visit_id account = do
  require_visit visit_id account active_visit_not_found
  changed ← check_out_visit visit_id
  raise_if (not changed) Status.not_found active_visit_not_found

unfoldable pub visitor_status : ℕ → Account → Exec Db VisitorVisit
unfolding require_visit
visitor_status visit_id account = do
  require_visit visit_id account visit_not_found
  visit ← gets (get_visit visit_id)
  or_raise visit Status.not_found visit_not_found
