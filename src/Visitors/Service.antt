-- ===== src/Visitors/Service.antt =====
-- app/modules/visitor_management/service.py: passes and deliveries. The characters that `secrets.choice` draws for a pass code
-- and an OTP are arguments.
use nestora_server.Prelude.{
  ℕ, ◌+◌, ◌*◌, ◌/◌, Bool, true, false, Option, none, some, [], ◌∷◌, ◌++◌, ◌&&◌, not, ltb, leb,
  if◌then◌else◌,
}
use package.text.Mathlib.Text.{◌==◌ as str_eq}
use nestora_server.Prelude.Text.{Text, text, text_eq}
use nestora_server.Http.{Status, Exec, ok, pure, gets, or_raise, raise_if, ◌>>=◌, ◌>>◌}
use nestora_server.Account.{Account}
use nestora_server.Visitors.Data.{
  PreApprovedVisitor, VisitorLog, Db, VisitorPassStatus, PreApprovedVisitorRequest, CheckInRequest,
  DeliveryRequest,
}
use nestora_server.Visitors.Repository.{is_none}
use nestora_server.Visitors.Gate
use nestora_server.Visitors.Gate.{
  preapproved_create, get_pass, set_pass_status, create_log, active_log, close_log, get_log,
  log_is_in,
}
use nestora_server.Visitors.Access.{
  require_security, security_association_ids, require_pass_security_access, resident_unit,
  active_visit_not_found,
}

abbrev pub seconds_of_day : ℕ
seconds_of_day = 86400

-- `_scheduled_datetime`
abbrev pub scheduled_datetime : ℕ → ℕ → ℕ
scheduled_datetime visit_date visit_time = visit_date * seconds_of_day + visit_time

abbrev pub is_active : VisitorPassStatus → Bool
is_active VisitorPassStatus.active = true
is_active _ = false

-- `_effective_pass_status`: an unused pass of a day before today is expired.
unfoldable pub effective_pass_status : ℕ → PreApprovedVisitor → VisitorPassStatus
effective_pass_status now p =
    if is_active p.status && ltb p.visit_date (now / seconds_of_day)
    then VisitorPassStatus.expired
    else p.status

unfoldable pub create_preapproved :
    PreApprovedVisitorRequest → Account → Text → Text → Exec Db (ℕ × Text × Text)
create_preapproved p account drawn otp = do
  unit_id ← resident_unit account
  let pass_code = text "PA-" ++ drawn
  pass_id ← preapproved_create p account unit_id pass_code otp
  pure (pass_id, pass_code, otp)

-- `if not visitor_pass or visitor_pass["status"] != ACTIVE`, with the effective status.
abbrev pub usable : ℕ → Option PreApprovedVisitor → Option PreApprovedVisitor
usable now none = none
usable now (some p) = if is_active (effective_pass_status now p) then some p else none

abbrev pub in_window : ℕ → PreApprovedVisitor → Bool
in_window now p =
    leb (scheduled_datetime p.visit_date p.start_time) now
    && leb now (scheduled_datetime p.visit_date p.end_time)

abbrev is_same : Text → Option Text → Bool
is_same otp none = false
is_same otp (some given) = text_eq given otp

-- `visitor_pass.get("otp") and payload.get("otp") != visitor_pass["otp"]`, negated.
abbrev pub otp_is_right : Option Text → Option Text → Bool
otp_is_right none given = true
otp_is_right (some []) given = true
otp_is_right (some (c ∷ otp)) given = is_same (c ∷ otp) given

abbrev pub is_single_entry : PreApprovedVisitor → Bool
is_single_entry p = str_eq p.pass_type "Single Entry"

abbrev pub when : Bool → Exec Db Unit → Exec Db Unit
when true m = m
when false m = pure tt

unfoldable pub check_in : ℕ → CheckInRequest → Account → Exec Db ℕ
check_in pass_id payload account = do
  require_security account
  require_pass_security_access pass_id account
  found ← gets (λ s. usable s.now (get_pass pass_id s))
  visitor_pass ← or_raise found Status.bad_request "Visitor pass is not valid for check-in"
  now ← gets (λ s. s.now)
  raise_if (not (in_window now visitor_pass)) Status.bad_request
      "Visitor pass is outside its scheduled visit window"
  raise_if (not (otp_is_right visitor_pass.otp payload.otp)) Status.bad_request
      "The visitor OTP is incorrect"
  log ← gets (active_log pass_id)
  raise_if (not (is_none log)) Status.conflict "This visitor is already checked in"
  log_id ← create_log pass_id payload account.id
  when (is_single_entry visitor_pass) (set_pass_status pass_id VisitorPassStatus.used)
  pure log_id

-- A single entry pass is expired once its visitor leaves.
unfoldable pub expire_single : ℕ → Exec Db Unit
expire_single pass_id s = elim (get_pass pass_id s) [
  | none ↦ (ok tt, s)
  | some p ↦ when (is_single_entry p) (set_pass_status pass_id VisitorPassStatus.expired) s
]

unfoldable pub check_out : ℕ → Account → Exec Db ℕ
check_out pass_id account = do
  require_security account
  require_pass_security_access pass_id account
  found ← gets (active_log pass_id)
  log ← or_raise found Status.not_found "No active check-in found for this pass"
  close_log log.id
  expire_single pass_id
  pure log.id

-- `not log or log.get("check_out") is not None`
abbrev pub still_open : Option VisitorLog → Option VisitorLog
still_open none = none
still_open (some l) = if is_none l.check_out then some l else none

unfoldable pub check_out_log : ℕ → Account → Exec Db Unit
check_out_log log_id account = do
  require_security account
  ids ← security_association_ids account
  seen ← gets (log_is_in log_id ids)
  raise_if (not seen) Status.not_found active_visit_not_found
  found ← gets (λ s. still_open (get_log log_id s))
  log ← or_raise found Status.not_found "No active check-in found for this log"
  close_log log_id
  expire_single log.pre_approved_id

unfoldable pub create_delivery : DeliveryRequest → Account → Exec Db ℕ
create_delivery p account = require_security account >> Gate.create_delivery p account.id

unfoldable pub complete_delivery : ℕ → Account → Exec Db Unit
complete_delivery delivery_id account = do
  require_security account
  changed ← Gate.complete_delivery delivery_id
  raise_if (not changed) Status.not_found "Delivery not found"
