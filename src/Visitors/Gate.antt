-- ===== src/Visitors/Gate.antt =====
-- app/modules/visitor_management/repository.py: passes, the log of the gate, and deliveries.
use nestora_server.Prelude.{
  ℕ, ◌+◌, Bool, true, false, Option, none, some, List, ◌&&◌, not, ◌==◌, if◌then◌else◌,
}
use nestora_server.Prelude.Table.{first, update, insert, exists, latest}
use nestora_server.Prelude.Text.{Text, text, text_eq}
use nestora_server.Http.{Status, Exec, ok, err, modify}
use nestora_server.Account.{Account}
use nestora_server.Directory.{unit_is_in_associations}
use nestora_server.Visitors.Data.{
  PreApprovedVisitor, VisitorLog, Delivery, Db, VisitorPassStatus, PreApprovedVisitorRequest,
  CheckInRequest, DeliveryRequest,
}
use nestora_server.Visitors.Repository.{is_none}

abbrev pub is_pass : ℕ → PreApprovedVisitor → Bool
is_pass pass_id p = p.id == pass_id && not p.is_deleted

abbrev pub new_pass : PreApprovedVisitorRequest → Account → ℕ → Text → Text → ℕ → PreApprovedVisitor
new_pass p account unit_id pass_code otp uuid = record {
  id = uuid;
  resident_id = account.user_id;
  unit_id = unit_id;
  visitor_name = p.visitor_name;
  mobile = p.mobile;
  visitor_type = p.visitor_type;
  pass_code = pass_code;
  otp = some otp;
  visit_date = p.visit_date;
  start_time = p.start_time;
  end_time = p.end_time;
  number_of_visitors = p.number_of_visitors;
  vehicle_number = p.vehicle_number;
  purpose = p.purpose;
  pass_type = p.pass_type;
  status = VisitorPassStatus.active;
  created_by = account.id;
  is_deleted = false;
}

-- `pass_code` is a unique column: a code that is taken is an IntegrityError, which nothing catches.
unfoldable pub preapproved_create :
    PreApprovedVisitorRequest → Account → ℕ → Text → Text → Exec Db ℕ
preapproved_create p account unit_id pass_code otp s =
    if exists (λ (q : PreApprovedVisitor). text_eq q.pass_code pass_code) s.pre_approved_visitors
    then (
      err (record { status_code = Status.internal_server_error; detail = "Internal server error" }),
      s,
    )
    else (
      ok s.next_uuid,
      record s {
        pre_approved_visitors =
            insert (new_pass p account unit_id pass_code otp s.next_uuid) s.pre_approved_visitors;
        next_uuid = s.next_uuid + 1;
      },
    )

unfoldable pub pass_is_in : ℕ → List ℕ → Db → Bool
pass_is_in pass_id ids s =
    exists (λ p. is_pass pass_id p && unit_is_in_associations p.unit_id ids s.directory)
      s.pre_approved_visitors

unfoldable pub get_pass : ℕ → Db → Option PreApprovedVisitor
get_pass pass_id s = first (is_pass pass_id) s.pre_approved_visitors

-- UPDATE pre_approved_visitors SET status=:status WHERE id=:id AND is_deleted=0
abbrev pub set_status : VisitorPassStatus → PreApprovedVisitor → PreApprovedVisitor
set_status status p = record p { status = status }

unfoldable pub set_pass_status : ℕ → VisitorPassStatus → Exec Db Unit
set_pass_status pass_id status = modify (λ s. record s {
  pre_approved_visitors = update (is_pass pass_id) (set_status status) s.pre_approved_visitors;
})

abbrev pub is_pass_of_unit : ℕ → ℕ → PreApprovedVisitor → Bool
is_pass_of_unit pass_id unit_id p = is_pass pass_id p && p.unit_id == unit_id

unfoldable pub cancel_pass : ℕ → ℕ → Exec Db Bool
cancel_pass pass_id unit_id s = (
  ok (exists (is_pass_of_unit pass_id unit_id) s.pre_approved_visitors),
  record s {
    pre_approved_visitors =
        update (is_pass_of_unit pass_id unit_id) (set_status VisitorPassStatus.cancelled)
          s.pre_approved_visitors;
  },
)

abbrev pub new_log : ℕ → CheckInRequest → ℕ → ℕ → ℕ → VisitorLog
new_log pass_id p guard_id uuid now = record {
  id = uuid;
  pre_approved_id = pass_id;
  check_in = now;
  check_out = none;
  gate = p.gate;
  guard_id = guard_id;
  visitor_photo_url = p.visitor_photo_url;
  remarks = p.remarks;
  is_deleted = false;
}

unfoldable pub create_log : ℕ → CheckInRequest → ℕ → Exec Db ℕ
create_log pass_id p guard_id s = (
  ok s.next_uuid,
  record s {
    visitor_logs = insert (new_log pass_id p guard_id s.next_uuid s.now) s.visitor_logs;
    next_uuid = s.next_uuid + 1;
  },
)

abbrev pub is_open : VisitorLog → Bool
is_open l = is_none l.check_out && not l.is_deleted

abbrev pub is_open_log : ℕ → VisitorLog → Bool
is_open_log pass_id l = l.pre_approved_id == pass_id && is_open l

unfoldable pub active_log : ℕ → Db → Option VisitorLog
active_log pass_id s = latest (is_open_log pass_id) (λ l. l.check_in) s.visitor_logs

abbrev pub closed : ℕ → VisitorLog → VisitorLog
closed now l = record l { check_out = some now }

unfoldable pub close_log : ℕ → Exec Db Unit
close_log log_id = modify (λ s. record s {
  visitor_logs = update (λ l. l.id == log_id && is_open l) (closed s.now) s.visitor_logs;
})

unfoldable pub get_log : ℕ → Db → Option VisitorLog
get_log log_id s = first (λ (l : VisitorLog). l.id == log_id && not l.is_deleted) s.visitor_logs

unfoldable pub log_is_in : ℕ → Option (List ℕ) → Db → Bool
unfolding pass_is_in
log_is_in log_id none s = true
log_is_in log_id (some ids) s =
    exists
      (λ (l : VisitorLog). l.id == log_id && not l.is_deleted && pass_is_in l.pre_approved_id ids s)
      s.visitor_logs

unfoldable pub create_delivery : DeliveryRequest → ℕ → Exec Db ℕ
create_delivery p guard_id s = (
  ok s.next_uuid,
  record s {
    deliveries =
        insert
          (record {
            id = s.next_uuid;
            unit_id = p.unit_id;
            resident_id = none;
            delivery_type = p.delivery_type;
            company_name = p.company_name;
            delivery_person_name = p.delivery_person_name;
            mobile = p.mobile;
            status = p.status;
            gate = p.gate;
            guard_id = guard_id;
            package_photo_url = p.package_photo_url;
            check_in = s.now;
            check_out = none;
            is_deleted = false;
          })
          s.deliveries;
    next_uuid = s.next_uuid + 1;
  },
)

unfoldable pub complete_delivery : ℕ → Exec Db Bool
unfolding text
complete_delivery delivery_id s =
    let here = λ (d : Delivery). d.id == delivery_id && not d.is_deleted in
    (
      ok (exists here s.deliveries),
      record s {
        deliveries =
            update here (λ d. record d { status = text "Completed"; check_out = some s.now })
              s.deliveries;
      },
    )
