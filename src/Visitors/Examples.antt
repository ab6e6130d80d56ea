-- ===== src/Visitors/Examples.antt =====
-- A gate with one waiting visitor and one pass, runs on it, and the theorems at it.
use nestora_server.Prelude.{ℕ, ◌≡◌, ◌++◌, refl, false, none, some, List, [], ◌∷◌, arith}
use nestora_server.Prelude.Keys.{Evolves}
use nestora_server.Prelude.Table.{first, exists, sum_where}
use nestora_server.Prelude.Text.{text}
use nestora_server.Http.{ok}
use nestora_server.Account.{Account, account_role}
use nestora_server.Directory.{
  Directory, association_ids_for_account, unit_is_in_associations, association_of_unit, is_in,
  unit_for_user, find_user,
}
use nestora_server.Visitors.Data.{
  VisitorVisit, VisitorVisitStatus, VisitorPassStatus, PreApprovedVisitor, CheckInRequest, Db,
}
use nestora_server.Visitors.Repository.{get_visit, visit_is_in, arrived, left_premises}
use nestora_server.Visitors.Access
use nestora_server.Visitors.WalkIn.{answering_unit, require_visit, approved_with, visit_not_found}
use nestora_server.Visitors.Service.{check_in}
use nestora_server.Visitors.Handler.{Request, serve, at}
use nestora_server.Visitors.Lifecycle.{VisitMoves, IsRequested, VisitsKeyed, serve-Evolves}
use nestora_server.Visitors.Entries.{Admissions}
use nestora_server.Visitors.Admissions.{serve-Admissions}
use nestora_server.Visitors.Visit.{pending_visit-leaves}

abbrev homeowner : Account
homeowner = record { id = 1; role = some "homeowner"; user_id = some 11; email = [] }

abbrev watchman : Account
watchman = record { id = 3; role = some "security"; user_id = none; email = [] }

abbrev directory : Directory
directory = record {
  accounts = [];
  user_details =
      record {
        user_id = 11;
        name = none;
        contact_number = none;
        unit_id = some 21;
        association_id = none;
        is_deleted = false;
      }
      ∷ [];
  units = record { id = 21; block_id = 31 } ∷ [];
  blocks = record { id = 31; association_id = 41 } ∷ [];
  associations = [];
  admin_associations = record { admin_id = 3; association_id = 41 } ∷ [];
}

abbrev waiting : VisitorVisit
waiting = record {
  id = 5;
  visitor_id = 4;
  unit_id = 21;
  purpose = [];
  visitor_type = [];
  number_of_visitors = 1;
  vehicle_number = none;
  notes = none;
  expected_duration = none;
  status = VisitorVisitStatus.pending;
  pass_code = none;
  check_in_time = none;
  check_out_time = none;
  created_at = 0;
  is_deleted = false;
}

-- From nine to twelve on the hundredth day.
abbrev single_pass : PreApprovedVisitor
single_pass = record {
  id = 6;
  resident_id = some 11;
  unit_id = 21;
  visitor_name = [];
  mobile = [];
  visitor_type = [];
  pass_code = 80 ∷ [];
  otp = some (49 ∷ 50 ∷ []);
  visit_date = 100;
  start_time = 32400;
  end_time = 43200;
  number_of_visitors = 1;
  vehicle_number = none;
  purpose = none;
  pass_type = "Single Entry";
  status = VisitorPassStatus.active;
  created_by = 1;
  is_deleted = false;
}

-- Ten in the morning of that day.
abbrev db : Db
db = record {
  directory = directory;
  inbox = record { notifications = []; recipients = [] };
  visitors = [];
  visitor_visits = waiting ∷ [];
  pre_approved_visitors = single_pass ∷ [];
  visitor_logs = [];
  deliveries = [];
  now = 8676000;
  next_uuid = 10;
}

abbrev with_otp : CheckInRequest
with_otp = record {
  otp = some (49 ∷ 50 ∷ []);
  gate = none;
  visitor_photo_url = none;
  remarks = none;
}

abbrev day : List (Account × ℕ × Request)
day =
    (homeowner, 1, Request.approve_visitor 5 [])
    ∷ (watchman, 1, Request.check_in_walk_in 5)
    ∷ (watchman, 1, Request.check_in 6 with_otp)
    ∷ (watchman, 1, Request.check_in 6 with_otp)
    ∷ (watchman, 1, Request.check_out 6)
    ∷ []

db-VisitsKeyed : VisitsKeyed db
db-VisitsKeyed = record { keyed = (tt, tt); old = (omega arith, tt) }

serve-Evolves_example :
    Evolves VisitMoves IsRequested db.visitor_visits (serve day db).visitor_visits
serve-Evolves_example = serve-Evolves day db db-VisitsKeyed

db-Admissions : Admissions db
unfolding sum_where
db-Admissions = record {
  keyed = (tt, tt);
  old = (omega arith, tt);
  logs_old = tt;
  one_inside = λ k. omega arith;
  single = (λ one. (omega arith, λ on. refl), tt);
}

serve-Admissions_example : Admissions (serve day db)
serve-Admissions_example = serve-Admissions day db db-Admissions

may_answer : (answering_unit waiting homeowner (at 1 db)).0 ≡ ok 21
unfolding answering_unit Access.role Access.resident_unit Access.require_resident account_role
    unit_for_user find_user first
may_answer = refl

may_see : (require_visit 5 watchman visit_not_found (at 1 db)).0 ≡ ok tt
unfolding require_visit Access.require_security Access.security_association_ids Access.role
    account_role visit_is_in association_ids_for_account unit_is_in_associations association_of_unit
    is_in first exists
may_see = refl

waiting_found : get_visit 5 db ≡ some waiting
unfolding get_visit first
waiting_found = refl

pending_visit-leaves_example :
    get_visit 5 (
      serve
        ((homeowner, 1, Request.approve_visitor 5 (65 ∷ []))
          ∷ (watchman, 2, Request.check_in_walk_in 5)
          ∷ (watchman, 3, Request.check_out_walk_in 5)
          ∷ [])
        db)
    ≡ some
        (left_premises 8676006 (arrived 8676003 (approved_with (text "PASS-" ++ 65 ∷ []) waiting)))
pending_visit-leaves_example =
    pending_visit-leaves homeowner watchman 5 1 2 3 (65 ∷ []) waiting db waiting_found refl
      may_answer may_see
