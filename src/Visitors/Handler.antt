-- ===== src/Visitors/Handler.antt =====
-- app/modules/visitor_management/router.py: the routes that write, each inside one `UnitOfWork`, and a
-- sequence of such requests.
use nestora_server.Prelude.{ℕ, ◌+◌, Bool, true, false, List, [], ◌∷◌, ◌&&◌, not, ltb}
use nestora_server.Prelude.Text.{Text}
use nestora_server.Http.{Status, Exec, unit_of_work, pure, gets, raise_if, ◌>>=◌, ◌>>◌}
use nestora_server.Account.{Account}
use nestora_server.Visitors.Data.{
  VisitorRequest, PreApprovedVisitorRequest, CheckInRequest, DeliveryRequest, Db,
}
use nestora_server.Visitors.Gate.{cancel_pass}
use nestora_server.Visitors.Access.{resident_unit}
use nestora_server.Visitors.WalkIn
use nestora_server.Visitors.Service
use nestora_server.Visitors.Service.{scheduled_datetime}

pub data Request : Type 0 where
  request_visitor : VisitorRequest → Request
  approve_visitor : ℕ → Text → Request
  reject_visitor : ℕ → Request
  create_preapproved : PreApprovedVisitorRequest → Text → Text → Request
  cancel_preapproved : ℕ → Request
  check_in : ℕ → CheckInRequest → Request
  check_in_walk_in : ℕ → Request
  check_out : ℕ → Request
  check_out_log : ℕ → Request
  check_out_walk_in : ℕ → Request
  create_delivery : DeliveryRequest → Request
  complete_delivery : ℕ → Request

-- `PreApprovedVisitorRequest.validate_schedule`, which is run before the route is.
abbrev pub validate_schedule : PreApprovedVisitorRequest → ℕ → Bool
validate_schedule p now =
    ltb now (scheduled_datetime p.visit_date p.start_time) && ltb p.start_time p.end_time

unfoldable pub cancel : ℕ → Account → Exec Db Unit
cancel pass_id account = do
  unit_id ← resident_unit account
  changed ← cancel_pass pass_id unit_id
  raise_if (not changed) Status.not_found "Visitor pass not found"

unfoldable pub create_valid : PreApprovedVisitorRequest → Text → Text → Account → Exec Db Unit
create_valid p drawn otp account = do
  valid ← gets (λ s. validate_schedule p s.now)
  raise_if (not valid) Status.unprocessable_content "Invalid schedule"
  Service.create_preapproved p account drawn otp
  pure tt

unfoldable pub execute : Account → Request → Exec Db Unit
execute account (request_visitor p) = WalkIn.create_request p account >> pure tt
execute account (approve_visitor visit_id drawn) =
    WalkIn.approve visit_id account true drawn >> pure tt
execute account (reject_visitor visit_id) = WalkIn.approve visit_id account false [] >> pure tt
execute account (create_preapproved p drawn otp) = create_valid p drawn otp account
execute account (cancel_preapproved pass_id) = cancel pass_id account
execute account (check_in pass_id p) = Service.check_in pass_id p account >> pure tt
execute account (check_in_walk_in visit_id) = WalkIn.check_in_walk_in visit_id account
execute account (check_out pass_id) = Service.check_out pass_id account >> pure tt
execute account (check_out_log log_id) = Service.check_out_log log_id account
execute account (check_out_walk_in visit_id) = WalkIn.check_out_walk_in visit_id account
execute account (create_delivery p) = Service.create_delivery p account >> pure tt
execute account (complete_delivery delivery_id) = Service.complete_delivery delivery_id account

unfoldable pub handle : Account → Request → Exec Db Unit
handle account request = unit_of_work (execute account request)

-- The clock is set to a later time before each request.
abbrev pub at : ℕ → Db → Db
at elapsed s = record s { now = s.now + elapsed }

unfoldable pub serve : List (Account × ℕ × Request) → Db → Db
serve [] s = s
serve ((account, elapsed, request) ∷ rest) s = serve rest (handle account request (at elapsed s)).1
