-- ===== src/Visitors/PassEffects.antt =====
-- What each request writes to the tables of passes and of the log, for all requests.
use nestora_server.Prelude.{ℕ, ◌+◌, ◌≡◌, refl, sym, true, false, [], inl, inr, arith, subst}
use nestora_server.Prelude.Table.{insert}
use nestora_server.Http.{ok, Result-cases}
use nestora_server.Account.{Account}
use nestora_server.Visitors.Data.{VisitorRequest, Db}
use nestora_server.Visitors.Repository.{new_visit, save_visitor, create_visit}
use nestora_server.Visitors.WalkIn
use nestora_server.Visitors.WalkIn.{
  notify_unit, answering_unit, answer, visit_not_found, denied, approved_with, require_visit,
}
use nestora_server.Visitors.Service
use nestora_server.Visitors.Service.{
  expire_single, still_open, is_active, is_single_entry, effective_pass_status,
}
use nestora_server.Visitors.VisitChange.{notify_unit_uuid, save_visitor_ok}
use nestora_server.Visitors.Handler.{Request, execute}
use nestora_server.Visitors.Guards.{require_security_state, security_association_ids_state}
use nestora_server.Visitors.PassChange.{
  PassesKept, PassChange, check_in-PassChange, check_out-PassChange, check_out_log-PassChange,
  create_valid-PassChange, cancel-PassChange, delivery-PassesKept, complete_delivery-PassesKept,
  check_in_walk_in-PassesKept, check_out_walk_in-PassesKept, approve-PassesKept,
}

module _ (s : Db) where
  notify_unit-PassesKept :
      (p : VisitorRequest) (k : ℕ) (a : Account) → PassesKept s (notify_unit p k a s).1
  unfolding notify_unit
  notify_unit-PassesKept p k a = (refl, refl, notify_unit_uuid s p k a)

  save_visitor-PassesKept : (p : VisitorRequest) → PassesKept s (save_visitor p s).1
  unfolding save_visitor
  save_visitor-PassesKept p = ground arith

module _ (s : Db) where
  create_request-PassesKept :
      (p : VisitorRequest) (account : Account) → PassesKept s (WalkIn.create_request p account s).1
  unfolding WalkIn.create_request create_visit
  create_request-PassesKept p account =
      let saved = (save_visitor p s).1 in
      let kept = save_visitor-PassesKept s p in
      let (j, is_saved) = save_visitor_ok s p in
      let asked = record saved {
        visitor_visits = insert (new_visit j p saved.next_uuid saved.now) saved.visitor_visits;
        next_uuid = saved.next_uuid + 1;
      } in
      let told = notify_unit-PassesKept asked p saved.next_uuid account in
      let first_guard = require_security_state s account in
      let guard = security_association_ids_state s account in ground arith

pub execute-PassChange :
    (account : Account) (request : Request) (s : Db)
    → (execute account request s).0 ≡ ok tt
    → PassChange s (execute account request s).1
unfolding execute
execute-PassChange a (Request.request_visitor p) s done =
    let kept = create_request-PassesKept s p a in PassChange.unchanged (ground arith)
execute-PassChange a (Request.approve_visitor k drawn) s done =
    let kept = approve-PassesKept s a k true drawn in PassChange.unchanged (ground arith)
execute-PassChange a (Request.reject_visitor k) s done =
    let kept = approve-PassesKept s a k false [] in PassChange.unchanged (ground arith)
execute-PassChange a (Request.create_preapproved p drawn otp) s done =
    create_valid-PassChange s a p drawn otp done
execute-PassChange a (Request.cancel_preapproved k) s done = cancel-PassChange s a k done
execute-PassChange a (Request.check_in k q) s done =
    elim (Result-cases (Service.check_in k q a s).0) [
      | inl (e, raised) ↦ absurd (ground arith)
      | inr (r, made) ↦
          let left : (execute a (Request.check_in k q) s).1 ≡ (Service.check_in k q a s).1 =
            ground arith in
          subst (PassChange s) (sym left) (check_in-PassChange s a k q r made)
    ]
execute-PassChange a (Request.check_in_walk_in k) s done =
    PassChange.unchanged (check_in_walk_in-PassesKept s a k)
execute-PassChange a (Request.check_out k) s done =
    elim (Result-cases (Service.check_out k a s).0) [
      | inl (e, raised) ↦ absurd (ground arith)
      | inr (r, made) ↦
          let left : (execute a (Request.check_out k) s).1 ≡ (Service.check_out k a s).1 =
            ground arith in
          subst (PassChange s) (sym left) (check_out-PassChange s a k r made)
    ]
execute-PassChange a (Request.check_out_log k) s done = check_out_log-PassChange s a k done
execute-PassChange a (Request.check_out_walk_in k) s done =
    PassChange.unchanged (check_out_walk_in-PassesKept s a k)
execute-PassChange a (Request.create_delivery p) s done =
    let kept = delivery-PassesKept s a p in PassChange.unchanged (ground arith)
execute-PassChange a (Request.complete_delivery k) s done =
    PassChange.unchanged (complete_delivery-PassesKept s a k)
