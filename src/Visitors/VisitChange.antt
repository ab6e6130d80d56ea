-- ===== src/Visitors/VisitChange.antt =====
-- What each request writes to the table of walk-in visits.
use nestora_server.Prelude.{
  ℕ, ◌+◌, ◌≤◌, ◌<◌, ◌≡◌, ◌∙◌, refl, sym, Bool, true, false, Option, none, some, [], ◌++◌, ◌&&◌,
  Bool-cases, Option-cases, inl, inr, arith, subst,
}
use nestora_server.Prelude.Table.{first, insert, update}
use nestora_server.Prelude.Text.{Text, text}
use nestora_server.Http.{ok, Result-cases}
use nestora_server.Account.{Account}
use nestora_server.Notifications.Service.{notify_accounts}
use nestora_server.Notifications.Ids.{deliver_uuid}
use nestora_server.Visitors.Data.{VisitorVisit, VisitorRequest, Db}
use nestora_server.Visitors.Repository.{
  is_visit, is_pending, is_arriving, is_leaving, arrived, left_premises, new_visit, find_visitor,
  save_visitor, create_visit, get_pending_visit, update_visit, check_in_visit, check_out_visit,
}
use nestora_server.Visitors.Access.{active_visit_not_found}
use nestora_server.Visitors.WalkIn
use nestora_server.Visitors.WalkIn.{
  notify_unit, answering_unit, answer, visit_not_found, denied, approved_with, require_visit,
}
use nestora_server.Visitors.Handler.{Request, execute}
use nestora_server.Visitors.Guards.{
  require_security_state, security_association_ids_state, answering_unit_state, require_visit_state,
}
use nestora_server.Visitors.Kept.{
  Kept, check_in_visits, check_out_visits, check_out_log_visits, create_valid_visits, cancel_visits,
  delivery_visits, complete_delivery_visits,
}

pub data VisitChange (s s' : Db) : Type 0 where
  unchanged : Kept s s' → VisitChange s s'
  requested :
      (visitor_id : ℕ) (p : VisitorRequest) (uuid : ℕ)
      → s.next_uuid ≤ uuid
      → uuid < s'.next_uuid
      → s'.visitor_visits ≡ insert (new_visit visitor_id p uuid s.now) s.visitor_visits
      → VisitChange s s'
  was_denied :
      (k : ℕ) (v : VisitorVisit)
      → first (λ w. is_visit k w && is_pending w.status) s.visitor_visits ≡ some v
      → s.next_uuid ≤ s'.next_uuid
      → s'.visitor_visits ≡ update (is_visit k) denied s.visitor_visits
      → VisitChange s s'
  was_approved :
      (k : ℕ) (v : VisitorVisit) (pass_code : Text)
      → first (λ w. is_visit k w && is_pending w.status) s.visitor_visits ≡ some v
      → s.next_uuid ≤ s'.next_uuid
      → s'.visitor_visits ≡ update (is_visit k) (approved_with pass_code) s.visitor_visits
      → VisitChange s s'
  checked_in :
      (k : ℕ)
      → s.next_uuid ≤ s'.next_uuid
      → s'.visitor_visits ≡ update (is_arriving k) (arrived s.now) s.visitor_visits
      → VisitChange s s'
  checked_out :
      (k : ℕ)
      → s.next_uuid ≤ s'.next_uuid
      → s'.visitor_visits ≡ update (is_leaving k) (left_premises s.now) s.visitor_visits
      → VisitChange s s'

module _ (k : ℕ) (account : Account) (drawn : Text) (s : Db) where
  approve-VisitChange :
      (b : Bool) (r : Option Text)
      → (WalkIn.approve k account b drawn s).0 ≡ ok r
      → VisitChange s (WalkIn.approve k account b drawn s).1
  unfolding WalkIn.approve answer update_visit get_pending_visit
  approve-VisitChange b r made =
      elim (Option-cases (first (λ w. is_visit k w && is_pending w.status) s.visitor_visits)) [
        | inl missing ↦ absurd (ground arith)
        | inr (v, found) ↦
            let same = answering_unit_state s account v in
            elim (Bool-cases b) [
              | inl accepted ↦
                  was_approved k v (text "PASS-" ++ drawn) found (ground arith) (ground arith)
              | inr refused ↦ was_denied k v found (ground arith) (ground arith)
            ]
      ]

module _ (s : Db) where
  pub notify_unit_uuid :
      (p : VisitorRequest) (k : ℕ) (a : Account) → s.next_uuid ≤ (notify_unit p k a s).1.next_uuid
  unfolding notify_unit notify_accounts
  notify_unit_uuid p k a = deliver_uuid _ _ _ _ _ _

  notify_unit_visits :
      (p : VisitorRequest) (k : ℕ) (a : Account)
      → (notify_unit p k a s).1.visitor_visits ≡ s.visitor_visits
  unfolding notify_unit
  notify_unit_visits p k a = refl

  save_visitor_kept :
      (p : VisitorRequest)
      → ((save_visitor p s).1.visitor_visits ≡ s.visitor_visits)
        × ((save_visitor p s).1.now ≡ s.now)
        × (s.next_uuid ≤ (save_visitor p s).1.next_uuid)
  unfolding save_visitor
  save_visitor_kept p = ground arith

module _ (s : Db) where
  pub save_visitor_ok : (p : VisitorRequest) → (j : ℕ) × ((save_visitor p s).0 ≡ ok j)
  unfolding save_visitor find_visitor
  save_visitor_ok p = elim (Option-cases (find_visitor p.mobile none s)) [
    | inl new ↦ (s.next_uuid, ground arith)
    | inr (v, found) ↦ (v.id, ground arith)
  ]

  create_request-VisitChange :
      (p : VisitorRequest) (account : Account) (r : ℕ)
      → (WalkIn.create_request p account s).0 ≡ ok r
      → VisitChange s (WalkIn.create_request p account s).1
  unfolding WalkIn.create_request create_visit
  create_request-VisitChange p account r made =
      let saved = (save_visitor p s).1 in
      let kept = save_visitor_kept s p in
      let (j, is_saved) = save_visitor_ok p in
      let asked = record saved {
        visitor_visits = insert (new_visit j p saved.next_uuid saved.now) saved.visitor_visits;
        next_uuid = saved.next_uuid + 1;
      } in
      let first_guard = require_security_state s account in
      let guard = security_association_ids_state s account in
      let final : (WalkIn.create_request p account s).1
          ≡ (notify_unit p saved.next_uuid account asked).1 =
        ground arith in
      let rows : asked.visitor_visits
          ≡ insert (new_visit j p saved.next_uuid s.now) s.visitor_visits =
        ground (arith, kept) in
      let later = notify_unit_uuid asked p saved.next_uuid account in
      subst (VisitChange s) (sym final) (
        requested j p saved.next_uuid kept.2 (omega arith)
          (notify_unit_visits asked p saved.next_uuid account ∙ rows))

  check_in_walk_in-VisitChange :
      (k : ℕ) (account : Account)
      → (WalkIn.check_in_walk_in k account s).0 ≡ ok tt
      → VisitChange s (WalkIn.check_in_walk_in k account s).1
  unfolding WalkIn.check_in_walk_in check_in_visit
  check_in_walk_in-VisitChange k account made =
      let guard = require_visit_state s k account visit_not_found in
      checked_in k (ground arith) (ground arith)

  check_out_walk_in-VisitChange :
      (k : ℕ) (account : Account)
      → (WalkIn.check_out_walk_in k account s).0 ≡ ok tt
      → VisitChange s (WalkIn.check_out_walk_in k account s).1
  unfolding WalkIn.check_out_walk_in check_out_visit
  check_out_walk_in-VisitChange k account made =
      let guard = require_visit_state s k account active_visit_not_found in
      checked_out k (ground arith) (ground arith)

pub execute-VisitChange :
    (account : Account) (request : Request) (s : Db)
    → (execute account request s).0 ≡ ok tt
    → VisitChange s (execute account request s).1
unfolding execute
execute-VisitChange a (Request.request_visitor p) s done =
    elim (Result-cases (WalkIn.create_request p a s).0) [
      | inl (e, raised) ↦ absurd (ground arith)
      | inr (r, made) ↦
          let left : (execute a (Request.request_visitor p) s).1 ≡ (WalkIn.create_request p a s).1 =
            ground arith in
          subst (VisitChange s) (sym left) (create_request-VisitChange s p a r made)
    ]
execute-VisitChange a (Request.approve_visitor k drawn) s done =
    elim (Result-cases (WalkIn.approve k a true drawn s).0) [
      | inl (e, raised) ↦ absurd (ground arith)
      | inr (r, made) ↦
          let left : (execute a (Request.approve_visitor k drawn) s).1
              ≡ (WalkIn.approve k a true drawn s).1 =
            ground arith in
          subst (VisitChange s) (sym left) (approve-VisitChange k a drawn s true r made)
    ]
execute-VisitChange a (Request.reject_visitor k) s done =
    elim (Result-cases (WalkIn.approve k a false [] s).0) [
      | inl (e, raised) ↦ absurd (ground arith)
      | inr (r, made) ↦
          let left : (execute a (Request.reject_visitor k) s).1
              ≡ (WalkIn.approve k a false [] s).1 =
            ground arith in
          subst (VisitChange s) (sym left) (approve-VisitChange k a [] s false r made)
    ]
execute-VisitChange a (Request.create_preapproved p drawn otp) s done =
    unchanged (create_valid_visits s a p drawn otp)
execute-VisitChange a (Request.cancel_preapproved k) s done = unchanged (cancel_visits s a k)
execute-VisitChange a (Request.check_in k q) s done =
    let kept = check_in_visits s a k q in unchanged (ground arith)
execute-VisitChange a (Request.check_in_walk_in k) s done = check_in_walk_in-VisitChange s k a done
execute-VisitChange a (Request.check_out k) s done =
    let kept = check_out_visits s a k in unchanged (ground arith)
execute-VisitChange a (Request.check_out_log k) s done = unchanged (check_out_log_visits s a k)
execute-VisitChange a (Request.check_out_walk_in k) s done =
    check_out_walk_in-VisitChange s k a done
execute-VisitChange a (Request.create_delivery p) s done =
    let kept = delivery_visits s a p in unchanged (ground arith)
execute-VisitChange a (Request.complete_delivery k) s done =
    unchanged (complete_delivery_visits s a k)
