-- ===== src/Visitors/PassChange.antt =====
-- What each request writes to the tables of passes and of the log at the gate.
use nestora_server.Prelude.{
  ℕ, ◌≤◌, ◌<◌, ◌⊎◌, ◌≡◌, sym, Bool, true, false, none, some, ◌++◌, ◌==◌, ◌&&◌, Bool-cases,
  Option-cases, inl, inr, arith, subst, if◌then◌else◌,
}
use nestora_server.Prelude.Table.{first, insert, update, latest}
use nestora_server.Prelude.Text.{Text, text}
use nestora_server.Http.{ok, Result-cases}
use nestora_server.Account.{Account}
use nestora_server.Visitors.Data.{
  PreApprovedVisitor, VisitorPassStatus, PreApprovedVisitorRequest, CheckInRequest, DeliveryRequest,
  Db,
}
use nestora_server.Visitors.Repository.{
  is_visit, is_pending, get_pending_visit, update_visit, check_in_visit, check_out_visit,
}
use nestora_server.Visitors.Gate
use nestora_server.Visitors.Gate.{
  is_pass, is_pass_of_unit, set_status, new_pass, new_log, is_open, closed, is_open_log, active_log,
  get_log, get_pass, preapproved_create, set_pass_status, cancel_pass, create_log, close_log,
}
use nestora_server.Visitors.Access.{active_visit_not_found, resident_unit}
use nestora_server.Visitors.WalkIn
use nestora_server.Visitors.WalkIn.{
  notify_unit, answering_unit, answer, visit_not_found, denied, approved_with, require_visit,
}
use nestora_server.Visitors.Service
use nestora_server.Visitors.Service.{
  expire_single, still_open, is_active, is_single_entry, effective_pass_status,
}
use nestora_server.Visitors.Kept.{with_log_closed}
use nestora_server.Visitors.Handler.{cancel, create_valid}
use nestora_server.Visitors.Guards.{
  require_security_state, security_association_ids_state, resident_unit_state,
  require_pass_security_access_state, answering_unit_state, require_visit_state,
}

-- Nothing is written to the passes or the log, and ids are only handed out.
abbrev pub PassesKept : Db → Db → Type 0
PassesKept s s' =
    (s'.pre_approved_visitors ≡ s.pre_approved_visitors)
    × (s'.visitor_logs ≡ s.visitor_logs)
    × (s.next_uuid ≤ s'.next_uuid)

pub data PassChange (s s' : Db) : Type 0 where
  unchanged : PassesKept s s' → PassChange s s'
  created :
      (p : PreApprovedVisitorRequest) (account : Account) (unit_id : ℕ) (pass_code otp : Text)
      → s'.pre_approved_visitors
        ≡ insert (new_pass p account unit_id pass_code otp s.next_uuid) s.pre_approved_visitors
      → s'.visitor_logs ≡ s.visitor_logs
      → s.next_uuid < s'.next_uuid
      → PassChange s s'
  was_cancelled :
      (k unit_id : ℕ)
      → s'.pre_approved_visitors
        ≡ update
            (is_pass_of_unit k unit_id)
            (set_status VisitorPassStatus.cancelled)
            s.pre_approved_visitors
      → s'.visitor_logs ≡ s.visitor_logs
      → s.next_uuid ≤ s'.next_uuid
      → PassChange s s'
  admitted :
      (k : ℕ) (q : CheckInRequest) (guard_id : ℕ) (p : PreApprovedVisitor)
      → first (is_pass k) s.pre_approved_visitors ≡ some p
      → is_active p.status ≡ true
      → latest (is_open_log k) (λ l. l.check_in) s.visitor_logs ≡ none
      → s'.pre_approved_visitors ≡ (
          if is_single_entry p
          then update (is_pass k) (set_status VisitorPassStatus.used) s.pre_approved_visitors
          else s.pre_approved_visitors)
      → s'.visitor_logs ≡ insert (new_log k q guard_id s.next_uuid s.now) s.visitor_logs
      → s.next_uuid < s'.next_uuid
      → PassChange s s'
  departed :
      (j k : ℕ)
      → (s'.pre_approved_visitors ≡ s.pre_approved_visitors)
        ⊎ (s'.pre_approved_visitors
            ≡ update (is_pass k) (set_status VisitorPassStatus.expired) s.pre_approved_visitors)
      → s'.visitor_logs ≡ update (λ l. l.id == j && is_open l) (closed s.now) s.visitor_logs
      → s.next_uuid ≤ s'.next_uuid
      → PassChange s s'

expire_single_passes :
    (k : ℕ) (s : Db)
    → ((expire_single k s).1.visitor_logs ≡ s.visitor_logs)
      × (s.next_uuid ≤ (expire_single k s).1.next_uuid)
      × (((expire_single k s).1.pre_approved_visitors ≡ s.pre_approved_visitors)
          ⊎ ((expire_single k s).1.pre_approved_visitors
              ≡ update (is_pass k) (set_status VisitorPassStatus.expired) s.pre_approved_visitors))
unfolding expire_single set_pass_status get_pass
expire_single_passes k s = elim (Option-cases (first (is_pass k) s.pre_approved_visitors)) [
  | inl missing ↦ (ground arith, ground arith, inl (ground arith))
  | inr (q, found) ↦ elim (Bool-cases (is_single_entry q)) [
    | inl single ↦ (ground arith, ground arith, inr (ground arith))
    | inr many ↦ (ground arith, ground arith, inl (ground arith))
  ]
]

expire_single_ok : (k : ℕ) (s : Db) → (expire_single k s).0 ≡ ok tt
unfolding expire_single set_pass_status get_pass
expire_single_ok k s = elim (Option-cases (first (is_pass k) s.pre_approved_visitors)) [
  | inl missing ↦ ground arith
  | inr (q, found) ↦ ground arith
]

module _ (s : Db) (account : Account) where
  pub check_in-PassChange :
      (k : ℕ) (q : CheckInRequest) (r : ℕ)
      → (Service.check_in k q account s).0 ≡ ok r
      → PassChange s (Service.check_in k q account s).1
  unfolding Service.check_in create_log set_pass_status active_log get_pass effective_pass_status
  check_in-PassChange k q r made =
      let first_guard = require_security_state s account in
      let guard = require_pass_security_access_state s account k in
      elim (Option-cases (first (is_pass k) s.pre_approved_visitors)) [
        | inl missing ↦ absurd (ground arith)
        | inr (p, found) ↦
            elim (Option-cases (latest (is_open_log k) (λ l. l.check_in) s.visitor_logs)) [
              | inr (l, inside) ↦ absurd (ground arith)
              | inl outside ↦
                  admitted k q account.id p found (ground arith) outside (ground arith)
                    (ground arith) (ground arith)
            ]
      ]

  pub check_out-PassChange :
      (k r : ℕ)
      → (Service.check_out k account s).0 ≡ ok r
      → PassChange s (Service.check_out k account s).1
  unfolding Service.check_out close_log active_log
  check_out-PassChange k r made =
      let first_guard = require_security_state s account in
      let guard = require_pass_security_access_state s account k in
      elim (Option-cases (latest (is_open_log k) (λ l. l.check_in) s.visitor_logs)) [
        | inl missing ↦ absurd (ground arith)
        | inr (l, found) ↦
            let closing = with_log_closed l.id s in
            let returns = expire_single_ok k closing in
            let left : (Service.check_out k account s).1 ≡ (expire_single k closing).1 =
              ground arith in
            let after = expire_single_passes k closing in
            subst (PassChange s) (sym left) (departed l.id k after.2 after.0 after.1)
      ]

  pub check_out_log-PassChange :
      (k : ℕ)
      → (Service.check_out_log k account s).0 ≡ ok tt
      → PassChange s (Service.check_out_log k account s).1
  unfolding Service.check_out_log close_log
  check_out_log-PassChange k made =
      let first_guard = require_security_state s account in
      let guard = security_association_ids_state s account in
      elim (Option-cases (still_open (get_log k s))) [
        | inl missing ↦ absurd (ground arith)
        | inr (l, found) ↦
            let closing = with_log_closed k s in
            let left : (Service.check_out_log k account s).1
                ≡ (expire_single l.pre_approved_id closing).1 =
              ground arith in
            let after = expire_single_passes l.pre_approved_id closing in
            subst (PassChange s) (sym left) (departed k l.pre_approved_id after.2 after.0 after.1)
      ]

  pub create_valid-PassChange :
      (p : PreApprovedVisitorRequest) (drawn otp : Text)
      → (create_valid p drawn otp account s).0 ≡ ok tt
      → PassChange s (create_valid p drawn otp account s).1
  unfolding create_valid Service.create_preapproved preapproved_create
  create_valid-PassChange p drawn otp made =
      let guard = resident_unit_state s account in
      elim (Result-cases (resident_unit account s).0) [
        | inl (e, raised) ↦ absurd (ground arith)
        | inr (unit_id, found) ↦
            created p account unit_id (text "PA-" ++ drawn) otp (ground arith) (ground arith)
              (ground arith)
      ]

  pub cancel-PassChange :
      (k : ℕ) → (cancel k account s).0 ≡ ok tt → PassChange s (cancel k account s).1
  unfolding cancel cancel_pass
  cancel-PassChange k made =
      let guard = resident_unit_state s account in
      elim (Result-cases (resident_unit account s).0) [
        | inl (e, raised) ↦ absurd (ground arith)
        | inr (unit_id, found) ↦
            was_cancelled k unit_id (ground arith) (ground arith) (ground arith)
      ]

  pub delivery-PassesKept :
      (p : DeliveryRequest) → PassesKept s (Service.create_delivery p account s).1
  unfolding Service.create_delivery Gate.create_delivery
  delivery-PassesKept p = let guard = require_security_state s account in ground arith

  pub complete_delivery-PassesKept :
      (k : ℕ) → PassesKept s (Service.complete_delivery k account s).1
  unfolding Service.complete_delivery Gate.complete_delivery
  complete_delivery-PassesKept k = let guard = require_security_state s account in ground arith

  pub check_in_walk_in-PassesKept : (k : ℕ) → PassesKept s (WalkIn.check_in_walk_in k account s).1
  unfolding WalkIn.check_in_walk_in check_in_visit
  check_in_walk_in-PassesKept k =
      let guard = require_visit_state s k account visit_not_found in ground arith

  pub check_out_walk_in-PassesKept : (k : ℕ) → PassesKept s (WalkIn.check_out_walk_in k account s).1
  unfolding WalkIn.check_out_walk_in check_out_visit
  check_out_walk_in-PassesKept k =
      let guard = require_visit_state s k account active_visit_not_found in ground arith

  answer-PassesKept : (k : ℕ) (b : Bool) (drawn : Text) → PassesKept s (answer k b drawn s).1
  unfolding answer update_visit
  answer-PassesKept k true drawn = ground arith
  answer-PassesKept k false drawn = ground arith

  pub approve-PassesKept :
      (k : ℕ) (b : Bool) (drawn : Text) → PassesKept s (WalkIn.approve k account b drawn s).1
  unfolding WalkIn.approve get_pending_visit
  approve-PassesKept k b drawn =
      let kept = answer-PassesKept k b drawn in
      elim (Option-cases (first (λ w. is_visit k w && is_pending w.status) s.visitor_visits)) [
        | inl missing ↦ ground arith
        | inr (v, found) ↦ let same = answering_unit_state s account v in ground arith
      ]
