-- ===== src/Visitors/Kept.antt =====
-- The requests that leave the walk-in visits alone.
use nestora_server.Prelude.{ℕ, ◌≤◌, ◌≡◌, ◌==◌, ◌&&◌, Option-cases, inl, inr, arith}
use nestora_server.Prelude.Table.{first, update, latest}
use nestora_server.Prelude.Text.{Text}
use nestora_server.Account.{Account}
use nestora_server.Visitors.Data.{
  VisitorLog, PreApprovedVisitorRequest, CheckInRequest, DeliveryRequest, Db,
}
use nestora_server.Visitors.Gate
use nestora_server.Visitors.Gate.{
  is_pass, is_open, closed, is_open_log, active_log, get_log, get_pass, preapproved_create,
  set_pass_status, cancel_pass, create_log, close_log,
}
use nestora_server.Visitors.Service
use nestora_server.Visitors.Service.{expire_single, still_open}
use nestora_server.Visitors.Handler.{cancel, create_valid}
use nestora_server.Visitors.Guards.{
  require_security_state, security_association_ids_state, resident_unit_state,
  require_pass_security_access_state,
}

-- Nothing is written to the visits, and ids are only handed out.
abbrev pub Kept : Db → Db → Type 0
Kept s s' = (s'.visitor_visits ≡ s.visitor_visits) × (s.next_uuid ≤ s'.next_uuid)

pub expire_single_visits : (k : ℕ) (s : Db) → Kept s (expire_single k s).1
unfolding expire_single set_pass_status get_pass
expire_single_visits k s = elim (Option-cases (first (is_pass k) s.pre_approved_visitors)) [
  | inl missing ↦ ground arith
  | inr (q, found) ↦ ground arith
]

abbrev pub with_log_closed : ℕ → Db → Db
with_log_closed j s = record s {
  visitor_logs = update (λ (l : VisitorLog). l.id == j && is_open l) (closed s.now) s.visitor_logs;
}

module _ (s : Db) (account : Account) where
  pub check_in_visits : (k : ℕ) (q : CheckInRequest) → Kept s (Service.check_in k q account s).1
  unfolding Service.check_in create_log set_pass_status
  check_in_visits k q =
      let first_guard = require_security_state s account in
      let guard = require_pass_security_access_state s account k in ground arith

  pub check_out_visits : (k : ℕ) → Kept s (Service.check_out k account s).1
  unfolding Service.check_out close_log active_log
  check_out_visits k =
      let first_guard = require_security_state s account in
      let guard = require_pass_security_access_state s account k in
      elim (Option-cases (latest (is_open_log k) (λ l. l.check_in) s.visitor_logs)) [
        | inl missing ↦ ground arith
        | inr (l, found) ↦
            let kept = expire_single_visits k (with_log_closed l.id s) in ground arith
      ]

  pub check_out_log_visits : (k : ℕ) → Kept s (Service.check_out_log k account s).1
  unfolding Service.check_out_log close_log
  check_out_log_visits k =
      let first_guard = require_security_state s account in
      let guard = security_association_ids_state s account in
      elim (Option-cases (still_open (get_log k s))) [
        | inl missing ↦ ground arith
        | inr (l, found) ↦
            let kept = expire_single_visits l.pre_approved_id (with_log_closed k s) in ground arith
      ]

  pub create_valid_visits :
      (p : PreApprovedVisitorRequest) (drawn otp : Text)
      → Kept s (create_valid p drawn otp account s).1
  unfolding create_valid Service.create_preapproved preapproved_create
  create_valid_visits p drawn otp = let guard = resident_unit_state s account in ground arith

  pub cancel_visits : (k : ℕ) → Kept s (cancel k account s).1
  unfolding cancel cancel_pass
  cancel_visits k = let guard = resident_unit_state s account in ground arith

  pub delivery_visits : (p : DeliveryRequest) → Kept s (Service.create_delivery p account s).1
  unfolding Service.create_delivery Gate.create_delivery
  delivery_visits p = let guard = require_security_state s account in ground arith

  pub complete_delivery_visits : (k : ℕ) → Kept s (Service.complete_delivery k account s).1
  unfolding Service.complete_delivery Gate.complete_delivery
  complete_delivery_visits k = let guard = require_security_state s account in ground arith
