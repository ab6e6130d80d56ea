-- ===== src/Visitors/Visit.antt =====
-- A walk-in visit from its approval to its end.
use nestora_server.Prelude.{
  ℕ, ◌+◌, ◌≡◌, ◌∙◌, refl, ap, String, Bool, true, some, List, [], ◌∷◌, ◌++◌, ◌&&◌, Option-cases,
  inl, inr, arith,
}
use nestora_server.Prelude.Table.{first, first-holds, update}
use nestora_server.Prelude.Keys.{first-update, first_exists, first_narrowed, exists-update}
use nestora_server.Prelude.Text.{Text, text}
use nestora_server.Http.{ok, unit_of_work}
use nestora_server.Account.{Account, account_role}
use nestora_server.Directory.{association_ids_for_account, unit_is_in_associations}
use nestora_server.Visitors.Data.{VisitorVisit, Db}
use nestora_server.Visitors.Repository.{
  is_visit, is_pending, is_arriving, is_leaving, is_approved, is_checked_in, arrived, left_premises,
  get_visit, get_pending_visit, update_visit, check_in_visit, check_out_visit, visit_is_in,
}
use nestora_server.Visitors.Access.{
  active_visit_not_found, role, require_security, security_association_ids,
}
use nestora_server.Visitors.WalkIn
use nestora_server.Visitors.WalkIn.{
  answering_unit, answer, approved_with, require_visit, visit_not_found,
}
use nestora_server.Visitors.Guards.{answering_unit_state, require_visit_state}
use nestora_server.Visitors.Handler.{Request, execute, handle, serve, at}

abbrev with_visits : List VisitorVisit → Db → Db
with_visits visits s = record s { visitor_visits = visits }

module _ (s : Db) (k : ℕ) (v : VisitorVisit) (found : get_visit k s ≡ some v) where
  approve_step :
      (resident : Account) (drawn : Text)
      → is_pending v.status ≡ true
      → (answering_unit v resident s).0 ≡ ok v.unit_id
      → (handle resident (Request.approve_visitor k drawn) s).1
        ≡ with_visits
            (update (is_visit k) (approved_with (text "PASS-" ++ drawn)) s.visitor_visits)
            s
  unfolding handle unit_of_work execute WalkIn.approve answer update_visit get_pending_visit
  approve_step resident drawn waiting allowed =
      let first_one : first (is_visit k) s.visitor_visits ≡ some v = unfold get_visit in found in
      let seen =
        first_narrowed (is_visit k) (λ w. is_pending w.status) s.visitor_visits v first_one
          waiting in
      let same = answering_unit_state s resident v in ground arith

  check_in_step :
      (guard : Account)
      → is_approved v.status ≡ true
      → (require_visit k guard visit_not_found s).0 ≡ ok tt
      → (handle guard (Request.check_in_walk_in k) s).1
        ≡ with_visits (update (is_arriving k) (arrived s.now) s.visitor_visits) s
  unfolding handle unit_of_work execute WalkIn.check_in_walk_in check_in_visit
  check_in_step guard ready allowed =
      let first_one : first (is_visit k) s.visitor_visits ≡ some v = unfold get_visit in found in
      let is_k = first-holds (is_visit k) s.visitor_visits v first_one in
      let there =
        first_exists (is_visit k) (is_arriving k) s.visitor_visits v first_one (ground arith) in
      let same = require_visit_state s k guard visit_not_found in ground arith

  check_out_step :
      (guard : Account)
      → is_checked_in v.status ≡ true
      → (require_visit k guard active_visit_not_found s).0 ≡ ok tt
      → (handle guard (Request.check_out_walk_in k) s).1
        ≡ with_visits (update (is_leaving k) (left_premises s.now) s.visitor_visits) s
  unfolding handle unit_of_work execute WalkIn.check_out_walk_in check_out_visit
  check_out_step guard ready allowed =
      let first_one : first (is_visit k) s.visitor_visits ≡ some v = unfold get_visit in found in
      let is_k = first-holds (is_visit k) s.visitor_visits v first_one in
      let there =
        first_exists (is_visit k) (is_leaving k) s.visitor_visits v first_one (ground arith) in
      let same = require_visit_state s k guard active_visit_not_found in ground arith

-- A guard who may see a visit may see it after its row was changed, at any time.
require_visit_again :
    (s : Db) (k now : ℕ) (guard : Account) (d e : String) (q : VisitorVisit → Bool)
    (f : VisitorVisit → VisitorVisit)
    → ((v : VisitorVisit) → (is_visit k (f v) ≡ is_visit k v) × ((f v).unit_id ≡ v.unit_id))
    → (require_visit k guard d s).0 ≡ ok tt
    → (require_visit k guard e
        (record s { visitor_visits = update q f s.visitor_visits; now = now })).0
      ≡ ok tt
unfolding require_visit security_association_ids require_security role visit_is_in
require_visit_again s k now guard d e q f keeps h =
    let ids = association_ids_for_account guard.id s.directory in
    let seen =
      λ (v : VisitorVisit). is_visit k v && unit_is_in_associations v.unit_id ids s.directory in
    let same =
      exists-update seen q f s.visitor_visits (λ v. let one = keeps v in rw (one.0, one.1)) in
    elim (Option-cases (account_role guard)) [
      | inl nobody ↦ absurd (ground arith)
      | inr (r, is) ↦ ground arith
    ]

-- A visit that waits for an answer, once a resident who may answer for its unit approves it, is checked
-- in and later checked out by a guard who may see it, whatever time passes between the requests.
pub pending_visit-leaves :
    (resident guard : Account) (k waited stood stayed : ℕ) (drawn : Text) (v : VisitorVisit)
    (s : Db)
    → get_visit k s ≡ some v
    → is_pending v.status ≡ true
    → (answering_unit v resident (at waited s)).0 ≡ ok v.unit_id
    → (require_visit k guard visit_not_found (at waited s)).0 ≡ ok tt
    → get_visit k (
        serve
          ((resident, waited, Request.approve_visitor k drawn)
            ∷ (guard, stood, Request.check_in_walk_in k)
            ∷ (guard, stayed, Request.check_out_walk_in k)
            ∷ [])
          s)
      ≡ some (
          left_premises
            (s.now + waited + stood + stayed)
            (arrived (s.now + waited + stood) (approved_with (text "PASS-" ++ drawn) v)))
unfolding serve
pending_visit-leaves resident guard k waited stood stayed drawn v s found waiting may_answer
      may_see =
    let code = text "PASS-" ++ drawn in
    let s0 = at waited s in
    let accept = approved_with code in
    let s1 = at stood (with_visits (update (is_visit k) accept s.visitor_visits) s0) in
    let v1 = accept v in
    let enter = arrived (s.now + waited + stood) in
    let s2 = at stayed (with_visits (update (is_arriving k) enter s1.visitor_visits) s1) in
    let v2 = enter v1 in
    let exit = left_premises (s.now + waited + stood + stayed) in
    let first_one : first (is_visit k) s.visitor_visits ≡ some v = unfold get_visit in found in
    let is_k = first-holds (is_visit k) s.visitor_visits v first_one in
    let found1 : first (is_visit k) s1.visitor_visits ≡ some v1 =
      first-update (is_visit k) (is_visit k) accept s.visitor_visits v (λ w. refl) first_one is_k in
    let found2 : first (is_visit k) s2.visitor_visits ≡ some v2 =
      first-update (is_visit k) (is_arriving k) enter s1.visitor_visits v1 (λ w. refl) found1
        (ground arith) in
    let seen1 =
      require_visit_again s0 k (s.now + waited + stood) guard visit_not_found visit_not_found
        (is_visit k) accept (λ w. (refl, refl)) may_see in
    let seen2 =
      require_visit_again s1 k (s.now + waited + stood + stayed) guard visit_not_found
        active_visit_not_found (is_arriving k) enter (λ w. (refl, refl)) seen1 in
    let step1 =
      approve_step s0 k v (unfold get_visit in first_one) resident drawn waiting may_answer in
    let step2 = check_in_step s1 k v1 (unfold get_visit in found1) guard refl seen1 in
    let step3 = check_out_step s2 k v2 (unfold get_visit in found2) guard refl seen2 in
    let leave = λ (t : Db). (handle guard (Request.check_out_walk_in k) (at stayed t)).1 in
    let done =
      ap (λ (t : Db). leave (handle guard (Request.check_in_walk_in k) (at stood t)).1) step1
      ∙ ap leave step2
      ∙ step3 in
    ap (get_visit k) done
    ∙ (unfold get_visit in
        first-update (is_visit k) (is_leaving k) exit s2.visitor_visits v2 (λ w. refl) found2
          (ground arith))
