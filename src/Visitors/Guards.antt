-- ===== src/Visitors/Guards.antt =====
-- The guards of the methods at the gate write nothing.
use nestora_server.Prelude.{ℕ, String, ◌≡◌, arith}
use nestora_server.Account.{Account}
use nestora_server.Visitors.Data.{VisitorVisit, Db}
use nestora_server.Visitors.Access.{
  role, require_security, require_resident, security_association_ids, require_pass_security_access,
  resident_unit,
}
use nestora_server.Visitors.WalkIn.{answering_unit, require_visit}

module _ (s : Db) (account : Account) where
  pub role_state : (role account s).1 ≡ s
  unfolding role
  role_state = ground arith

  pub require_security_state : (require_security account s).1 ≡ s
  unfolding require_security role
  require_security_state = ground arith

  pub security_association_ids_state : (security_association_ids account s).1 ≡ s
  unfolding security_association_ids require_security role
  security_association_ids_state = ground arith

  pub resident_unit_state : (resident_unit account s).1 ≡ s
  unfolding resident_unit require_resident role
  resident_unit_state = ground arith

  pub require_pass_security_access_state :
      (k : ℕ) → (require_pass_security_access k account s).1 ≡ s
  unfolding require_pass_security_access
  require_pass_security_access_state k = ground (arith, security_association_ids_state)

  pub answering_unit_state : (v : VisitorVisit) → (answering_unit v account s).1 ≡ s
  unfolding answering_unit
  answering_unit_state v = ground (arith, role_state, resident_unit_state)

module _ (s : Db) where
  pub require_visit_state :
      (k : ℕ) (account : Account) (detail : String) → (require_visit k account detail s).1 ≡ s
  unfolding require_visit
  require_visit_state k account detail =
      let first_guard = require_security_state s account in
      let guard = security_association_ids_state s account in ground arith
