-- ===== src/Visitors/CheckIn.antt =====
-- When the visitor of a pass is let in.
use nestora_server.Prelude.{
  ℕ, ◌+◌, ◌*◌, ◌≤◌, ◌≡◌, Bool, true, false, Option, none, some, [], ◌∷◌, ◌/◌, if◌then◌else◌,
}
use nestora_server.Prelude.Table.{insert, update}
use nestora_server.Prelude.Text.{Text}
use nestora_server.Http.{Result, ok, err}
use nestora_server.Account.{Account}
use nestora_server.Visitors.Data.{PreApprovedVisitor, VisitorPassStatus, CheckInRequest, Db}
use nestora_server.Visitors.Gate.{get_pass, is_pass, set_status}
use nestora_server.Visitors.Entries.{inside}
use nestora_server.Visitors.Access.{require_pass_security_access}
use nestora_server.Visitors.Service.{check_in, is_single_entry, seconds_of_day}

abbrev not_raised {ℓ} : {A : Type ℓ} → Result A → Bool
not_raised (ok a) = true
not_raised (err e) = false

-- What a pass with this OTP asks for: one that has none, or the empty one, asks for nothing.
abbrev pub GivesOtp : Option Text → Option Text → Type 0
GivesOtp none given = Unit
GivesOtp (some []) given = Unit
GivesOtp (some (c ∷ otp)) given = given ≡ some (c ∷ otp)

-- What lets the visitor of a pass in.
pub record MayEnter (k : ℕ) (q : CheckInRequest) (account : Account) (s : Db) : Type 0 where
  pub allowed : (require_pass_security_access k account s).0 ≡ ok tt
  pub pass : PreApprovedVisitor
  pub found : get_pass k s ≡ some pass
  pub active : pass.status ≡ VisitorPassStatus.active
  pub not_past : s.now / seconds_of_day ≤ pass.visit_date
  pub started : pass.visit_date * seconds_of_day + pass.start_time ≤ s.now
  pub not_over : s.now ≤ pass.visit_date * seconds_of_day + pass.end_time
  pub otp : GivesOtp pass.otp q.otp
  pub outside : inside k s.visitor_logs ≡ 0

-- The visitor of the pass is let in: there is a new open entry in the log, a pass for a single entry
-- is used, and nothing else is written.
pub record Entered (k : ℕ) (q : CheckInRequest) (account : Account) (s s' : Db) : Type 0 where
  pub pass : PreApprovedVisitor
  pub found : get_pass k s ≡ some pass
  pub visitor_logs :
      s'.visitor_logs
      ≡ insert
          (record {
            id = s.next_uuid;
            pre_approved_id = k;
            check_in = s.now;
            check_out = none;
            gate = q.gate;
            guard_id = account.id;
            visitor_photo_url = q.visitor_photo_url;
            remarks = q.remarks;
            is_deleted = false;
          })
          s.visitor_logs
  pub pre_approved_visitors : s'.pre_approved_visitors ≡ (
      if is_single_entry pass
      then update (is_pass k) (set_status VisitorPassStatus.used) s.pre_approved_visitors
      else s.pre_approved_visitors)
  pub uuids : s'.next_uuid ≡ s.next_uuid + 1
  pub visitors : s'.visitors ≡ s.visitors
  pub visits : s'.visitor_visits ≡ s.visitor_visits
  pub deliveries : s'.deliveries ≡ s.deliveries
  pub inbox : s'.inbox ≡ s.inbox
