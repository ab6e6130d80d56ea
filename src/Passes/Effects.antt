-- ===== src/Passes/Effects.antt =====
-- What sharing and admission need, and write to the tables of passes, transfers and check-ins.
use nestora_server.Prelude.{
  ℕ, ◌+◌, ◌-◌, ◌≤◌, ◌≡◌, refl, none, some, Option-cases, inl, inr, arith, if◌then◌else◌, ◌==◌,
}
use nestora_server.Prelude.Table.{first, insert, update}
use nestora_server.Http.{ok, Result-cases}
use nestora_server.Account.{Account}
use nestora_server.Passes.Data.{
  Event, EventPass, PassStatus, EventPassShareRequest, EventPassCheckInRequest, Db,
}
use nestora_server.Passes.Repository
use nestora_server.Passes.Repository.{
  has_id, last_ten, find_event, pass_by_id, update_pass, insert_pass,
}
use nestora_server.Passes.Access.{role_code, manager_event}
use nestora_server.Passes.Service.{
  require_owner, share, check_in, insert_transfer, insert_checkin, digits_of, shared_pass,
}

module _ (s : Db) where
  manager_event_state : (e : ℕ) (account : Account) → (manager_event e account s).1 ≡ s
  unfolding manager_event role_code find_event
  manager_event_state e account = ground arith

  require_owner_state : (p : EventPass) (account : Account) → (require_owner p account s).1 ≡ s
  unfolding require_owner
  require_owner_state p account = ground (arith, manager_event_state p.event_id account)

-- The row of the pass after an admission.
abbrev pub admitted : Account → ℕ → ℕ → EventPass → EventPass → EventPass
admitted account now count p q = record q {
  remaining_passes = p.remaining_passes - count;
  checked_in_passes = p.checked_in_passes + count;
  last_checked_in_at = some now;
  last_checked_in_by = some account.id;
  status = if (p.remaining_passes - count) == 0 then PassStatus.checked_in else PassStatus.active;
}

pub record CheckedIn (event_id pass_id : ℕ) (payload : EventPassCheckInRequest) (account : Account)
    (s s' : Db) (r : ℕ × ℕ) : Type 0 where
  pub event : Event
  pub managed : (manager_event event_id account s).0 ≡ ok event
  pub pass : EventPass
  pub found : first (has_id pass_id) s.passes ≡ some pass
  pub of_event : pass.event_id ≡ event_id
  pub active : pass.status ≡ PassStatus.active
  pub enough : payload.admit_count ≤ pass.remaining_passes
  pub passes :
      s'.passes ≡ update (has_id pass_id) (admitted account s.now payload.admit_count pass) s.passes
  pub checkins :
      s'.checkins
      ≡ insert
          (record {
            id = s.next_uuid;
            pass_id = pass_id;
            event_id = event_id;
            admitted_count = payload.admit_count;
            checked_in_by = account.id;
            checked_in_by_name = account.email;
            notes = payload.notes;
          })
          s.checkins
  pub uuids : s'.next_uuid ≡ s.next_uuid + 1
  pub transfers : s'.transfers ≡ s.transfers
  pub wallets : s'.wallets ≡ s.wallets
  pub transactions : s'.transactions ≡ s.transactions
  pub reply :
      r
      ≡ (pass.remaining_passes - payload.admit_count, pass.checked_in_passes + payload.admit_count)

pub record Shared (pass_id : ℕ) (payload : EventPassShareRequest) (s s' : Db) (r : ℕ × ℕ)
    : Type 0 where
  pub pass : EventPass
  pub new : EventPass
  pub found : first (has_id pass_id) s.passes ≡ some pass
  pub enough : payload.count ≤ pass.remaining_passes
  pub unshared : pass.shared_from_pass_id ≡ none
  pub new_id : new.id ≡ s.next_uuid
  pub total : new.total_passes ≡ payload.count
  pub remaining : new.remaining_passes ≡ payload.count
  pub unused : new.checked_in_passes ≡ 0
  pub source : new.shared_from_pass_id ≡ some pass_id
  pub passes :
      s'.passes
      ≡ insert new (
          update
            (has_id pass_id)
            (λ q. record q { remaining_passes = q.remaining_passes - payload.count })
            s.passes)
  pub uuids : s'.next_uuid ≡ s.next_uuid + 3

module _ (pass_id : ℕ) (account : Account) (s : Db) where
  -- An admission that returns was made by a manager of the event; it found the pass, of that event,
  -- active and with as many passes left as it admits; it moves these from the remaining to the checked
  -- in ones, records who admitted how many, and replies with both numbers.
  pub check_in-CheckedIn :
      (event_id : ℕ) (payload : EventPassCheckInRequest) (r : ℕ × ℕ)
      → (check_in event_id pass_id payload account s).0 ≡ ok r
      → CheckedIn event_id pass_id payload account s
          (check_in event_id pass_id payload account s).1
          r
  unfolding check_in pass_by_id update_pass insert_checkin
  check_in-CheckedIn event_id payload r h =
      let e1 = manager_event_state s event_id account in
      elim (Result-cases (manager_event event_id account s).0) [
        | inl (e, raised) ↦ absurd (ground arith)
        | inr (event, allowed) ↦ elim (Option-cases (first (has_id pass_id) s.passes)) [
          | inl missing ↦ absurd (ground arith)
          | inr (p, found) ↦ record {
            event = event;
            managed = allowed;
            pass = p;
            found = found;
            of_event = ground arith;
            active = ground arith;
            enough = ground arith;
            passes = ground arith;
            checkins = ground arith;
            transfers = ground arith;
            wallets = ground arith;
            transactions = ground arith;
            uuids = ground arith;
            reply = ground arith;
          }
        ]
      ]

  pub share-Shared :
      (payload : EventPassShareRequest) (r : ℕ × ℕ)
      → (share pass_id payload account s).0 ≡ ok r
      → Shared pass_id payload s (share pass_id payload account s).1 r
  unfolding share pass_by_id update_pass insert_transfer insert_pass Repository.recipient
      Repository.buyer
  share-Shared payload r h = elim (Option-cases (first (has_id pass_id) s.passes)) [
    | inl missing ↦ absurd (ground arith)
    | inr (p, found) ↦
        let e1 = require_owner_state s p account in
        elim (Result-cases (require_owner p account s).0) [
          | inl (e, raised) ↦ absurd (ground arith)
          | inr (u, allowed) ↦ record {
            pass = p;
            new = shared_pass s.next_uuid s.now pass_id p payload (
                Repository.find_recipient (last_ten (digits_of payload.recipient_mobile))
                  s.user_details s.accounts);
            found = found;
            unshared = ground arith;
            enough = ground arith;
            new_id = refl;
            total = refl;
            remaining = refl;
            unused = refl;
            source = refl;
            passes = ground arith;
            uuids = ground arith;
          }
        ]
  ]
