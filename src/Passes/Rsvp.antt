-- ===== src/Passes/Rsvp.antt =====
-- app/modules/events/service.py: `rsvp` and `clear_rsvp`, with their queries of repository.py.
use nestora_server.Prelude.{
  ℕ, ◌+◌, String, Bool, true, false, Option, none, some, ◌&&◌, ◌||◌, not, leb, ◌==◌,
}
use text.Mathlib.Text.{◌==◌ as str_eq}
use nestora_server.Prelude.Table.{update, insert, sum_where}
use nestora_server.Http.{Status, Exec, pure, gets, modify, raise_if, ◌>>=◌, ◌>>◌}
use nestora_server.Account.{RoleCode, Account}
use nestora_server.Passes.Data.{EventRsvp, Db}
use nestora_server.Passes.Repository.{find_rsvp}
use nestora_server.Passes.Access.{role_code, authorized_event}

pub data RsvpStatus : Type 0 where
  going maybe not_going : RsvpStatus

unfoldable pub rsvp_text : RsvpStatus → String
rsvp_text RsvpStatus.going = "going"
rsvp_text RsvpStatus.maybe = "maybe"
rsvp_text RsvpStatus.not_going = "not_going"

abbrev pub is_going_status : RsvpStatus → Bool
is_going_status RsvpStatus.going = true
is_going_status RsvpStatus.maybe = false
is_going_status RsvpStatus.not_going = false

-- EVENT_RSVP_ROLES
abbrev is_rsvp_role : RoleCode → Bool
is_rsvp_role RoleCode.security = false
is_rsvp_role RoleCode.accountant = false
is_rsvp_role RoleCode.csr = false
is_rsvp_role _ = true

-- event_id = :id AND status = 'going' AND is_deleted = 0
abbrev pub is_going : ℕ → EventRsvp → Bool
is_going event_id r = r.event_id == event_id && str_eq r.status "going" && not r.is_deleted

unfoldable pub going_count : ℕ → Exec Db ℕ
going_count event_id = gets (λ s. sum_where (is_going event_id) (λ r. 1) s.rsvps)

-- row is None or row.is_deleted or row.status != "going"
abbrev pub not_yet_going : Option EventRsvp → Bool
not_yet_going none = true
not_yet_going (some r) = r.is_deleted || not (str_eq r.status "going")

-- max_capacity and going >= max_capacity
abbrev pub is_full : Option ℕ → ℕ → Bool
is_full none count = false
is_full (some capacity) count = not (capacity == 0) && leb capacity count

-- The flush of the found row, or of a new one.
unfoldable pub save_rsvp : ℕ → ℕ → RsvpStatus → Option EventRsvp → Exec Db Unit
save_rsvp event_id account_id status (some r) = modify (λ s. record s {
  rsvps =
      update (λ q. q.id == r.id) (λ q. record q { status = rsvp_text status; is_deleted = false })
        s.rsvps;
})
save_rsvp event_id account_id status none = modify (λ s. record s {
  rsvps =
      insert
        (record {
          id = s.next_uuid;
          event_id = event_id;
          account_id = account_id;
          status = rsvp_text status;
          is_deleted = false;
        })
        s.rsvps;
  next_uuid = s.next_uuid + 1;
})

unfoldable pub rsvp : ℕ → RsvpStatus → Account → Exec Db RsvpStatus
rsvp event_id status account = do
  role ← role_code account
  raise_if (not (is_rsvp_role role)) Status.forbidden "You do not have access to this event."
  event ← authorized_event event_id account
  row ← find_rsvp event.id account.id
  count ← going_count event.id
  raise_if (is_going_status status && not_yet_going row && is_full event.max_capacity count)
      Status.bad_request "This event has reached capacity."
  save_rsvp event.id account.id status row
  pure status

unfoldable pub clear_rsvp : ℕ → Account → Exec Db Unit
clear_rsvp event_id account = do
  row ← find_rsvp event_id account.id
  elim row [
    | none ↦ pure tt
    | some r ↦ modify (λ s. record s {
      rsvps = update (λ q. q.id == r.id) (λ q. record q { is_deleted = true }) s.rsvps;
    })
  ]
