-- ===== src/Passes/Booked.antt =====
-- A booking that returns: the event, its room, and what is stored.
use nestora_server.Prelude.{ℕ, ◌+◌, ◌≡◌, ◌∙◌, false, not, some, inl, inr, arith, ◌==◌, ◌&&◌}
use nestora_server.Prelude.Table.{first, first-holds}
use nestora_server.Http.{ok}
use nestora_server.Account.{Account}
use nestora_server.Passes.Data.{Event, EventPassBookingRequest, Db}
use nestora_server.Passes.Repository
use nestora_server.Passes.Repository.{has_id, is_booked, is_bought_by}
use nestora_server.Passes.Service.{book, exceeds}
use nestora_server.Passes.Booking.{
  Quiet, Stored, cost, booked, book-Steps, pay_due-Quiet, save_going-Quiet, notify-Quiet,
  open_event_lem, store_pass-Stored,
}

before_and_after :
    (e a count amount : ℕ) (s t u v : Db)
    → Quiet s t
    → Quiet u v
    → Stored e a count amount t u
    → Stored e a count amount s v
before_and_after e a count amount s t u v before after (inl x) =
    let p = before.uuids in
    let q = after.uuids in
    let r = x.uuids in
    inl (record {
      pass = x.pass;
      found = rw before.passes at x.found;
      passes = after.passes ∙ rw before.passes at x.passes;
      uuids = omega arith;
    })
before_and_after e a count amount s t u v before after (inr x) =
    let p = before.uuids in
    let q = after.uuids in
    let r = x.uuids in
    let f = x.fresh in
    inr (record {
      new = x.new;
      event = x.event;
      account = x.account;
      status = x.status;
      total = x.total;
      remaining = x.remaining;
      unused = x.unused;
      source = x.source;
      passes = after.passes ∙ rw before.passes at x.passes;
      fresh = omega arith;
      uuids = omega arith;
    })

-- What a booking that returns has stored, for which event.
pub record Booked (e : ℕ) (p : EventPassBookingRequest) (a : Account) (s s' : Db) : Type 0 where
  pub event : Event
  pub found : first (λ (v : Event). v.id == e && not v.is_deleted) s.events ≡ some event
  pub room : exceeds event.max_capacity (booked e s + p.member_count) ≡ false
  pub stored : Stored e a.id p.member_count (cost event p.member_count) s s'

pub book-Booked :
    (e : ℕ) (p : EventPassBookingRequest) (a : Account) (s : Db) (r : ℕ)
    → (book e p a s).0 ≡ ok r
    → Booked e p a s (book e p a s).1
book-Booked e p a s r h =
    let d = book-Steps e p a s r h in
    let (found, room) = open_event_lem e p a s d.event d.opened in
    let amount = cost d.event p.member_count in
    let same_id : d.event.id ≡ e =
      let holds =
        first-holds (λ (v : Event). v.id == e && not v.is_deleted) s.events d.event found in
      ground arith in
    let before : Quiet s d.paid = rw d.paying (pay_due-Quiet p amount d.event a.id s) in
    let s3 = (Repository.save_going e a.id d.rsvp d.stored).1 in
    let q1 = save_going-Quiet e a.id d.rsvp d.stored in
    let q2 = notify-Quiet d.event a.id d.pass_id s3 in
    let u1 = q1.uuids in
    let u2 = q2.uuids in
    let after : Quiet d.stored (book e p a s).1 =
      rw d.ended (record { passes = q2.passes ∙ q1.passes; uuids = omega arith }) in
    let middle : Stored e a.id p.member_count amount d.paid d.stored =
      rw d.storing (rw same_id at (store_pass-Stored p amount d.event a d.paid)) in
    record {
      event = d.event;
      found = found;
      room = room;
      stored =
          before_and_after e a.id p.member_count amount s d.paid d.stored (book e p a s).1 before
            after middle;
    }
