-- ===== src/Passes/Booking.antt =====
-- What booking writes to the table of passes.
use nestora_server.Prelude.{
  ℕ, ◌+◌, ◌*◌, ◌≤◌, ◌≡◌, refl, false, not, Option, none, some, Option-cases, ◌⊎◌, inl, inr, arith,
  ◌==◌, ◌&&◌,
}
use nestora_server.Prelude.Table.{first, insert, update, sum_where}
use nestora_server.Prelude.Text.{Text}
use nestora_server.Http.{ok, Result-cases}
use nestora_server.Account.{Account}
use nestora_server.Passes.Data.{
  Event, EventPass, EventRsvp, PassStatus, PaymentMethod, EventPassBookingRequest, Db,
}
use nestora_server.Passes.Repository
use nestora_server.Passes.Repository.{
  has_id, is_booked, is_bought_by, add_to_pass, insert_pass, update_pass, find_event, save_going,
  notify_booked,
}
use nestora_server.Passes.Access.{role_code, authorized_event}
use nestora_server.Passes.Service.{
  open_event, pay, pay_due, store_pass, bought_pass, book, exceeds, price,
}
use nestora_server.Passes.Balance.{total_of}

-- The table of passes is as it was, and ids only count up.
pub record Quiet (s s' : Db) : Type 0 where
  pub passes : s'.passes ≡ s.passes
  pub uuids : s.next_uuid ≤ s'.next_uuid

pay-Quiet :
    (method : PaymentMethod) (pin : Option Text) (amount : ℕ) (event : Event) (account_id : ℕ)
    (s : Db)
    → Quiet s (pay method pin amount event account_id s).1
unfolding pay Repository.wallet_of Repository.debit_balance Repository.record_payment
pay-Quiet PaymentMethod.wallet pin amount event a s = record {
  passes = ground arith;
  uuids = ground arith;
}
pay-Quiet PaymentMethod.upi pin amount event a s = record {
  passes = ground arith;
  uuids = ground arith;
}

pub pay_due-Quiet :
    (p : EventPassBookingRequest) (amount : ℕ) (event : Event) (account_id : ℕ) (s : Db)
    → Quiet s (pay_due p amount event account_id s).1
unfolding pay_due
pay_due-Quiet p amount event a s =
    let q = pay-Quiet p.payment_method p.pin amount event a s in
    record { passes = ground (arith, q.passes); uuids = ground (arith, q.uuids) }

pub save_going-Quiet : (e a : ℕ) (r : Option EventRsvp) (s : Db) → Quiet s (save_going e a r s).1
unfolding save_going
save_going-Quiet e a none s = record { passes = refl; uuids = omega arith }
save_going-Quiet e a (some r) s = record { passes = refl; uuids = omega arith }

pub notify-Quiet : (event : Event) (a p : ℕ) (s : Db) → Quiet s (notify_booked event a p s).1
unfolding notify_booked
notify-Quiet event a p s = record { passes = ground arith; uuids = ground arith }

open_event_state :
    (e : ℕ) (p : EventPassBookingRequest) (a : Account) (s : Db) → (open_event e p a s).1 ≡ s
unfolding open_event authorized_event role_code find_event Repository.booked_count
    Repository.buyer_count
open_event_state e p a s = ground arith

-- The passes that are booked for an event.
abbrev pub booked : ℕ → Db → ℕ
booked event_id s = sum_where (is_booked event_id) total_of s.passes

-- An event that is open is the one of the id, and has room.
pub open_event_lem :
    (e : ℕ) (p : EventPassBookingRequest) (a : Account) (s : Db) (event : Event)
    → (open_event e p a s).0 ≡ ok event
    → (first (λ (v : Event). v.id == e && not v.is_deleted) s.events ≡ some event)
      × (exceeds event.max_capacity (booked e s + p.member_count) ≡ false)
unfolding open_event authorized_event role_code find_event Repository.booked_count
    Repository.buyer_count
open_event_lem e p a s event h = (ground arith, ground arith)

-- The row of a pass after a further booking.
abbrev pub extended : ℕ → ℕ → EventPass → EventPass
extended count amount q = record q {
  total_passes = q.total_passes + count;
  remaining_passes = q.remaining_passes + count;
  amount_paid = q.amount_paid + amount;
  status = PassStatus.active;
}

-- A further booking extends the first pass of the buyer for the event.
pub record Extended (event_id account_id count amount : ℕ) (s s' : Db) : Type 0 where
  pub pass : EventPass
  pub found : first (is_bought_by event_id account_id) s.passes ≡ some pass
  pub passes : s'.passes ≡ update (has_id pass.id) (extended count amount) s.passes
  pub uuids : s.next_uuid ≤ s'.next_uuid

-- A first booking inserts a pass.
pub record Inserted (event_id account_id count : ℕ) (s s' : Db) : Type 0 where
  pub new : EventPass
  pub event : new.event_id ≡ event_id
  pub account : new.account_id ≡ account_id
  pub status : new.status ≡ PassStatus.active
  pub total : new.total_passes ≡ count
  pub remaining : new.remaining_passes ≡ count
  pub unused : new.checked_in_passes ≡ 0
  pub source : new.shared_from_pass_id ≡ none
  pub passes : s'.passes ≡ insert new s.passes
  pub fresh : s.next_uuid ≤ new.id
  pub uuids : new.id + 2 ≤ s'.next_uuid

abbrev pub Stored : (event_id account_id count amount : ℕ) (s s' : Db) → Type 0
Stored event_id account_id count amount s s' =
    Extended event_id account_id count amount s s' ⊎ Inserted event_id account_id count s s'

pub store_pass-Stored :
    (p : EventPassBookingRequest) (amount : ℕ) (event : Event) (a : Account) (s : Db)
    → Stored event.id a.id p.member_count amount s
        (store_pass p amount event a (first (is_bought_by event.id a.id) s.passes) s).1
unfolding store_pass add_to_pass insert_pass update_pass Repository.buyer
store_pass-Stored p amount event a s =
    elim (Option-cases (first (is_bought_by event.id a.id) s.passes)) [
      | inr (x, found) ↦ inl (record {
        pass = x;
        found = found;
        passes = rw found refl;
        uuids = rw found (omega arith);
      })
      | inl missing ↦ inr (record {
        new = bought_pass s.next_uuid s.now amount p event a (Repository.find_buyer a.id s);
        event = refl;
        account = refl;
        status = refl;
        total = refl;
        remaining = refl;
        unused = refl;
        source = refl;
        passes = rw missing refl;
        fresh = omega arith;
        uuids = rw missing (omega arith);
      })
    ]

save_going_ok : (e a : ℕ) (r : Option EventRsvp) (s : Db) → (save_going e a r s).0 ≡ ok tt
unfolding save_going
save_going_ok e a none s = refl
save_going_ok e a (some r) s = refl

notify_ok : (event : Event) (a p : ℕ) (s : Db) → (notify_booked event a p s).0 ≡ ok tt
unfolding notify_booked
notify_ok event a p s = ground arith

abbrev pub cost : Event → ℕ → ℕ
cost event count = price event.pass_price event.fee_amount * count

-- The steps of a booking that returns.
pub record Steps (e : ℕ) (p : EventPassBookingRequest) (a : Account) (s s' : Db) : Type 0 where
  pub event : Event
  pub opened : (open_event e p a s).0 ≡ ok event
  pub pass_id : ℕ
  pub rsvp : Option EventRsvp
  pub paid : Db
  pub paying : paid ≡ (pay_due p (cost event p.member_count) event a.id s).1
  pub stored : Db
  pub storing :
      stored
      ≡ (store_pass p
          (cost event p.member_count)
          event
          a
          (first (is_bought_by e a.id) paid.passes)
          paid).1
  pub ended : s' ≡ (notify_booked event a.id pass_id (save_going e a.id rsvp stored).1).1

pub book-Steps :
    (e : ℕ) (p : EventPassBookingRequest) (a : Account) (s : Db) (r : ℕ)
    → (book e p a s).0 ≡ ok r
    → Steps e p a s (book e p a s).1
unfolding book Repository.primary_buyer_pass Repository.find_rsvp
book-Steps e p a s r h =
    let e1 = open_event_state e p a s in
    elim (Result-cases (open_event e p a s).0) [
      | inl (f, raised) ↦ absurd (ground arith)
      | inr (event, opened) ↦
          let s1 = (pay_due p (cost event p.member_count) event a.id s).1 in
          elim (Result-cases (pay_due p (cost event p.member_count) event a.id s).0) [
            | inl (f, raised) ↦ absurd (ground arith)
            | inr (u, paid) ↦
                let existing = first (is_bought_by e a.id) s1.passes in
                let s2 = (store_pass p (cost event p.member_count) event a existing s1).1 in
                elim (Result-cases
                  (store_pass p (cost event p.member_count) event a existing s1).0) [
                    | inl (f, raised) ↦ absurd (ground arith)
                    | inr (id, stored) ↦
                        let rsvp =
                          first (λ (q : EventRsvp). q.event_id == e && q.account_id == a.id)
                            s2.rsvps in
                        let e2 = save_going_ok e a.id rsvp s2 in
                        let e3 = notify_ok event a.id id (save_going e a.id rsvp s2).1 in
                        record {
                          event = event;
                          opened = opened;
                          pass_id = id;
                          rsvp = rsvp;
                          paid = s1;
                          paying = refl;
                          stored = s2;
                          storing = refl;
                          ended = ground arith;
                        }
                  ]
          ]
    ]
