-- ===== src/Passes/Examples.antt =====
-- A small table of passes, runs on it, and the theorems at it.
use nestora_server.Prelude.{
  ◌+◌, ◌≤◌, ◌≡◌, refl, true, false, none, some, List, [], ◌∷◌, not, ◌==◌, ◌&&◌, arith,
}
use nestora_server.Prelude.Int.{pos}
use nestora_server.Prelude.Table.{first, update, sum_where}
use nestora_server.Prelude.Text.{Text, text, text_eq}
use nestora_server.Http.{ok}
use nestora_server.Account.{Account, account_role}
use nestora_server.Wallet.Data.{AccountStatus}
use nestora_server.Passes.Data
use nestora_server.Passes.Repository
use nestora_server.Passes.Repository.{is_booked, is_bought_by}
use nestora_server.Passes.Access
use nestora_server.Passes.Service
use nestora_server.Passes.Rsvp
use nestora_server.Passes.Going.{going, rsvp-keeps_capacity}
use nestora_server.Passes.Handler.{Request, serve}
use nestora_server.Passes.Booking.{booked}
use nestora_server.Passes.Effects.{CheckedIn, check_in-CheckedIn}
use nestora_server.Passes.Sound.{IsSound, serve-keeps_passes}
use nestora_server.Passes.Capacity.{book-keeps_capacity}

abbrev resident : Account
resident = record { id = 1; role = some "homeowner"; user_id = some 11; email = 97 ∷ [] }

abbrev board_member : Account
board_member = record { id = 2; role = some "board_member"; user_id = some 12; email = 98 ∷ [] }

-- Ten passes of a hundred each, of which three are booked.
unfoldable event : Data.Event
unfolding text
event = record {
  id = 31;
  association_id = some 41;
  title = 99 ∷ [];
  registration_deadline = none;
  max_capacity = some 10;
  audience = text "All";
  fee_amount = none;
  has_pass = true;
  pass_price = some 10000;
  max_passes_per_user = 5;
  status = text "Published";
  created_at = some 5;
  is_deleted = false;
}

abbrev bought : Data.EventPass
bought = record {
  id = 51;
  event_id = 31;
  account_id = 1;
  buyer_name = 97 ∷ [];
  buyer_mobile = none;
  total_passes = 3;
  remaining_passes = 2;
  checked_in_passes = 1;
  pass_code = 52;
  amount_paid = 30000;
  payment_method = "wallet";
  payment_status = "Completed";
  status = Data.PassStatus.active;
  shared_from_pass_id = none;
  shared_to_mobile = none;
  last_checked_in_at = none;
  last_checked_in_by = none;
  created_at = 5;
}

abbrev db : Data.Db
db = record {
  accounts =
      record { account_id = 1; user_id = some 11; email = 97 ∷ []; status = AccountStatus.active }
      ∷ [];
  user_details =
      record {
        user_id = 11;
        name = none;
        contact_number = none;
        unit_id = none;
        association_id = some 41;
        is_deleted = false;
      }
      ∷ record {
        user_id = 12;
        name = none;
        contact_number = none;
        unit_id = none;
        association_id = some 41;
        is_deleted = false;
      }
      ∷ [];
  units = [];
  blocks = [];
  admin_associations = [];
  events = event ∷ [];
  rsvps = [];
  likes = [];
  comments = [];
  passes = bought ∷ [];
  transfers = [];
  checkins = [];
  wallets =
      record {
        id = 61;
        account_id = 1;
        balance = pos 50000;
        reward_points = none;
        security_pin = some (49 ∷ []);
        is_deleted = false;
      }
      ∷ [];
  transactions = [];
  notifications = [];
  recipients = [];
  now = 9;
  next_uuid = 100;
}

abbrev booking : Data.EventPassBookingRequest
booking = record {
  member_count = 2;
  payment_method = Data.PaymentMethod.wallet;
  pin = some (49 ∷ []);
}

abbrev number : Text
number = 57 ∷ 57 ∷ 57 ∷ 57 ∷ 57 ∷ 57 ∷ 57 ∷ []

abbrev day : List (Account × Request)
day =
    (resident, Request.book_event_pass 31 booking)
    ∷ (resident, Request.share_event_pass 51 (record { recipient_mobile = number; count = 1 }))
    ∷ (board_member, Request.check_in_event_pass 31 51 (record { admit_count = 2; notes = none }))
    ∷ []

db-IsSound : IsSound db
unfolding sum_where
db-IsSound = record { balanced = (refl, tt); old = ((omega arith, tt), tt); distinct = (tt, tt) }

serve-keeps_passes_example : IsSound (serve day db)
serve-keeps_passes_example = serve-keeps_passes day db db-IsSound

booking_succeeds : (Service.book 31 booking resident db).0 ≡ ok 51
unfolding event text Service.book Service.open_event Access.authorized_event Access.role_code
    Access.audiences Access.includes Repository.find_event Repository.member_association_id
    Repository.booked_count Repository.buyer_count Repository.primary_buyer_pass
    Repository.find_rsvp Repository.save_going Repository.notify_booked Repository.wallet_of
    Repository.debit_balance Repository.record_payment Repository.add_to_pass Repository.update_pass
    Service.pay_due Service.pay Service.store_pass Service.wrong_pin account_role first update
    sum_where text_eq is_booked is_bought_by
booking_succeeds = refl

book-keeps_capacity_example :
    (v : Data.Event) × (first (λ (w : Data.Event). w.id == 31 && not w.is_deleted) db.events
      ≡ some v)
    × (booked 31 (Service.book 31 booking resident db).1 ≡ booked 31 db + 2)
    × (Service.exceeds v.max_capacity (booked 31 (Service.book 31 booking resident db).1) ≡ false)
book-keeps_capacity_example =
    book-keeps_capacity 31 booking resident db 51 db-IsSound booking_succeeds

abbrev admission : Data.EventPassCheckInRequest
admission = record { admit_count = 2; notes = none }

admission_succeeds : (Service.check_in 31 51 admission board_member db).0 ≡ ok (0, 3)
unfolding event text Service.check_in Access.manager_event Access.role_code
    Access.has_association_access Repository.find_event Repository.member_association_id
    Repository.pass_by_id Repository.update_pass Service.insert_checkin account_role first update
admission_succeeds = refl

check_in-CheckedIn_example :
    CheckedIn 31 51 admission board_member db
      (Service.check_in 31 51 admission board_member db).1
      (0, 3)
check_in-CheckedIn_example =
    check_in-CheckedIn 51 board_member db 31 admission (0, 3) admission_succeeds

-- The event with a capacity of two, to which somebody is going.
abbrev open_db : Data.Db
open_db = record db {
  events = record event { max_capacity = some 2 } ∷ [];
  rsvps =
      record { id = 71; event_id = 31; account_id = 3; status = "going"; is_deleted = false } ∷ [];
}

event_found :
    first (λ (v : Data.Event). v.id == 31 && not v.is_deleted) open_db.events
    ≡ some (record event { max_capacity = some 2 })
unfolding event first
event_found = refl

going_succeeds : (Rsvp.rsvp 31 Rsvp.RsvpStatus.going resident open_db).0 ≡ ok Rsvp.RsvpStatus.going
unfolding event text Rsvp.rsvp Rsvp.going_count Rsvp.save_rsvp Repository.find_rsvp
    Access.authorized_event Access.role_code Access.audiences Access.includes Repository.find_event
    Repository.member_association_id account_role first text_eq sum_where
going_succeeds = refl

rsvp-keeps_capacity_example :
    (going 31 (Rsvp.rsvp 31 Rsvp.RsvpStatus.going resident open_db).1.rsvps ≤ 2)
    × (going 32 (Rsvp.rsvp 31 Rsvp.RsvpStatus.going resident open_db).1.rsvps
        ≡ going 32 open_db.rsvps)
unfolding event sum_where
rsvp-keeps_capacity_example =
    rsvp-keeps_capacity 31 32 Rsvp.RsvpStatus.going resident open_db
      (record event { max_capacity = some 2 }) Rsvp.RsvpStatus.going (tt, tt) refl event_found
      (omega arith) going_succeeds
