-- ===== src/Passes/Service.antt =====
-- app/modules/events/pass_service.py: booking, sharing and gate admission. The handlers of
-- app/modules/events/router.py run each inside one `UnitOfWork`.
use nestora_server.Prelude.{
  ℕ, ◌+◌, ◌-◌, ◌*◌, String, Bool, true, false, Option, none, some, [], ◌∷◌, ◌++◌, ◌&&◌, ◌||◌, not,
  ltb, leb, ◌==◌, if◌then◌else◌,
}
use nestora_server.Prelude.Int.{pos, ltb_ℤ}
use nestora_server.Prelude.Table.{length, insert}
use nestora_server.Prelude.Text.{Text, text, text_eq}
use nestora_server.Http.{ok, Status, Exec, pure, gets, modify, or_raise, raise_if, ◌>>=◌, ◌>>◌}
use nestora_server.Account.{Account}
use nestora_server.Wallet.Data.{PaymentType}
use nestora_server.Passes.Data.{
  Event, PassStatus, EventPass, EventPassTransfer, EventPassCheckIn, Db, PaymentMethod,
  EventPassBookingRequest, EventPassShareRequest, EventPassCheckInRequest,
}
use nestora_server.Passes.Repository
use nestora_server.Passes.Repository.{
  Contact, Recipient, is_shared, pass_by_id, update_pass, insert_pass, last_ten,
}
use nestora_server.Passes.Access.{authorized_event, manager_event}

abbrev pub is_active : PassStatus → Bool
is_active PassStatus.active = true
is_active PassStatus.checked_in = false
is_active PassStatus.cancelled = false

-- registration_deadline and registration_deadline < now
abbrev has_passed : Option ℕ → ℕ → Bool
has_passed none now = false
has_passed (some deadline) now = ltb deadline now

-- max_capacity and booked + count > max_capacity: no capacity, and 0, is no limit.
abbrev pub exceeds : Option ℕ → ℕ → Bool
exceeds none n = false
exceeds (some capacity) n = not (capacity == 0) && ltb capacity n

-- max_passes_per_user or 10
abbrev pub pass_limit : Event → ℕ
pass_limit event = if event.max_passes_per_user == 0 then 10 else event.max_passes_per_user

-- pass_price if pass_price is not None else fee_amount or 0
abbrev pub price : Option ℕ → Option ℕ → ℕ
price (some p) fee = p
price none (some fee) = fee
price none none = 0

-- not wallet["security_pin"] or wallet["security_pin"] != pin
unfoldable pub wrong_pin : Option Text → Option Text → Bool
wrong_pin none pin = true
wrong_pin (some []) pin = true
wrong_pin (some (c ∷ s)) none = true
wrong_pin (some (c ∷ s)) (some pin) = not (text_eq (c ∷ s) pin)

-- The payment of a booking that costs something.
unfoldable pub pay : PaymentMethod → Option Text → ℕ → Event → ℕ → Exec Db Unit
pay PaymentMethod.wallet pin amount event account_id = do
  found ← Repository.wallet_of account_id
  wallet ← or_raise found Status.bad_request "Invalid wallet security PIN."
  raise_if (wrong_pin wallet.security_pin pin) Status.bad_request "Invalid wallet security PIN."
  raise_if (ltb_ℤ wallet.balance (pos amount)) Status.bad_request "Insufficient wallet balance."
  Repository.debit_balance wallet.id amount
  Repository.record_payment wallet.id PaymentType.debit amount event.title
pay PaymentMethod.upi pin amount event account_id = do
  found ← Repository.wallet_of account_id
  wallet ←
      or_raise found Status.bad_request "A Nestora Wallet is required to record this UPI payment."
  Repository.record_payment wallet.id PaymentType.upi amount event.title

-- A free pass is not paid.
unfoldable pub pay_due : EventPassBookingRequest → ℕ → Event → ℕ → Exec Db Unit
pay_due payload amount event account_id =
    if ltb 0 amount then pay payload.payment_method payload.pin amount event account_id else pure tt

abbrev method_text : PaymentMethod → String
method_text PaymentMethod.wallet = "wallet"
method_text PaymentMethod.upi = "upi"

abbrev name_of : Option Contact → Text → Text
name_of none email = email
name_of (some c) email = c.name

abbrev mobile_of : Option Contact → Option Text
mobile_of none = none
mobile_of (some c) = c.mobile

-- Two values of `uuid.uuid4()`: the id of a pass and its code.
abbrev pub pass_uuids : Exec Db ℕ
pass_uuids s = let next = s.next_uuid in (ok next, record s { next_uuid = next + 2 })

-- The row that a first booking inserts.
abbrev pub bought_pass :
    ℕ → ℕ → ℕ → EventPassBookingRequest → Event → Account → Option Contact → EventPass
bought_pass pass_id now amount payload event account contact = record {
  id = pass_id;
  event_id = event.id;
  account_id = account.id;
  buyer_name = name_of contact account.email;
  buyer_mobile = mobile_of contact;
  total_passes = payload.member_count;
  remaining_passes = payload.member_count;
  checked_in_passes = 0;
  pass_code = pass_id + 1;
  amount_paid = amount;
  payment_method = if ltb 0 amount then method_text payload.payment_method else "free";
  payment_status = "Completed";
  status = PassStatus.active;
  shared_from_pass_id = none;
  shared_to_mobile = none;
  last_checked_in_at = none;
  last_checked_in_by = none;
  created_at = now;
}

-- The pass of a first booking, which is inserted, and later bookings, which are added to it.
unfoldable pub store_pass :
    EventPassBookingRequest → ℕ → Event → Account → Option EventPass → Exec Db ℕ
store_pass payload amount event account (some p) = do
  Repository.add_to_pass p.id payload.member_count amount
  pure p.id
store_pass payload amount event account none = do
  contact ← Repository.buyer account.id
  pass_id ← pass_uuids
  now ← gets (λ s. s.now)
  insert_pass (bought_pass pass_id now amount payload event account contact)
  pure pass_id

-- The detail of the last error names the limit; the model keeps its fixed part. What may keep a booking from being made: the event, its deadline, its capacity, the buyer's limit.
unfoldable pub open_event : ℕ → EventPassBookingRequest → Account → Exec Db Event
open_event event_id payload account = do
  event ← authorized_event event_id account
  raise_if (not event.has_pass || not (text_eq event.status (text "Published"))) Status.bad_request
      "Pass booking is not open for this event."
  now ← gets (λ s. s.now)
  raise_if (has_passed event.registration_deadline now) Status.bad_request
      "Registration deadline has passed."
  booked ← Repository.booked_count event_id
  raise_if (exceeds event.max_capacity (booked + payload.member_count)) Status.bad_request
      "Not enough passes remain for this event."
  bought ← Repository.buyer_count event_id account.id
  raise_if (ltb (pass_limit event) (bought + payload.member_count)) Status.bad_request
      "Maximum passes permitted per member."
  pure event

unfoldable pub book : ℕ → EventPassBookingRequest → Account → Exec Db ℕ
book event_id payload account = do
  event ← open_event event_id payload account
  let amount = price event.pass_price event.fee_amount * payload.member_count
  pay_due payload amount event account.id
  existing ← Repository.primary_buyer_pass event_id account.id
  pass_id ← store_pass payload amount event account existing
  rsvp ← Repository.find_rsvp event_id account.id
  Repository.save_going event_id account.id rsvp
  Repository.notify_booked event account.id pass_id
  pure pass_id

unfoldable pub digits_of : Text → Text
digits_of [] = []
digits_of (c ∷ s) = if leb b'0' c && leb c b'9' then c ∷ digits_of s else digits_of s

abbrev recipient_id : Option Recipient → ℕ → ℕ
recipient_id none sender = sender
recipient_id (some r) sender = r.account_id

-- f"Member ({payload.recipient_mobile})"
abbrev recipient_name : Option Recipient → Text → Text
recipient_name none mobile = text "Member (" ++ mobile ++ text ")"
recipient_name (some r) mobile = r.name

-- The owner of a pass may share it, and who manages its event.
unfoldable pub require_owner : EventPass → Account → Exec Db Unit
require_owner p account =
    if p.account_id == account.id then pure tt else (manager_event p.event_id account >> pure tt)

unfoldable pub insert_transfer : EventPassTransfer → Exec Db Unit
insert_transfer t =
    modify (λ s. record s { transfers = insert t s.transfers; next_uuid = s.next_uuid + 1 })

unfoldable pub insert_checkin : EventPassCheckIn → Exec Db Unit
insert_checkin c =
    modify (λ s. record s { checkins = insert c s.checkins; next_uuid = s.next_uuid + 1 })

-- The row that `share` inserts.
abbrev pub shared_pass :
    ℕ → ℕ → ℕ → EventPass → EventPassShareRequest → Option Recipient → EventPass
shared_pass new_id now pass_id p payload recipient = record {
  id = new_id;
  event_id = p.event_id;
  account_id = recipient_id recipient p.account_id;
  buyer_name = recipient_name recipient payload.recipient_mobile;
  buyer_mobile = some payload.recipient_mobile;
  total_passes = payload.count;
  remaining_passes = payload.count;
  checked_in_passes = 0;
  pass_code = new_id + 1;
  amount_paid = 0;
  payment_method = "Transferred";
  payment_status = "Completed";
  status = PassStatus.active;
  shared_from_pass_id = some pass_id;
  shared_to_mobile = some payload.recipient_mobile;
  last_checked_in_at = none;
  last_checked_in_by = none;
  created_at = now;
}

-- The result is the id of the new pass and what remains on the shared one.
unfoldable pub share : ℕ → EventPassShareRequest → Account → Exec Db (ℕ × ℕ)
share pass_id payload account = do
  found ← pass_by_id pass_id
  p ← or_raise found Status.not_found "Pass not found."
  require_owner p account
  raise_if (is_shared p.shared_from_pass_id) Status.bad_request
      "A shared pass cannot be transferred again."
  raise_if (not (is_active p.status) || ltb p.remaining_passes payload.count) Status.bad_request
      "Not enough active passes remain to share."
  let mobile = digits_of payload.recipient_mobile
  raise_if (ltb (length mobile) 7) Status.bad_request "Enter a valid mobile number."
  recipient ← Repository.recipient (last_ten mobile)
  new_id ← pass_uuids
  now ← gets (λ s. s.now)
  update_pass pass_id (λ q. record q { remaining_passes = q.remaining_passes - payload.count })
  insert_pass (shared_pass new_id now pass_id p payload recipient)
  sender ← Repository.buyer account.id
  transfer_id ← gets (λ s. s.next_uuid)
  insert_transfer (record {
    id = transfer_id;
    original_pass_id = pass_id;
    new_pass_id = new_id;
    event_id = p.event_id;
    sender_account_id = account.id;
    sender_name = name_of sender account.email;
    sender_mobile = mobile_of sender;
    recipient_mobile = payload.recipient_mobile;
    recipient_name = recipient_name recipient payload.recipient_mobile;
    count = payload.count;
  })
  pure (new_id, p.remaining_passes - payload.count)

-- not row or row["event_id"] != event_id
abbrev of_event : Option EventPass → ℕ → Option EventPass
of_event none event_id = none
of_event (some p) event_id = if p.event_id == event_id then some p else none

-- The result is what remains and what is checked in.
unfoldable pub check_in : ℕ → ℕ → EventPassCheckInRequest → Account → Exec Db (ℕ × ℕ)
check_in event_id pass_id payload account = do
  manager_event event_id account
  found ← pass_by_id pass_id
  p ← or_raise (of_event found event_id) Status.not_found "Pass not found for this event."
  raise_if (not (is_active p.status) || ltb p.remaining_passes payload.admit_count)
      Status.bad_request "Not enough active passes remain."
  let remaining = p.remaining_passes - payload.admit_count
  let checked = p.checked_in_passes + payload.admit_count
  now ← gets (λ s. s.now)
  update_pass pass_id (λ q. record q {
    remaining_passes = remaining;
    checked_in_passes = checked;
    last_checked_in_at = some now;
    last_checked_in_by = some account.id;
    status = if remaining == 0 then PassStatus.checked_in else PassStatus.active;
  })
  checkin_id ← gets (λ s. s.next_uuid)
  insert_checkin (record {
    id = checkin_id;
    pass_id = pass_id;
    event_id = event_id;
    admitted_count = payload.admit_count;
    checked_in_by = account.id;
    checked_in_by_name = account.email;
    notes = payload.notes;
  })
  pure (remaining, checked)
