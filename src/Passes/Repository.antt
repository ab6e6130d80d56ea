-- ===== src/Passes/Repository.antt =====
-- app/modules/events/pass_repository.py, and the queries of app/modules/events/repository.py that the
-- pass service uses. `FOR UPDATE` only locks, and the model runs one transaction at a time.
use nestora_server.Prelude.{
  ℕ, ◌+◌, ◌-◌, Bool, true, false, Option, none, some, List, [], ◌∷◌, ◌++◌, ◌&&◌, ◌||◌, not, ◌==◌,
  if◌then◌else◌,
}
use nestora_server.Prelude.Int.{pos, ◌-ℤ◌}
use nestora_server.Prelude.Table.{first, update, insert, sum_where, length}
use nestora_server.Prelude.Text.{Text, text, text_eq}
use nestora_server.Http.{Exec, ok, gets, modify}
use nestora_server.Wallet.Data.{Wallet, PaymentType, UnitRow, BlockRow, AccountStatus}
use nestora_server.Passes.Data.{
  Event, EventRsvp, PassStatus, EventPass, AccountRow, UserDetail, AdminAssociation, Db,
}

abbrev pub has_id : ℕ → EventPass → Bool
has_id pass_id p = p.id == pass_id

unfoldable pub pass_by_id : ℕ → Exec Db (Option EventPass)
pass_by_id pass_id = gets (λ s. first (has_id pass_id) s.passes)

abbrev is_cancelled : PassStatus → Bool
is_cancelled PassStatus.cancelled = true
is_cancelled PassStatus.active = false
is_cancelled PassStatus.checked_in = false

abbrev pub is_shared : Option ℕ → Bool
is_shared none = false
is_shared (some pass_id) = true

-- event_id = :event_id AND shared_from_pass_id IS NULL AND status <> 'Cancelled'
unfoldable pub is_booked : ℕ → EventPass → Bool
is_booked event_id p =
    p.event_id == event_id && not (is_shared p.shared_from_pass_id) && not (is_cancelled p.status)

unfoldable pub is_bought_by : ℕ → ℕ → EventPass → Bool
unfolding is_booked
is_bought_by event_id account_id p = is_booked event_id p && p.account_id == account_id

unfoldable pub booked_count : ℕ → Exec Db ℕ
booked_count event_id =
    gets (λ s. sum_where (is_booked event_id) (λ (p : EventPass). p.total_passes) s.passes)

unfoldable pub buyer_count : ℕ → ℕ → Exec Db ℕ
buyer_count event_id account_id =
    gets (λ s.
      sum_where (is_bought_by event_id account_id) (λ (p : EventPass). p.total_passes) s.passes)

-- ORDER BY created_at ASC LIMIT 1: rows are inserted in the order of their creation.
unfoldable pub primary_buyer_pass : ℕ → ℕ → Exec Db (Option EventPass)
primary_buyer_pass event_id account_id =
    gets (λ s. first (is_bought_by event_id account_id) s.passes)

-- A name and a number to call.
pub record Contact : Type 0 where
  pub name : Text
  pub mobile : Option Text

abbrev has_user : Option ℕ → UserDetail → Bool
has_user none u = false
has_user (some user_id) u = u.user_id == user_id

-- COALESCE(ud.name, a.email)
abbrev name_or : Option Text → Text → Text
name_or none email = email
name_or (some name) email = name

-- accounts a LEFT JOIN user_details ud ON ud.user_id = a.user_id WHERE a.account_id = :account_id
unfoldable pub find_buyer : ℕ → Db → Option Contact
find_buyer account_id s = elim (first (λ (a : AccountRow). a.account_id == account_id) s.accounts) [
  | none ↦ none
  | some a ↦ elim (first (has_user a.user_id) s.user_details) [
    | none ↦ some (record { name = a.email; mobile = none })
    | some u ↦ some (record { name = name_or u.name a.email; mobile = u.contact_number })
  ]
]

unfoldable pub buyer : ℕ → Exec Db (Option Contact)
buyer account_id = gets (find_buyer account_id)

-- REPLACE(REPLACE(REPLACE(…,' ',''),'-',''),'+','')
unfoldable pub without_marks : Text → Text
without_marks [] = []
without_marks (c ∷ s) =
    if c == b' ' || c == b'-' || c == b'+' then without_marks s else c ∷ without_marks s

abbrev drop : ℕ → Text → Text
drop n [] = []
drop n (c ∷ s) = if n == 0 then c ∷ s else drop (n - 1) s

-- RIGHT(…, 10), and `mobile[-10:]`.
unfoldable pub last_ten : Text → Text
last_ten s = drop (length s - 10) s

unfoldable pub has_mobile : Text → Option Text → Bool
unfolding last_ten without_marks
has_mobile mobile none = false
has_mobile mobile (some number) = text_eq (last_ten (without_marks number)) mobile

pub record Recipient : Type 0 where
  pub account_id : ℕ
  pub name : Text

abbrev is_active : AccountStatus → Bool
is_active AccountStatus.active = true
is_active AccountStatus.inactive = false
is_active AccountStatus.suspended = false

-- accounts a JOIN user_details ud … WHERE the number is :mobile AND a.status = 'active' LIMIT 1
unfoldable pub find_recipient : Text → List UserDetail → List AccountRow → Option Recipient
find_recipient mobile users [] = none
find_recipient mobile users (a ∷ rows) =
    let rest = find_recipient mobile users rows in
    elim (first
      (λ (u : UserDetail).
        has_user a.user_id u && has_mobile mobile u.contact_number && is_active a.status)
      users) [
        | none ↦ rest
        | some u ↦ some (record { account_id = a.account_id; name = name_or u.name a.email })
      ]

unfoldable pub recipient : Text → Exec Db (Option Recipient)
recipient mobile = gets (λ s. find_recipient mobile s.user_details s.accounts)

unfoldable pub insert_pass : EventPass → Exec Db Unit
insert_pass p = modify (λ s. record s { passes = insert p s.passes })

-- UPDATE event_passes SET … WHERE id = :pass_id
unfoldable pub update_pass : ℕ → (EventPass → EventPass) → Exec Db Unit
update_pass pass_id f = modify (λ s. record s { passes = update (has_id pass_id) f s.passes })

unfoldable pub add_to_pass : ℕ → ℕ → ℕ → Exec Db Unit
add_to_pass pass_id count amount = update_pass pass_id (λ p. record p {
  total_passes = p.total_passes + count;
  remaining_passes = p.remaining_passes + count;
  amount_paid = p.amount_paid + amount;
  status = PassStatus.active;
})

unfoldable pub wallet_of : ℕ → Exec Db (Option Wallet)
wallet_of account_id =
    gets (λ s. first (λ w. w.account_id == account_id && not w.is_deleted) s.wallets)

-- INSERT INTO wallet_transactions
unfoldable pub record_payment : ℕ → PaymentType → ℕ → Text → Exec Db Unit
record_payment wallet_id payment_type amount title = modify (λ s. record s {
  transactions =
      insert
        (record {
          id = s.next_uuid;
          wallet_id = wallet_id;
          type = payment_type;
          amount = pos amount;
          status = "Completed";
          description = text "Event Pass: " ++ title;
          created_at = s.now;
          is_deleted = false;
        })
        s.transactions;
  next_uuid = s.next_uuid + 1;
})

-- UPDATE wallets SET balance = balance - :amount WHERE id = :wallet_id
unfoldable pub debit_balance : ℕ → ℕ → Exec Db Unit
debit_balance wallet_id amount = modify (λ s. record s {
  wallets =
      update (λ w. w.id == wallet_id) (λ w. record w { balance = w.balance -ℤ pos amount })
        s.wallets;
})

-- app/modules/events/repository.py: `get`
unfoldable pub find_event : ℕ → Exec Db (Option Event)
find_event event_id = gets (λ s. first (λ e. e.id == event_id && not e.is_deleted) s.events)

-- `association_ids_for_admin`
unfoldable pub admin_association_ids : ℕ → List AdminAssociation → List ℕ
admin_association_ids account_id [] = []
admin_association_ids account_id (r ∷ rows) =
    if r.admin_id == account_id
    then r.association_id ∷ admin_association_ids account_id rows
    else admin_association_ids account_id rows

-- The association of the unit's block.
unfoldable pub block_association : Option ℕ → Db → Option ℕ
block_association none s = none
block_association (some unit_id) s = elim (first (λ (u : UnitRow). u.id == unit_id) s.units) [
  | none ↦ none
  | some u ↦ elim (first (λ (b : BlockRow). b.id == u.block_id) s.blocks) [
    | none ↦ none
    | some b ↦ some b.association_id
  ]
]

-- `member_association_id`: COALESCE(ud.association_id, b.association_id)
unfoldable pub member_association_id : Option ℕ → Db → Option ℕ
unfolding block_association
member_association_id none s = none
member_association_id (some user_id) s =
    elim (first (λ (u : UserDetail). u.user_id == user_id && not u.is_deleted) s.user_details) [
      | none ↦ none
      | some u ↦ elim u.association_id [ some a ↦ some a | none ↦ block_association u.unit_id s ]
    ]

abbrev is_rsvp : ℕ → ℕ → EventRsvp → Bool
is_rsvp event_id account_id r = r.event_id == event_id && r.account_id == account_id

unfoldable pub find_rsvp : ℕ → ℕ → Exec Db (Option EventRsvp)
find_rsvp event_id account_id = gets (λ s. first (is_rsvp event_id account_id) s.rsvps)

-- The flush of an RSVP that is going: the found row, or a new one.
unfoldable pub save_going : ℕ → ℕ → Option EventRsvp → Exec Db Unit
save_going event_id account_id (some r) = modify (λ s. record s {
  rsvps =
      update (λ q. q.id == r.id) (λ q. record q { status = "going"; is_deleted = false }) s.rsvps;
})
save_going event_id account_id none = modify (λ s. record s {
  rsvps =
      insert
        (record {
          id = s.next_uuid;
          event_id = event_id;
          account_id = account_id;
          status = "going";
          is_deleted = false;
        })
        s.rsvps;
  next_uuid = s.next_uuid + 1;
})

-- app/modules/notifications/service.py: `create_notification` and `notify_accounts` for one account.
-- Nothing is written for an account that is not there.
unfoldable pub notify_booked : Event → ℕ → ℕ → Exec Db Unit
notify_booked event account_id pass_id s =
    elim (first (λ (a : AccountRow). a.account_id == account_id) s.accounts) [
      | none ↦ (ok tt, s)
      | some a ↦ (
        ok tt,
        record s {
          notifications =
              insert
                (record {
                  id = s.next_uuid;
                  association_id = event.association_id;
                  created_by_account_id = account_id;
                  type = "event";
                  title = "Event pass booked";
                  message = text "Your pass for " ++ event.title ++ text " is ready.";
                  entity_type = "event_pass";
                  entity_id = pass_id;
                  event_id = event.id;
                })
                s.notifications;
          recipients =
              insert
                (record {
                  notification_id = s.next_uuid;
                  account_id = account_id;
                  delivered_at = s.now;
                })
                s.recipients;
          next_uuid = s.next_uuid + 1;
        },
      )
    ]
