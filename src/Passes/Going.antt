-- ===== src/Passes/Going.antt =====
-- Who is going to an event, after an RSVP (app/modules/events/service.py).
use nestora_server.Prelude.{
  ℕ, zero, suc, ◌+◌, ◌≤◌, ◌≡◌, ◌∙◌, refl, sym, ap, subst, ==_refl, Bool, true, false, Option, none,
  some, List, [], ◌∷◌, not, ◌&&◌, ◌==◌, Bool-cases, Option-cases, inl, inr, arith,
}
use nestora_server.Prelude.Table.{All, some_eq, All-first, first, first-holds, update, sum_where}
use nestora_server.Prelude.Keys.{Keyed, sum_where-insert}
use nestora_server.Http.{ok, Result-cases}
use nestora_server.Account.{Account}
use nestora_server.Passes.Data.{Event, EventRsvp, Db}
use nestora_server.Passes.Repository.{find_rsvp, find_event}
use nestora_server.Passes.Access.{role_code, authorized_event}
use nestora_server.Passes.Rsvp.{
  RsvpStatus, rsvp, rsvp_text, is_going_status, is_going, is_full, not_yet_going, going_count,
  save_rsvp,
}

abbrev pub rsvp_key : EventRsvp → ℕ
rsvp_key r = r.id

-- How many are going to the event.
abbrev pub going : ℕ → List EventRsvp → ℕ
going event_id rows = sum_where (is_going event_id) (λ r. 1) rows

-- Within the capacity of an event: one without a capacity, or with zero, takes any number.
abbrev pub Fits : Option ℕ → ℕ → Type 0
Fits none count = Unit
Fits (some zero) count = Unit
Fits (some (suc capacity)) count = count ≤ suc capacity

abbrev row_of : ℕ → Account → List EventRsvp → Option EventRsvp
row_of event_id account rows =
    first (λ (r : EventRsvp). r.event_id == event_id && r.account_id == account.id) rows

abbrev answered : RsvpStatus → EventRsvp → EventRsvp
answered status q = record q { status = rsvp_text status; is_deleted = false }

update_absent :
    (k : ℕ) (f : EventRsvp → EventRsvp) (rows : List EventRsvp)
    → All (λ (q : EventRsvp). (q.id == k) ≡ false) rows
    → update (λ q. q.id == k) f rows ≡ rows
unfolding update
update_absent k f [] h = refl
update_absent k f (q ∷ rows) h = rw (h.0, update_absent k f rows h.1)

abbrev one : Bool → ℕ
one true = 1
one false = 0

-- Where ids are unique, the change of one row changes the count by that row alone.
going-update :
    (j : ℕ) (g : EventRsvp → Bool) (f : EventRsvp → EventRsvp) (rows : List EventRsvp)
    (x : EventRsvp)
    → Keyed rsvp_key rows
    → first g rows ≡ some x
    → going j (update (λ q. q.id == x.id) f rows) + one (is_going j x)
      ≡ going j rows + one (is_going j (f x))
unfolding sum_where update first
going-update j g f [] x h found = absurd (cc)
going-update j g f (q ∷ rows) x h found = elim (Bool-cases (g q)) [
  | inl hit ↦
      let same : q ≡ x = some_eq q x (rw hit at found) in
      let alone : update (λ w. w.id == q.id) f rows ≡ rows = update_absent q.id f rows h.0 in
      subst
        (λ (w : EventRsvp).
          going j (update (λ z. z.id == w.id) f (q ∷ rows)) + one (is_going j w)
          ≡ going j (q ∷ rows) + one (is_going j (f w)))
        same (rw (==_refl q.id, alone) (ground arith))
  | inr miss ↦
      let later : first g rows ≡ some x = rw miss at found in
      let apart : (x.id == q.id) ≡ false =
        All-first (λ (w : EventRsvp). (w.id == q.id) ≡ false) g rows x h.0 later in
      let flipped : (q.id == x.id) ≡ false = ground arith in
      let rest = going-update j g f rows x h.1 later in rw flipped (omega (arith, rest))
]

-- Whether the row counts for the event.
abbrev counted : ℕ → Option EventRsvp → ℕ
counted j none = 0
counted j (some x) = one (is_going j x)

going-save_rsvp :
    (j e : ℕ) (status : RsvpStatus) (account : Account) (s : Db)
    → Keyed rsvp_key s.rsvps
    → going j (save_rsvp e account.id status (row_of e account s.rsvps) s).1.rsvps
        + counted j (row_of e account s.rsvps)
      ≡ going j s.rsvps + one (e == j && is_going_status status)
unfolding save_rsvp rsvp_text
going-save_rsvp j e status account s keyed = elim (Option-cases (row_of e account s.rsvps)) [
  | inl absent ↦ rw absent (new status)
  | inr (x, found) ↦
      let here =
        first-holds (λ (r : EventRsvp). r.event_id == e && r.account_id == account.id) s.rsvps x
          found in
      let is_e : x.event_id ≡ e = ground arith in
      rw found (
        going-update j _ (answered status) s.rsvps x keyed found
        ∙ ap (λ n. going j s.rsvps + n) (old x is_e status))
]
  where
    new :
        (status : RsvpStatus)
        → going j (save_rsvp e account.id status none s).1.rsvps + 0
          ≡ going j s.rsvps + one (e == j && is_going_status status)
    new RsvpStatus.going = rw sum_where-insert (ground arith)
    new RsvpStatus.maybe = rw sum_where-insert (ground arith)
    new RsvpStatus.not_going = rw sum_where-insert (ground arith)

    old :
        (x : EventRsvp)
        → x.event_id ≡ e
        → (status : RsvpStatus)
        → one (is_going j (answered status x)) ≡ one (e == j && is_going_status status)
    old x is RsvpStatus.going = rw is (ground arith)
    old x is RsvpStatus.maybe = rw is (ground arith)
    old x is RsvpStatus.not_going = rw is (ground arith)

role_code_state : (account : Account) (s : Db) → (role_code account s).1 ≡ s
unfolding role_code
role_code_state account s = ground arith

authorized_event_state : (e : ℕ) (account : Account) (s : Db) → (authorized_event e account s).1 ≡ s
unfolding authorized_event role_code find_event
authorized_event_state e account s = ground arith

authorized_event_found :
    (e : ℕ) (account : Account) (s : Db) (event : Event)
    → (authorized_event e account s).0 ≡ ok event
    → first (λ (v : Event). v.id == e && not v.is_deleted) s.events ≡ some event
unfolding authorized_event role_code find_event
authorized_event_found e account s event h = ground arith

-- What an RSVP that returns has asked for and stored.
record Answered (e : ℕ) (status : RsvpStatus) (account : Account) (s s' : Db) : Type 0 where
  event : Event
  found : first (λ (v : Event). v.id == e && not v.is_deleted) s.events ≡ some event
  is_e : event.id ≡ e
  room :
      (is_going_status status
        && not_yet_going (row_of e account s.rsvps)
        && is_full event.max_capacity (going e s.rsvps))
      ≡ false
  stored : s'.rsvps ≡ (save_rsvp e account.id status (row_of e account s.rsvps) s).1.rsvps

rsvp-Answered :
    (e : ℕ) (status : RsvpStatus) (account : Account) (s : Db) (r : RsvpStatus)
    → (rsvp e status account s).0 ≡ ok r
    → Answered e status account s (rsvp e status account s).1
unfolding rsvp find_rsvp going_count
rsvp-Answered e status account s r h =
    let e1 = role_code_state account s in
    let e2 = authorized_event_state e account s in
    elim (Result-cases (authorized_event e account s).0) [
      | inl (x, raised) ↦ absurd (ground arith)
      | inr (event, seen) ↦
          let found = authorized_event_found e account s event seen in
          let here =
            first-holds (λ (v : Event). v.id == e && not v.is_deleted) s.events event found in
          let is_e : event.id ≡ e = ground arith in
          record {
            event = event;
            found = found;
            is_e = is_e;
            room = rw (← is_e) (ground arith);
            stored = rw (← is_e) (ground arith);
          }
    ]

-- Within the capacity before, and with room or no new guest, is within the capacity after.
kept_within :
    (capacity : Option ℕ) (before after old_one : ℕ) (goes absent : Bool)
    → after + old_one ≡ before + one goes
    → (absent ≡ false → old_one ≡ 1)
    → (goes && absent && is_full capacity before) ≡ false
    → Fits capacity before
    → Fits capacity after
kept_within none before after old_one goes absent count row room fits = tt
kept_within (some zero) before after old_one goes absent count row room fits = tt
kept_within (some (suc c)) before after old_one goes absent count row room fits = ground arith

row_counts :
    (e : ℕ) (account : Account) (rows : List EventRsvp)
    → not_yet_going (row_of e account rows) ≡ false
    → counted e (row_of e account rows) ≡ 1
row_counts e account rows h = elim (Option-cases (row_of e account rows)) [
  | inl absent ↦ absurd (ground arith)
  | inr (x, found) ↦
      let here =
        first-holds (λ (r : EventRsvp). r.event_id == e && r.account_id == account.id) rows x
          found in
      rw found (ground arith)
]

row_elsewhere :
    (j e : ℕ) (account : Account) (rows : List EventRsvp)
    → (j == e) ≡ false
    → counted j (row_of e account rows) ≡ 0
row_elsewhere j e account rows apart = elim (Option-cases (row_of e account rows)) [
  | inl absent ↦ rw absent refl
  | inr (x, found) ↦
      let here =
        first-holds (λ (r : EventRsvp). r.event_id == e && r.account_id == account.id) rows x
          found in
      rw found (ground arith)
]

-- Where the ids of the RSVPs are unique and those who are going to an event are within its capacity, if
-- it has one that is not zero, they are so after any RSVP to it that returns; and as many are going to
-- each other event as before.
pub rsvp-keeps_capacity :
    (e j : ℕ) (status : RsvpStatus) (account : Account) (s : Db) (event : Event) (r : RsvpStatus)
    → Keyed rsvp_key s.rsvps
    → (j == e) ≡ false
    → first (λ (v : Event). v.id == e && not v.is_deleted) s.events ≡ some event
    → Fits event.max_capacity (going e s.rsvps)
    → (rsvp e status account s).0 ≡ ok r
    → Fits event.max_capacity (going e (rsvp e status account s).1.rsvps)
      × (going j (rsvp e status account s).1.rsvps ≡ going j s.rsvps)
rsvp-keeps_capacity e j status account s event r keyed apart found fits h =
    let d = rsvp-Answered e status account s r h in
    let same : d.event ≡ event = some_eq d.event event (sym d.found ∙ found) in
    let room = rw same at d.room in
    let here = going-save_rsvp e e status account s keyed in
    let there = going-save_rsvp j e status account s keyed in
    let flipped : (e == j) ≡ false = ground arith in
    let gone = row_elsewhere j e account s.rsvps apart in
    (
      rw d.stored (
          kept_within event.max_capacity (going e s.rsvps) _ (counted e (row_of e account s.rsvps))
            (is_going_status status) (not_yet_going (row_of e account s.rsvps)) (rw ==_refl at here)
            (row_counts e account s.rsvps) room fits),
      rw d.stored (let unmoved = rw (gone, flipped) at there in omega arith),
    )
