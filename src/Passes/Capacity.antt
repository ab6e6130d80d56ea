-- ===== src/Passes/Capacity.antt =====
-- A booking keeps to the capacity of its event.
use nestora_server.Prelude.{
  ℕ, ◌+◌, ◌≡◌, ◌∙◌, refl, true, false, none, some, List, [], ◌∷◌, inl, inr, arith, ◌==◌, Bool-cases,
  not, ◌&&◌,
}
use nestora_server.Prelude.Table.{All, some_eq, first, first-holds, insert, update, sum_where}
use nestora_server.Http.{ok}
use nestora_server.Account.{Account}
use nestora_server.Passes.Data.{Event, EventPass, PassStatus, EventPassBookingRequest, Db}
use nestora_server.Passes.Repository.{has_id, is_booked, is_bought_by}
use nestora_server.Passes.Service.{book, exceeds}
use nestora_server.Passes.Balance.{Distinct, total_of}
use nestora_server.Passes.Booking.{Stored, extended, booked, cost}
use nestora_server.Passes.Booked.{book-Booked}
use nestora_server.Passes.Sound.{IsSound, first_by_id}

booked-insert :
    (e : ℕ) (x : EventPass) (rows : List EventPass)
    → is_booked e x ≡ true
    → sum_where (is_booked e) total_of (insert x rows)
      ≡ sum_where (is_booked e) total_of rows + x.total_passes
unfolding sum_where
booked-insert e x [] h = ground arith
booked-insert e x (q ∷ rows) h = omega (arith, booked-insert e x rows h)

-- No row of an id is changed where there is none.
booked-absent :
    (e k count amount : ℕ) (rows : List EventPass)
    → All (λ (q : EventPass). (q.id == k) ≡ false) rows
    → sum_where (is_booked e) total_of (update (has_id k) (extended count amount) rows)
      ≡ sum_where (is_booked e) total_of rows
unfolding sum_where update
booked-absent e k count amount [] h = refl
booked-absent e k count amount (q ∷ rows) h =
    rw h.0 (rw (booked-absent e k count amount rows h.1) refl)

extended-is_booked :
    (e count amount : ℕ) (q : EventPass)
    → is_booked e q ≡ true
    → is_booked e (extended count amount q) ≡ true
unfolding is_booked
extended-is_booked e count amount q h = ground arith

booked-update :
    (e k count amount : ℕ) (rows : List EventPass) (p : EventPass)
    → Distinct rows
    → first (has_id k) rows ≡ some p
    → is_booked e p ≡ true
    → sum_where (is_booked e) total_of (update (has_id k) (extended count amount) rows)
      ≡ sum_where (is_booked e) total_of rows + count
unfolding sum_where update first
booked-update e k count amount [] p h found here = absurd (cc)
booked-update e k count amount (q ∷ rows) p h found here = elim (Bool-cases (q.id == k)) [
  | inl hit ↦
      let same : q ≡ p = some_eq q p (rw hit at found) in
      let is_k : q.id ≡ k = ground arith in
      let rest = booked-absent e k count amount rows (rw is_k at h.0) in
      let counted : is_booked e q ≡ true = rw same here in
      let counted' : is_booked e (extended count amount q) ≡ true =
        extended-is_booked e count amount q counted in
      rw (hit, counted, counted', rest) (omega arith)
  | inr miss ↦
      let rest = booked-update e k count amount rows p h.1 (rw miss at found) here in
      rw (miss, rest) (omega arith)
]

inserted-is_booked :
    (e : ℕ) (x : EventPass)
    → x.event_id ≡ e
    → x.shared_from_pass_id ≡ none
    → x.status ≡ PassStatus.active
    → is_booked e x ≡ true
unfolding is_booked
inserted-is_booked e x event source status = ground arith

count_after :
    (e a count amount : ℕ) (s s' : Db)
    → IsSound s
    → Stored e a count amount s s'
    → booked e s' ≡ booked e s + count
count_after e a count amount s s' h (inl d) =
    let bought = first-holds (is_bought_by e a) s.passes d.pass d.found in
    rw d.passes (
      booked-update e d.pass.id count amount s.passes d.pass h.distinct
        (first_by_id (is_bought_by e a) s.passes d.pass h.distinct d.found)
        (unfold is_bought_by in ground arith))
count_after e a count amount s s' h (inr d) =
    let counted : is_booked e d.new ≡ true = inserted-is_booked e d.new d.event d.source d.status in
    rw d.passes (booked-insert e d.new s.passes counted ∙ rw d.total refl)

-- In a sound table, where a booking returns, the event is there, and if it has a capacity then the
-- passes booked for it, this booking included, do not exceed it; they are the former ones and those of
-- the booking.
pub book-keeps_capacity :
    (e : ℕ) (p : EventPassBookingRequest) (a : Account) (s : Db) (r : ℕ)
    → IsSound s
    → (book e p a s).0 ≡ ok r
    → (event : Event) × (first (λ (v : Event). v.id == e && not v.is_deleted) s.events ≡ some event)
      × (booked e (book e p a s).1 ≡ booked e s + p.member_count)
      × (exceeds event.max_capacity (booked e (book e p a s).1) ≡ false)
book-keeps_capacity e p a s r h made =
    let d = book-Booked e p a s r made in
    let count =
      count_after e a.id p.member_count (cost d.event p.member_count) s (book e p a s).1 h
        d.stored in
    (d.event, d.found, count, rw count d.room)
