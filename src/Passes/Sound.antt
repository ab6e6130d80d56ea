-- ===== src/Passes/Sound.antt =====
-- Booking, sharing and admission keep every pass accounted for.
use nestora_server.Prelude.{
  ℕ, ◌+◌, ◌-◌, ◌≡◌, refl, Bool, true, false, some, List, [], ◌∷◌, ◌<◌, ◌∙◌, sym, Bool-cases, inl,
  inr, subst, arith, ◌==◌,
}
use nestora_server.Prelude.Table.{All-first, some_eq, first, first-holds, update}
use nestora_server.Http.{ok, Result-cases, unit_of_work}
use nestora_server.Account.{Account}
use nestora_server.Passes.Data.{EventPass, EventPassShareRequest, EventPassCheckInRequest, Db}
use nestora_server.Passes.Repository.{has_id, is_booked, is_bought_by}
use nestora_server.Passes.Service.{book, share, check_in}
use nestora_server.Passes.Handler.{Request, execute, handle, serve}
use nestora_server.Passes.Balance.{is_from, Sound, Distinct, IsOld}
use nestora_server.Passes.Rows.{update-Sound, insert-Sound, settled}
use nestora_server.Passes.Effects.{admitted, CheckedIn, check_in-CheckedIn, Shared, share-Shared}
use nestora_server.Passes.Booking.{Stored, extended, cost}
use nestora_server.Passes.Booked.{book-Booked}

abbrev pub IsSound : Db → Type 0
IsSound s = Sound 0 0 s.next_uuid s.passes

CheckedIn-IsSound :
    (e k : ℕ) (p : EventPassCheckInRequest) (a : Account) (s s' : Db) (r : ℕ × ℕ)
    → IsSound s
    → CheckedIn e k p a s s' r
    → IsSound s'
CheckedIn-IsSound e k p a s s' r h d =
    let enough = d.enough in
    let f = admitted a s.now p.admit_count d.pass in
    let changed =
      update-Sound k 0 s.next_uuid s.passes f d.pass (record { id = refl; source = refl }) h d.found
        (λ j same. refl) (omega arith) in
    rw (d.passes, d.uuids)
      (settled k s.next_uuid (s.next_uuid + 1) (update (has_id k) f s.passes) (omega arith) changed)

Shared-IsSound :
    (k : ℕ) (p : EventPassShareRequest) (s s' : Db) (r : ℕ × ℕ)
    → IsSound s
    → Shared k p s s' r
    → IsSound s'
Shared-IsSound k p s s' r h d =
    let enough = d.enough in
    let f = λ (q : EventPass). record q { remaining_passes = q.remaining_passes - p.count } in
    let changed =
      update-Sound k p.count s.next_uuid s.passes f d.pass (record { id = refl; source = refl }) h
        d.found (λ j e. refl) (omega arith) in
    let is_k : (d.pass.id == k) ≡ true = first-holds (has_id k) s.passes d.pass d.found in
    let old = All-first (IsOld s.next_uuid) (has_id k) s.passes d.pass h.old d.found in
    let older = old.0 in
    let k_old : k < s.next_uuid = ground arith in
    let new_id = d.new_id in
    rw (d.passes, d.uuids)
      (insert-Sound k p.count s.next_uuid (s.next_uuid + 3) (update (has_id k) f s.passes) d.new
        changed (omega arith) (omega arith) (rw d.source (omega arith)) (d.remaining ∙ sym d.total)
        d.unused (λ j. rw (d.source, d.total) (ground arith)))

-- A row that a condition finds first is found by its id.
pub first_by_id :
    (p : EventPass → Bool) (rows : List EventPass) (x : EventPass)
    → Distinct rows
    → first p rows ≡ some x
    → first (has_id x.id) rows ≡ some x
unfolding first
first_by_id p [] x h e = absurd (cc)
first_by_id p (q ∷ rows) x h e = elim (Bool-cases (p q)) [
  | inl hit ↦ let same = some_eq q x (rw hit at e) in rw same (ground arith)
  | inr miss ↦
      let rest : first p rows ≡ some x = rw miss at e in
      let apart : (x.id == q.id) ≡ false =
        All-first (λ r. (r.id == q.id) ≡ false) p rows x h.0 rest in
      let other : (q.id == x.id) ≡ false = ground arith in rw other (first_by_id p rows x h.1 rest)
]

-- A pass that was bought was not shared from another.
not_both : (e a : ℕ) (p : EventPass) (j : ℕ) → is_bought_by e a p ≡ true → is_from j p ≡ true → ⊥
unfolding is_bought_by is_booked
not_both e a p j bought from = ground arith

Stored-IsSound :
    (e a count amount : ℕ) (s s' : Db) → IsSound s → Stored e a count amount s s' → IsSound s'
unfolding is_bought_by is_booked
Stored-IsSound e a count amount s s' h (inl d) =
    let bought : is_bought_by e a d.pass ≡ true =
      first-holds (is_bought_by e a) s.passes d.pass d.found in
    let changed =
      update-Sound d.pass.id 0 s.next_uuid s.passes (extended count amount) d.pass
        (record { id = refl; source = refl }) h
        (first_by_id (is_bought_by e a) s.passes d.pass h.distinct d.found)
        (λ j from. absurd (not_both e a d.pass j bought from)) (omega arith) in
    rw d.passes (
      settled d.pass.id s.next_uuid s'.next_uuid
        (update (has_id d.pass.id) (extended count amount) s.passes) d.uuids changed)
Stored-IsSound e a count amount s s' h (inr d) =
    let uuids = d.uuids in
    rw d.passes (
      insert-Sound 0 0 s.next_uuid s'.next_uuid s.passes d.new h d.fresh (omega arith)
        (rw d.source tt) (d.remaining ∙ sym d.total) d.unused (λ j. rw d.source (ground arith)))

execute-IsSound :
    (account : Account) (request : Request) (s : Db)
    → IsSound s
    → (execute account request s).0 ≡ ok tt
    → IsSound (execute account request s).1
unfolding execute
execute-IsSound a (Request.book_event_pass e p) s h done = elim (Result-cases (book e p a s).0) [
  | inl (f, raised) ↦ absurd (ground arith)
  | inr (r, made) ↦
      let d = book-Booked e p a s r made in
      let kept =
        Stored-IsSound e a.id p.member_count (cost d.event p.member_count) s (book e p a s).1 h
          d.stored in
      let left : (execute a (Request.book_event_pass e p) s).1 ≡ (book e p a s).1 = ground arith in
      subst IsSound (sym left) kept
]
execute-IsSound a (Request.share_event_pass k p) s h done = elim (Result-cases (share k p a s).0) [
  | inl (f, raised) ↦ absurd (ground arith)
  | inr (r, made) ↦
      let left : (execute a (Request.share_event_pass k p) s).1 ≡ (share k p a s).1 =
        ground arith in
      subst IsSound (sym left)
        (Shared-IsSound k p s (share k p a s).1 r h (share-Shared k a s p r made))
]
execute-IsSound a (Request.check_in_event_pass e k p) s h done =
    elim (Result-cases (check_in e k p a s).0) [
      | inl (f, raised) ↦ absurd (ground arith)
      | inr (r, made) ↦
          let left : (execute a (Request.check_in_event_pass e k p) s).1 ≡ (check_in e k p a s).1 =
            ground arith in
          subst IsSound (sym left) (
            CheckedIn-IsSound e k p a s (check_in e k p a s).1 r h
              (check_in-CheckedIn k a s e p r made))
    ]

handle-IsSound :
    (account : Account) (request : Request) (s : Db)
    → IsSound s
    → IsSound (handle account request s).1
unfolding handle unit_of_work
handle-IsSound account request s h = elim (Result-cases (execute account request s).0) [
  | inl (e, raised) ↦
      let left : (handle account request s).1 ≡ s = ground arith in subst IsSound (sym left) h
  | inr (u, made) ↦
      let left : (handle account request s).1 ≡ (execute account request s).1 = ground arith in
      subst IsSound (sym left) (execute-IsSound account request s h made)
]

-- From a sound table of passes, any sequence of bookings, transfers and admissions, those that raise
-- included, leaves it sound: ids are unique, and the passes of each row are, exactly, those that remain
-- with its holder, those checked in, and those shared onwards to other rows.
pub serve-keeps_passes :
    (requests : List (Account × Request)) (s : Db) → IsSound s → IsSound (serve requests s)
unfolding serve
serve-keeps_passes [] s h = h
serve-keeps_passes ((account, request) ∷ rest) s h =
    serve-keeps_passes rest (handle account request s).1 (handle-IsSound account request s h)
