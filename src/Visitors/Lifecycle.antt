-- ===== src/Visitors/Lifecycle.antt =====
-- The life of a walk-in visit as a state machine, and that the requests implement it.
use nestora_server.Prelude.{
  ℕ, ◌≤◌, ◌<◌, ◌≡◌, ◌∙◌, refl, sym, Bool, true, some, List, [], ◌∷◌, ◌==◌, ◌&&◌, inl, inr, arith,
  subst,
}
use nestora_server.Prelude.Table.{first, first-holds, update}
use nestora_server.Prelude.Keys.{
  Keyed, KeysBelow, All-map, All-every, KeysBelow-weaken, KeysBelow-update, Keyed-update,
  Keyed-insert, Keyed-first, Evolves, Evolves-refl, Evolves-insert, Evolves-update, Evolves-trans,
}
use nestora_server.Prelude.Table.{All-insert}
use nestora_server.Http.{Result-cases, unit_of_work}
use nestora_server.Account.{Account}
use nestora_server.Visitors.Data.{VisitorVisit, VisitorVisitStatus, Db}
use nestora_server.Visitors.Repository.{
  is_visit, is_pending, is_arriving, is_leaving, is_approved, is_checked_in, arrived, left_premises,
  new_visit,
}
use nestora_server.Visitors.WalkIn.{denied, approved_with}
use nestora_server.Visitors.VisitChange.{VisitChange, execute-VisitChange}
use nestora_server.Visitors.Handler.{Request, execute, handle, serve, at}

-- The transitions that a visit may take.
pub data Moves : VisitorVisitStatus → VisitorVisitStatus → Type 0 where
  approve : Moves VisitorVisitStatus.pending VisitorVisitStatus.approved
  deny : Moves VisitorVisitStatus.pending VisitorVisitStatus.denied
  arrive : Moves VisitorVisitStatus.approved VisitorVisitStatus.checked_in
  leave : Moves VisitorVisitStatus.checked_in VisitorVisitStatus.checked_out

pub data Reaches (a : VisitorVisitStatus) : VisitorVisitStatus → Type 0 where
  stay : Reaches a a
  then_move : (b c : VisitorVisitStatus) → Reaches a b → Moves b c → Reaches a c

Reaches-trans : (a b c : VisitorVisitStatus) → Reaches a b → Reaches b c → Reaches a c
Reaches-trans a b _ h stay = h
Reaches-trans a b _ h (then_move d c k m) = then_move d c (Reaches-trans a b d h k) m

-- What a visit is about stays, and its status moves along the transitions.
pub record VisitMoves (v w : VisitorVisit) : Type 0 where
  pub id : w.id ≡ v.id
  pub unit_id : w.unit_id ≡ v.unit_id
  pub visitor_id : w.visitor_id ≡ v.visitor_id
  pub status : Reaches v.status w.status

-- A visit that was requested since.
abbrev pub IsRequested : VisitorVisit → Type 0
IsRequested v = Reaches VisitorVisitStatus.pending v.status

VisitMoves_refl : (v : VisitorVisit) → VisitMoves v v
VisitMoves_refl v = record { id = refl; unit_id = refl; visitor_id = refl; status = stay }

VisitMoves_trans : (u v w : VisitorVisit) → VisitMoves u v → VisitMoves v w → VisitMoves u w
VisitMoves_trans u v w h k = record {
  id = k.id ∙ h.id;
  unit_id = k.unit_id ∙ h.unit_id;
  visitor_id = k.visitor_id ∙ h.visitor_id;
  status = Reaches-trans u.status v.status w.status h.status k.status;
}

IsRequested-grown : (v w : VisitorVisit) → IsRequested v → VisitMoves v w → IsRequested w
IsRequested-grown v w h k = Reaches-trans VisitorVisitStatus.pending v.status w.status h k.status

abbrev visit_key : VisitorVisit → ℕ
visit_key v = v.id

-- Visits have unique ids, which were all handed out before.
pub record VisitsKeyed (s : Db) : Type 0 where
  pub keyed : Keyed visit_key s.visitor_visits
  pub old : KeysBelow visit_key s.next_uuid s.visitor_visits

pending_status : (t : VisitorVisitStatus) → is_pending t ≡ true → t ≡ VisitorVisitStatus.pending
pending_status t h = ground arith

approved_status : (t : VisitorVisitStatus) → is_approved t ≡ true → t ≡ VisitorVisitStatus.approved
approved_status t h = ground arith

checked_in_status :
    (t : VisitorVisitStatus) → is_checked_in t ≡ true → t ≡ VisitorVisitStatus.checked_in
checked_in_status t h = ground arith

-- One transition, from the status that a visit is known to have.
moved :
    (v w : VisitorVisit) (a : VisitorVisitStatus)
    → v.status ≡ a
    → Moves a w.status
    → w.id ≡ v.id
    → w.unit_id ≡ v.unit_id
    → w.visitor_id ≡ v.visitor_id
    → VisitMoves v w
moved v w a e m i u o = record {
  id = i;
  unit_id = u;
  visitor_id = o;
  status = then_move v.status w.status stay (subst (λ b. Moves b w.status) (sym e) m);
}

module _ (s : Db) (h : VisitsKeyed s) where
  -- What `approve` writes is written to the pending visit that it found, and to no other.
  answered :
      (k : ℕ) (v : VisitorVisit) (f : VisitorVisit → VisitorVisit)
      → first (λ w. is_visit k w && is_pending w.status) s.visitor_visits ≡ some v
      → ((w : VisitorVisit) → w.status ≡ VisitorVisitStatus.pending → VisitMoves w (f w))
      → Evolves VisitMoves IsRequested s.visitor_visits (update (is_visit k) f s.visitor_visits)
  answered k v f found moves =
      let chosen =
        first-holds (λ w. is_visit k w && is_pending w.status) s.visitor_visits v found in
      let waiting : is_pending v.status ≡ true = ground arith in
      let is_k : (v.id == k) ≡ true = ground arith in
      Evolves-update VisitMoves IsRequested VisitMoves_refl (is_visit k) f s.visitor_visits (
        All-map (λ w. (w.id == v.id) ≡ true → w ≡ v) (λ w. is_visit k w ≡ true → VisitMoves w (f w))
          (λ w same here.
            let e : w ≡ v = same (ground arith) in
            subst (λ x. VisitMoves x (f x)) (sym e) (moves v (pending_status v.status waiting)))
          s.visitor_visits
          (Keyed-first visit_key (λ w. is_visit k w && is_pending w.status) s.visitor_visits v
            h.keyed found))

  VisitChange-Evolves :
      (s' : Db)
      → VisitChange s s'
      → Evolves VisitMoves IsRequested s.visitor_visits s'.visitor_visits
  VisitChange-Evolves s' (VisitChange.unchanged e) =
      rw e.0 (Evolves-refl VisitMoves IsRequested VisitMoves_refl s.visitor_visits)
  VisitChange-Evolves s' (VisitChange.requested o p uuid le lt e) = rw e (
      Evolves-insert VisitMoves IsRequested VisitMoves_refl (new_visit o p uuid s.now)
        s.visitor_visits stay)
  VisitChange-Evolves s' (VisitChange.was_denied k v found le e) = rw e (
      answered k v denied found
        (λ w t. moved w (denied w) VisitorVisitStatus.pending t deny refl refl refl))
  VisitChange-Evolves s' (VisitChange.was_approved k v c found le e) = rw e (
      answered k v (approved_with c) found
        (λ w t. moved w (approved_with c w) VisitorVisitStatus.pending t approve refl refl refl))
  VisitChange-Evolves s' (VisitChange.checked_in k le e) = rw e (
      Evolves-update VisitMoves IsRequested VisitMoves_refl (is_arriving k) (arrived s.now)
        s.visitor_visits
        (All-every (λ w. is_arriving k w ≡ true → VisitMoves w (arrived s.now w))
          (λ w here.
            moved w (arrived s.now w) VisitorVisitStatus.approved
              (approved_status w.status (ground arith)) arrive refl refl refl)
          s.visitor_visits))
  VisitChange-Evolves s' (VisitChange.checked_out k le e) = rw e (
      Evolves-update VisitMoves IsRequested VisitMoves_refl (is_leaving k) (left_premises s.now)
        s.visitor_visits
        (All-every (λ w. is_leaving k w ≡ true → VisitMoves w (left_premises s.now w))
          (λ w here.
            moved w (left_premises s.now w) VisitorVisitStatus.checked_in
              (checked_in_status w.status (ground arith)) leave refl refl refl)
          s.visitor_visits))

  update-VisitsKeyed :
      (s' : Db) (p : VisitorVisit → Bool) (f : VisitorVisit → VisitorVisit)
      → ((v : VisitorVisit) → visit_key (f v) ≡ visit_key v)
      → s.next_uuid ≤ s'.next_uuid
      → s'.visitor_visits ≡ update p f s.visitor_visits
      → VisitsKeyed s'
  update-VisitsKeyed s' p f same le e = record {
    keyed = rw e (Keyed-update visit_key p f s.visitor_visits same h.keyed);
    old = rw e (
        KeysBelow-update visit_key s'.next_uuid p f s.visitor_visits same
          (KeysBelow-weaken visit_key s.next_uuid s'.next_uuid s.visitor_visits le h.old));
  }

  VisitChange-VisitsKeyed : (s' : Db) → VisitChange s s' → VisitsKeyed s'
  VisitChange-VisitsKeyed s' (VisitChange.unchanged e) = record {
    keyed = rw e.0 h.keyed;
    old = rw e.0 (KeysBelow-weaken visit_key s.next_uuid s'.next_uuid s.visitor_visits e.1 h.old);
  }
  VisitChange-VisitsKeyed s' (VisitChange.requested o p uuid low lt e) = record {
    keyed = rw e (
        Keyed-insert visit_key s.next_uuid (new_visit o p uuid s.now) s.visitor_visits h.keyed h.old
          low);
    old = rw e (
        All-insert (λ v. visit_key v < s'.next_uuid) (new_visit o p uuid s.now) s.visitor_visits
          (KeysBelow-weaken visit_key s.next_uuid s'.next_uuid s.visitor_visits (omega arith) h.old)
          lt);
  }
  VisitChange-VisitsKeyed s' (VisitChange.was_denied k v found le e) =
      update-VisitsKeyed s' (is_visit k) denied (λ w. refl) le e
  VisitChange-VisitsKeyed s' (VisitChange.was_approved k v c found le e) =
      update-VisitsKeyed s' (is_visit k) (approved_with c) (λ w. refl) le e
  VisitChange-VisitsKeyed s' (VisitChange.checked_in k le e) =
      update-VisitsKeyed s' (is_arriving k) (arrived s.now) (λ w. refl) le e
  VisitChange-VisitsKeyed s' (VisitChange.checked_out k le e) =
      update-VisitsKeyed s' (is_leaving k) (left_premises s.now) (λ w. refl) le e

handle-VisitChange :
    (account : Account) (request : Request) (s : Db) → VisitChange s (handle account request s).1
unfolding handle unit_of_work
handle-VisitChange account request s = elim (Result-cases (execute account request s).0) [
  | inl (e, raised) ↦
      let left : (handle account request s).1 ≡ s = ground arith in
      subst (VisitChange s) (sym left) (VisitChange.unchanged (refl, omega arith))
  | inr (u, made) ↦
      let left : (handle account request s).1 ≡ (execute account request s).1 = ground arith in
      subst (VisitChange s) (sym left) (execute-VisitChange account request s made)
]

-- Over any sequence of requests, those that raise included, in which visits start with unique ids
-- that were handed out before: each visit keeps its id, unit and visitor, and its status moves only
-- along the transitions pending to approved or denied, approved to checked in, checked in to checked
-- out; the visits that were added since have statuses that these transitions reach from pending.
pub serve-Evolves :
    (requests : List (Account × ℕ × Request)) (s : Db)
    → VisitsKeyed s
    → Evolves VisitMoves IsRequested s.visitor_visits (serve requests s).visitor_visits
unfolding serve
serve-Evolves [] s h = Evolves-refl VisitMoves IsRequested VisitMoves_refl s.visitor_visits
serve-Evolves ((account, elapsed, request) ∷ rest) s h =
    let t = at elapsed s in
    let next = (handle account request t).1 in
    let here : VisitsKeyed t = record { keyed = h.keyed; old = h.old } in
    let change = handle-VisitChange account request t in
    Evolves-trans VisitMoves IsRequested VisitMoves_trans IsRequested-grown s.visitor_visits
      next.visitor_visits (serve rest next).visitor_visits (VisitChange-Evolves t here next change)
      (serve-Evolves rest next (VisitChange-VisitsKeyed t here next change))
