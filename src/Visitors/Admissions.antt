-- ===== src/Visitors/Admissions.antt =====
-- How often the visitor of a pass is admitted.
use nestora_server.Prelude.{
  ℕ, ◌≤◌, ◌<◌, ◌≡◌, refl, sym, Bool, true, false, some, none, List, [], ◌∷◌, ◌==◌, ◌&&◌, Bool-cases,
  inl, inr, arith, subst, if◌then◌else◌, ==_iff,
}
use nestora_server.Prelude.Table.{
  All, All-first, All-insert, All-update, first, first-holds, insert, latest, update,
}
use nestora_server.Prelude.Keys.{
  Keyed, KeysBelow, All-map, All-both, All-update_to, latest-none, sum_where-insert,
  sum_where-update, KeysBelow-weaken, KeysBelow-update, Keyed-update, Keyed-insert, Keyed-first,
}
use nestora_server.Http.{Result-cases, unit_of_work}
use nestora_server.Account.{Account}
use nestora_server.Visitors.Data.{
  PreApprovedVisitor, VisitorLog, VisitorPassStatus, CheckInRequest, Db,
}
use nestora_server.Visitors.Gate.{
  is_pass, is_pass_of_unit, set_status, is_open, is_open_log, new_log, new_pass, closed,
}
use nestora_server.Visitors.Service.{is_active, is_single_entry}
use nestora_server.Visitors.PassChange.{PassChange}
use nestora_server.Visitors.PassEffects.{execute-PassChange}
use nestora_server.Visitors.Handler.{Request, execute, handle, serve, at}
use nestora_server.Visitors.Entries.{
  pass_key, log_key, entries, inside, Admits, Admissions, entries_none,
}

module _ (s : Db) (h : Admissions s) where
  -- The row that a pass query found is the only one with that id.
  found_alone :
      (k : ℕ) (p : PreApprovedVisitor)
      → first (is_pass k) s.pre_approved_visitors ≡ some p
      → All (λ x. (x.id == k) ≡ true → x ≡ p) s.pre_approved_visitors
  found_alone k p found =
      let holds = first-holds (is_pass k) s.pre_approved_visitors p found in
      All-map (λ x. (x.id == p.id) ≡ true → x ≡ p) (λ x. (x.id == k) ≡ true → x ≡ p)
        (λ x same e. same (ground arith)) s.pre_approved_visitors
        (Keyed-first pass_key (is_pass k) s.pre_approved_visitors p h.keyed found)

  admitted_single :
      (k : ℕ) (q : CheckInRequest) (g : ℕ) (p : PreApprovedVisitor)
      → first (is_pass k) s.pre_approved_visitors ≡ some p
      → is_active p.status ≡ true
      → All (Admits (insert (new_log k q g s.next_uuid s.now) s.visitor_logs)) (
          if is_single_entry p
          then update (is_pass k) (set_status VisitorPassStatus.used) s.pre_approved_visitors
          else s.pre_approved_visitors)
  admitted_single k q g p found active =
      let l = new_log k q g s.next_uuid s.now in
      let logs = insert l s.visitor_logs in
      let is_k = first-holds (is_pass k) s.pre_approved_visitors p found in
      let before =
        λ (x : PreApprovedVisitor). Admits s.visitor_logs x × ((x.id == k) ≡ true → x ≡ p) in
      let rows : All before s.pre_approved_visitors =
        All-both (Admits s.visitor_logs) (λ x. (x.id == k) ≡ true → x ≡ p) s.pre_approved_visitors
          h.single (found_alone k p found) in
      let counted =
        λ (j : ℕ). sum_where-insert (λ (m : VisitorLog). m.pre_approved_id == j) l s.visitor_logs in
      let other : (x : PreApprovedVisitor)
          → (x.id == k) ≡ false
          → Admits s.visitor_logs x
          → Admits logs x =
        λ x off a one. let old = a one in let more = counted x.id in ground arith in
      elim (Bool-cases (is_single_entry p)) [
        | inl single ↦ rw single (
            All-update_to before (Admits logs) (is_pass k) (set_status VisitorPassStatus.used)
              s.pre_approved_visitors
              (λ x e b one.
                let more = counted x.id in
                let now_used = b.0 one in
                let same : x ≡ p = b.1 (ground arith) in
                let was_active : is_active x.status ≡ true = rw same active in
                let zero = now_used.1 was_active in (ground arith, λ off. absurd (ground arith)))
              (λ x e b. elim (Bool-cases (x.id == k)) [
                | inl own ↦
                    let same = b.1 own in
                    let not_k : is_pass k p ≡ false = subst (λ y. is_pass k y ≡ false) same e in
                    absurd (ground arith)
                | inr off ↦ other x off b.0
              ])
              rows)
        | inr many ↦ rw many (
            All-map before (Admits logs)
              (λ x b. elim (Bool-cases (x.id == k)) [
                | inl own ↦ λ one.
                    let same = b.1 own in
                    let no : is_single_entry x ≡ false = rw same many in absurd (ground arith)
                | inr off ↦ other x off b.0
              ])
              s.pre_approved_visitors rows)
      ]

  -- A pass whose status is set to one that is not active.
  retired :
      (p : PreApprovedVisitor → Bool) (t : VisitorPassStatus)
      → is_active t ≡ false
      → All (Admits s.visitor_logs) (update p (set_status t) s.pre_approved_visitors)
  retired p t off =
      All-update (Admits s.visitor_logs) p (set_status t) s.pre_approved_visitors h.single
        (λ x e a one. ((a one).0, λ on. absurd (ground arith)))

  -- Closing an entry of the log counts no more entries and no more visitors inside.
  module _ (j : ℕ) where
    abbrev closing : List VisitorLog
    closing = update (λ (l : VisitorLog). l.id == j && is_open l) (closed s.now) s.visitor_logs

    entries-closing : (k : ℕ) → entries k closing ≤ entries k s.visitor_logs
    entries-closing k =
        sum_where-update (λ (l : VisitorLog). l.pre_approved_id == k) (λ l. l.id == j && is_open l)
          (closed s.now) s.visitor_logs (λ x e. e)

    inside-closing : (k : ℕ) → inside k closing ≤ inside k s.visitor_logs
    inside-closing k =
        sum_where-update (is_open_log k) (λ l. l.id == j && is_open l) (closed s.now) s.visitor_logs
          (λ x e. absurd (ground arith))

    closing-Admits :
        (ps : List PreApprovedVisitor) → All (Admits s.visitor_logs) ps → All (Admits closing) ps
    closing-Admits ps a =
        All-map (Admits s.visitor_logs) (Admits closing)
          (λ x b one.
            let old = b one in
            let less = entries-closing x.id in
            (omega arith, λ on. let zero = old.1 on in omega arith))
          ps a

  -- An update of statuses keeps the keys.
  module _ (n : ℕ) (le : s.next_uuid ≤ n) where
    kept_keys :
        Keyed pass_key s.pre_approved_visitors × KeysBelow pass_key n s.pre_approved_visitors
    kept_keys = (h.keyed, KeysBelow-weaken pass_key s.next_uuid n s.pre_approved_visitors le h.old)

    update_keys :
        (p : PreApprovedVisitor → Bool) (t : VisitorPassStatus)
        → Keyed pass_key (update p (set_status t) s.pre_approved_visitors)
          × KeysBelow pass_key n (update p (set_status t) s.pre_approved_visitors)
    update_keys p t = (
      Keyed-update pass_key p (set_status t) s.pre_approved_visitors (λ x. refl) h.keyed,
      KeysBelow-update pass_key n p (set_status t) s.pre_approved_visitors (λ x. refl) kept_keys.1,
    )

    kept_logs : KeysBelow log_key n s.visitor_logs
    kept_logs = KeysBelow-weaken log_key s.next_uuid n s.visitor_logs le h.logs_old

    closing_logs : (j : ℕ) → KeysBelow log_key n (closing j)
    closing_logs j =
        KeysBelow-update log_key n (λ l. l.id == j && is_open l) (closed s.now) s.visitor_logs
          (λ x. refl) kept_logs

  one_inside-closing : (j i : ℕ) → inside i (closing j) ≤ 1
  one_inside-closing j i =
      let before = h.one_inside i in let less = inside-closing j i in omega arith

  -- Only who is outside is let in.
  one_inside_admitted :
      (k : ℕ) (q : CheckInRequest) (g i : ℕ)
      → latest (is_open_log k) (λ l. l.check_in) s.visitor_logs ≡ none
      → inside i (insert (new_log k q g s.next_uuid s.now) s.visitor_logs) ≤ 1
  one_inside_admitted k q g i outside =
      let l = new_log k q g s.next_uuid s.now in
      let more = sum_where-insert (is_open_log i) l s.visitor_logs in
      let before = h.one_inside i in
      let zero = latest-none (is_open_log k) (λ m. m.check_in) s.visitor_logs outside in
      elim (Bool-cases (k == i)) [
        | inr off ↦ ground arith
        | inl own ↦
            let same : k ≡ i = (==_iff k i).0 own in
            let none_in : inside i s.visitor_logs ≡ 0 =
              subst (λ m. inside m s.visitor_logs ≡ 0) same zero in
            ground arith
      ]

  admitted_keys :
      (n k : ℕ) (b : Bool)
      → s.next_uuid ≤ n
      → Keyed pass_key (
          if b
          then update (is_pass k) (set_status VisitorPassStatus.used) s.pre_approved_visitors
          else s.pre_approved_visitors)
        × KeysBelow pass_key n (
            if b
            then update (is_pass k) (set_status VisitorPassStatus.used) s.pre_approved_visitors
            else s.pre_approved_visitors)
  admitted_keys n k true le = update_keys n le (is_pass k) VisitorPassStatus.used
  admitted_keys n k false le = kept_keys n le

  pub PassChange-Admissions : (s' : Db) → PassChange s s' → Admissions s'
  PassChange-Admissions s' (PassChange.unchanged e) =
      let keys = kept_keys s'.next_uuid e.2 in
      record {
        keyed = rw e.0 keys.0;
        old = rw e.0 keys.1;
        logs_old = rw e.1 (kept_logs s'.next_uuid e.2);
        one_inside = λ k. rw e.1 (h.one_inside k);
        single = rw (e.0, e.1) h.single;
      }
  PassChange-Admissions s' (PassChange.created p a u c o passes logs lt) =
      let new = new_pass p a u c o s.next_uuid in
      let keys = kept_keys s'.next_uuid (omega arith) in
      let unused = entries_none s.next_uuid s.next_uuid s.visitor_logs h.logs_old (omega arith) in
      record {
        keyed = rw passes (
            Keyed-insert pass_key s.next_uuid new s.pre_approved_visitors h.keyed h.old
              (omega arith));
        old =
            rw passes
              (All-insert (λ x. pass_key x < s'.next_uuid) new s.pre_approved_visitors keys.1 lt);
        logs_old = rw logs (kept_logs s'.next_uuid (omega arith));
        one_inside = λ k. rw logs (h.one_inside k);
        single =
            rw (passes, logs)
              (All-insert (Admits s.visitor_logs) new s.pre_approved_visitors h.single
                (λ one. (omega arith, λ on. unused)));
      }
  PassChange-Admissions s' (PassChange.was_cancelled k u passes logs le) =
      let keys = update_keys s'.next_uuid le (is_pass_of_unit k u) VisitorPassStatus.cancelled in
      record {
        keyed = rw passes keys.0;
        old = rw passes keys.1;
        logs_old = rw logs (kept_logs s'.next_uuid le);
        one_inside = λ j. rw logs (h.one_inside j);
        single = rw (passes, logs) (retired (is_pass_of_unit k u) VisitorPassStatus.cancelled refl);
      }
  PassChange-Admissions s' (PassChange.admitted k q g p found active outside passes logs lt) =
      let keys = admitted_keys s'.next_uuid k (is_single_entry p) (omega arith) in
      let l = new_log k q g s.next_uuid s.now in
      let is_k = first-holds (is_pass k) s.pre_approved_visitors p found in
      let low =
        All-first (λ x. pass_key x < s.next_uuid) (is_pass k) s.pre_approved_visitors p h.old
          found in
      let k_old : k < s'.next_uuid = ground arith in
      record {
        keyed = rw passes keys.0;
        old = rw passes keys.1;
        logs_old = rw logs (
            All-insert (λ m. log_key m < s'.next_uuid) l s.visitor_logs
              (kept_logs s'.next_uuid (omega arith)) k_old);
        one_inside = λ i. rw logs (one_inside_admitted k q g i outside);
        single = rw (passes, logs) (admitted_single k q g p found active);
      }
  PassChange-Admissions s' (PassChange.departed j k (inl passes) logs le) =
      let keys = kept_keys s'.next_uuid le in
      record {
        keyed = rw passes keys.0;
        old = rw passes keys.1;
        logs_old = rw logs (closing_logs s'.next_uuid le j);
        one_inside = λ i. rw logs (one_inside-closing j i);
        single = rw (passes, logs) (closing-Admits j s.pre_approved_visitors h.single);
      }
  PassChange-Admissions s' (PassChange.departed j k (inr passes) logs le) =
      let keys = update_keys s'.next_uuid le (is_pass k) VisitorPassStatus.expired in
      let rows =
        update (is_pass k) (set_status VisitorPassStatus.expired) s.pre_approved_visitors in
      record {
        keyed = rw passes keys.0;
        old = rw passes keys.1;
        logs_old = rw logs (closing_logs s'.next_uuid le j);
        one_inside = λ i. rw logs (one_inside-closing j i);
        single =
            rw (passes, logs)
              (closing-Admits j rows (retired (is_pass k) VisitorPassStatus.expired refl));
      }

handle-PassChange :
    (account : Account) (request : Request) (s : Db) → PassChange s (handle account request s).1
unfolding handle unit_of_work
handle-PassChange account request s = elim (Result-cases (execute account request s).0) [
  | inl (e, raised) ↦
      let left : (handle account request s).1 ≡ s = ground arith in
      subst (PassChange s) (sym left) (PassChange.unchanged (refl, refl, omega arith))
  | inr (u, made) ↦
      let left : (handle account request s).1 ≡ (execute account request s).1 = ground arith in
      subst (PassChange s) (sym left) (execute-PassChange account request s made)
]

-- Any sequence of requests, those that raise included, keeps this: passes have unique ids, handed out
-- before; no pass has two visitors inside at once; and a pass of type "Single Entry" was used to enter
-- once at most, and never while it is still active.
pub serve-Admissions :
    (requests : List (Account × ℕ × Request)) (s : Db)
    → Admissions s
    → Admissions (serve requests s)
unfolding serve
serve-Admissions [] s h = h
serve-Admissions ((account, elapsed, request) ∷ rest) s h =
    let t = at elapsed s in
    let next = (handle account request t).1 in
    let here : Admissions t = record {
      keyed = h.keyed;
      old = h.old;
      logs_old = h.logs_old;
      one_inside = h.one_inside;
      single = h.single;
    } in
    serve-Admissions rest next
      (PassChange-Admissions t here next (handle-PassChange account request t))
