-- ===== src/BalanceSheets/Sound.antt =====
-- Every sheet that is stored balances, and is the only one of its association and date.
use nestora_server.Prelude.{
  ℕ, ◌+◌, ◌≤◌, ◌<◌, ◌≡◌, refl, sym, subst, true, false, none, some, List, [], ◌∷◌, ◌==◌, ◌&&◌,
  Bool-cases, inl, inr, arith, ==_iff, ap,
}
use nestora_server.Prelude.Table.{
  All, All-insert, All-update, first-holds, exists, update, sum_where,
}
use nestora_server.Prelude.Keys.{
  Keyed, All-map, KeysBelow-weaken, KeysBelow-update, Keyed-update, Keyed-insert, Keyed-first,
  sum_where-insert, sum_where-All,
}
use nestora_server.Http.{ok, Result-cases, unit_of_work}
use nestora_server.Account.{Account}
use nestora_server.BalanceSheets.Data.{BalanceSheet, BalanceSheetRequest, Db}
use nestora_server.BalanceSheets.Service.{
  same_date, not_excluded, duplicate_date, new_sheet, create, is_sheet, overwrite, update_sheet,
}
use nestora_server.BalanceSheets.Handler.{Request, execute, handle, serve}
use nestora_server.BalanceSheets.Written.{
  sheet_key, sheets_on, Balances, IsSound, stored_entries-build_items, Created, create-Created,
  Updated, update_sheet-Updated,
}

-- A sheet and one with its date are two sheets, where it is left out.
dates_kept :
    (k a d : ℕ) (f : BalanceSheet → BalanceSheet) (sheets : List BalanceSheet)
    → All (λ b. (b.id == k) ≡ true → same_date a d (f b) ≡ true → same_date a d b ≡ true) sheets
    → sheets_on a d (update (is_sheet k) f sheets) ≤ sheets_on a d sheets
unfolding sum_where update
dates_kept k a d f [] h = omega arith
dates_kept k a d f (b ∷ sheets) h =
    let here = h.0 in
    let rest = dates_kept k a d f sheets h.1 in
    elim (Bool-cases (b.id == k)) [
      | inr off ↦ ground arith
      | inl own ↦ let one = here own in ground arith
    ]

moved_date :
    (k a d : ℕ) (f : BalanceSheet → BalanceSheet) (sheets : List BalanceSheet)
    → exists (λ b. same_date a d b && not_excluded (some k) b) sheets ≡ false
    → sheets_on a d (update (is_sheet k) f sheets) ≤ sum_where (is_sheet k) (λ b. 1) sheets
unfolding sum_where update exists
moved_date k a d f [] h = omega arith
moved_date k a d f (b ∷ sheets) h = let rest = moved_date k a d f sheets in ground arith

count_id :
    (k : ℕ) (sheets : List BalanceSheet)
    → Keyed sheet_key sheets
    → sum_where (is_sheet k) (λ b. 1) sheets ≤ 1
unfolding sum_where
count_id k [] h = omega arith
count_id k (b ∷ sheets) h = elim (Bool-cases (b.id == k)) [
  | inr off ↦ let rest = count_id k sheets h.1 in ground arith
  | inl own ↦
      let zero = sum_where-All (is_sheet k) sheets (
        All-map (λ (c : BalanceSheet). (c.id == b.id) ≡ false) (λ c. is_sheet k c ≡ false)
          (λ c off. ground arith) sheets h.0) in
      ground arith
]

no_sheet :
    (a d : ℕ) (sheets : List BalanceSheet)
    → exists (λ b. same_date a d b && not_excluded none b) sheets ≡ false
    → sheets_on a d sheets ≡ 0
unfolding sum_where exists
no_sheet a d [] h = refl
no_sheet a d (b ∷ sheets) h = let rest = no_sheet a d sheets in ground arith

free_date :
    (a d : ℕ) (s : Db) → duplicate_date a d none s ≡ false → sheets_on a d s.balance_sheets ≡ 0
unfolding duplicate_date
free_date a d s e = no_sheet a d s.balance_sheets e

free_beside :
    (a d k : ℕ) (s : Db) (f : BalanceSheet → BalanceSheet)
    → duplicate_date a d (some k) s ≡ false
    → sheets_on a d (update (is_sheet k) f s.balance_sheets)
      ≤ sum_where (is_sheet k) (λ b. 1) s.balance_sheets
unfolding duplicate_date
free_beside a d k s f e = moved_date k a d f s.balance_sheets e

module _ (s : Db) (h : IsSound s) (account : Account) where
  Created-IsSound : (p : BalanceSheetRequest) (s' : Db) → Created account p s s' → IsSound s'
  Created-IsSound p s' c =
      let new = new_sheet account p s.next_uuid in
      let ids = c.uuids in
      record {
        keyed =
            rw c.sheets
              (Keyed-insert sheet_key s.next_uuid new s.balance_sheets h.keyed h.old (omega arith));
        old = rw c.sheets (
            All-insert (λ b. sheet_key b < s'.next_uuid) new s.balance_sheets
              (KeysBelow-weaken sheet_key s.next_uuid s'.next_uuid s.balance_sheets (omega arith)
                h.old)
              (omega arith));
        dated = λ a d.
            let before = h.dated a d in
            let added = sum_where-insert (same_date a d) new s.balance_sheets in
            rw c.sheets (elim (Bool-cases (same_date a d new)) [
              | inr off ↦ ground arith
              | inl own ↦
                  let same_a : p.association_id ≡ a =
                    (==_iff p.association_id a).0 (ground arith) in
                  let same_d : p.as_on_date ≡ d = (==_iff p.as_on_date d).0 (ground arith) in
                  let none_yet = free_date p.association_id p.as_on_date s c.free in
                  let zero : sheets_on a d s.balance_sheets ≡ 0 =
                    subst (λ m. sheets_on m d s.balance_sheets ≡ 0) same_a
                      (subst (λ m. sheets_on p.association_id m s.balance_sheets ≡ 0) same_d
                        none_yet) in
                  ground arith
            ]);
        balanced = rw c.sheets (
            All-insert Balances new s.balance_sheets h.balanced
              (rw (stored_entries-build_items (s.next_uuid + 1) 0 p.items) c.balanced));
      }

  Updated-IsSound :
      (k : ℕ) (p : BalanceSheetRequest) (s' : Db) → Updated account k p s s' → IsSound s'
  Updated-IsSound k p s' u =
      let f = overwrite account p s.next_uuid in
      let ids = u.uuids in
      let is_k = first-holds (is_sheet k) s.balance_sheets u.sheet u.found in
      let same_k : u.sheet.id ≡ k = (==_iff u.sheet.id k).0 is_k in
      let associated = u.same_association in
      let alone = Keyed-first sheet_key (is_sheet k) s.balance_sheets u.sheet h.keyed u.found in
      let free : duplicate_date p.association_id p.as_on_date (some k) s ≡ false =
        subst (λ m. duplicate_date p.association_id p.as_on_date (some m) s ≡ false) same_k
          u.free in
      let owned = count_id k s.balance_sheets h.keyed in
      let fresh = free_beside p.association_id p.as_on_date k s f free in
      record {
        keyed =
            rw u.sheets
              (Keyed-update sheet_key (is_sheet k) f s.balance_sheets (λ x. refl) h.keyed);
        old = rw u.sheets (
            KeysBelow-update sheet_key s'.next_uuid (is_sheet k) f s.balance_sheets (λ x. refl)
              (KeysBelow-weaken sheet_key s.next_uuid s'.next_uuid s.balance_sheets (omega arith)
                h.old));
        dated = λ a d.
            let before = h.dated a d in
            rw u.sheets (elim (Bool-cases (p.association_id == a && p.as_on_date == d)) [
              | inl own ↦
                  let same_a : p.association_id ≡ a =
                    (==_iff p.association_id a).0 (ground arith) in
                  let same_d : p.as_on_date ≡ d = (==_iff p.as_on_date d).0 (ground arith) in
                  rw (← same_a, ← same_d) (omega arith)
              | inr off ↦
                  let less = dates_kept k a d f s.balance_sheets (
                    All-map (λ (b : BalanceSheet). (b.id == u.sheet.id) ≡ true → b ≡ u.sheet)
                      (λ b.
                        (b.id == k) ≡ true → same_date a d (f b) ≡ true → same_date a d b ≡ true)
                      (λ b same own there.
                        let equal : b ≡ u.sheet = same (ground arith) in
                        let its : b.association_id ≡ u.sheet.association_id =
                          ap (λ (c : BalanceSheet). c.association_id) equal in
                        absurd (ground arith))
                      s.balance_sheets alone) in
                  omega arith
            ]);
        balanced = rw u.sheets (
            All-update Balances (is_sheet k) f s.balance_sheets h.balanced
              (λ b e old. rw (stored_entries-build_items s.next_uuid 0 p.items) u.balanced));
      }

execute-IsSound :
    (account : Account) (request : Request) (s : Db)
    → IsSound s
    → (execute account request s).0 ≡ ok tt
    → IsSound (execute account request s).1
unfolding execute
execute-IsSound a (Request.create_balance_sheet p) s h done = elim (Result-cases (create a p s).0) [
  | inl (e, raised) ↦ absurd (ground arith)
  | inr (r, made) ↦
      let left : (execute a (Request.create_balance_sheet p) s).1 ≡ (create a p s).1 =
        ground arith in
      subst IsSound (sym left)
        (Created-IsSound s h a p (create a p s).1 (create-Created a p s r made))
]
execute-IsSound a (Request.update_balance_sheet k p) s h done =
    Updated-IsSound s h a k p (update_sheet a k p s).1 (update_sheet-Updated a k p s done)

handle-IsSound :
    (account : Account) (request : Request) (s : Db)
    → IsSound s
    → IsSound (handle account request s).1
unfolding handle unit_of_work
handle-IsSound account request s h = elim (Result-cases (execute account request s).0) [
  | inl (e, raised) ↦
      let left : (handle account request s).1 ≡ s = ground arith in subst IsSound (sym left) h
  | inr (u, made) ↦
      let left : (handle account request s).1 ≡ (execute account request s).1 = ground arith in
      subst IsSound (sym left) (execute-IsSound account request s h made)
]

-- Any sequence of creations and updates, those that raise included, keeps this: sheets have unique ids,
-- handed out before; there is at most one sheet for each association and date; and in every sheet the
-- assets equal the liabilities and the equity.
pub serve-keeps_sheets :
    (requests : List (Account × Request)) (s : Db) → IsSound s → IsSound (serve requests s)
unfolding serve
serve-keeps_sheets [] s h = h
serve-keeps_sheets ((account, request) ∷ rest) s h =
    serve-keeps_sheets rest (handle account request s).1 (handle-IsSound account request s h)
