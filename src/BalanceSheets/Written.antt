-- ===== src/BalanceSheets/Written.antt =====
-- What a stored sheet is, and what creation and update write.
use nestora_server.Prelude.{
  ℕ, ◌+◌, ◌≤◌, ◌≡◌, refl, true, false, none, some, List, [], ◌∷◌, ◌==◌, Option-cases, inl, inr,
  arith, ap,
}
use nestora_server.Prelude.Table.{All, first, insert, update, sum_where}
use nestora_server.Prelude.Keys.{Keyed, KeysBelow}
use nestora_server.Http.{ok}
use nestora_server.Account.{Account}
use nestora_server.BalanceSheets.Data.{
  BalanceSheet, BalanceSheetItem, BalanceSheetItemRequest, BalanceSheetRequest, Db,
}
use nestora_server.BalanceSheets.Totals.{Entry}
use nestora_server.BalanceSheets.Service.{
  check_association, entries, is_balanced, validate_balanced, validate_chart_accounts, build_items,
  count, same_date, duplicate_date, new_sheet, create, is_sheet, overwrite, update_sheet,
}

abbrev pub stored_entries : List BalanceSheetItem → List Entry
stored_entries [] = []
stored_entries (i ∷ is) = (i.section, i.amount) ∷ stored_entries is

abbrev pub sheet_key : BalanceSheet → ℕ
sheet_key b = b.id

-- The sheets of an association on a date.
abbrev pub sheets_on : ℕ → ℕ → List BalanceSheet → ℕ
sheets_on a d sheets = sum_where (same_date a d) (λ b. 1) sheets

abbrev pub Balances : BalanceSheet → Type 0
Balances b = is_balanced (stored_entries b.items) ≡ true

pub record IsSound (s : Db) : Type 0 where
  pub keyed : Keyed sheet_key s.balance_sheets
  pub old : KeysBelow sheet_key s.next_uuid s.balance_sheets
  pub dated : (a d : ℕ) → sheets_on a d s.balance_sheets ≤ 1
  pub balanced : All Balances s.balance_sheets

-- What is built is what was asked for.
pub stored_entries-build_items :
    (uuid index : ℕ) (is : List BalanceSheetItemRequest)
    → stored_entries (build_items uuid index is) ≡ entries is
unfolding build_items entries
stored_entries-build_items uuid index [] = refl
stored_entries-build_items uuid index (i ∷ is) =
    ap (λ (es : List Entry). (i.section, i.amount) ∷ es)
      (stored_entries-build_items (uuid + 1) (index + 1) is)

module _ (s : Db) (account : Account) where
  check_association_state : (a : ℕ) → (check_association account a s).1 ≡ s
  unfolding check_association
  check_association_state a = ground arith

-- What creation requires and writes.
pub record Created (account : Account) (p : BalanceSheetRequest) (s s' : Db) : Type 0 where
  pub free : duplicate_date p.association_id p.as_on_date none s ≡ false
  pub balanced : is_balanced (entries p.items) ≡ true
  pub sheets : s'.balance_sheets ≡ insert (new_sheet account p s.next_uuid) s.balance_sheets
  pub uuids : s'.next_uuid ≡ s.next_uuid + 1 + count p.items

pub create-Created :
    (account : Account) (p : BalanceSheetRequest) (s : Db) (r : ℕ)
    → (create account p s).0 ≡ ok r
    → Created account p s (create account p s).1
unfolding create validate_balanced validate_chart_accounts
create-Created account p s r made =
    let same = check_association_state s account p.association_id in
    record {
      free = ground arith;
      balanced = ground arith;
      sheets = ground arith;
      uuids = ground arith;
    }

pub record Updated (account : Account) (k : ℕ) (p : BalanceSheetRequest) (s s' : Db) : Type 0 where
  pub sheet : BalanceSheet
  pub found : first (is_sheet k) s.balance_sheets ≡ some sheet
  pub same_association : (p.association_id == sheet.association_id) ≡ true
  pub free : duplicate_date p.association_id p.as_on_date (some sheet.id) s ≡ false
  pub balanced : is_balanced (entries p.items) ≡ true
  pub sheets :
      s'.balance_sheets ≡ update (is_sheet k) (overwrite account p s.next_uuid) s.balance_sheets
  pub uuids : s'.next_uuid ≡ s.next_uuid + count p.items

pub update_sheet-Updated :
    (account : Account) (k : ℕ) (p : BalanceSheetRequest) (s : Db)
    → (update_sheet account k p s).0 ≡ ok tt
    → Updated account k p s (update_sheet account k p s).1
unfolding update_sheet validate_balanced validate_chart_accounts
update_sheet-Updated account k p s made =
    elim (Option-cases (first (is_sheet k) s.balance_sheets)) [
      | inl missing ↦ absurd (ground arith)
      | inr (b, found) ↦
          let same = check_association_state s account b.association_id in
          record {
            sheet = b;
            found = found;
            same_association = ground arith;
            free = ground arith;
            balanced = ground arith;
            sheets = ground arith;
            uuids = ground arith;
          }
    ]
