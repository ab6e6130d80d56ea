-- ===== src/BalanceSheets/Service.antt =====
-- app/modules/balance_sheets/service.py: access, validation, creation and update, with the queries of
-- repository.py that these take. The routes let no account without a role through. The difference that
-- the message of an unbalanced sheet ends with is left out.
use nestora_server.Prelude.{
  ℕ, ◌+◌, Bool, true, false, Option, none, some, List, [], ◌∷◌, ◌&&◌, not, ◌==◌, if◌then◌else◌,
}
use nestora_server.Prelude.Int.{eqb_ℤ}
use nestora_server.Prelude.Table.{first, exists, insert, update}
use nestora_server.Prelude.Text.{strip}
use nestora_server.Http.{Status, Exec, pure, gets, modify, or_raise, raise_if, ◌>>=◌, ◌>>◌}
use nestora_server.Account.{Account, RoleCode, account_role}
use nestora_server.Directory.{
  Directory, UserDetail, is_in, association_exists, association_ids_for_account, find_user,
}
use nestora_server.BalanceSheets.Data.{
  BalanceSheet, BalanceSheetItem, BalanceSheetItemRequest, BalanceSheetRequest,
  AssociationChartOfAccount, Db,
}
use nestora_server.BalanceSheets.Totals.{Entry, totals}

-- The association of the member, of the column of user_details alone.
abbrev own_association : Option UserDetail → List ℕ
own_association none = []
own_association (some u) = elim u.association_id [ none ↦ [] | some a ↦ a ∷ [] ]

abbrev or_own : List ℕ → List ℕ → List ℕ
or_own [] own = own
or_own (a ∷ rest) own = a ∷ rest

abbrev is_super_admin : Option RoleCode → Bool
is_super_admin (some RoleCode.super_admin) = true
is_super_admin _ = false

-- `scoped_associations`: `none` is every association.
unfoldable pub scoped_associations : Account → Directory → Option (List ℕ)
scoped_associations account d =
    if is_super_admin (account_role account)
    then none
    else some (
        or_own (association_ids_for_account account.id d)
          (own_association (find_user account.user_id d)))

abbrev in_scope : ℕ → Option (List ℕ) → Bool
in_scope association_id none = true
in_scope association_id (some ids) = is_in association_id ids

unfoldable pub check_association : Account → ℕ → Exec Db Unit
check_association account association_id = do
  there ← gets (λ s. association_exists association_id s.directory)
  raise_if (not there) Status.not_found "Association not found"
  allowed ← gets (λ s. in_scope association_id (scoped_associations account s.directory))
  raise_if (not allowed) Status.forbidden "You are not authorized to access this association"

unfoldable pub entries : List BalanceSheetItemRequest → List Entry
entries [] = []
entries (i ∷ is) = (i.section, i.amount) ∷ entries is

unfoldable pub is_balanced : List Entry → Bool
is_balanced es = let t = totals es in eqb_ℤ t.total_assets t.liabilities_and_equity

unfoldable pub validate_balanced : List Entry → Exec Db Unit
validate_balanced es =
    raise_if (not (is_balanced es)) Status.unprocessable_content
      "Total assets must equal total liabilities plus equity"

abbrev pub is_account_of : ℕ → ℕ → AssociationChartOfAccount → Bool
is_account_of association_id k a =
    a.id == k && a.association_id == association_id && not a.is_deleted

-- Each account that an item names is one of the association.
abbrev pub has_account : ℕ → Option ℕ → Db → Bool
has_account association_id none s = true
has_account association_id (some k) s = exists (is_account_of association_id k) s.chart_of_accounts

unfoldable pub have_accounts : ℕ → List BalanceSheetItemRequest → Db → Bool
have_accounts association_id [] s = true
have_accounts association_id (i ∷ is) s =
    has_account association_id i.chart_of_account_id s && have_accounts association_id is s

unfoldable pub validate_chart_accounts : ℕ → List BalanceSheetItemRequest → Exec Db Unit
validate_chart_accounts association_id is = do
  valid ← gets (have_accounts association_id is)
  raise_if (not valid) Status.unprocessable_content
      "One or more Chart of Accounts entries do not belong to this association"

-- The items, numbered from `index`, with ids from `uuid`.
unfoldable pub build_items : ℕ → ℕ → List BalanceSheetItemRequest → List BalanceSheetItem
build_items uuid index [] = []
build_items uuid index (i ∷ is) =
    record {
      id = uuid;
      chart_of_account_id = i.chart_of_account_id;
      section = i.section;
      account_name = strip i.account_name;
      amount = i.amount;
      sort_order = index;
    }
    ∷ build_items (uuid + 1) (index + 1) is

abbrev pub count : List BalanceSheetItemRequest → ℕ
count [] = 0
count (i ∷ is) = 1 + count is

abbrev pub same_date : ℕ → ℕ → BalanceSheet → Bool
same_date association_id as_on_date b =
    b.association_id == association_id && b.as_on_date == as_on_date

-- `duplicate_date`, with the sheet to leave out.
abbrev pub not_excluded : Option ℕ → BalanceSheet → Bool
not_excluded none b = true
not_excluded (some k) b = not (b.id == k)

unfoldable pub duplicate_date : ℕ → ℕ → Option ℕ → Db → Bool
duplicate_date association_id as_on_date excluding_id s =
    exists (λ b. same_date association_id as_on_date b && not_excluded excluding_id b)
      s.balance_sheets

abbrev pub new_sheet : Account → BalanceSheetRequest → ℕ → BalanceSheet
new_sheet account p uuid = record {
  id = uuid;
  association_id = p.association_id;
  as_on_date = p.as_on_date;
  health_status = p.health_status;
  health_note = p.health_note;
  created_by = account.id;
  updated_by = account.id;
  items = build_items (uuid + 1) 0 p.items;
}

unfoldable pub create : Account → BalanceSheetRequest → Exec Db ℕ
create account p = do
  check_association account p.association_id
  taken ← gets (duplicate_date p.association_id p.as_on_date none)
  raise_if taken Status.conflict "A Balance Sheet already exists for this association and date"
  validate_balanced (entries p.items)
  validate_chart_accounts p.association_id p.items
  id ← gets (λ s. s.next_uuid)
  modify (λ s. record s {
    balance_sheets = insert (new_sheet account p s.next_uuid) s.balance_sheets;
    next_uuid = s.next_uuid + 1 + count p.items;
  })
  pure id

abbrev pub is_sheet : ℕ → BalanceSheet → Bool
is_sheet k b = b.id == k

abbrev pub overwrite : Account → BalanceSheetRequest → ℕ → BalanceSheet → BalanceSheet
overwrite account p uuid b = record b {
  as_on_date = p.as_on_date;
  health_status = p.health_status;
  health_note = p.health_note;
  updated_by = account.id;
  items = build_items uuid 0 p.items;
}

unfoldable pub update_sheet : Account → ℕ → BalanceSheetRequest → Exec Db Unit
update_sheet account balance_sheet_id p = do
  found ← gets (λ s. first (is_sheet balance_sheet_id) s.balance_sheets)
  balance_sheet ← or_raise found Status.not_found "Balance Sheet not found"
  check_association account balance_sheet.association_id
  raise_if (not (p.association_id == balance_sheet.association_id)) Status.unprocessable_content
      "A Balance Sheet cannot be moved to another association"
  taken ← gets (duplicate_date p.association_id p.as_on_date (some balance_sheet.id))
  raise_if taken Status.conflict "A Balance Sheet already exists for this association and date"
  validate_balanced (entries p.items)
  validate_chart_accounts p.association_id p.items
  modify (λ s. record s {
    balance_sheets =
        update (is_sheet balance_sheet_id) (overwrite account p s.next_uuid) s.balance_sheets;
    next_uuid = s.next_uuid + count p.items;
  })
