-- ===== src/BalanceSheets/Data.antt =====
-- app/modules/balance_sheets/models.py and the payloads of schemas.py. The items of a sheet, which are
-- read and written through it alone, stand in its row. Amounts are hundredths, dates count days.
use nestora_server.Prelude.{ℕ, Bool, Option, List}
use nestora_server.Prelude.Int.{ℤ}
use nestora_server.Prelude.Text.{Text}
use nestora_server.Directory.{Directory}

pub data BalanceSheetSection : Type 0 where
  current_asset non_current_asset current_liability non_current_liability equity :
      BalanceSheetSection

pub record BalanceSheetItem : Type 0 where
  pub id : ℕ
  pub chart_of_account_id : Option ℕ
  pub section : BalanceSheetSection
  pub account_name : Text
  pub amount : ℤ
  pub sort_order : ℕ

pub record BalanceSheet : Type 0 where
  pub id : ℕ
  pub association_id : ℕ
  pub as_on_date : ℕ
  pub health_status : Option Text
  pub health_note : Option Text
  pub created_by : ℕ
  pub updated_by : ℕ
  pub items : List BalanceSheetItem

pub record BalanceSheetItemRequest : Type 0 where
  pub section : BalanceSheetSection
  pub account_name : Text
  pub amount : ℤ
  pub chart_of_account_id : Option ℕ

pub record BalanceSheetRequest : Type 0 where
  pub association_id : ℕ
  pub as_on_date : ℕ
  pub items : List BalanceSheetItemRequest
  pub health_status : Option Text
  pub health_note : Option Text

-- An account of the chart of an association (app/modules/chart_of_accounts/models.py).
pub record AssociationChartOfAccount : Type 0 where
  pub id : ℕ
  pub association_id : ℕ
  pub is_deleted : Bool

pub record Db : Type 0 where
  pub directory : Directory
  pub chart_of_accounts : List AssociationChartOfAccount
  pub balance_sheets : List BalanceSheet
  pub next_uuid : ℕ
