-- ===== src/BalanceSheets/Examples.antt =====
-- A sheet of two items, runs on it, and the theorems at it.
use nestora_server.Prelude.{ℕ, refl, false, none, some, [], ◌∷◌, arith}
use nestora_server.Prelude.Int.{pos, ◌+ℤ◌}
use nestora_server.Prelude.Table.{sum_where}
use mathlib.Core.List.{Permᴰ}
use nestora_server.Account.{Account}
use nestora_server.Directory.{Directory}
use nestora_server.BalanceSheets.Data.{
  BalanceSheetSection, BalanceSheet, BalanceSheetItem, BalanceSheetRequest, Db,
}
use nestora_server.BalanceSheets.Totals
use nestora_server.BalanceSheets.Totals.{totals}
use nestora_server.BalanceSheets.Service.{is_balanced}
use nestora_server.BalanceSheets.Order.{IsTotals, totals-IsTotals}
use nestora_server.BalanceSheets.Written.{IsSound}
use nestora_server.BalanceSheets.Sound.{serve-keeps_sheets}
use nestora_server.BalanceSheets.Handler.{Request, serve}

abbrev admin : Account
admin = record { id = 1; role = some "admin"; user_id = none; email = [] }

abbrev directory : Directory
directory = record {
  accounts = [];
  user_details = [];
  units = [];
  blocks = [];
  associations = record { id = 41; is_deleted = false } ∷ [];
  admin_associations = record { admin_id = 1; association_id = 41 } ∷ [];
}

item : ℕ → BalanceSheetSection → BalanceSheetItem
item id section = record {
  id = id;
  chart_of_account_id = none;
  section = section;
  account_name = [];
  amount = pos 50000;
  sort_order = 0;
}

abbrev sheet : BalanceSheet
sheet = record {
  id = 5;
  association_id = 41;
  as_on_date = 100;
  health_status = none;
  health_note = none;
  created_by = 1;
  updated_by = 1;
  items = item 6 BalanceSheetSection.current_asset ∷ item 7 BalanceSheetSection.equity ∷ [];
}

abbrev db : Db
db = record {
  directory = directory;
  chart_of_accounts = [];
  balance_sheets = sheet ∷ [];
  next_uuid = 10;
}

abbrev next_month : BalanceSheetRequest
next_month = record {
  association_id = 41;
  as_on_date = 130;
  items =
      record {
        section = BalanceSheetSection.current_asset;
        account_name = [];
        amount = pos 7;
        chart_of_account_id = none;
      }
      ∷ record {
        section = BalanceSheetSection.equity;
        account_name = [];
        amount = pos 7;
        chart_of_account_id = none;
      }
      ∷ [];
  health_status = none;
  health_note = none;
}

db-IsSound : IsSound db
unfolding item sum_where is_balanced totals Totals.add_all ◌+ℤ◌
db-IsSound = record {
  keyed = (tt, tt);
  old = (omega arith, tt);
  dated = λ a d. ground arith;
  balanced = (refl, tt);
}

serve-keeps_sheets_example : IsSound (
    serve
      ((admin, Request.create_balance_sheet next_month)
        ∷ (admin, Request.update_balance_sheet 5 next_month)
        ∷ [])
      db)
serve-keeps_sheets_example =
    serve-keeps_sheets
      ((admin, Request.create_balance_sheet next_month)
        ∷ (admin, Request.update_balance_sheet 5 next_month)
        ∷ [])
      db db-IsSound

totals-IsTotals_example :
    IsTotals
      ((BalanceSheetSection.equity, pos 7) ∷ (BalanceSheetSection.current_asset, pos 9) ∷ [])
      (totals
        ((BalanceSheetSection.current_asset, pos 9) ∷ (BalanceSheetSection.equity, pos 7) ∷ []))
totals-IsTotals_example = totals-IsTotals (Permᴰ.swap refl refl)
