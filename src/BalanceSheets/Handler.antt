-- ===== src/BalanceSheets/Handler.antt =====
-- app/modules/balance_sheets/router.py: creation and update, each inside one `UnitOfWork`, and a sequence
-- of such requests.
use nestora_server.Prelude.{ℕ, List, [], ◌∷◌}
use nestora_server.Http.{Exec, unit_of_work, pure, ◌>>◌}
use nestora_server.Account.{Account}
use nestora_server.BalanceSheets.Data.{BalanceSheetRequest, Db}
use nestora_server.BalanceSheets.Service

pub data Request : Type 0 where
  create_balance_sheet : BalanceSheetRequest → Request
  update_balance_sheet : ℕ → BalanceSheetRequest → Request

unfoldable pub execute : Account → Request → Exec Db Unit
execute account (create_balance_sheet p) = Service.create account p >> pure tt
execute account (update_balance_sheet k p) = Service.update_sheet account k p

unfoldable pub handle : Account → Request → Exec Db Unit
handle account request = unit_of_work (execute account request)

unfoldable pub serve : List (Account × Request) → Db → Db
serve [] s = s
serve ((account, request) ∷ rest) s = serve rest (handle account request s).1
