-- ===== src/Wallet/Handler.antt =====
-- app/modules/wallet/router.py: the requests that write, each inside one `UnitOfWork`, and a
-- sequence of such requests.
use nestora_server.Prelude.{List, [], ◌∷◌}
use nestora_server.Http.{Exec, unit_of_work}
use nestora_server.Account.{Account}
use nestora_server.Wallet.Data.{
  Db, PinRequest, AddMoneyRequest, SendMoneyRequest, PayDuesRequest, PayDuesUpiRequest, Mutation,
}
use nestora_server.Wallet.Service

pub data Request : Type 0 where
  setup_pin : PinRequest → Request
  add_money : AddMoneyRequest → Request
  pay_dues : PayDuesRequest → Request
  pay_dues_upi : PayDuesUpiRequest → Request
  send_money : SendMoneyRequest → Request

-- The service method that a route calls.
unfoldable pub execute : Account → Request → Exec Db Mutation
execute account (setup_pin p) = Service.setup_pin account p
execute account (add_money p) = Service.add_money account p
execute account (pay_dues p) = Service.pay_dues account p
execute account (pay_dues_upi p) = Service.pay_dues_upi account p
execute account (send_money p) = Service.send_money account p

unfoldable pub handle : Account → Request → Exec Db Mutation
handle account request = unit_of_work (execute account request)

unfoldable pub serve : List (Account × Request) → Db → Db
serve [] s = s
serve ((account, request) ∷ rest) s = serve rest (handle account request s).1
