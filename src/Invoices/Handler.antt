-- ===== src/Invoices/Handler.antt =====
-- app/modules/invoices/router.py: the requests that write, each inside one `UnitOfWork`, and a
-- sequence of such requests.
use nestora_server.Prelude.{ℕ, List, [], ◌∷◌}
use nestora_server.Http.{Exec, unit_of_work}
use nestora_server.Account.{Account}
use nestora_server.Invoices.Data.{InvoiceRequest, InvoiceStatusRequest, Invoice, Db}
use nestora_server.Invoices.Service

pub data Request : Type 0 where
  create_invoice : InvoiceRequest → Request
  update_invoice : ℕ → InvoiceRequest → Request
  update_invoice_status : ℕ → InvoiceStatusRequest → Request
  delete_invoice : ℕ → ℕ → Request

-- The service method that a route calls.
unfoldable pub execute : Account → Request → Exec Db Invoice
execute account (create_invoice p) = Service.create account p
execute account (update_invoice id p) = Service.update account id p
execute account (update_invoice_status id p) = Service.update_status account id p
execute account (delete_invoice id association_id) = Service.delete account id association_id

unfoldable pub handle : Account → Request → Exec Db Invoice
handle account request = unit_of_work (execute account request)

unfoldable pub serve : List (Account × Request) → Db → Db
serve [] s = s
serve ((account, request) ∷ rest) s = serve rest (handle account request s).1
