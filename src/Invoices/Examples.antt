-- ===== src/Invoices/Examples.antt =====
-- A small invoice table, runs on it, and the theorems at it.
use nestora_server.Prelude.{◌≡◌, ◌≤◌, refl, true, false, some, none, List, [], ◌∷◌, ◌*◌, ◌+◌, arith}
use nestora_server.Prelude.Table.{first, exists, length}
use nestora_server.Prelude.Text.{Text, strip, lstrip, rstrip}
use nestora_server.Http.{ok}
use nestora_server.Account.{Account}
use nestora_server.Invoices.Data
use nestora_server.Invoices.Money.{Totals, calculate, money, exact_sum, discount_of}
use nestora_server.Invoices.Repository
use nestora_server.Invoices.Service
use nestora_server.Invoices.Handler.{Request, serve}
use nestora_server.Invoices.Totals.{
  IsTotal, calculate-IsTotal, percentage_covered, lines-near-subtotal, sum_amounts,
}
use nestora_server.Invoices.Free.{generate_invoice_number_free}
use nestora_server.Invoices.Consistent.{IsSound, IsConsistent, IsValid}
use nestora_server.Invoices.Sound.{serve-keeps_invoices}
use nestora_server.Invoices.Lifecycle.{Advanced, serve-status_advances}

abbrev accountant : Account
accountant = record { id = 1; role = some "accountant"; user_id = none; email = [] }

abbrev year_month : Text
year_month = 50 ∷ 48 ∷ 50 ∷ 54 ∷ 49 ∷ 49 ∷ []

-- Two lines of 1.5 at 10.01 each, ten per cent off, eighteen per cent tax.
abbrev line : Data.InvoiceLineRequest
line = record { description = 97 ∷ []; quantity = 15000; rate = 1001 }

abbrev request : Data.InvoiceRequest
request = record {
  association_id = 41;
  vendor_id = 61;
  billing_address = 97 ∷ [];
  invoice_number = none;
  issue_date = 100;
  due_date = 130;
  payment_terms = 97 ∷ [];
  lines = line ∷ line ∷ [];
  discount_type = Data.DiscountType.percentage;
  discount_value = 1000;
  tax_type = none;
  tax_rate = 1800;
  notes = none;
  status = Data.InvoiceStatus.pending;
  payment_date = none;
  payment_method = none;
}

abbrev totals : Totals
totals = record { subtotal = 3003; discount = 300; tax = 487; grand_total = 3190 }

-- The number that the first invoice of the month gets.
abbrev number : Text
number = 73 ∷ 78 ∷ 86 ∷ 45 ∷ 50 ∷ 48 ∷ 50 ∷ 54 ∷ 49 ∷ 49 ∷ 45 ∷ 48 ∷ 48 ∷ 48 ∷ 49 ∷ []

abbrev vendor : Data.Vendor
vendor = record {
  id = 61;
  name = 97 ∷ [];
  service_type = 98 ∷ [];
  is_active = true;
  is_deleted = false;
}

unfoldable invoice : Data.Invoice
unfolding Service.apply_payload Service.build_lines money
invoice = Service.apply_payload (Service.blank_invoice 71 41 1) vendor request number 1 totals 72

abbrev db : Data.Db
db = record {
  associations = record { id = 41; is_deleted = false } ∷ [];
  admin_associations = record { admin_id = 1; association_id = 41 } ∷ [];
  user_details = [];
  vendors = vendor ∷ [];
  invoices = invoice ∷ [];
  now = 101;
  year_month = year_month;
  next_uuid = 80;
}

calculated : {S : Type 0} (s : S) → (calculate request s).0 ≡ ok totals
unfolding calculate money exact_sum discount_of
calculated s = refl

calculate-IsTotal_example : IsTotal request totals
calculate-IsTotal_example = calculate-IsTotal request db totals (omega arith) (calculated db)

passes : Data.validate_business_rules request ≡ none
unfolding Data.validate_business_rules
passes = refl

percentage_covered_example : discount_of Data.DiscountType.percentage 1000 3003 ≤ 3003
percentage_covered_example = percentage_covered request 3003 passes (λ e. absurd (cc))

lines-near-subtotal_example :
    let amounts = sum_amounts (Service.build_lines 71 request.lines 1 0 72) in
    (2 * amounts ≤ 2 * totals.subtotal + length request.lines + 1)
    × (2 * totals.subtotal ≤ 2 * amounts + length request.lines + 1)
lines-near-subtotal_example = lines-near-subtotal request totals 71 1 72 calculate-IsTotal_example

generate_invoice_number_free_example :
    (n : Text) × (Service.generate_invoice_number 41 db ≡ (ok n, db))
    × (exists (Repository.has_number 41 n none) db.invoices ≡ false)
    × (strip n ≡ n)
generate_invoice_number_free_example = generate_invoice_number_free 41 db

request-IsValid : IsValid request
unfolding Data.normalize_invoice_number
request-IsValid = record { rules = passes; tax_rate = omega arith; number = refl }

invoice-IsConsistent : IsConsistent invoice
unfolding invoice strip lstrip rstrip
invoice-IsConsistent = record {
  due = omega arith;
  payment = (refl, refl);
  number = refl;
  covered = omega arith;
  total = refl;
}

db-IsSound : IsSound db
unfolding invoice
db-IsSound = record {
  consistent = (invoice-IsConsistent, tt);
  apart = (tt, tt);
  fresh = (omega arith, tt);
}

-- A second invoice, the payment of the first, an attempt to reopen it, and its deletion.
abbrev day : List (Account × Request)
day =
    (accountant, Request.create_invoice request)
    ∷ (
      accountant,
      Request.update_invoice_status 71 (record {
        association_id = 41;
        status = Data.InvoiceStatus.paid;
        payment_date = some 110;
        payment_method = none;
      }),
    )
    ∷ (
      accountant,
      Request.update_invoice_status 71 (record {
        association_id = 41;
        status = Data.InvoiceStatus.pending;
        payment_date = none;
        payment_method = none;
      }),
    )
    ∷ (accountant, Request.delete_invoice 71 41)
    ∷ []

serve-keeps_invoices_example : IsSound (serve day db)
unfolding Data.paid_status_requires_date
serve-keeps_invoices_example =
    serve-keeps_invoices day db (request-IsValid, (refl, (refl, (tt, tt)))) db-IsSound

serve-status_advances_example : Advanced 71 invoice (serve day db)
unfolding Data.paid_status_requires_date first invoice
serve-status_advances_example =
    serve-status_advances day db 71 invoice (request-IsValid, (refl, (refl, (tt, tt)))) db-IsSound
      refl
