-- ===== src/Invoices/Service.antt =====
-- app/modules/invoices/service.py: each method of `InvoiceService` that creates or changes an
-- invoice. The handlers of app/modules/invoices/router.py run it inside one `UnitOfWork`.
use nestora_server.Prelude.{
  ℕ, zero, suc, ◌+◌, String, Bool, true, false, Option, none, some, List, [], ◌∷◌, ◌&&◌, ◌||◌, not,
  ◌==◌, ◌*◌, if◌then◌else◌,
}
use text.Mathlib.Text.{◌==◌ as str_eq}
use nestora_server.Prelude.Table.{length, exists}
use nestora_server.Prelude.Text.{Text, strip}
use nestora_server.Http.{Status, Exec, pure, gets, modify, or_raise, raise_if, ◌>>=◌, ◌>>◌}
use nestora_server.Account.{RoleCode, Account, role_value}
use nestora_server.Invoices.Data.{
  InvoiceStatus, DiscountType, InvoiceLineRequest, InvoiceRequest, InvoiceStatusRequest,
  InvoiceLine, Invoice, Vendor, Association, Db, is_paid, is_before,
}
use nestora_server.Invoices.Money.{Totals, money, calculate}
use nestora_server.Invoices.Number.{invoice_number_text}
use nestora_server.Invoices.Repository

-- `account.role.code == role.value`. Every account has a role row.
unfoldable pub has_role : Account → RoleCode → Bool
unfolding role_value
has_role account role = elim account.role [ none ↦ false | some c ↦ str_eq c (role_value role) ]

-- `association_id in association_ids`
unfoldable pub contains : ℕ → List ℕ → Bool
contains a [] = false
contains a (b ∷ bs) = if a == b then true else contains a bs

-- The associations of an account that is no super administrator: those of its staff rows, or if it
-- has none the one that its user belongs to.
unfoldable pub association_ids : Account → Db → List ℕ
association_ids account s =
    elim (Repository.admin_association_ids account.id s.admin_associations) [
      | a ∷ ids ↦ a ∷ ids
      | [] ↦ elim (Repository.member_association account.user_id s.user_details) [
        | none ↦ []
        | some a ↦ a ∷ []
      ]
    ]

unfoldable pub check_association : Account → ℕ → Exec Db Association
check_association account association_id = do
  found ← Repository.find_association association_id
  association ← or_raise found Status.not_found "Association not found"
  ids ← gets (association_ids account)
  raise_if (not (has_role account RoleCode.super_admin || contains association_id ids))
      Status.forbidden "You are not authorized for this association"
  pure association

unfoldable pub require_vendor : ℕ → Exec Db Vendor
require_vendor vendor_id = do
  found ← Repository.find_vendor vendor_id
  or_raise found Status.unprocessable_content "Select an active vendor"

unfoldable pub build_lines : ℕ → List InvoiceLineRequest → ℕ → ℕ → ℕ → List InvoiceLine
build_lines invoice_id [] account_id index uuid = []
build_lines invoice_id (line ∷ lines) account_id index uuid =
    record {
      id = uuid;
      invoice_id = invoice_id;
      description = line.description;
      quantity = line.quantity;
      rate = line.rate;
      amount = money (line.quantity * line.rate);
      sort_order = index;
      created_by = some account_id;
      updated_by = some account_id;
    }
    ∷ build_lines invoice_id lines account_id (index + 1) (uuid + 1)

-- `STATUS_TRANSITIONS[current]` as a test of the target.
unfoldable pub is_transition : InvoiceStatus → InvoiceStatus → Bool
is_transition InvoiceStatus.pending InvoiceStatus.overdue = true
is_transition InvoiceStatus.pending InvoiceStatus.paid = true
is_transition InvoiceStatus.pending InvoiceStatus.cancelled = true
is_transition InvoiceStatus.overdue InvoiceStatus.paid = true
is_transition InvoiceStatus.overdue InvoiceStatus.cancelled = true
is_transition current target = false

abbrev pub same_status : InvoiceStatus → InvoiceStatus → Bool
same_status InvoiceStatus.pending InvoiceStatus.pending = true
same_status InvoiceStatus.overdue InvoiceStatus.overdue = true
same_status InvoiceStatus.paid InvoiceStatus.paid = true
same_status InvoiceStatus.cancelled InvoiceStatus.cancelled = true
same_status current target = false

unfoldable pub status_text : InvoiceStatus → String
status_text InvoiceStatus.pending = "pending"
status_text InvoiceStatus.overdue = "overdue"
status_text InvoiceStatus.paid = "paid"
status_text InvoiceStatus.cancelled = "cancelled"

-- The detail of the error names both statuses; the model keeps its fixed part.
unfoldable pub validate_transition : InvoiceStatus → InvoiceStatus → Exec Db Unit
unfolding is_transition
validate_transition current target =
    raise_if (not (same_status current target) && not (is_transition current target))
      Status.unprocessable_content "Invoice status cannot change"

-- `text.strip() if text else None`
abbrev pub strip_optional : Option Text → Option Text
strip_optional none = none
strip_optional (some []) = none
strip_optional (some (c ∷ s)) = some (strip (c ∷ s))

abbrev pub when_paid {ℓ} : {A : Type ℓ} → InvoiceStatus → Option A → Option A
when_paid status value = if is_paid status then value else none

unfoldable pub apply_payload : Invoice → Vendor → InvoiceRequest → Text → ℕ → Totals → ℕ → Invoice
unfolding build_lines
apply_payload invoice vendor payload invoice_number account_id totals uuid = record invoice {
  vendor_id = some payload.vendor_id;
  legacy_vendor_name = vendor.name;
  legacy_category = vendor.service_type;
  legacy_description = strip_optional payload.notes;
  invoice_date = payload.issue_date;
  tax_percentage = payload.tax_rate;
  invoice_number = invoice_number;
  billing_address = some payload.billing_address;
  issue_date = payload.issue_date;
  due_date = payload.due_date;
  payment_terms = some payload.payment_terms;
  discount_type = payload.discount_type;
  discount_value = payload.discount_value;
  tax_type = strip_optional payload.tax_type;
  tax_rate = payload.tax_rate;
  notes = strip_optional payload.notes;
  status = payload.status;
  payment_date = when_paid payload.status payload.payment_date;
  payment_method = when_paid payload.status (strip_optional payload.payment_method);
  subtotal = totals.subtotal;
  discount_amount = totals.discount;
  tax_amount = totals.tax;
  grand_total = totals.grand_total;
  updated_by = some account_id;
  lines = build_lines invoice.id payload.lines account_id 0 uuid;
}

-- The loop of `generate_invoice_number` from a sequence number. The fuel is the number of rows that
-- may be in the way; on the last of it the candidate is returned untested.
unfoldable pub next_free_number : ℕ → Db → ℕ → ℕ → Text
next_free_number zero s association_id sequence = invoice_number_text s.year_month sequence
next_free_number (suc fuel) s association_id sequence =
    let candidate = invoice_number_text s.year_month sequence in
    let rest = next_free_number fuel s association_id (sequence + 1) in
    if exists (Repository.has_number association_id candidate none) s.invoices
    then rest
    else candidate

-- `select(func.count()) … where(Invoice.association_id == association_id)`
unfoldable pub existing_count : ℕ → List Invoice → ℕ
existing_count association_id [] = 0
existing_count association_id (i ∷ rows) =
    (if i.association_id == association_id then 1 else 0) + existing_count association_id rows

unfoldable pub generate_invoice_number : ℕ → Exec Db Text
generate_invoice_number association_id = gets (λ s.
    next_free_number (length s.invoices) s association_id
      (existing_count association_id s.invoices + 1))

-- `payload.invoice_number or …`
unfoldable pub number_or_generate : Option Text → ℕ → Exec Db Text
number_or_generate none association_id = generate_invoice_number association_id
number_or_generate (some []) association_id = generate_invoice_number association_id
number_or_generate (some (c ∷ s)) association_id = pure (c ∷ s)

unfoldable pub number_or_keep : Option Text → Text → Text
number_or_keep none current = current
number_or_keep (some []) current = current
number_or_keep (some (c ∷ s)) current = c ∷ s

-- A new `Invoice(id=…, association_id=…, created_by=…)`, before the payload is applied.
abbrev pub blank_invoice : ℕ → ℕ → ℕ → Invoice
blank_invoice id association_id created_by = record {
  id = id;
  association_id = association_id;
  vendor_id = none;
  legacy_vendor_name = [];
  legacy_category = [];
  legacy_description = none;
  invoice_date = 0;
  tax_percentage = 0;
  invoice_number = [];
  billing_address = none;
  issue_date = 0;
  due_date = 0;
  payment_terms = none;
  discount_type = DiscountType.no_discount;
  discount_value = 0;
  tax_type = none;
  tax_rate = 0;
  notes = none;
  status = InvoiceStatus.pending;
  payment_date = none;
  payment_method = none;
  subtotal = 0;
  discount_amount = 0;
  tax_amount = 0;
  grand_total = 0;
  lines = [];
  created_by = some created_by;
  updated_by = none;
  is_deleted = false;
  deleted_by = none;
  deleted_at = none;
}

-- `n` values of `uuid.uuid4()` are used up.
abbrev pub use_uuids : ℕ → Exec Db Unit
use_uuids n = modify (λ s. record s { next_uuid = s.next_uuid + n })

unfoldable pub get : Account → ℕ → ℕ → Exec Db Invoice
get account invoice_id association_id = do
  check_association account association_id
  found ← Repository.get_scoped invoice_id association_id
  or_raise found Status.not_found "Invoice not found"

abbrev duplicate : String
duplicate = "Invoice number already exists for this association"

unfoldable pub create : Account → InvoiceRequest → Exec Db Invoice
create account payload = do
  check_association account payload.association_id
  vendor ← require_vendor payload.vendor_id
  number ← number_or_generate payload.invoice_number payload.association_id
  taken ← Repository.number_exists payload.association_id number none
  raise_if taken Status.conflict duplicate
  totals ← calculate payload
  uuid ← gets (λ s. s.next_uuid)
  let invoice =
      apply_payload (blank_invoice uuid payload.association_id account.id) vendor payload number
        account.id totals (uuid + 1)
  use_uuids (length payload.lines + 1)
  Repository.add invoice
  pure invoice

-- The flush inserts the new lines before it deletes those that they replace, so a new line of the
-- order of an old one violates `uq_invoice_lines_order`: an IntegrityError, which nothing catches.
unfoldable pub collide : List InvoiceLine → List InvoiceLine → Bool
collide olds news =
    exists (λ (n : InvoiceLine). exists (λ (o : InvoiceLine). o.sort_order == n.sort_order) olds)
      news

-- The vendor is assigned before the totals are computed; the roll back undoes it if they are refused.
unfoldable pub update : Account → ℕ → InvoiceRequest → Exec Db Invoice
update account invoice_id payload = do
  invoice ← get account invoice_id payload.association_id
  let number = number_or_keep payload.invoice_number invoice.invoice_number
  validate_transition invoice.status payload.status
  vendor ← require_vendor payload.vendor_id
  taken ← Repository.number_exists payload.association_id number (some invoice.id)
  raise_if taken Status.conflict duplicate
  Repository.save (record invoice { vendor_id = some vendor.id })
  totals ← calculate payload
  uuid ← gets (λ s. s.next_uuid)
  let changed = apply_payload invoice vendor payload number account.id totals uuid
  use_uuids (length payload.lines)
  raise_if (collide invoice.lines changed.lines) Status.internal_server_error
      "Internal server error"
  Repository.save changed
  pure changed

unfoldable pub update_status : Account → ℕ → InvoiceStatusRequest → Exec Db Invoice
update_status account invoice_id payload = do
  invoice ← get account invoice_id payload.association_id
  validate_transition invoice.status payload.status
  raise_if (is_before payload.payment_date invoice.issue_date) Status.unprocessable_content
      "Payment date cannot be before issue date"
  let changed = record invoice {
    status = payload.status;
    payment_date = when_paid payload.status payload.payment_date;
    payment_method = when_paid payload.status (strip_optional payload.payment_method);
    updated_by = some account.id;
  }
  Repository.save changed
  pure changed

unfoldable pub delete : Account → ℕ → ℕ → Exec Db Invoice
delete account invoice_id association_id = do
  invoice ← get account invoice_id association_id
  now ← gets (λ s. s.now)
  let deleted = record invoice {
    is_deleted = true;
    deleted_by = some account.id;
    deleted_at = some now;
    updated_by = some account.id;
  }
  Repository.save deleted
  pure deleted
