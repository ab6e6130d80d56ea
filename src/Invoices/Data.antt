-- ===== src/Invoices/Data.antt =====
-- The invoice tables (app/modules/invoices/models.py), the vendors and memberships that the service
-- reads, and the request payloads with their validation (app/modules/invoices/schemas.py).
-- A rate, a price, a discount value and a tax rate are in hundredths, a quantity in ten-thousandths;
-- dates are day numbers. `created_at` and `updated_at` are set by the database and not modelled.
use nestora_server.Prelude.{
  ℕ, String, Bool, true, false, Option, none, some, List, [], ◌∷◌, not, ltb, ◌==◌, ◌&&◌,
  if◌then◌else◌,
}
use nestora_server.Prelude.Text.{Text, strip}

pub data InvoiceStatus : Type 0 where
  pending overdue paid cancelled : InvoiceStatus

pub data DiscountType : Type 0 where
  no_discount flat percentage : DiscountType

pub record InvoiceLineRequest : Type 0 where
  pub description : Text
  pub quantity : ℕ
  pub rate : ℕ

pub record InvoiceRequest : Type 0 where
  pub association_id : ℕ
  pub vendor_id : ℕ
  pub billing_address : Text
  pub invoice_number : Option Text
  pub issue_date : ℕ
  pub due_date : ℕ
  pub payment_terms : Text
  pub lines : List InvoiceLineRequest
  pub discount_type : DiscountType
  pub discount_value : ℕ
  pub tax_type : Option Text
  pub tax_rate : ℕ
  pub notes : Option Text
  pub status : InvoiceStatus
  pub payment_date : Option ℕ
  pub payment_method : Option Text

pub record InvoiceStatusRequest : Type 0 where
  pub association_id : ℕ
  pub status : InvoiceStatus
  pub payment_date : Option ℕ
  pub payment_method : Option Text

-- `normalize_invoice_number`: a blank number is none.
unfoldable pub normalize_invoice_number : Option Text → Option Text
normalize_invoice_number none = none
normalize_invoice_number (some value) = elim (strip value) [ [] ↦ none | c ∷ s ↦ some (c ∷ s) ]

abbrev pub is_paid : InvoiceStatus → Bool
is_paid InvoiceStatus.paid = true
is_paid InvoiceStatus.pending = false
is_paid InvoiceStatus.overdue = false
is_paid InvoiceStatus.cancelled = false

abbrev pub is_none {ℓ} : {A : Type ℓ} → Option A → Bool
is_none none = true
is_none (some a) = false

-- payment_date and payment_date < issue_date
abbrev pub is_before : Option ℕ → ℕ → Bool
is_before none issue_date = false
is_before (some d) issue_date = ltb d issue_date

abbrev is_no_discount : DiscountType → Bool
is_no_discount DiscountType.no_discount = true
is_no_discount DiscountType.flat = false
is_no_discount DiscountType.percentage = false

abbrev is_percentage : DiscountType → Bool
is_percentage DiscountType.percentage = true
is_percentage DiscountType.no_discount = false
is_percentage DiscountType.flat = false

-- `validate_business_rules`: the message of the ValueError, `none` where the payload passes.
unfoldable pub validate_business_rules : InvoiceRequest → Option String
validate_business_rules p =
    if ltb p.due_date p.issue_date
    then some "due date cannot be before issue date"
    else if is_no_discount p.discount_type && not (p.discount_value == 0)
    then some "discount value must be zero when discount type is none"
    else if is_percentage p.discount_type && ltb 10000 p.discount_value
    then some "percentage discount cannot exceed 100"
    else if is_paid p.status && is_none p.payment_date
    then some "payment date is required for paid invoices"
    else if is_before p.payment_date p.issue_date
    then some "payment date cannot be before issue date"
    else none

-- `paid_status_requires_date`
unfoldable pub paid_status_requires_date : InvoiceStatusRequest → Option String
paid_status_requires_date p =
    if is_paid p.status && is_none p.payment_date
    then some "payment date is required for paid invoices"
    else none

pub record InvoiceLine : Type 0 where
  pub id : ℕ
  pub invoice_id : ℕ
  pub description : Text
  pub quantity : ℕ
  pub rate : ℕ
  pub amount : ℕ
  pub sort_order : ℕ
  pub created_by : Option ℕ
  pub updated_by : Option ℕ

pub record Invoice : Type 0 where
  pub id : ℕ
  pub association_id : ℕ
  pub vendor_id : Option ℕ
  pub legacy_vendor_name : Text
  pub legacy_category : Text
  pub legacy_description : Option Text
  pub invoice_date : ℕ
  pub tax_percentage : ℕ
  pub invoice_number : Text
  pub billing_address : Option Text
  pub issue_date : ℕ
  pub due_date : ℕ
  pub payment_terms : Option Text
  pub discount_type : DiscountType
  pub discount_value : ℕ
  pub tax_type : Option Text
  pub tax_rate : ℕ
  pub notes : Option Text
  pub status : InvoiceStatus
  pub payment_date : Option ℕ
  pub payment_method : Option Text
  pub subtotal : ℕ
  pub discount_amount : ℕ
  pub tax_amount : ℕ
  pub grand_total : ℕ
  pub lines : List InvoiceLine
  pub created_by : Option ℕ
  pub updated_by : Option ℕ
  pub is_deleted : Bool
  pub deleted_by : Option ℕ
  pub deleted_at : Option ℕ

pub record Vendor : Type 0 where
  pub id : ℕ
  pub name : Text
  pub service_type : Text
  pub is_active : Bool
  pub is_deleted : Bool

pub record Association : Type 0 where
  pub id : ℕ
  pub is_deleted : Bool

pub record AdminAssociation : Type 0 where
  pub admin_id : ℕ
  pub association_id : ℕ

pub record UserDetail : Type 0 where
  pub user_id : ℕ
  pub association_id : Option ℕ
  pub is_deleted : Bool

-- `now` is the time, `year_month` is `date.today().strftime("%Y%m")`, and `next_uuid` the value that
-- the next `uuid.uuid4()` returns.
pub record Db : Type 0 where
  pub associations : List Association
  pub admin_associations : List AdminAssociation
  pub user_details : List UserDetail
  pub vendors : List Vendor
  pub invoices : List Invoice
  pub now : ℕ
  pub year_month : Text
  pub next_uuid : ℕ
