-- ===== src/Invoices/Repository.antt =====
-- app/modules/invoices/repository.py, and the queries that the service sends itself.
use nestora_server.Prelude.{
  ℕ, Bool, true, Option, none, some, List, [], ◌∷◌, ◌&&◌, not, ◌==◌, if◌then◌else◌,
}
use nestora_server.Prelude.Table.{first, insert, exists, update}
use nestora_server.Prelude.Text.{Text, text_eq, lower, strip}
use nestora_server.Http.{Exec, gets, modify}
use nestora_server.Invoices.Data.{Invoice, Vendor, Association, AdminAssociation, UserDetail, Db}

-- Invoice.id == invoice_id, Invoice.association_id == association_id, not deleted
abbrev pub in_scope : ℕ → ℕ → Invoice → Bool
in_scope invoice_id association_id i =
    not i.is_deleted && i.id == invoice_id && i.association_id == association_id

unfoldable pub get_scoped : ℕ → ℕ → Exec Db (Option Invoice)
get_scoped invoice_id association_id =
    gets (λ s. first (in_scope invoice_id association_id) s.invoices)

-- if excluding_id: … Invoice.id != excluding_id
abbrev pub not_excluded : Option ℕ → ℕ → Bool
not_excluded none id = true
not_excluded (some e) id = not (id == e)

-- A row of the association with this number, whatever the case. Deleted rows count.
abbrev pub has_number : ℕ → Text → Option ℕ → Invoice → Bool
has_number association_id invoice_number excluding_id i =
    i.association_id == association_id
    && text_eq (lower i.invoice_number) (lower (strip invoice_number))
    && not_excluded excluding_id i.id

unfoldable pub number_exists : ℕ → Text → Option ℕ → Exec Db Bool
number_exists association_id invoice_number excluding_id =
    gets (λ s. exists (has_number association_id invoice_number excluding_id) s.invoices)

-- `self.session.add(invoice)` and the flush: INSERT.
unfoldable pub add : Invoice → Exec Db Unit
add invoice = modify (λ s. record s { invoices = insert invoice s.invoices })

-- The flush of a changed row: UPDATE … WHERE id = :id.
unfoldable pub save : Invoice → Exec Db Unit
save invoice =
    modify (λ s. record s { invoices = update (λ i. i.id == invoice.id) (λ _. invoice) s.invoices })

unfoldable pub find_association : ℕ → Exec Db (Option Association)
find_association association_id =
    gets (λ s. first (λ a. a.id == association_id && not a.is_deleted) s.associations)

-- SELECT association_id FROM admin_associations WHERE admin_id = :account_id
unfoldable pub admin_association_ids : ℕ → List AdminAssociation → List ℕ
admin_association_ids account_id [] = []
admin_association_ids account_id (r ∷ rows) =
    if r.admin_id == account_id
    then r.association_id ∷ admin_association_ids account_id rows
    else admin_association_ids account_id rows

-- SELECT association_id FROM user_details WHERE user_id = :user_id AND is_deleted = 0 LIMIT 1
unfoldable pub member_association : Option ℕ → List UserDetail → Option ℕ
member_association none rows = none
member_association (some user_id) rows =
    elim (first (λ (u : UserDetail). u.user_id == user_id && not u.is_deleted) rows) [
      | none ↦ none
      | some u ↦ u.association_id
    ]

unfoldable pub find_vendor : ℕ → Exec Db (Option Vendor)
find_vendor vendor_id =
    gets (λ s. first (λ v. v.id == vendor_id && not v.is_deleted && v.is_active) s.vendors)
