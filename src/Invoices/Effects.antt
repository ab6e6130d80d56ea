-- ===== src/Invoices/Effects.antt =====
-- What each method that creates or changes an invoice has read and written when it returns.
use nestora_server.Prelude.{
  ℕ, ◌+◌, ◌≡◌, ◌⊎◌, inl, inr, refl, ◌∙◌, true, false, not, ◌&&◌, ◌==◌, Option, none, some, List, [],
  ◌∷◌, arith,
}
use nestora_server.Prelude.Table as Table
use nestora_server.Prelude.Table.{exists, first, insert, length}
use nestora_server.Prelude.Text.{Text, strip}
use nestora_server.Http.{Result-cases, ok}
use nestora_server.Account.{Account}
use nestora_server.Invoices.Data.{
  Invoice, InvoiceRequest, InvoiceStatusRequest, Vendor, Db, is_before,
}
use nestora_server.Invoices.Money.{Totals, calculate}
use nestora_server.Invoices.Repository
use nestora_server.Invoices.Repository.{has_number, in_scope}
use nestora_server.Invoices.Service.{
  check_association, require_vendor, number_or_generate, number_or_keep, generate_invoice_number,
  apply_payload, blank_invoice, is_transition, same_status, validate_transition, when_paid,
  strip_optional, get, create, update, update_status, delete,
}
use nestora_server.Invoices.Totals.{calculate_state, calculate_value}
use nestora_server.Invoices.Free.{generate_invoice_number_free}

module _ (s : Db) where
  check_association_state : (account : Account) (a : ℕ) → (check_association account a s).1 ≡ s
  unfolding check_association Repository.find_association
  check_association_state account a = ground arith

  require_vendor_state : (v : ℕ) → (require_vendor v s).1 ≡ s
  unfolding require_vendor Repository.find_vendor
  require_vendor_state v = ground arith

  get_state : (account : Account) (i a : ℕ) → (get account i a s).1 ≡ s
  unfolding get Repository.get_scoped
  get_state account i a = ground (arith, check_association_state account a)

  get_found :
      (account : Account) (i a : ℕ) (invoice : Invoice)
      → (get account i a s).0 ≡ ok invoice
      → first (in_scope i a) s.invoices ≡ some invoice
  unfolding get Repository.get_scoped
  get_found account i a invoice h = ground (arith, check_association_state account a)

  number_or_generate_state : (given : Option Text) (a : ℕ) → (number_or_generate given a s).1 ≡ s
  unfolding number_or_generate generate_invoice_number
  number_or_generate_state none a = refl
  number_or_generate_state (some []) a = refl
  number_or_generate_state (some (c ∷ t)) a = refl

  number_or_generate_lem :
      (given : Option Text) (a : ℕ) (number : Text)
      → (number_or_generate given a s).0 ≡ ok number
      → (given ≡ some number) ⊎ (strip number ≡ number)
  unfolding number_or_generate
  number_or_generate_lem none a number h =
      let (n, made, free, stripped) = generate_invoice_number_free a s in inr (ground arith)
  number_or_generate_lem (some []) a number h =
      let (n, made, free, stripped) = generate_invoice_number_free a s in inr (ground arith)
  number_or_generate_lem (some (c ∷ t)) a number h = inl (ground arith)

pub record Created (account : Account) (p : InvoiceRequest) (s s' : Db) (invoice : Invoice)
    : Type 0 where
  pub vendor : Vendor
  pub number : Text
  pub totals : Totals
  pub chosen : (p.invoice_number ≡ some number) ⊎ (strip number ≡ number)
  pub free : exists (has_number p.association_id number none) s.invoices ≡ false
  pub computed : (calculate p s).0 ≡ ok totals
  pub made :
      invoice
      ≡ apply_payload
          (blank_invoice s.next_uuid p.association_id account.id)
          vendor
          p
          number
          account.id
          totals
          (s.next_uuid + 1)
  pub left : s' ≡ record s {
    invoices = insert invoice s.invoices;
    next_uuid = s.next_uuid + (length p.lines + 1);
  }

-- The row of `id` is replaced.
abbrev pub replaced : Invoice → List Invoice → List Invoice
replaced invoice = Table.update (λ i. i.id == invoice.id) (λ _. invoice)

pub record Updated (account : Account) (invoice_id : ℕ) (p : InvoiceRequest) (s s' : Db)
    (invoice : Invoice) : Type 0 where
  pub old : Invoice
  pub vendor : Vendor
  pub totals : Totals
  pub found : first (in_scope invoice_id p.association_id) s.invoices ≡ some old
  pub allowed :
      not (same_status old.status p.status) && not (is_transition old.status p.status) ≡ false
  pub free :
      exists
        (has_number p.association_id
          (number_or_keep p.invoice_number old.invoice_number)
          (some old.id))
        s.invoices
      ≡ false
  pub computed : (calculate p s).0 ≡ ok totals
  pub made :
      invoice
      ≡ apply_payload old vendor p
          (number_or_keep p.invoice_number old.invoice_number)
          account.id
          totals
          s.next_uuid
  pub left :
      s'.invoices
      ≡ replaced invoice (replaced (record old { vendor_id = some vendor.id }) s.invoices)
  pub uuids : s'.next_uuid ≡ s.next_uuid + length p.lines

pub record StatusUpdated (account : Account) (invoice_id : ℕ) (p : InvoiceStatusRequest) (s s' : Db)
    (invoice : Invoice) : Type 0 where
  pub old : Invoice
  pub found : first (in_scope invoice_id p.association_id) s.invoices ≡ some old
  pub allowed :
      not (same_status old.status p.status) && not (is_transition old.status p.status) ≡ false
  pub dated : is_before p.payment_date old.issue_date ≡ false
  pub made : invoice ≡ record old {
    status = p.status;
    payment_date = when_paid p.status p.payment_date;
    payment_method = when_paid p.status (strip_optional p.payment_method);
    updated_by = some account.id;
  }
  pub left : s' ≡ record s { invoices = replaced invoice s.invoices }

pub record Deleted (account : Account) (invoice_id association_id : ℕ) (s s' : Db)
    (invoice : Invoice) : Type 0 where
  pub old : Invoice
  pub found : first (in_scope invoice_id association_id) s.invoices ≡ some old
  pub made : invoice ≡ record old {
    is_deleted = true;
    deleted_by = some account.id;
    deleted_at = some s.now;
    updated_by = some account.id;
  }
  pub left : s' ≡ record s { invoices = replaced invoice s.invoices }

module _ (account : Account) (s : Db) where
  pub delete-Deleted :
      (i a : ℕ) (invoice : Invoice)
      → (delete account i a s).0 ≡ ok invoice
      → Deleted account i a s (delete account i a s).1 invoice
  unfolding delete Repository.save
  delete-Deleted i a invoice h = elim (Result-cases (get account i a s).0) [
    | inl (e, raised) ↦ absurd (ground arith)
    | inr (old, got) ↦ record {
      old = old;
      found = get_found s account i a old got;
      made = ground (arith, get_state s account i a);
      left = ground (arith, get_state s account i a);
    }
  ]

  pub update_status-StatusUpdated :
      (i : ℕ) (p : InvoiceStatusRequest) (invoice : Invoice)
      → (update_status account i p s).0 ≡ ok invoice
      → StatusUpdated account i p s (update_status account i p s).1 invoice
  unfolding update_status validate_transition Repository.save
  update_status-StatusUpdated i p invoice h =
      elim (Result-cases (get account i p.association_id s).0) [
        | inl (e, raised) ↦ absurd (ground arith)
        | inr (old, got) ↦ record {
          old = old;
          found = get_found s account i p.association_id old got;
          allowed = ground (arith, get_state s account i p.association_id);
          dated = ground (arith, get_state s account i p.association_id);
          made = ground (arith, get_state s account i p.association_id);
          left = ground (arith, get_state s account i p.association_id);
        }
      ]

  pub create-Created :
      (p : InvoiceRequest) (invoice : Invoice)
      → (create account p s).0 ≡ ok invoice
      → Created account p s (create account p s).1 invoice
  unfolding create Repository.add Repository.number_exists
  create-Created p invoice h =
      let e1 = check_association_state s account p.association_id in
      let e2 = require_vendor_state s p.vendor_id in
      let e3 = number_or_generate_state s p.invoice_number p.association_id in
      let e4 = calculate_state p s in
      elim (Result-cases (check_association account p.association_id s).0) [
        | inl (e, raised) ↦ absurd (ground arith)
        | inr (association, checked) ↦ elim (Result-cases (require_vendor p.vendor_id s).0) [
          | inl (e, raised) ↦ absurd (ground arith)
          | inr (vendor, active) ↦
              elim (Result-cases (number_or_generate p.invoice_number p.association_id s).0) [
                | inl (e, raised) ↦ absurd (ground arith)
                | inr (number, chosen) ↦ elim (Result-cases (calculate p s).0) [
                  | inl (e, raised) ↦ absurd (ground arith)
                  | inr (totals, computed) ↦ record {
                    vendor = vendor;
                    number = number;
                    totals = totals;
                    chosen =
                        number_or_generate_lem s p.invoice_number p.association_id number chosen;
                    free = ground arith;
                    computed = computed;
                    made = ground arith;
                    left = ground arith;
                  }
                ]
              ]
        ]
      ]

  pub update-Updated :
      (i : ℕ) (p : InvoiceRequest) (invoice : Invoice)
      → (update account i p s).0 ≡ ok invoice
      → Updated account i p s (update account i p s).1 invoice
  unfolding update validate_transition Repository.save Repository.number_exists
  update-Updated i p invoice h =
      let e1 = get_state s account i p.association_id in
      let e2 = require_vendor_state s p.vendor_id in
      elim (Result-cases (get account i p.association_id s).0) [
        | inl (e, raised) ↦ absurd (ground arith)
        | inr (old, got) ↦ elim (Result-cases (require_vendor p.vendor_id s).0) [
          | inl (e, raised) ↦ absurd (ground arith)
          | inr (vendor, active) ↦
              let s1 = record s {
                invoices = replaced (record old { vendor_id = some vendor.id }) s.invoices;
              } in
              let e3 = calculate_state p s1 in
              elim (Result-cases (calculate p s1).0) [
                | inl (e, raised) ↦ absurd (ground arith)
                | inr (totals, computed) ↦ record {
                  old = old;
                  vendor = vendor;
                  totals = totals;
                  found = get_found s account i p.association_id old got;
                  allowed = ground arith;
                  free = ground arith;
                  computed = calculate_value p s s1 ∙ computed;
                  made = ground arith;
                  left = ground arith;
                  uuids = ground arith;
                }
              ]
        ]
      ]
