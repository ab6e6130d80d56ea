-- ===== src/Invoices/Kept.antt =====
-- Every method that creates or changes an invoice keeps the invariant of the invoice table.
use nestora_server.Prelude.{
  ℕ, ◌+◌, ◌<◌, ◌≡◌, ◌⊎◌, inl, inr, refl, ◌∙◌, true, none, some, arith, subst, sym,
}
use nestora_server.Prelude.Table.{All-insert, All-first, first-holds, length}
use nestora_server.Prelude.Text.{Text, strip}
use nestora_server.Account.{Account}
use nestora_server.Invoices.Data.{
  Invoice, InvoiceRequest, InvoiceStatusRequest, Db, paid_status_requires_date,
}
use nestora_server.Invoices.Repository.{in_scope}
use nestora_server.Invoices.Service.{
  apply_payload, number_or_keep, blank_invoice, when_paid, strip_optional,
}
use nestora_server.Invoices.Effects.{Created, Updated, StatusUpdated, Deleted, replaced}
use nestora_server.Invoices.Consistent.{
  IsConsistent, IsSound, IsValid, payment-fits, normalize_lem, applied-IsConsistent, kept_number,
  fresh_more, fresh-Apart, unless_same, first-OthersApart, replaced_twice, replaced-IsSound,
}
use nestora_server.Invoices.Unique.{AllApart-insert, free-clash}

number_chosen :
    (p : InvoiceRequest) (number : Text)
    → IsValid p
    → (p.invoice_number ≡ some number) ⊎ (strip number ≡ number)
    → strip number ≡ number
number_chosen p number valid (inl given) = normalize_lem number (rw given at valid.number)
number_chosen p number valid (inr stripped) = stripped

pub Created-IsSound :
    (account : Account) (p : InvoiceRequest) (s s' : Db) (invoice : Invoice)
    → IsValid p
    → IsSound s
    → Created account p s s' invoice
    → IsSound s'
unfolding apply_payload
Created-IsSound account p s s' invoice valid h d =
    let stripped = number_chosen p d.number valid d.chosen in
    let x =
      apply_payload (blank_invoice s.next_uuid p.association_id account.id) d.vendor p d.number
        account.id d.totals (s.next_uuid + 1) in
    let consistent : IsConsistent x =
      applied-IsConsistent p valid (blank_invoice s.next_uuid p.association_id account.id) d.vendor
        d.number account.id (s.next_uuid + 1) s d.totals stripped d.computed in
    let apart = fresh-Apart x s.invoices h.fresh (free-clash x none s.invoices stripped d.free) in
    let more : s.next_uuid < s.next_uuid + (length p.lines + 1) = omega arith in
    subst IsSound (sym d.left) (
      rw d.made (record {
        consistent = All-insert IsConsistent x s.invoices h.consistent consistent;
        apart = AllApart-insert x s.invoices h.apart apart;
        fresh =
            All-insert (λ i. i.id < s.next_uuid + (length p.lines + 1)) x s.invoices
              (fresh_more s.next_uuid (s.next_uuid + (length p.lines + 1)) s.invoices (omega arith)
                h.fresh)
              more;
      }))

pub Updated-IsSound :
    (account : Account) (id : ℕ) (p : InvoiceRequest) (s s' : Db) (invoice : Invoice)
    → IsValid p
    → IsSound s
    → Updated account id p s s' invoice
    → IsSound s'
unfolding apply_payload
Updated-IsSound account id p s s' invoice valid h d =
    let scope = in_scope id p.association_id in
    let old = d.old in
    let number = number_or_keep p.invoice_number old.invoice_number in
    let old_consistent = All-first IsConsistent scope s.invoices old h.consistent d.found in
    let stripped = kept_number p valid old.invoice_number old_consistent.number in
    let x = apply_payload old d.vendor p number account.id d.totals s.next_uuid in
    let consistent : IsConsistent x =
      applied-IsConsistent p valid old d.vendor number account.id s.next_uuid s d.totals stripped
        d.computed in
    let in_association : old.association_id ≡ p.association_id =
      let held = first-holds scope s.invoices old d.found in ground arith in
    let free = rw (← in_association) at d.free in
    let others = unless_same x s.invoices (free-clash x (some old.id) s.invoices stripped free) in
    let left : s'.invoices ≡ replaced x s.invoices =
      d.left
      ∙ rw d.made
          (replaced_twice x (record old { vendor_id = some d.vendor.id }) s.invoices refl) in
    let uuids = d.uuids in
    replaced-IsSound s s' x old scope h d.found refl consistent others left (omega arith)

pub StatusUpdated-IsSound :
    (account : Account) (id : ℕ) (p : InvoiceStatusRequest) (s s' : Db) (invoice : Invoice)
    → paid_status_requires_date p ≡ none
    → IsSound s
    → StatusUpdated account id p s s' invoice
    → IsSound s'
unfolding paid_status_requires_date
StatusUpdated-IsSound account id p s s' invoice valid h d =
    let scope = in_scope id p.association_id in
    let old = d.old in
    let was = All-first IsConsistent scope s.invoices old h.consistent d.found in
    let dated = d.dated in
    let x = record old {
      status = p.status;
      payment_date = when_paid p.status p.payment_date;
      payment_method = when_paid p.status (strip_optional p.payment_method);
      updated_by = some account.id;
    } in
    let consistent : IsConsistent x = record {
      due = was.due;
      payment =
          payment-fits p.status old.issue_date p.payment_date (strip_optional p.payment_method)
            dated (λ paid missing. ground arith);
      number = was.number;
      covered = was.covered;
      total = was.total;
    } in
    subst IsSound (sym d.left) (
      rw d.made (
        replaced-IsSound s (record s { invoices = replaced x s.invoices }) x old scope h d.found
          refl consistent (first-OthersApart scope s.invoices old h.apart d.found) refl
          (omega arith)))

pub Deleted-IsSound :
    (account : Account) (id a : ℕ) (s s' : Db) (invoice : Invoice)
    → IsSound s
    → Deleted account id a s s' invoice
    → IsSound s'
Deleted-IsSound account id a s s' invoice h d =
    let scope = in_scope id a in
    let old = d.old in
    let was = All-first IsConsistent scope s.invoices old h.consistent d.found in
    let x = record old {
      is_deleted = true;
      deleted_by = some account.id;
      deleted_at = some s.now;
      updated_by = some account.id;
    } in
    let consistent : IsConsistent x = record {
      due = was.due;
      payment = was.payment;
      number = was.number;
      covered = was.covered;
      total = was.total;
    } in
    subst IsSound (sym d.left) (
      rw d.made (
        replaced-IsSound s (record s { invoices = replaced x s.invoices }) x old scope h d.found
          refl consistent (first-OthersApart scope s.invoices old h.apart d.found) refl
          (omega arith)))
