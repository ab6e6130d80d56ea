-- ===== src/Invoices/Consistent.antt =====
-- The invariant of the invoice table, for a row, for a table, and when a row is replaced.
use nestora_server.Prelude.{
  ℕ, ◌+◌, ◌≤◌, ◌<◌, ◌≡◌, inl, inr, refl, Bool, true, false, ◌==◌, Option, none, some, List, [], ◌∷◌,
  Bool-cases, arith, subst,
}
use nestora_server.Prelude.Table.{All, All-update, All-first, first, some_eq, update}
use nestora_server.Prelude.Text.{Text, strip}
use nestora_server.Http.{ok}
use nestora_server.Invoices.Data.{
  Invoice, InvoiceStatus, InvoiceRequest, Vendor, Db, is_paid, is_before, validate_business_rules,
  normalize_invoice_number,
}
use nestora_server.Invoices.Money.{Totals, calculate}
use nestora_server.Invoices.Repository.{not_excluded}
use nestora_server.Invoices.Service.{apply_payload, number_or_keep, when_paid, strip_optional}
use nestora_server.Invoices.Totals.{calculate-IsTotal}
use nestora_server.Invoices.Effects.{replaced}
use nestora_server.Invoices.Unique.{
  AllApart, AllApart-replaced, Apart, OthersApart, clash, clash_sym,
}

-- A paid invoice has a payment date, not before its issue date; any other has neither a payment date
-- nor a payment method.
abbrev pub PaymentFits : Bool → ℕ → Option ℕ → Option Text → Type 0
PaymentFits true issue_date none method = ⊥
PaymentFits true issue_date (some date) method = issue_date ≤ date
PaymentFits false issue_date date method = (date ≡ none) × (method ≡ none)

pub record IsConsistent (i : Invoice) : Type 0 where
  pub due : i.issue_date ≤ i.due_date
  pub payment : PaymentFits (is_paid i.status) i.issue_date i.payment_date i.payment_method
  pub number : strip i.invoice_number ≡ i.invoice_number
  pub covered : i.discount_amount ≤ i.subtotal
  pub total : i.grand_total + i.discount_amount ≡ i.subtotal + i.tax_amount

pub record IsSound (s : Db) : Type 0 where
  pub consistent : All IsConsistent s.invoices
  pub apart : AllApart s.invoices
  pub fresh : All (λ i. i.id < s.next_uuid) s.invoices

-- What the validators of the payload ensure.
pub record IsValid (p : InvoiceRequest) : Type 0 where
  pub rules : validate_business_rules p ≡ none
  pub tax_rate : p.tax_rate ≤ 10000
  pub number : normalize_invoice_number p.invoice_number ≡ p.invoice_number

pub normalize_lem : (n : Text) → normalize_invoice_number (some n) ≡ some n → strip n ≡ n
unfolding normalize_invoice_number
normalize_lem n h = go (strip n) refl
  where
    go : (t : Text) → strip n ≡ t → t ≡ n
    go [] e = absurd (cc)
    go (c ∷ t) e = some_eq (c ∷ t) n (rw (e, normalize_invoice_number) at h)

pub payment-fits :
    (status : InvoiceStatus) (issue : ℕ) (date : Option ℕ) (method : Option Text)
    → is_before date issue ≡ false
    → (is_paid status ≡ true → date ≡ none → ⊥)
    → PaymentFits (is_paid status) issue (when_paid status date) (when_paid status method)
payment-fits InvoiceStatus.pending issue date method b given = (refl, refl)
payment-fits InvoiceStatus.overdue issue date method b given = (refl, refl)
payment-fits InvoiceStatus.cancelled issue date method b given = (refl, refl)
payment-fits InvoiceStatus.paid issue none method b given = given refl refl
payment-fits InvoiceStatus.paid issue (some d) method b given = ground arith

module _ (p : InvoiceRequest) (valid : IsValid p) where
  pub applied-IsConsistent :
      (invoice : Invoice) (vendor : Vendor) (number : Text) (account uuid : ℕ) (s : Db)
      (totals : Totals)
      → strip number ≡ number
      → (calculate p s).0 ≡ ok totals
      → IsConsistent (apply_payload invoice vendor p number account totals uuid)
  unfolding apply_payload validate_business_rules
  applied-IsConsistent invoice vendor number account uuid s totals stripped computed =
      let fits = calculate-IsTotal p s totals valid.tax_rate computed in
      let rules = valid.rules in
      record {
        due = ground arith;
        payment =
            payment-fits p.status p.issue_date p.payment_date (strip_optional p.payment_method)
              (ground arith) (λ paid missing. ground arith);
        number = stripped;
        covered = fits.covered;
        total = fits.grand_total;
      }

  pub kept_number :
      (current : Text)
      → strip current ≡ current
      → strip (number_or_keep p.invoice_number current) ≡ number_or_keep p.invoice_number current
  unfolding number_or_keep
  kept_number current h = go p.invoice_number valid.number
    where
      go :
          (n : Option Text)
          → normalize_invoice_number n ≡ n
          → strip (number_or_keep n current) ≡ number_or_keep n current
      go none e = h
      go (some []) e = h
      go (some (c ∷ t)) e = normalize_lem (c ∷ t) e

pub fresh_more :
    (n m : ℕ) (rows : List Invoice) → n ≤ m → All (λ i. i.id < n) rows → All (λ i. i.id < m) rows
fresh_more n m [] le h = tt
fresh_more n m (i ∷ rows) le h = (omega (arith, h.0), fresh_more n m rows le h.1)

pub fresh-Apart :
    (x : Invoice) (rows : List Invoice)
    → All (λ i. i.id < x.id) rows
    → All (λ i. not_excluded none i.id ≡ true → clash i x ≡ false) rows
    → All (λ i. Apart i x) rows
fresh-Apart x [] f h = tt
fresh-Apart x (i ∷ rows) f h =
    let below = f.0 in
    (record { ids = ground arith; numbers = h.0 refl }, fresh-Apart x rows f.1 h.1)

pub unless_same :
    (x : Invoice) (rows : List Invoice)
    → All (λ i. not_excluded (some x.id) i.id ≡ true → clash i x ≡ false) rows
    → OthersApart x rows
unless_same x [] h = tt
unless_same x (i ∷ rows) h = ((λ other. h.0 (rw other refl)), unless_same x rows h.1)

others_apart : (x : Invoice) (rows : List Invoice) → All (Apart x) rows → OthersApart x rows
others_apart x [] h = tt
others_apart x (i ∷ rows) h = ((λ other. rw (clash_sym i x) h.0.numbers), others_apart x rows h.1)

-- The other rows are apart from any row of the table.
pub first-OthersApart :
    (p : Invoice → Bool) (rows : List Invoice) (x : Invoice)
    → AllApart rows
    → first p rows ≡ some x
    → OthersApart x rows
unfolding first
first-OthersApart p [] x h e = tt
first-OthersApart p (i ∷ rows) x h e = elim (Bool-cases (p i)) [
  | inl hit ↦
      let same : i ≡ x = some_eq i x (rw hit at e) in
      subst (λ j. OthersApart j (i ∷ rows)) same
        ((λ other. absurd (ground arith)), others_apart i rows h.0)
  | inr miss ↦
      let e' : first p rows ≡ some x = rw miss at e in
      ((λ other. (All-first (Apart i) p rows x h.0 e').numbers), first-OthersApart p rows x h.1 e')
]

pub replaced_twice :
    (x y : Invoice) (rows : List Invoice)
    → y.id ≡ x.id
    → replaced x (replaced y rows) ≡ replaced x rows
unfolding update
replaced_twice x y [] e = refl
replaced_twice x y (i ∷ rows) e = ground (arith, replaced_twice x y rows e)

pub replaced-IsSound :
    (s s' : Db) (x old : Invoice) (p : Invoice → Bool)
    → IsSound s
    → first p s.invoices ≡ some old
    → x.id ≡ old.id
    → IsConsistent x
    → OthersApart x s.invoices
    → s'.invoices ≡ replaced x s.invoices
    → s.next_uuid ≤ s'.next_uuid
    → IsSound s'
replaced-IsSound s s' x old p h found id fits others left more =
    let old_fresh = All-first (λ i. i.id < s.next_uuid) p s.invoices old h.fresh found in
    let x_fresh : x.id < s.next_uuid = rw id old_fresh in
    record {
      consistent = rw left (
          All-update IsConsistent (λ i. i.id == x.id) (λ _. x) s.invoices h.consistent
            (λ i e k. fits));
      apart = rw left (AllApart-replaced x s.invoices h.apart others);
      fresh = rw left (
          fresh_more s.next_uuid s'.next_uuid (replaced x s.invoices) more (
            All-update (λ i. i.id < s.next_uuid) (λ i. i.id == x.id) (λ _. x) s.invoices h.fresh
              (λ i e k. x_fresh)));
    }
