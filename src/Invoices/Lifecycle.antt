-- ===== src/Invoices/Lifecycle.antt =====
-- The statuses that an invoice goes through.
use nestora_server.Prelude.{
  ℕ, ◌≡◌, ◌∙◌, inl, inr, refl, Bool, true, false, not, ◌&&◌, ◌||◌, ◌==◌, if◌then◌else◌, Option,
  some, List, [], ◌∷◌, Bool-cases, arith,
}
use nestora_server.Prelude.Table.{All-first, first, insert, update, some_eq}
use nestora_server.Http.{ok}
use nestora_server.Account.{Account}
use nestora_server.Invoices.Data.{Invoice, InvoiceStatus, Db}
use nestora_server.Invoices.Repository.{in_scope}
use nestora_server.Invoices.Service.{is_transition, same_status, apply_payload}
use nestora_server.Invoices.Handler.{Request, execute, handle, serve}
use nestora_server.Invoices.Effects.{
  replaced, create-Created, update-Updated, update_status-StatusUpdated, delete-Deleted,
}
use nestora_server.Invoices.Unique.{AllApart, Apart}
use nestora_server.Invoices.Consistent.{IsSound, replaced_twice}
use nestora_server.Invoices.Sound.{AllValid, handle-cases, handle-IsSound}

-- The row of an id, deleted or not.
abbrev pub row : ℕ → Db → Option Invoice
row id s = first (λ i. i.id == id) s.invoices

-- The second status is the first, or one that STATUS_TRANSITIONS allows after it.
abbrev pub leads_to : InvoiceStatus → InvoiceStatus → Bool
leads_to a b = same_status a b || is_transition a b

leads_to_refl : (a : InvoiceStatus) → leads_to a a ≡ true
leads_to_refl InvoiceStatus.pending = refl
leads_to_refl InvoiceStatus.overdue = refl
leads_to_refl InvoiceStatus.paid = refl
leads_to_refl InvoiceStatus.cancelled = refl

leads_to_trans :
    (a b c : InvoiceStatus) → leads_to a b ≡ true → leads_to b c ≡ true → leads_to a c ≡ true
unfolding is_transition
leads_to_trans InvoiceStatus.pending b InvoiceStatus.pending p q = refl
leads_to_trans InvoiceStatus.pending b InvoiceStatus.overdue p q = refl
leads_to_trans InvoiceStatus.pending b InvoiceStatus.paid p q = refl
leads_to_trans InvoiceStatus.pending b InvoiceStatus.cancelled p q = refl
leads_to_trans InvoiceStatus.overdue InvoiceStatus.pending c p q = absurd (cc)
leads_to_trans InvoiceStatus.overdue InvoiceStatus.overdue c p q = q
leads_to_trans InvoiceStatus.overdue InvoiceStatus.paid InvoiceStatus.paid p q = refl
leads_to_trans InvoiceStatus.overdue InvoiceStatus.paid InvoiceStatus.pending p q = absurd (cc)
leads_to_trans InvoiceStatus.overdue InvoiceStatus.paid InvoiceStatus.overdue p q = absurd (cc)
leads_to_trans InvoiceStatus.overdue InvoiceStatus.paid InvoiceStatus.cancelled p q = absurd (cc)
leads_to_trans InvoiceStatus.overdue InvoiceStatus.cancelled InvoiceStatus.cancelled p q = refl
leads_to_trans InvoiceStatus.overdue InvoiceStatus.cancelled InvoiceStatus.pending p q = absurd (cc)
leads_to_trans InvoiceStatus.overdue InvoiceStatus.cancelled InvoiceStatus.overdue p q = absurd (cc)
leads_to_trans InvoiceStatus.overdue InvoiceStatus.cancelled InvoiceStatus.paid p q = absurd (cc)
leads_to_trans InvoiceStatus.paid InvoiceStatus.paid c p q = q
leads_to_trans InvoiceStatus.paid InvoiceStatus.pending c p q = absurd (cc)
leads_to_trans InvoiceStatus.paid InvoiceStatus.overdue c p q = absurd (cc)
leads_to_trans InvoiceStatus.paid InvoiceStatus.cancelled c p q = absurd (cc)
leads_to_trans InvoiceStatus.cancelled InvoiceStatus.cancelled c p q = q
leads_to_trans InvoiceStatus.cancelled InvoiceStatus.pending c p q = absurd (cc)
leads_to_trans InvoiceStatus.cancelled InvoiceStatus.overdue c p q = absurd (cc)
leads_to_trans InvoiceStatus.cancelled InvoiceStatus.paid c p q = absurd (cc)

allowed-leads_to :
    (a b : InvoiceStatus)
    → (not (same_status a b) && not (is_transition a b)) ≡ false
    → leads_to a b ≡ true
allowed-leads_to a b h = ground arith

first-insert :
    (p : Invoice → Bool) (rows : List Invoice) (x i : Invoice)
    → first p rows ≡ some i
    → first p (insert x rows) ≡ some i
unfolding first
first-insert p [] x i h = absurd (cc)
first-insert p (y ∷ rows) x i h = ground (arith, first-insert p rows x i)

first-replaced :
    (id : ℕ) (rows : List Invoice) (x i : Invoice)
    → first (λ j. j.id == id) rows ≡ some i
    → first (λ j. j.id == id) (replaced x rows) ≡ some (if i.id == x.id then x else i)
unfolding first update
first-replaced id [] x i h = absurd (cc)
first-replaced id (y ∷ rows) x i h = ground (arith, first-replaced id rows x i)

-- One row of a table is found by its id, whatever the condition.
same_row :
    (p q : Invoice → Bool) (rows : List Invoice) (i j : Invoice)
    → AllApart rows
    → first p rows ≡ some i
    → first q rows ≡ some j
    → i.id ≡ j.id
    → i ≡ j
unfolding first
same_row p q [] i j h e f same = absurd (cc)
same_row p q (y ∷ rows) i j h e f same = elim (Bool-cases (p y)) [
  | inl hit ↦ elim (Bool-cases (q y)) [
    | inl hit' ↦ ground arith
    | inr miss ↦
        let apart = (All-first (Apart y) q rows j h.0 (rw miss at f)).ids in
        let y_is : y ≡ i = some_eq y i (rw hit at e) in absurd (ground arith)
  ]
  | inr miss ↦ elim (Bool-cases (q y)) [
    | inl hit ↦
        let apart = (All-first (Apart y) p rows i h.0 (rw miss at e)).ids in
        let y_is : y ≡ j = some_eq y j (rw hit at f) in absurd (ground arith)
    | inr miss' ↦ same_row p q rows i j h.1 (rw miss at e) (rw miss' at f) same
  ]
]

-- The row of `id`, which was `i`, is there, in the status of `i` or one that it leads to.
pub record Advanced (id : ℕ) (i : Invoice) (s' : Db) : Type 0 where
  pub now : Invoice
  pub found : row id s' ≡ some now
  pub advanced : leads_to i.status now.status ≡ true

replaced-Advanced :
    (id : ℕ) (i x old : Invoice) (p : Invoice → Bool) (s s' : Db)
    → AllApart s.invoices
    → row id s ≡ some i
    → first p s.invoices ≡ some old
    → x.id ≡ old.id
    → leads_to old.status x.status ≡ true
    → s'.invoices ≡ replaced x s.invoices
    → Advanced id i s'
replaced-Advanced id i x old p s s' apart here found id_is leads left =
    let found' : row id s' ≡ some (if i.id == x.id then x else i) =
      rw left (first-replaced id s.invoices x i here) in
    elim (Bool-cases (i.id == x.id)) [
      | inl same ↦
          let is_old : i ≡ old =
            same_row (λ j. j.id == id) p s.invoices i old apart here found (ground arith) in
          record { now = x; found = rw same at found'; advanced = rw is_old leads }
      | inr other ↦ record {
        now = i;
        found = rw other at found';
        advanced = leads_to_refl i.status;
      }
    ]

execute-Advanced :
    (account : Account) (request : Request) (id : ℕ) (i invoice : Invoice) (s : Db)
    → IsSound s
    → row id s ≡ some i
    → (execute account request s).0 ≡ ok invoice
    → Advanced id i (execute account request s).1
unfolding execute apply_payload
execute-Advanced account (Request.create_invoice p) id i invoice s h here made =
    let d = create-Created account s p invoice made in
    record {
      now = i;
      found = rw d.left (first-insert (λ j. j.id == id) s.invoices invoice i here);
      advanced = leads_to_refl i.status;
    }
execute-Advanced account (Request.update_invoice k p) id i invoice s h here made =
    let d = update-Updated account s k p invoice made in
    let twice =
      replaced_twice invoice (record d.old { vendor_id = some d.vendor.id }) s.invoices
        (rw d.made refl) in
    replaced-Advanced id i invoice d.old (in_scope k p.association_id) s _ h.apart here d.found
      (rw d.made refl) (rw d.made (allowed-leads_to d.old.status p.status d.allowed))
      (d.left ∙ twice)
execute-Advanced account (Request.update_invoice_status k p) id i invoice s h here made =
    let d = update_status-StatusUpdated account s k p invoice made in
    replaced-Advanced id i invoice d.old (in_scope k p.association_id) s _ h.apart here d.found
      (rw d.made refl) (rw d.made (allowed-leads_to d.old.status p.status d.allowed))
      (rw d.left refl)
execute-Advanced account (Request.delete_invoice k a) id i invoice s h here made =
    let d = delete-Deleted account s k a invoice made in
    replaced-Advanced id i invoice d.old (in_scope k a) s _ h.apart here d.found (rw d.made refl)
      (rw d.made (leads_to_refl d.old.status)) (rw d.left refl)

handle-Advanced :
    (account : Account) (request : Request) (id : ℕ) (i : Invoice) (s : Db)
    → IsSound s
    → row id s ≡ some i
    → Advanced id i (handle account request s).1
handle-Advanced account request id i s h here = elim (handle-cases account request s) [
  | inl same ↦ rw same (record { now = i; found = here; advanced = leads_to_refl i.status })
  | inr (invoice, made, left) ↦
      rw left (execute-Advanced account request id i invoice s h here made)
]

-- From a sound invoice table, over any sequence of validated requests, those that raise included, no
-- invoice disappears, and the status of each ends as it was or as one that STATUS_TRANSITIONS allows
-- after it: a paid or a cancelled invoice stays that.
pub serve-status_advances :
    (requests : List (Account × Request)) (s : Db) (id : ℕ) (i : Invoice)
    → AllValid requests
    → IsSound s
    → row id s ≡ some i
    → Advanced id i (serve requests s)
unfolding serve
serve-status_advances [] s id i valid h here = record {
  now = i;
  found = here;
  advanced = leads_to_refl i.status;
}
serve-status_advances ((account, request) ∷ rest) s id i valid h here =
    let step = handle-Advanced account request id i s h here in
    let later =
      serve-status_advances rest (handle account request s).1 id step.now valid.1
        (handle-IsSound account request s valid.0 h) step.found in
    record {
      now = later.now;
      found = later.found;
      advanced =
          leads_to_trans i.status step.now.status later.now.status step.advanced later.advanced;
    }
