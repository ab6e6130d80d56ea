-- ===== src/Invoices/Sound.antt =====
-- Sequences of invoice requests keep the invariant of the invoice table.
use nestora_server.Prelude.{◌≡◌, ◌⊎◌, inl, inr, none, List, [], ◌∷◌, arith}
use nestora_server.Http.{Result-cases, ok, unit_of_work}
use nestora_server.Account.{Account}
use nestora_server.Invoices.Data.{Invoice, Db, paid_status_requires_date}
use nestora_server.Invoices.Handler.{Request, execute, handle, serve}
use nestora_server.Invoices.Effects.{
  create-Created, update-Updated, update_status-StatusUpdated, delete-Deleted,
}
use nestora_server.Invoices.Consistent.{IsSound, IsValid}
use nestora_server.Invoices.Kept.{
  Created-IsSound, Updated-IsSound, StatusUpdated-IsSound, Deleted-IsSound,
}

-- The payload passed its validators.
abbrev pub IsValidRequest : Request → Type 0
IsValidRequest (Request.create_invoice p) = IsValid p
IsValidRequest (Request.update_invoice id p) = IsValid p
IsValidRequest (Request.update_invoice_status id p) = paid_status_requires_date p ≡ none
IsValidRequest (Request.delete_invoice id a) = Unit

abbrev pub AllValid : List (Account × Request) → Type 0
AllValid [] = Unit
AllValid ((account, request) ∷ rest) = IsValidRequest request × AllValid rest

-- A request that raises leaves the database as it was.
pub handle-cases :
    (account : Account) (request : Request) (s : Db)
    → ((handle account request s).1 ≡ s)
      ⊎ ((invoice : Invoice) × ((execute account request s).0 ≡ ok invoice)
          × ((handle account request s).1 ≡ (execute account request s).1))
unfolding handle unit_of_work
handle-cases account request s = elim (Result-cases (execute account request s).0) [
  | inl (e, raised) ↦ inl (ground arith)
  | inr (invoice, made) ↦ inr (invoice, made, ground arith)
]

execute-IsSound :
    (account : Account) (request : Request) (s : Db) (invoice : Invoice)
    → IsValidRequest request
    → IsSound s
    → (execute account request s).0 ≡ ok invoice
    → IsSound (execute account request s).1
unfolding execute
execute-IsSound account (Request.create_invoice p) s invoice valid h made =
    Created-IsSound account p s _ invoice valid h (create-Created account s p invoice made)
execute-IsSound account (Request.update_invoice id p) s invoice valid h made =
    Updated-IsSound account id p s _ invoice valid h (update-Updated account s id p invoice made)
execute-IsSound account (Request.update_invoice_status id p) s invoice valid h made =
    StatusUpdated-IsSound account id p s _ invoice valid h
      (update_status-StatusUpdated account s id p invoice made)
execute-IsSound account (Request.delete_invoice id a) s invoice valid h made =
    Deleted-IsSound account id a s _ invoice h (delete-Deleted account s id a invoice made)

pub handle-IsSound :
    (account : Account) (request : Request) (s : Db)
    → IsValidRequest request
    → IsSound s
    → IsSound (handle account request s).1
handle-IsSound account request s valid h = elim (handle-cases account request s) [
  | inl same ↦ rw same h
  | inr (invoice, made, left) ↦ rw left (execute-IsSound account request s invoice valid h made)
]

-- From a database whose invoice table is sound, any sequence of validated requests, those that raise
-- included, leaves it sound: no two rows share an id, or within an association a number up to case;
-- each row is due no earlier than issued, has a payment date, not before its issue date, exactly if
-- it is paid, and its grand total and discount are together its subtotal and tax.
pub serve-keeps_invoices :
    (requests : List (Account × Request)) (s : Db)
    → AllValid requests
    → IsSound s
    → IsSound (serve requests s)
unfolding serve
serve-keeps_invoices [] s valid h = h
serve-keeps_invoices ((account, request) ∷ rest) s valid h =
    serve-keeps_invoices rest (handle account request s).1 valid.1
      (handle-IsSound account request s valid.0 h)
