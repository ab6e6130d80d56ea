-- ===== src/Invoices/Unique.antt =====
-- Rows of the invoice table that differ in id, and within an association in number.
use nestora_server.Prelude.{
  ℕ, ◌≡◌, refl, Bool, true, false, Option, ◌&&◌, ◌==◌, List, [], ◌∷◌, Bool-cases, inl, inr, arith,
  if◌then◌else◌,
}
use nestora_server.Prelude.Table.{All, All-insert, exists, insert, update}
use nestora_server.Prelude.Text.{lower, strip, text_eq, text_eq_sym}
use nestora_server.Invoices.Data.{Invoice}
use nestora_server.Invoices.Repository.{has_number, not_excluded}
use nestora_server.Invoices.Effects.{replaced}

-- Two rows of one association whose numbers are the same up to case.
abbrev pub clash : Invoice → Invoice → Bool
clash i j =
    i.association_id == j.association_id
    && text_eq (lower i.invoice_number) (lower j.invoice_number)

pub record Apart (i j : Invoice) : Type 0 where
  pub ids : (i.id == j.id) ≡ false
  pub numbers : clash i j ≡ false

pub clash_sym : (i j : Invoice) → clash i j ≡ clash j i
clash_sym i j = ground (arith, text_eq_sym (lower i.invoice_number) (lower j.invoice_number))

Apart-sym : (i j : Invoice) → Apart i j → Apart j i
Apart-sym i j h = record { ids = ground (arith, h.ids); numbers = rw (clash_sym j i) h.numbers }

abbrev pub AllApart : List Invoice → Type 0
AllApart [] = Unit
AllApart (i ∷ rows) = All (Apart i) rows × AllApart rows

pub AllApart-insert :
    (x : Invoice) (rows : List Invoice)
    → AllApart rows
    → All (λ i. Apart i x) rows
    → AllApart (insert x rows)
AllApart-insert x [] h new = (tt, tt)
AllApart-insert x (i ∷ rows) h new =
    (All-insert (Apart i) x rows h.0 new.0, AllApart-insert x rows h.1 new.1)

-- Every other row is apart from the new version of a row.
abbrev pub OthersApart : Invoice → List Invoice → Type 0
OthersApart x = All (λ i. (i.id == x.id) ≡ false → clash i x ≡ false)

-- Rows apart from one with the id of `x` are not replaced by `x`, and are apart from it.
replaced-Apart :
    (x y : Invoice) (rows : List Invoice)
    → (y.id == x.id) ≡ true
    → All (Apart y) rows
    → OthersApart x rows
    → All (Apart x) (replaced x rows)
unfolding update
replaced-Apart x y [] e h o = tt
replaced-Apart x y (z ∷ rows) e h o =
    let other : (z.id == x.id) ≡ false = ground (arith, h.0.ids) in
    (
      rw other (Apart-sym z x (record { ids = other; numbers = o.0 other })),
      replaced-Apart x y rows e h.1 o.1,
    )

kept-Apart :
    (x y : Invoice) (rows : List Invoice)
    → Apart y x
    → All (Apart y) rows
    → All (Apart y) (replaced x rows)
unfolding update
kept-Apart x y [] a h = tt
kept-Apart x y (z ∷ rows) a h = (pick (z.id == x.id), kept-Apart x y rows a h.1)
  where
    pick : (b : Bool) → Apart y (if b then x else z)
    pick true = a
    pick false = h.0

pub AllApart-replaced :
    (x : Invoice) (rows : List Invoice)
    → AllApart rows
    → OthersApart x rows
    → AllApart (replaced x rows)
unfolding update
AllApart-replaced x [] h o = tt
AllApart-replaced x (y ∷ rows) h o = elim (Bool-cases (y.id == x.id)) [
  | inl same ↦ rw same (replaced-Apart x y rows same h.0 o.1, AllApart-replaced x rows h.1 o.1)
  | inr other ↦ rw other (
    kept-Apart x y rows (record { ids = other; numbers = o.0 other }) h.0,
    AllApart-replaced x rows h.1 o.1,
  )
]

-- A number that the check finds free clashes with no row but the excluded one.
pub free-clash :
    (x : Invoice) (excluding : Option ℕ) (rows : List Invoice)
    → strip x.invoice_number ≡ x.invoice_number
    → exists (has_number x.association_id x.invoice_number excluding) rows ≡ false
    → All (λ i. not_excluded excluding i.id ≡ true → clash i x ≡ false) rows
unfolding exists
free-clash x excluding [] stripped free = tt
free-clash x excluding (i ∷ rows) stripped free =
    elim (Bool-cases (has_number x.association_id x.invoice_number excluding i)) [
      | inl taken ↦ absurd (ground arith)
      | inr fine ↦ (not_clash fine, free-clash x excluding rows stripped (ground arith))
    ]
  where
    not_clash :
        has_number x.association_id x.invoice_number excluding i ≡ false
        → not_excluded excluding i.id ≡ true
        → clash i x ≡ false
    not_clash fine counted =
        let same : text_eq (lower i.invoice_number) (lower (strip x.invoice_number))
            ≡ text_eq (lower i.invoice_number) (lower x.invoice_number) =
          rw stripped refl in
        ground arith
