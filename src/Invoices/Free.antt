-- ===== src/Invoices/Free.antt =====
-- The loop of `generate_invoice_number` ends at a number that no row of the association has.
use nestora_server.Prelude.{
  ℕ, zero, suc, ◌+◌, ◌<◌, ◌≡◌, refl, sym, ◌∙◌, Bool, true, false, ◌⊎◌, inl, inr, none, arith,
  Bool-cases,
}
use nestora_server.Prelude.Table.{exists, length}
use nestora_server.Prelude.Pigeonhole.{pigeonhole}
use nestora_server.Prelude.Text.{Text, lower, strip, text_eq→eq}
use nestora_server.Http.{ok}
use nestora_server.Invoices.Data.{Invoice, Db}
use nestora_server.Invoices.Number.{invoice_number_text}
use nestora_server.Invoices.Digits.{invoice_number_text-injective, strip-invoice_number_text}
use nestora_server.Invoices.Repository.{has_number}
use nestora_server.Invoices.Service.{next_free_number, generate_invoice_number, existing_count}

module _ (s : Db) (association_id : ℕ) where
  abbrev IsFree : Text → Type 0
  IsFree number = exists (has_number association_id number none) s.invoices ≡ false

  abbrev blocks : ℕ → Invoice → Bool
  blocks j = has_number association_id (invoice_number_text s.year_month j) none

  same_number :
      (a b : Text) (i : Invoice)
      → has_number association_id a none i ≡ true
      → has_number association_id b none i ≡ true
      → lower (strip a) ≡ lower (strip b)
  same_number a b i p q =
      sym (text_eq→eq (lower i.invoice_number) (lower (strip a)) (ground arith))
      ∙ text_eq→eq (lower i.invoice_number) (lower (strip b)) (ground arith)

  -- The loop stops at a free number, or the rows block every number that it could try.
  next_free_number-cases :
      (fuel sequence : ℕ)
      → IsFree (next_free_number fuel s association_id sequence)
        ⊎ ((j : ℕ) → j < suc fuel → exists (blocks (sequence + j)) s.invoices ≡ true)
  unfolding next_free_number
  next_free_number-cases zero n = elim (Bool-cases (exists (blocks n) s.invoices)) [
    | inr free ↦ inl free
    | inl taken ↦ inr (λ j h. let e : n + j ≡ n = omega arith in rw e taken)
  ]
  next_free_number-cases (suc fuel) n = elim (Bool-cases (exists (blocks n) s.invoices)) [
    | inr free ↦ inl (rw (free, free))
    | inl taken ↦ elim (next_free_number-cases fuel (n + 1)) [
      | inl free ↦ inl (rw taken free)
      | inr all ↦ inr (later taken all)
    ]
  ]
    where
      later :
          exists (blocks n) s.invoices ≡ true
          → ((j : ℕ) → j < suc fuel → exists (blocks (n + 1 + j)) s.invoices ≡ true)
          → (j : ℕ) → j < suc (suc fuel)
          → exists (blocks (n + j)) s.invoices ≡ true
      later taken all zero h = let e : n + 0 ≡ n = omega arith in rw e taken
      later taken all (suc j) h =
          let e : n + suc j ≡ n + 1 + j = omega arith in rw e (all j (omega arith))

  next_free_number-IsFree :
      (sequence : ℕ) → IsFree (next_free_number (length s.invoices) s association_id sequence)
  next_free_number-IsFree n = elim (next_free_number-cases (length s.invoices) n) [
    | inl free ↦ free
    | inr all ↦
        absurd
          (omega (arith, pigeonhole blocks one_number (suc (length s.invoices)) n s.invoices all))
  ]
    where
      one_number : (i j : ℕ) (x : Invoice) → blocks i x ≡ true → blocks j x ≡ true → i ≡ j
      one_number i j x p q = invoice_number_text-injective s.year_month i j (
          same_number (invoice_number_text s.year_month i) (invoice_number_text s.year_month j) x p
            q)

  next_free_number-strip :
      (fuel sequence : ℕ)
      → strip (next_free_number fuel s association_id sequence)
        ≡ next_free_number fuel s association_id sequence
  unfolding next_free_number
  next_free_number-strip zero n = strip-invoice_number_text s.year_month n
  next_free_number-strip (suc fuel) n = elim (Bool-cases (exists (blocks n) s.invoices)) [
    | inr free ↦ rw free (strip-invoice_number_text s.year_month n)
    | inl taken ↦ rw taken (next_free_number-strip fuel (n + 1))
  ]

-- The loop ends: within as many rounds as there are rows it reaches a number that no row of the
-- association has, deleted rows included and case ignored, and that number has no white space at its
-- ends.
pub generate_invoice_number_free :
    (association_id : ℕ) (s : Db)
    → (number : Text) × (generate_invoice_number association_id s ≡ (ok number, s))
      × (exists (has_number association_id number none) s.invoices ≡ false)
      × (strip number ≡ number)
unfolding generate_invoice_number
generate_invoice_number_free association_id s =
    let sequence = existing_count association_id s.invoices + 1 in
    (
      next_free_number (length s.invoices) s association_id sequence,
      refl,
      next_free_number-IsFree s association_id sequence,
      next_free_number-strip s association_id (length s.invoices) sequence,
    )
