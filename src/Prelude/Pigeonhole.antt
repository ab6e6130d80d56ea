-- ===== src/Prelude/Pigeonhole.antt =====
-- Numbered tests of which a row passes at most one: as many that all find a row need as many rows.
use Prim.Native.Nat.{ℕ, zero, suc, ◌+◌, ◌≤◌, ◌<◌}
use mathlib.Core.Path.{◌≡◌}
use mathlib.Core.Logic.{inl, inr}
use mathlib.Core.Bool.{Bool, true}
use mathlib.Core.List.{List, [], ◌∷◌}
use native.Mathlib.Omega.{arith}
use native.Mathlib.Nat.{add-zero}
use nestora_server.Prelude.Tests.{if◌then◌else◌, Bool-cases}
use nestora_server.Prelude.Table.{exists, length}

module _ {ℓ} {A : Type ℓ} where
  -- Without the first row that passes.
  without : (A → Bool) → List A → List A
  without p [] = []
  without p (x ∷ xs) = if p x then xs else x ∷ without p xs

  length-without :
      (p : A → Bool) (xs : List A) → exists p xs ≡ true → length xs ≡ suc (length (without p xs))
  unfolding without exists length
  length-without p [] h = ground arith
  length-without p (x ∷ xs) h = ground (arith, length-without p xs)

  exists-without :
      (p q : A → Bool) (xs : List A)
      → ((x : A) → p x ≡ true → q x ≡ true → ⊥)
      → exists q xs ≡ true
      → exists q (without p xs) ≡ true
  unfolding without exists
  exists-without p q [] apart h = h
  exists-without p q (x ∷ xs) apart h = elim (Bool-cases (p x)) [
    | inl px ↦ elim (Bool-cases (q x)) [
      | inl qx ↦ absurd (apart x px qx)
      | inr other ↦ ground arith
    ]
    | inr other ↦ ground (arith, exists-without p q xs apart)
  ]

module _ {ℓ} {A : Type ℓ} (test : ℕ → A → Bool)
    (unique : (i j : ℕ) (x : A) → test i x ≡ true → test j x ≡ true → i ≡ j) where
  pub pigeonhole :
      (n start : ℕ) (xs : List A)
      → ((j : ℕ) → j < n → exists (test (start + j)) xs ≡ true)
      → n ≤ length xs
  pigeonhole zero start xs taken = omega arith
  pigeonhole (suc n) start xs taken =
      let here : exists (test start) xs ≡ true = rw (add-zero start) at (taken 0 (omega arith)) in
      let rest = pigeonhole n (suc start) (without (test start) xs) (λ j h.
        exists-without (test start) (test (suc start + j)) xs
          (λ x p q. absurd (omega (arith, unique start (suc start + j) x p q)))
          (rw (shift start j) at (taken (suc j) (omega arith)))) in
      omega (arith, length-without (test start) xs here, rest)
    where
      shift : (a b : ℕ) → a + suc b ≡ suc a + b
      shift a b = omega arith
