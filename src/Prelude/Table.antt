-- ===== src/Prelude/Table.antt =====
-- Database tables as lists of rows: the SELECT, UPDATE and INSERT statements that the repositories
-- send, and the laws of reading after writing.
use Prim.Native.Nat.{ℕ, suc, ◌+◌}
use mathlib.Core.Path.{◌≡◌, refl, subst}
use mathlib.Core.Bool.{Bool, true, false}
use mathlib.Core.Option.{Option, none, some}
use mathlib.Core.List.{List, [], ◌∷◌, ◌++◌}
use native.Mathlib.Omega.{arith}
use nestora_server.Prelude.Tests.{if◌then◌else◌, ltb}

-- A predicate on every row.
abbrev pub All {ℓ κ} : {A : Type ℓ} → (A → Type κ) → List A → Type κ
All P [] = Unit
All P (x ∷ xs) = P x × All P xs

module _ {ℓ} {A : Type ℓ} where
  -- `SELECT * … WHERE p LIMIT 1`
  unfoldable pub first : (A → Bool) → List A → Option A
  first p [] = none
  first p (x ∷ xs) = if p x then some x else first p xs

  -- `UPDATE … SET f WHERE p`
  unfoldable pub update : (A → Bool) → (A → A) → List A → List A
  update p f [] = []
  update p f (x ∷ xs) = (if p x then f x else x) ∷ update p f xs

  -- `INSERT INTO …`
  abbrev pub insert : A → List A → List A
  insert x xs = xs ++ x ∷ []

  -- Whether some row satisfies the condition.
  unfoldable pub exists : (A → Bool) → List A → Bool
  exists p [] = false
  exists p (x ∷ xs) = if p x then true else exists p xs

  -- `SELECT COALESCE(SUM(f), 0) … WHERE p`
  unfoldable pub sum_where : (A → Bool) → (A → ℕ) → List A → ℕ
  sum_where p f [] = 0
  sum_where p f (x ∷ xs) = (if p x then f x else 0) + sum_where p f xs

  -- `SELECT * … WHERE p ORDER BY at DESC LIMIT 1`
  unfoldable pub latest : (A → Bool) → (A → ℕ) → List A → Option A
  latest p at [] = none
  latest p at (x ∷ xs) =
      let rest = latest p at xs in
      if p x
      then elim rest [ none ↦ some x | some y ↦ if ltb (at x) (at y) then some y else some x ]
      else rest

  unfoldable pub length : List A → ℕ
  length [] = 0
  length (x ∷ xs) = suc (length xs)

module _ {ℓ} {A : Type ℓ} where
  pub first-holds : (p : A → Bool) (xs : List A) (x : A) → first p xs ≡ some x → p x ≡ true
  unfolding first
  first-holds p [] x h = ground arith
  first-holds p (y ∷ xs) x h = ground (arith, first-holds p xs x)

  pub exists-insert :
      (p : A → Bool) (x : A) (xs : List A) → p x ≡ true → exists p (insert x xs) ≡ true
  unfolding exists
  exists-insert p x [] h = ground arith
  exists-insert p x (y ∷ xs) h = ground (arith, exists-insert p x xs h)

  pub exists-insert_of :
      (p : A → Bool) (x : A) (xs : List A) → exists p xs ≡ true → exists p (insert x xs) ≡ true
  unfolding exists
  exists-insert_of p x [] h = ground arith
  exists-insert_of p x (y ∷ xs) h = ground (arith, exists-insert_of p x xs)

  pub length-update : (p : A → Bool) (f : A → A) (xs : List A) → length (update p f xs) ≡ length xs
  unfolding length update
  length-update p f [] = refl
  length-update p f (x ∷ xs) = ground (arith, length-update p f xs)

  pub length-insert : (x : A) (xs : List A) → length (insert x xs) ≡ length xs + 1
  unfolding length
  length-insert x [] = omega arith
  length-insert x (y ∷ xs) = omega (arith, length-insert x xs)

pub some_eq {ℓ} : {A : Type ℓ} (x y : A) → some x ≡ some y → x ≡ y
some_eq x y e = cc

module _ {ℓ κ} {A : Type ℓ} (P : A → Type κ) where
  pub All-insert : (x : A) (xs : List A) → All P xs → P x → All P (insert x xs)
  All-insert x [] h hx = (hx, tt)
  All-insert x (y ∷ xs) h hx = (h.0, All-insert x xs h.1 hx)

  -- An update keeps a predicate that it keeps on the rows that it changes.
  pub All-update :
      (p : A → Bool) (f : A → A) (xs : List A)
      → All P xs
      → ((x : A) → p x ≡ true → P x → P (f x))
      → All P (update p f xs)
  unfolding update
  All-update p f [] h k = tt
  All-update p f (x ∷ xs) h k = (keep (p x) refl, All-update p f xs h.1 k)
    where
      keep : (b : Bool) → p x ≡ b → P (if b then f x else x)
      keep true e = k x e h.0
      keep false e = h.0

  pub All-first : (p : A → Bool) (xs : List A) (x : A) → All P xs → first p xs ≡ some x → P x
  unfolding first
  All-first p [] x h e = absurd (cc)
  All-first p (y ∷ xs) x h e = pick (p y) e (All-first p xs x h.1)
    where
      pick :
          (b : Bool)
          → (if b then some y else first p xs) ≡ some x
          → (first p xs ≡ some x → P x)
          → P x
      pick true q later = subst P (some_eq y x q) h.0
      pick false q later = later q
