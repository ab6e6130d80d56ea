-- ===== src/Prelude/Keys.antt =====
-- Tables with a primary key, and how a table may change over time.
use Prim.Native.Nat.{ℕ, ◌+◌, ◌≤◌, ◌<◌}
use mathlib.Core.Path.{◌≡◌, refl, ◌∙◌, subst}
use mathlib.Core.Logic.{inl, inr}
use mathlib.Core.Bool.{Bool, true, false, ◌&&◌}
use mathlib.Core.Option.{none, some}
use mathlib.Core.List.{List, [], ◌∷◌, ◌++◌}
use native.Mathlib.Omega.{arith}
use nestora_server.Prelude.Tests.{if◌then◌else◌, ◌==◌, Bool-cases}
use nestora_server.Prelude.Table.{
  All, first, exists, latest, sum_where, update, insert, some_eq, All-update, All-insert, All-first,
}

module _ {ℓ} {A : Type ℓ} (key : A → ℕ) where
  -- No two rows have the same key.
  abbrev pub Keyed : List A → Type 0
  Keyed [] = Unit
  Keyed (x ∷ xs) = All (λ y. (key y == key x) ≡ false) xs × Keyed xs

  -- Every key is below the next one that is handed out.
  abbrev pub KeysBelow : ℕ → List A → Type 0
  KeysBelow n xs = All (λ x. key x < n) xs

  pub KeysBelow-weaken : (m n : ℕ) (xs : List A) → m ≤ n → KeysBelow m xs → KeysBelow n xs
  KeysBelow-weaken m n [] le h = tt
  KeysBelow-weaken m n (x ∷ xs) le h =
      let low = h.0 in (omega arith, KeysBelow-weaken m n xs le h.1)

  pub KeysBelow-update :
      (n : ℕ) (p : A → Bool) (f : A → A) (xs : List A)
      → ((x : A) → key (f x) ≡ key x)
      → KeysBelow n xs
      → KeysBelow n (update p f xs)
  KeysBelow-update n p f xs same h =
      All-update (λ x. key x < n) p f xs h (λ x e low. rw (same x) low)

  pub Keyed-update :
      (p : A → Bool) (f : A → A) (xs : List A)
      → ((x : A) → key (f x) ≡ key x)
      → Keyed xs
      → Keyed (update p f xs)
  unfolding update
  Keyed-update p f [] same h = tt
  Keyed-update p f (x ∷ xs) same h =
      let apart = All-update (λ y. (key y == key x) ≡ false) p f xs h.0 (λ y e a. rw (same y) a) in
      let own : key (if p x then f x else x) ≡ key x = elim (Bool-cases (p x)) [
        | inl e ↦ rw e (same x)
        | inr e ↦ rw e
      ] in
      (rw own apart, Keyed-update p f xs same h.1)

  pub Keyed-insert :
      (n : ℕ) (x : A) (xs : List A) → Keyed xs → KeysBelow n xs → n ≤ key x → Keyed (insert x xs)
  Keyed-insert n x [] h low le = (tt, tt)
  Keyed-insert n x (y ∷ ys) h low le =
      let here = low.0 in
      let apart : (key x == key y) ≡ false = ground arith in
      (All-insert (λ z. (key z == key y) ≡ false) x ys h.0 apart, Keyed-insert n x ys h.1 low.1 le)

  -- The row that a query finds is the only one with its key.
  pub Keyed-first :
      (p : A → Bool) (xs : List A) (x : A)
      → Keyed xs
      → first p xs ≡ some x
      → All (λ y. (key y == key x) ≡ true → y ≡ x) xs
  unfolding first
  Keyed-first p [] x h e = tt
  Keyed-first p (y ∷ ys) x h e = elim (Bool-cases (p y)) [
    | inl hit ↦
        let same : y ≡ x = some_eq y x (rw hit at e) in
        (λ k. same, others ys (subst (λ z. All (λ w. (key w == key z) ≡ false) ys) same h.0))
    | inr miss ↦
        let later : first p ys ≡ some x = rw miss at e in
        let apart : (key x == key y) ≡ false =
          All-first (λ z. (key z == key y) ≡ false) p ys x h.0 later in
        (λ k. absurd (ground arith), Keyed-first p ys x h.1 later)
  ]
    where
      others :
          (zs : List A)
          → All (λ w. (key w == key x) ≡ false) zs
          → All (λ w. (key w == key x) ≡ true → w ≡ x) zs
      others [] a = tt
      others (z ∷ zs) a = let off = a.0 in (λ k. absurd (ground arith), others zs a.1)

module _ {ℓ κ μ} {A : Type ℓ} (P : A → Type κ) (Q : A → Type μ) where
  pub All-map : ((x : A) → P x → Q x) → (xs : List A) → All P xs → All Q xs
  All-map f [] h = tt
  All-map f (x ∷ xs) h = (f x h.0, All-map f xs h.1)

module _ {ℓ κ} {A : Type ℓ} (P : A → Type κ) where
  pub All-every : ((x : A) → P x) → (xs : List A) → All P xs
  All-every f [] = tt
  All-every f (x ∷ xs) = (f x, All-every f xs)

-- Each row of the first table has become, by `R`, the row in its place of the second, and the rows that
-- came after these satisfy `New`.
module _ {ℓ} {A : Type ℓ} (R : A → A → Type 0) (New : A → Type 0) where
  abbrev pub Evolves : List A → List A → Type 0
  Evolves [] ys = All New ys
  Evolves (x ∷ xs) [] = ⊥
  Evolves (x ∷ xs) (y ∷ ys) = R x y × Evolves xs ys

  module _ (R_refl : (x : A) → R x x) where
    pub Evolves-refl : (xs : List A) → Evolves xs xs
    Evolves-refl [] = tt
    Evolves-refl (x ∷ xs) = (R_refl x, Evolves-refl xs)

    pub Evolves-insert : (x : A) (xs : List A) → New x → Evolves xs (insert x xs)
    Evolves-insert x [] n = (n, tt)
    Evolves-insert x (y ∷ ys) n = (R_refl y, Evolves-insert x ys n)

    pub Evolves-update :
        (p : A → Bool) (f : A → A) (xs : List A)
        → All (λ x. p x ≡ true → R x (f x)) xs
        → Evolves xs (update p f xs)
    unfolding update
    Evolves-update p f [] h = tt
    Evolves-update p f (x ∷ xs) h = elim (Bool-cases (p x)) [
      | inl e ↦ rw e (h.0 e, Evolves-update p f xs h.1)
      | inr e ↦ rw e (R_refl x, Evolves-update p f xs h.1)
    ]

  module _ (R_trans : (x y z : A) → R x y → R y z → R x z)
      (grown : (x y : A) → New x → R x y → New y) where
    pub Evolves-trans : (xs ys zs : List A) → Evolves xs ys → Evolves ys zs → Evolves xs zs
    Evolves-trans [] [] zs h k = k
    Evolves-trans [] (y ∷ ys) [] h k = absurd k
    Evolves-trans [] (y ∷ ys) (z ∷ zs) h k = (grown y z h.0 k.0, Evolves-trans [] ys zs h.1 k.1)
    Evolves-trans (x ∷ xs) [] zs h k = absurd h
    Evolves-trans (x ∷ xs) (y ∷ ys) [] h k = absurd k
    Evolves-trans (x ∷ xs) (y ∷ ys) (z ∷ zs) h k =
        (R_trans x y z h.0 k.0, Evolves-trans xs ys zs h.1 k.1)

module _ {ℓ κ μ} {A : Type ℓ} (P : A → Type κ) (Q : A → Type μ) where
  pub All-both : (xs : List A) → All P xs → All Q xs → All (λ x. P x × Q x) xs
  All-both [] h k = tt
  All-both (x ∷ xs) h k = ((h.0, k.0), All-both xs h.1 k.1)

  -- An update takes a predicate to another.
  pub All-update_to :
      (p : A → Bool) (f : A → A) (xs : List A)
      → ((x : A) → p x ≡ true → P x → Q (f x))
      → ((x : A) → p x ≡ false → P x → Q x)
      → All P xs
      → All Q (update p f xs)
  unfolding update
  All-update_to p f [] hit miss h = tt
  All-update_to p f (x ∷ xs) hit miss h = elim (Bool-cases (p x)) [
    | inl e ↦ rw e (hit x e h.0, All-update_to p f xs hit miss h.1)
    | inr e ↦ rw e (miss x e h.0, All-update_to p f xs hit miss h.1)
  ]

module _ {ℓ} {A : Type ℓ} where
  pub latest-none :
      (p : A → Bool) (at : A → ℕ) (xs : List A)
      → latest p at xs ≡ none
      → sum_where p (λ x. 1) xs ≡ 0
  unfolding latest sum_where
  latest-none p at [] e = refl
  latest-none p at (x ∷ xs) e = elim (Bool-cases (p x)) [
    | inl hit ↦ absurd (ground arith)
    | inr miss ↦ let rest = latest-none p at xs (rw miss at e) in ground arith
  ]

  pub sum_where-insert :
      (p : A → Bool) (x : A) (xs : List A)
      → sum_where p (λ y. 1) (insert x xs) ≡ sum_where p (λ y. 1) xs + (if p x then 1 else 0)
  unfolding sum_where
  sum_where-insert p x [] = omega arith
  sum_where-insert p x (y ∷ ys) = omega (arith, sum_where-insert p x ys)

  pub sum_where-update :
      (p q : A → Bool) (f : A → A) (xs : List A)
      → ((x : A) → p (f x) ≡ true → p x ≡ true)
      → sum_where p (λ x. 1) (update q f xs) ≤ sum_where p (λ x. 1) xs
  unfolding sum_where update
  sum_where-update p q f [] h = omega arith
  sum_where-update p q f (x ∷ xs) h =
      let rest = sum_where-update p q f xs h in let here = h x in ground arith

  -- A query after an update that does not change what it asks.
  pub first-update :
      (p q : A → Bool) (f : A → A) (xs : List A) (x : A)
      → ((y : A) → p (f y) ≡ p y)
      → first p xs ≡ some x
      → q x ≡ true
      → first p (update q f xs) ≡ some (f x)
  unfolding first update
  first-update p q f [] x same e h = absurd (cc)
  first-update p q f (y ∷ ys) x same e h = elim (Bool-cases (p y)) [
    | inl hit ↦
        let own : y ≡ x = some_eq y x (rw hit at e) in
        let chosen : q y ≡ true = rw own h in
        let still : p (f y) ≡ true = same y ∙ hit in rw (chosen, still, own)
    | inr miss ↦
        let later : first p ys ≡ some x = rw miss at e in
        let still : p (if q y then f y else y) ≡ false = elim (Bool-cases (q y)) [
          | inl c ↦ rw c (same y ∙ miss)
          | inr c ↦ rw c miss
        ] in
        rw still (first-update p q f ys x same later h)
  ]

  pub first_exists :
      (p q : A → Bool) (xs : List A) (x : A) → first p xs ≡ some x → q x ≡ true → exists q xs ≡ true
  unfolding first exists
  first_exists p q [] x e h = absurd (cc)
  first_exists p q (y ∷ ys) x e h = elim (Bool-cases (p y)) [
    | inl hit ↦ let own : y ≡ x = some_eq y x (rw hit at e) in rw (own, h)
    | inr miss ↦ let rest = first_exists p q ys x (rw miss at e) h in ground arith
  ]

  pub first_narrowed :
      (p q : A → Bool) (xs : List A) (x : A)
      → first p xs ≡ some x
      → q x ≡ true
      → first (λ y. p y && q y) xs ≡ some x
  unfolding first
  first_narrowed p q [] x e h = absurd (cc)
  first_narrowed p q (y ∷ ys) x e h = elim (Bool-cases (p y)) [
    | inl hit ↦
        let own : y ≡ x = some_eq y x (rw hit at e) in
        let chosen : q y ≡ true = rw own h in rw (hit, chosen, own)
    | inr miss ↦ rw miss (first_narrowed p q ys x (rw miss at e) h)
  ]

  pub exists-update :
      (p q : A → Bool) (f : A → A) (xs : List A)
      → ((y : A) → p (f y) ≡ p y)
      → exists p (update q f xs) ≡ exists p xs
  unfolding exists update
  exists-update p q f [] same = refl
  exists-update p q f (y ∷ ys) same =
      let here = same y in let rest = exists-update p q f ys same in ground arith

  pub sum_where-first :
      (p : A → Bool) (xs : List A) → exists p xs ≡ false → sum_where p (λ x. 1) xs ≡ 0
  unfolding exists sum_where
  sum_where-first p [] e = refl
  sum_where-first p (x ∷ xs) e = let rest = sum_where-first p xs in ground arith

  pub exists-append :
      (p : A → Bool) (xs ys : List A) → exists p xs ≡ true → exists p (xs ++ ys) ≡ true
  unfolding exists
  exists-append p [] ys e = absurd (cc)
  exists-append p (x ∷ xs) ys e = let rest = exists-append p xs ys in ground arith

  pub sum_where-All :
      (p : A → Bool) (xs : List A) → All (λ x. p x ≡ false) xs → sum_where p (λ x. 1) xs ≡ 0
  unfolding sum_where
  sum_where-All p [] h = refl
  sum_where-All p (x ∷ xs) h = let here = h.0 in let rest = sum_where-All p xs h.1 in ground arith
