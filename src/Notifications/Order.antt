-- ===== src/Notifications/Order.antt =====
-- The order of an inbox: sorting, and what a cursor cuts off a sorted list.
use nestora_server.Prelude.{
  ◌≡◌, ◌∙◌, refl, Bool, true, false, List, [], ◌∷◌, Bool-cases, inl, inr, ◌||◌, if◌then◌else◌,
  arith,
}
use nestora_server.Prelude.Table.{All}
use nestora_server.Notifications.Repository.{Item, cursor_of, below, filter, insert_item, sort}

-- Each row comes before the later ones.
abbrev pub Descends : List Item → Type 0
Descends [] = Unit
Descends (i ∷ is) = All (λ j. below (cursor_of i) j ≡ true) is × Descends is

-- No two rows have the same time and id.
abbrev pub apart : Item → Item → Bool
apart i j = below (cursor_of i) j || below (cursor_of j) i

abbrev pub Distinct : List Item → Type 0
Distinct [] = Unit
Distinct (i ∷ is) = All (λ j. apart i j ≡ true) is × Distinct is

below_trans :
    (i j k : Item)
    → below (cursor_of i) j ≡ true
    → below (cursor_of j) k ≡ true
    → below (cursor_of i) k ≡ true
below_trans i j k p q = ground arith

below_asym : (i j : Item) → below (cursor_of i) j ≡ true → below (cursor_of j) i ≡ false
below_asym i j p = ground arith

All-below :
    (i j : Item) (is : List Item)
    → below (cursor_of i) j ≡ true
    → All (λ k. below (cursor_of j) k ≡ true) is
    → All (λ k. below (cursor_of i) k ≡ true) is
All-below i j [] p h = tt
All-below i j (k ∷ is) p h = (below_trans i j k p h.0, All-below i j is p h.1)

All-insert_item {κ} :
    (P : Item → Type κ) (i : Item) (js : List Item) → P i → All P js → All P (insert_item i js)
unfolding insert_item
All-insert_item P i [] hi h = (hi, tt)
All-insert_item P i (j ∷ js) hi h = elim (Bool-cases (below (cursor_of i) j)) [
  | inl before ↦ rw before (hi, h)
  | inr after ↦ rw after (h.0, All-insert_item P i js hi h.1)
]

All-sort {κ} : (P : Item → Type κ) (is : List Item) → All P is → All P (sort is)
unfolding sort
All-sort P [] h = tt
All-sort P (i ∷ is) h = All-insert_item P i (sort is) h.0 (All-sort P is h.1)

insert_item-Descends :
    (i : Item) (js : List Item)
    → All (λ j. apart i j ≡ true) js
    → Descends js
    → Descends (insert_item i js)
unfolding insert_item
insert_item-Descends i [] a h = (tt, tt)
insert_item-Descends i (j ∷ js) a h = elim (Bool-cases (below (cursor_of i) j)) [
  | inl before ↦ rw before ((before, All-below i j js before h.0), h)
  | inr after ↦
      let p = a.0 in
      let j_first : below (cursor_of j) i ≡ true = ground arith in
      rw after (
        All-insert_item (λ k. below (cursor_of j) k ≡ true) i js j_first h.0,
        insert_item-Descends i js a.1 h.1,
      )
]

pub sort-Descends : (is : List Item) → Distinct is → Descends (sort is)
unfolding sort
sort-Descends [] h = tt
sort-Descends (i ∷ is) h =
    insert_item-Descends i (sort is) (All-sort (λ j. apart i j ≡ true) is h.0)
      (sort-Descends is h.1)

module _ (p : Item → Bool) where
  All-filter {κ} : (P : Item → Type κ) (is : List Item) → All P is → All P (filter p is)
  unfolding filter
  All-filter P [] h = tt
  All-filter P (i ∷ is) h = elim (Bool-cases (p i)) [
    | inl here ↦ rw here (h.0, All-filter P is h.1)
    | inr gone ↦ rw gone (All-filter P is h.1)
  ]

  pub filter-Descends : (is : List Item) → Descends is → Descends (filter p is)
  unfolding filter
  filter-Descends [] h = tt
  filter-Descends (i ∷ is) h = elim (Bool-cases (p i)) [
    | inl here ↦
        rw here (All-filter (λ j. below (cursor_of i) j ≡ true) is h.0, filter-Descends is h.1)
    | inr gone ↦ rw gone (filter-Descends is h.1)
  ]

insert_first :
    (i : Item) (js : List Item)
    → All (λ j. below (cursor_of i) j ≡ true) js
    → insert_item i js ≡ i ∷ js
unfolding insert_item
insert_first i [] h = refl
insert_first i (j ∷ js) h = rw h.0

filter-insert_item :
    (p : Item → Bool) (i : Item) (js : List Item)
    → Descends js
    → filter p (insert_item i js) ≡ (if p i then insert_item i (filter p js) else filter p js)
unfolding filter insert_item
filter-insert_item p i [] h = refl
filter-insert_item p i (j ∷ js) h = elim (Bool-cases (below (cursor_of i) j)) [
  | inl before ↦
      let all =
        All-filter p (λ k. below (cursor_of i) k ≡ true) (j ∷ js)
          (before, All-below i j js before h.0) in
      let first = insert_first i (filter p (j ∷ js)) all in rw before (ground (arith, first))
  | inr after ↦ rw after (ground (arith, filter-insert_item p i js h.1))
]

-- Filtering a sorted list is sorting a filtered one.
pub filter-sort :
    (p : Item → Bool) (is : List Item) → Distinct is → filter p (sort is) ≡ sort (filter p is)
unfolding sort
filter-sort p [] h = unfold filter in refl
filter-sort p (i ∷ is) h =
    let moved = filter-insert_item p i (sort is) (sort-Descends is h.1) in
    elim (Bool-cases (p i)) [
      | inl here ↦ moved ∙ rw (here, filter-sort p is h.1) (unfold filter in rw here)
      | inr gone ↦ moved ∙ rw (gone, filter-sort p is h.1) (unfold filter in rw gone)
    ]
