-- ===== src/Notifications/Paging.antt =====
-- Reading an inbox page by page.
use nestora_server.Prelude.{
  ℕ, zero, suc, ◌+◌, ◌-◌, ◌≤◌, ◌<◌, ◌≡◌, ◌∙◌, sym, ap, refl, Bool, true, false, Option, none, some,
  List, [], ◌∷◌, ◌++◌, Bool-cases, Option-cases, inl, inr, ltb, ◌==◌, ◌&&◌, ◌||◌, if◌then◌else◌,
  arith, subst,
}
use nestora_server.Prelude.Table.{All, length, some_eq}
use nestora_server.Notifications.Data.{Inbox}
use nestora_server.Notifications.Repository.{
  Cursor, Item, cursor_of, below, is_below, filter, sort, take, last_cursor, page_of, visible,
  list_page,
}
use nestora_server.Notifications.Order.{
  Descends, Distinct, sort-Descends, filter-Descends, filter-sort,
}

drop : ℕ → List Item → List Item
drop zero is = is
drop (suc n) [] = []
drop (suc n) (i ∷ is) = drop n is

take-append-drop : (n : ℕ) (is : List Item) → take n is ++ drop n is ≡ is
unfolding take drop
take-append-drop zero is = refl
take-append-drop (suc n) [] = refl
take-append-drop (suc n) (i ∷ is) = ap (λ (js : List Item). i ∷ js) (take-append-drop n is)

length-drop : (n : ℕ) (is : List Item) → length (drop n is) ≡ length is - n
unfolding drop length
length-drop zero is = omega arith
length-drop (suc n) [] = omega arith
length-drop (suc n) (i ∷ is) = omega (arith, length-drop n is)

take_all : (n : ℕ) (is : List Item) → length is ≤ n → take n is ≡ is
unfolding take length
take_all zero [] h = refl
take_all zero (i ∷ is) h = absurd (omega arith)
take_all (suc n) [] h = refl
take_all (suc n) (i ∷ is) h = ap (λ (js : List Item). i ∷ js) (take_all n is (omega arith))

-- The one row more that the query asks for shows whether there is a next page.
take_more : (n : ℕ) (is : List Item) → take n (take (suc n) is) ≡ take n is
unfolding take
take_more zero is = refl
take_more (suc n) [] = refl
take_more (suc n) (i ∷ is) = ap (λ (js : List Item). i ∷ js) (take_more n is)

length-take :
    (n : ℕ) (is : List Item) → length (take n is) ≡ (if ltb n (length is) then n else length is)
unfolding take length
length-take zero is = ground arith
length-take (suc n) [] = ground arith
length-take (suc n) (i ∷ is) = ground (arith, length-take n is)

page_of-take :
    (n : ℕ) (is : List Item)
    → page_of n (take (n + 1) is)
      ≡ (take n is, if ltb n (length is) then last_cursor (take n is) else none)
unfolding page_of
page_of-take n is =
    let one_more : n + 1 ≡ suc n = omega arith in
    rw (one_more, take_more n is) (ground (arith, length-take (suc n) is))

All-last {κ} :
    (P : Cursor → Type κ) (n : ℕ) (is : List Item) (c : Cursor)
    → All (λ i. P (cursor_of i)) is
    → last_cursor (take n is) ≡ some c
    → P c
unfolding take last_cursor
All-last P zero is c h e = absurd (cc)
All-last P (suc n) [] c h e = absurd (cc)
All-last P (suc zero) (i ∷ is) c h e = subst P (some_eq (cursor_of i) c e) h.0
All-last P (suc (suc n)) (i ∷ []) c h e = subst P (some_eq (cursor_of i) c e) h.0
All-last P (suc (suc n)) (i ∷ j ∷ is) c h e = All-last P (suc n) (j ∷ is) c h.1 e

filter-All : (p : Item → Bool) (is : List Item) → All (λ i. p i ≡ true) is → filter p is ≡ is
unfolding filter
filter-All p [] h = refl
filter-All p (i ∷ is) h = rw (h.0, filter-All p is h.1)

not_before :
    (i : Item) (is : List Item)
    → All (λ j. below (cursor_of i) j ≡ true) is
    → All (λ j. below (cursor_of j) i ≡ false) is
not_before i [] h = tt
not_before i (j ∷ is) h = let p = h.0 in (ground arith, not_before i is h.1)

-- The cursor of a page cuts off exactly the rows up to its end.
filter-last :
    (n : ℕ) (is : List Item) (c : Cursor)
    → Descends is
    → last_cursor (take n is) ≡ some c
    → filter (below c) is ≡ drop n is
unfolding take drop last_cursor filter
filter-last zero is c h e = absurd (cc)
filter-last (suc n) [] c h e = absurd (cc)
filter-last (suc zero) (i ∷ is) c h e =
    let own : below (cursor_of i) i ≡ false = ground arith in
    subst (λ (d : Cursor). filter (below d) (i ∷ is) ≡ is) (some_eq (cursor_of i) c e)
      (rw own (filter-All (below (cursor_of i)) is h.0))
filter-last (suc (suc n)) (i ∷ []) c h e =
    let own : below (cursor_of i) i ≡ false = ground arith in
    subst (λ (d : Cursor). filter (below d) (i ∷ []) ≡ []) (some_eq (cursor_of i) c e) (rw own)
filter-last (suc (suc n)) (i ∷ j ∷ is) c h e =
    let later : below c i ≡ false =
      All-last (λ d. below d i ≡ false) (suc n) (j ∷ is) c (not_before i (j ∷ is) h.0) e in
    rw later (filter-last (suc n) (j ∷ is) c h.1 e)

last_some : (n : ℕ) (is : List Item) → n < length is → last_cursor (take (suc n) is) ≡ none → ⊥
unfolding take last_cursor length
last_some n [] h e = omega arith
last_some zero (i ∷ is) h e = cc
last_some (suc n) (i ∷ []) h e = omega arith
last_some (suc n) (i ∷ j ∷ is) h e = last_some n (j ∷ is) (omega arith) e

-- What is below a row that is below `c` is below `c`.
filter-filter :
    (c : Option Cursor) (d : Cursor) (is : List Item)
    → ((i : Item) → below d i ≡ true → is_below c i ≡ true)
    → filter (below d) (filter (is_below c) is) ≡ filter (below d) is
unfolding filter
filter-filter c d [] h = refl
filter-filter c d (i ∷ is) h = ground (arith, h i, filter-filter c d is h)

abbrev cursor_below : Option Cursor → Cursor → Bool
cursor_below none d = true
cursor_below (some c) d =
    ltb d.created_at c.created_at || d.created_at == c.created_at && ltb d.id c.id

below_through :
    (c : Option Cursor) (d : Cursor) (i : Item)
    → cursor_below c d ≡ true
    → below d i ≡ true
    → is_below c i ≡ true
below_through none d i h p = refl
below_through (some c) d i h p = ground arith

filtered_below :
    (c : Option Cursor) (is : List Item)
    → All (λ i. cursor_below c (cursor_of i) ≡ true) (filter (is_below c) is)
unfolding filter
filtered_below c [] = tt
filtered_below none (i ∷ is) = (refl, filtered_below none is)
filtered_below (some c) (i ∷ is) = elim (Bool-cases (below c i)) [
  | inl here ↦ rw here (here, filtered_below (some c) is)
  | inr gone ↦ rw gone (filtered_below (some c) is)
]

-- A client that follows the cursors from page to page, for at most so many pages.
unfoldable pub read_pages : ℕ → ℕ → ℕ → Option Cursor → Inbox → List Item
read_pages zero account_id limit cursor inbox = []
read_pages (suc fuel) account_id limit cursor inbox =
    let (page, next) = list_page account_id limit cursor inbox in
    elim next [ none ↦ page | some c ↦ page ++ read_pages fuel account_id limit (some c) inbox ]

-- The whole inbox of an account, the latest first.
abbrev pub whole : ℕ → Inbox → List Item
whole account_id inbox = sort (visible account_id inbox.notifications inbox.recipients)

module _ (account_id m : ℕ) (inbox : Inbox)
    (distinct : Distinct (visible account_id inbox.notifications inbox.recipients)) where
  list_page_lem :
      (c : Option Cursor)
      → list_page account_id (suc m) c inbox ≡ (
        take (suc m) (filter (is_below c) (whole account_id inbox)),
        if ltb (suc m) (length (filter (is_below c) (whole account_id inbox)))
            then last_cursor (take (suc m) (filter (is_below c) (whole account_id inbox)))
            else none,
      )
  unfolding list_page
  list_page_lem c =
      rw
        (← filter-sort (is_below c) (visible account_id inbox.notifications inbox.recipients)
          distinct)
        (page_of-take (suc m) (filter (is_below c) (whole account_id inbox)))

  read_pages_step :
      (fuel : ℕ) (c next : Option Cursor) (page : List Item)
      → list_page account_id (suc m) c inbox ≡ (page, next)
      → read_pages (suc fuel) account_id (suc m) c inbox ≡ elim next [
        | none ↦ page
        | some d ↦ page ++ read_pages fuel account_id (suc m) (some d) inbox
      ]
  unfolding read_pages
  read_pages_step fuel c next page e =
      ap
        (λ (r : List Item × Option Cursor). elim r.1 [
          | none ↦ r.0
          | some d ↦ r.0 ++ read_pages fuel account_id (suc m) (some d) inbox
        ])
        e

  read_pages-filter :
      (fuel : ℕ) (c : Option Cursor)
      → length (filter (is_below c) (whole account_id inbox)) < fuel
      → read_pages fuel account_id (suc m) c inbox ≡ filter (is_below c) (whole account_id inbox)
  unfolding read_pages
  read_pages-filter zero c h = absurd (omega arith)
  read_pages-filter (suc fuel) c h =
      let all = whole account_id inbox in
      let rest = filter (is_below c) all in
      let sorted =
        filter-Descends (is_below c) all
          (sort-Descends (visible account_id inbox.notifications inbox.recipients) distinct) in
      let step =
        read_pages_step fuel c
          (if ltb (suc m) (length rest) then last_cursor (take (suc m) rest) else none)
          (take (suc m) rest) (list_page_lem c) in
      elim (Bool-cases (ltb (suc m) (length rest))) [
        | inr last ↦ step ∙ rw last (take_all (suc m) rest (ground arith))
        | inl more ↦ elim (Option-cases (last_cursor (take (suc m) rest))) [
          | inl missing ↦ absurd (last_some m rest (ground arith) missing)
          | inr (d, found) ↦
              let inside : cursor_below c d ≡ true =
                All-last (λ (e : Cursor). cursor_below c e ≡ true) (suc m) rest d
                  (filtered_below c all) found in
              let next : filter (below d) all ≡ drop (suc m) rest =
                sym (filter-filter c d all (λ i p. below_through c d i inside p))
                ∙ filter-last (suc m) rest d sorted found in
              let shorter = length-drop (suc m) rest in
              let ih : read_pages fuel account_id (suc m) (some d) inbox ≡ filter (below d) all =
                read_pages-filter fuel (some d) (rw next (ground arith)) in
              step ∙ rw (more, found, ih, next) (take-append-drop (suc m) rest)
        ]
      ]

-- Where no two rows of an account's inbox have the same time and id, following the cursors with any
-- page size that is not zero reads the whole inbox, each row once, the latest first, and ends within
-- one page more than there are rows.
pub read_pages-whole :
    (account_id limit fuel : ℕ) (inbox : Inbox)
    → Distinct (visible account_id inbox.notifications inbox.recipients)
    → 0 < limit
    → length (whole account_id inbox) < fuel
    → read_pages fuel account_id limit none inbox ≡ whole account_id inbox
read_pages-whole account_id zero fuel inbox distinct pos h = absurd (omega arith)
read_pages-whole account_id (suc m) fuel inbox distinct pos h =
    let all : filter (is_below none) (whole account_id inbox) ≡ whole account_id inbox =
      filter-All (λ i. true) (whole account_id inbox) (trivially (whole account_id inbox)) in
    read_pages-filter account_id m inbox distinct fuel none (rw all h) ∙ all
  where
    trivially : (is : List Item) → All (λ i. true ≡ true) is
    trivially [] = tt
    trivially (i ∷ is) = (refl, trivially is)
