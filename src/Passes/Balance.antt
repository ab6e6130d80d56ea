-- ===== src/Passes/Balance.antt =====
-- Where the passes of a booking are: with their buyer, checked in, or shared onwards.
use nestora_server.Prelude.{
  ℕ, ◌+◌, ◌<◌, ◌≡◌, refl, Bool, true, false, Option, none, some, List, [], ◌∷◌, ◌==◌, if◌then◌else◌,
  Bool-cases, inl, inr, arith, subst, sym, ◌⊎◌,
}
use nestora_server.Prelude.Table.{All, first, update, sum_where, some_eq}
use nestora_server.Passes.Data.{EventPass}
use nestora_server.Passes.Repository.{has_id}

-- Whether the pass was shared from that of the id.
abbrev pub is_from : ℕ → EventPass → Bool
is_from id p = elim p.shared_from_pass_id [ none ↦ false | some source ↦ source == id ]

abbrev pub total_of : EventPass → ℕ
total_of p = p.total_passes

-- The passes that were shared from that of the id.
abbrev pub shared_out : ℕ → List EventPass → ℕ
shared_out id = sum_where (is_from id) total_of

-- Each pass of a row is with its holder, checked in, shared onwards, or pending: `n` passes of the row
-- `k` are about to be shared.
abbrev pub IsBalanced : ℕ → ℕ → List EventPass → EventPass → Type 0
IsBalanced k n rows p =
    p.remaining_passes + p.checked_in_passes + shared_out p.id rows + (if p.id == k then n else 0)
    ≡ p.total_passes

-- The id of a row, and of the one that it was shared from, were given out before `next`.
abbrev pub SourceBelow : ℕ → Option ℕ → Type 0
SourceBelow next none = Unit
SourceBelow next (some source) = source < next

abbrev pub IsOld : ℕ → EventPass → Type 0
IsOld next p = (p.id < next) × SourceBelow next p.shared_from_pass_id

abbrev pub Distinct : List EventPass → Type 0
Distinct [] = Unit
Distinct (p ∷ rows) = All (λ (q : EventPass). (q.id == p.id) ≡ false) rows × Distinct rows

pub record Sound (k n next : ℕ) (rows : List EventPass) : Type 0 where
  pub balanced : All (IsBalanced k n rows) rows
  pub old : All (IsOld next) rows
  pub distinct : Distinct rows

-- A row with the id of one that is found is that row.
abbrev pub IsOnly : ℕ → EventPass → EventPass → Type 0
IsOnly k p q = (q.id == k) ≡ true → q ≡ p

no_other :
    (k : ℕ) (p x : EventPass) (rows : List EventPass)
    → (x.id == k) ≡ true
    → All (λ (q : EventPass). (q.id == x.id) ≡ false) rows
    → All (IsOnly k p) rows
no_other k p x [] e h = tt
no_other k p x (q ∷ rows) e h =
    let other = h.0 in ((λ same. absurd (ground arith)), no_other k p x rows e h.1)

pub one_row :
    (k : ℕ) (rows : List EventPass) (p : EventPass)
    → Distinct rows
    → first (has_id k) rows ≡ some p
    → All (IsOnly k p) rows
unfolding first
one_row k [] p h e = tt
one_row k (q ∷ rows) p h e = elim (Bool-cases (q.id == k)) [
  | inl hit ↦ ((λ _. some_eq q p (rw hit at e)), no_other k p q rows hit h.0)
  | inr miss ↦ ((λ same. absurd (ground arith)), one_row k rows p h.1 (rw miss at e))
]

-- An update of one row, of which it keeps the id and the source.
pub record Keeps (f : EventPass → EventPass) (p : EventPass) : Type 0 where
  pub id : (f p).id ≡ p.id
  pub source : (f p).shared_from_pass_id ≡ p.shared_from_pass_id

module _ (k : ℕ) (f : EventPass → EventPass) (p : EventPass) (keeps : Keeps f p) where
  pub update-All :
      (P Q : EventPass → Type 0) (rows : List EventPass)
      → All (IsOnly k p) rows
      → All P rows
      → (P p → Q (f p))
      → ((q : EventPass) → (q.id == k) ≡ false → P q → Q q)
      → All Q (update (has_id k) f rows)
  unfolding update
  update-All P Q [] only h at_p others = tt
  update-All P Q (q ∷ rows) only h at_p others =
      (pick (Bool-cases (q.id == k)), update-All P Q rows only.1 h.1 at_p others)
    where
      pick : ((q.id == k) ≡ true) ⊎ ((q.id == k) ≡ false) → Q (if q.id == k then f q else q)
      pick (inl hit) = rw hit (rw (only.0 hit) (at_p (subst P (only.0 hit) h.0)))
      pick (inr miss) = rw miss (others q miss h.0)

  pub update-Distinct :
      (rows : List EventPass)
      → All (IsOnly k p) rows
      → Distinct rows
      → Distinct (update (has_id k) f rows)
  unfolding update
  update-Distinct [] only h = tt
  update-Distinct (q ∷ rows) only h =
      (pick (Bool-cases (q.id == k)), update-Distinct rows only.1 h.1)
    where
      id_kept : (q.id == k) ≡ true → (f q).id ≡ q.id
      id_kept hit = rw (only.0 hit) keeps.id

      others :
          (z : ℕ)
          → q.id ≡ z
          → All (λ (r : EventPass). (r.id == z) ≡ false) (update (has_id k) f rows)
      others z e =
          update-All (λ r. (r.id == q.id) ≡ false) (λ r. (r.id == z) ≡ false) rows only.1 h.0
            (λ other. rw keeps.id (rw (← e) other)) (λ r _ other. rw (← e) other)

      pick :
          ((q.id == k) ≡ true) ⊎ ((q.id == k) ≡ false)
          → All
              (λ (r : EventPass). (r.id == (if q.id == k then f q else q).id) ≡ false)
              (update (has_id k) f rows)
      pick (inl hit) = rw hit (others (f q).id (sym (id_kept hit)))
      pick (inr miss) = rw miss (others q.id refl)

  -- What was shared from a row is as it was, if the changed row was bought or keeps its total.
  pub shared_out-update :
      (j : ℕ) (rows : List EventPass)
      → All (IsOnly k p) rows
      → (is_from j p ≡ true → (f p).total_passes ≡ p.total_passes)
      → shared_out j (update (has_id k) f rows) ≡ shared_out j rows
  unfolding update sum_where
  shared_out-update j [] only same = refl
  shared_out-update j (q ∷ rows) only same = elim (Bool-cases (q.id == k)) [
    | inl hit ↦
        let is_p = only.0 hit in
        let rest = shared_out-update j rows only.1 same in
        let one : (if is_from j (f p) then (f p).total_passes else 0)
            ≡ (if is_from j p then p.total_passes else 0) =
          rw keeps.source (ground (arith, same)) in
        rw hit (rw is_p (rw (one, rest) refl))
    | inr miss ↦ rw miss (rw (shared_out-update j rows only.1 same) refl)
  ]
