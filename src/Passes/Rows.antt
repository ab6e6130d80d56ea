-- ===== src/Passes/Rows.antt =====
-- The table of passes stays balanced when a row is changed, and when one is inserted.
use nestora_server.Prelude.{
  ℕ, ◌+◌, ◌≤◌, ◌<◌, ◌≡◌, refl, true, false, Option, none, some, List, [], ◌∷◌, ◌==◌, if◌then◌else◌,
  arith,
}
use nestora_server.Prelude.Table.{All, All-insert, first, first-holds, insert, update, sum_where}
use nestora_server.Passes.Data.{EventPass}
use nestora_server.Passes.Repository.{has_id}
use nestora_server.Passes.Balance.{
  is_from, shared_out, IsBalanced, SourceBelow, IsOld, Distinct, Sound, one_row, Keeps, update-All,
  update-Distinct, shared_out-update,
}

-- A change of one row, after which `n` of its passes are pending.
pub update-Sound :
    (k n next : ℕ) (rows : List EventPass) (f : EventPass → EventPass) (p : EventPass)
    → Keeps f p
    → Sound 0 0 next rows
    → first (has_id k) rows ≡ some p
    → ((j : ℕ) → is_from j p ≡ true → (f p).total_passes ≡ p.total_passes)
    → (f p).remaining_passes + (f p).checked_in_passes + n + p.total_passes
      ≡ p.remaining_passes + p.checked_in_passes + (f p).total_passes
    → Sound k n next (update (has_id k) f rows)
update-Sound k n next rows f p keeps h found same moved =
    let only = one_row k rows p h.distinct found in
    let is_k : (p.id == k) ≡ true = first-holds (has_id k) rows p found in
    record {
      balanced =
          update-All k f p keeps (IsBalanced 0 0 rows) (IsBalanced k n (update (has_id k) f rows))
            rows only h.balanced
            (λ b.
              rw (keeps.id, is_k, shared_out-update k f p keeps p.id rows only (same p.id))
                (ground (arith, b, moved)))
            (λ q other b.
              rw (other, shared_out-update k f p keeps q.id rows only (same q.id))
                (ground (arith, b)));
      old =
          update-All k f p keeps (IsOld next) (IsOld next) rows only h.old
            (λ o. rw (keeps.id, keeps.source) o) (λ q other o. o);
      distinct = update-Distinct k f p keeps rows only h.distinct;
    }

shared_out-insert :
    (j : ℕ) (x : EventPass) (rows : List EventPass)
    → shared_out j (insert x rows) ≡ shared_out j rows + (if is_from j x then x.total_passes else 0)
unfolding sum_where
shared_out-insert j x [] = ground arith
shared_out-insert j x (q ∷ rows) = omega (arith, shared_out-insert j x rows)

shared_out-new :
    (j next : ℕ) (rows : List EventPass) → next ≤ j → All (IsOld next) rows → shared_out j rows ≡ 0
unfolding sum_where
shared_out-new j next [] le h = refl
shared_out-new j next (q ∷ rows) le h =
    let not_from : is_from j q ≡ false = go q.shared_from_pass_id h.0.1 in
    rw not_from (omega (arith, shared_out-new j next rows le h.1))
  where
    go :
        (source : Option ℕ)
        → SourceBelow next source
        → elim source [ none ↦ false | some i ↦ i == j ] ≡ false
    go none b = refl
    go (some i) b = ground arith

older :
    (next next' : ℕ) (rows : List EventPass)
    → next ≤ next'
    → All (IsOld next) rows
    → All (IsOld next') rows
older next next' [] le h = tt
older next next' (q ∷ rows) le h =
    ((omega (arith, h.0.0), go q.shared_from_pass_id h.0.1), older next next' rows le h.1)
  where
    go : (source : Option ℕ) → SourceBelow next source → SourceBelow next' source
    go none b = tt
    go (some i) b = omega (arith, b)

Distinct-insert :
    (x : EventPass) (next : ℕ) (rows : List EventPass)
    → next ≤ x.id
    → All (IsOld next) rows
    → Distinct rows
    → Distinct (insert x rows)
Distinct-insert x next [] le old h = (tt, tt)
Distinct-insert x next (q ∷ rows) le old h =
    let below = old.0.0 in
    (
      All-insert (λ (r : EventPass). (r.id == q.id) ≡ false) x rows h.0 (ground arith),
      Distinct-insert x next rows le old.1 h.1,
    )

inserted_balance :
    (k n : ℕ) (x : EventPass) (all rows : List EventPass)
    → ((j : ℕ) → (if is_from j x then x.total_passes else 0) ≡ (if j == k then n else 0))
    → All (IsBalanced k n all) rows
    → All (IsBalanced 0 0 (insert x all)) rows
inserted_balance k n x all [] settles h = tt
inserted_balance k n x all (q ∷ rows) settles h =
    let b = h.0 in
    let more = settles q.id in
    (rw (shared_out-insert q.id x all) (ground arith), inserted_balance k n x all rows settles h.1)

-- A row that is inserted and settles what is pending.
pub insert-Sound :
    (k n next next' : ℕ) (rows : List EventPass) (x : EventPass)
    → Sound k n next rows
    → next ≤ x.id
    → x.id < next'
    → SourceBelow x.id x.shared_from_pass_id
    → x.remaining_passes ≡ x.total_passes
    → x.checked_in_passes ≡ 0
    → ((j : ℕ) → (if is_from j x then x.total_passes else 0) ≡ (if j == k then n else 0))
    → Sound 0 0 next' (insert x rows)
insert-Sound k n next next' rows x h new below source whole unused settles = record {
  balanced =
      All-insert (IsBalanced 0 0 (insert x rows)) x rows
        (inserted_balance k n x rows rows settles h.balanced)
        (rw
          (
            shared_out-insert x.id x rows,
            shared_out-new x.id next rows new h.old,
            not_own x.shared_from_pass_id source,
          )
          (ground arith));
  old =
      All-insert (IsOld next') x rows (older next next' rows (omega arith) h.old)
        (below, up x.shared_from_pass_id source);
  distinct = Distinct-insert x next rows new h.old h.distinct;
}
  where
    up : (o : Option ℕ) → SourceBelow x.id o → SourceBelow next' o
    up none b = tt
    up (some i) b = omega (arith, b, below)

    not_own :
        (o : Option ℕ) → SourceBelow x.id o → elim o [ none ↦ false | some i ↦ i == x.id ] ≡ false
    not_own none b = refl
    not_own (some i) b = ground arith

none_pending :
    (k : ℕ) (all rows : List EventPass)
    → All (IsBalanced k 0 all) rows
    → All (IsBalanced 0 0 all) rows
none_pending k all [] h = tt
none_pending k all (q ∷ rows) h = let b = h.0 in (ground arith, none_pending k all rows h.1)

-- Nothing is pending, and ids count up.
pub settled :
    (k next next' : ℕ) (rows : List EventPass)
    → next ≤ next'
    → Sound k 0 next rows
    → Sound 0 0 next' rows
settled k next next' rows le h = record {
  balanced = none_pending k rows rows h.balanced;
  old = older next next' rows le h.old;
  distinct = h.distinct;
}
