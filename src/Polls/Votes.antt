-- ===== src/Polls/Votes.antt =====
-- The table of votes: what casting and withdrawing do to it.
use nestora_server.Prelude.{
  ℕ, ◌+◌, ◌≤◌, ◌≡◌, ◌∙◌, refl, Bool, false, List, [], ◌∷◌, ◌==◌, ◌&&◌, ◌||◌, not, Bool-cases, inl,
  inr, arith, ==_iff,
}
use nestora_server.Prelude.Table.{insert, exists, update, sum_where}
use nestora_server.Prelude.Keys.{sum_where-insert, sum_where-first, sum_where-update}
use nestora_server.Directory.{is_in}
use nestora_server.Polls.Data.{PollVote}
use nestora_server.Polls.Service.{
  is_vote_of, is_vote, revive, drop_vote, cast, cast_all, without, unique,
}

abbrev pub is_active : PollVote → Bool
is_active v = not v.is_deleted

-- The account has an active vote for the option.
abbrev pub voted : ℕ → ℕ → ℕ → List PollVote → Bool
voted k o a votes = exists (λ v. is_vote k o a v && is_active v) votes

-- How many active votes the account has in the poll.
abbrev pub active_of : ℕ → ℕ → List PollVote → ℕ
active_of k a votes = sum_where (λ v. is_vote_of k a v && is_active v) (λ v. 1) votes

-- The rows with that primary key.
abbrev pub rows : ℕ → ℕ → ℕ → List PollVote → ℕ
rows k o a votes = sum_where (is_vote k o a) (λ v. 1) votes

abbrev pub same_pair : ℕ → ℕ → ℕ → ℕ → Bool
same_pair k a j b = k == j && a == b

module _ (k a j b : ℕ) where
  voted-revive :
      (i o : ℕ) (votes : List PollVote)
      → voted j o b (update (is_vote k i a) revive votes)
        ≡ voted j o b votes || same_pair k a j b && i == o && exists (is_vote k i a) votes
  unfolding exists update
  voted-revive i o [] = ground arith
  voted-revive i o (v ∷ votes) = let rest = voted-revive i o votes in ground arith

  voted-insert :
      (i o : ℕ) (votes : List PollVote)
      → voted j o b
          (insert (record { poll_id = k; option_id = i; account_id = a; is_deleted = false }) votes)
        ≡ voted j o b votes || same_pair k a j b && i == o
  unfolding exists
  voted-insert i o [] = ground arith
  voted-insert i o (v ∷ votes) = let rest = voted-insert i o votes in ground arith

  voted-cast :
      (i o : ℕ) (votes : List PollVote)
      → voted j o b (cast k a i votes) ≡ voted j o b votes || same_pair k a j b && i == o
  unfolding cast
  voted-cast i o votes =
      let revived = voted-revive i o votes in let inserted = voted-insert i o votes in ground arith

  pub voted-cast_all :
      (o : ℕ) (is : List ℕ) (votes : List PollVote)
      → voted j o b (cast_all k a is votes) ≡ voted j o b votes || same_pair k a j b && is_in o is
  unfolding cast_all is_in
  voted-cast_all o [] votes = ground arith
  voted-cast_all o (i ∷ is) votes =
      let here = voted-cast i o votes in
      let rest = voted-cast_all o is (cast k a i votes) in ground arith

  pub voted-drop_vote :
      (o : ℕ) (votes : List PollVote)
      → voted j o b (update (is_vote_of k a) drop_vote votes)
        ≡ voted j o b votes && not (same_pair k a j b)
  unfolding exists update
  voted-drop_vote o [] = ground arith
  voted-drop_vote o (v ∷ votes) = let rest = voted-drop_vote o votes in ground arith

  -- Another pair of poll and account keeps the number of its active votes.
  module _ (other : same_pair k a j b ≡ false) where
    active_of_revived :
        (i : ℕ) (votes : List PollVote)
        → active_of j b (update (is_vote k i a) revive votes) ≡ active_of j b votes
    unfolding sum_where update
    active_of_revived i [] = refl
    active_of_revived i (v ∷ vs) = let rest = active_of_revived i vs in ground arith

    active_of-cast :
        (i : ℕ) (votes : List PollVote) → active_of j b (cast k a i votes) ≡ active_of j b votes
    unfolding cast
    active_of-cast i votes =
        let revived = active_of_revived i votes in
        let inserted =
          sum_where-insert (λ v. is_vote_of j b v && is_active v)
            (record { poll_id = k; option_id = i; account_id = a; is_deleted = false }) votes in
        ground arith

    pub active_of-cast_all :
        (is : List ℕ) (votes : List PollVote)
        → active_of j b (cast_all k a is votes) ≡ active_of j b votes
    unfolding cast_all
    active_of-cast_all [] votes = refl
    active_of-cast_all (i ∷ is) votes =
        active_of-cast_all is (cast k a i votes) ∙ active_of-cast i votes

    pub active_of-drop_vote :
        (votes : List PollVote)
        → active_of j b (update (is_vote_of k a) drop_vote votes) ≡ active_of j b votes
    unfolding sum_where update
    active_of-drop_vote [] = refl
    active_of-drop_vote (v ∷ votes) = let rest = active_of-drop_vote votes in ground arith

module _ (k a : ℕ) where
  pub none_active :
      (votes : List PollVote) → active_of k a (update (is_vote_of k a) drop_vote votes) ≡ 0
  unfolding sum_where update
  none_active [] = refl
  none_active (v ∷ votes) = let rest = none_active votes in ground arith

  active_of-revive :
      (i : ℕ) (votes : List PollVote)
      → active_of k a (update (is_vote k i a) revive votes) ≤ active_of k a votes + rows k i a votes
  unfolding sum_where update
  active_of-revive i [] = omega arith
  active_of-revive i (v ∷ votes) = let rest = active_of-revive i votes in ground arith

  -- Where a key has at most one row, a vote is one more at most.
  pub active_of-one :
      (i : ℕ) (votes : List PollVote)
      → rows k i a votes ≤ 1
      → active_of k a (cast k a i votes) ≤ active_of k a votes + 1
  unfolding cast
  active_of-one i votes unique_key =
      let revived = active_of-revive i votes in
      let inserted =
        sum_where-insert (λ v. is_vote_of k a v && is_active v)
          (record { poll_id = k; option_id = i; account_id = a; is_deleted = false }) votes in
      ground arith

rows-cast :
    (k a i j o b : ℕ) (votes : List PollVote)
    → rows j o b votes ≤ 1
    → rows j o b (cast k a i votes) ≤ 1
unfolding cast
rows-cast k a i j o b votes h =
    let new : PollVote = record {
      poll_id = k;
      option_id = i;
      account_id = a;
      is_deleted = false;
    } in
    let revived = sum_where-update (is_vote j o b) (is_vote k i a) revive votes (λ v e. e) in
    let inserted = sum_where-insert (is_vote j o b) new votes in
    elim (Bool-cases (exists (is_vote k i a) votes)) [
      | inl there ↦ rw there (omega arith)
      | inr missing ↦ elim (Bool-cases (is_vote j o b new)) [
        | inl own ↦
            let same_k : k ≡ j = (==_iff k j).0 (ground arith) in
            let same_i : i ≡ o = (==_iff i o).0 (ground arith) in
            let same_a : a ≡ b = (==_iff a b).0 (ground arith) in
            let zero : rows j o b votes ≡ 0 =
              sum_where-first (is_vote j o b) votes (rw (← same_k, ← same_i, ← same_a) missing) in
            rw missing (ground arith)
        | inr off ↦ rw missing (ground arith)
      ]
    ]

pub rows-cast_all :
    (k a j o b : ℕ) (is : List ℕ) (votes : List PollVote)
    → ((p q r : ℕ) → rows p q r votes ≤ 1)
    → rows j o b (cast_all k a is votes) ≤ 1
unfolding cast_all
rows-cast_all k a j o b [] votes h = h j o b
rows-cast_all k a j o b (i ∷ is) votes h =
    rows-cast_all k a j o b is (cast k a i votes) (λ p q r. rows-cast k a i p q r votes (h p q r))

is_in-without : (o i : ℕ) (is : List ℕ) → is_in o (without i is) ≡ is_in o is && not (o == i)
unfolding is_in
is_in-without o i [] = ground arith
is_in-without o i (j ∷ is) = let rest = is_in-without o i is in ground arith

pub is_in-unique : (o : ℕ) (is : List ℕ) → is_in o (unique is) ≡ is_in o is
unfolding unique is_in
is_in-unique o [] = refl
is_in-unique o (i ∷ is) =
    let rest = is_in-unique o is in let less = is_in-without o i (unique is) in ground arith
