-- ===== src/Polls/Withdrawn.antt =====
-- Withdrawing the votes for the current options of a poll.
use nestora_server.Prelude.{
  ℕ, ◌≤◌, ◌≡◌, refl, Bool, true, false, List, [], ◌∷◌, ◌++◌, ◌==◌, ◌&&◌, not, Bool-cases, inl, inr,
  arith,
}
use nestora_server.Prelude.Table.{All, All-update, exists, update}
use nestora_server.Prelude.Keys.{
  All-map, All-every, exists-append, All-both, All-update_to, sum_where-update, sum_where-All,
}
use nestora_server.Polls.Data.{PollOption, PollVote}
use nestora_server.Polls.Service.{
  is_current_option, is_option, current_options, drop_option, drop_vote, withdraw, is_vote_of,
  is_vote,
}
use nestora_server.Polls.Votes.{is_active, active_of, rows}

abbrev withdrawn_by : ℕ → PollOption → PollVote → Bool
withdrawn_by k o v = v.poll_id == k && v.option_id == o.id && not v.is_deleted

pub withdraw-All {κ} :
    (P : PollVote → Type κ) (k : ℕ) (os : List PollOption) (votes : List PollVote)
    → ((v : PollVote) → P v → P (drop_vote v))
    → All P votes
    → All P (withdraw k os votes)
unfolding withdraw
withdraw-All P k [] votes keep h = h
withdraw-All P k (o ∷ os) votes keep h =
    withdraw-All P k os (update (withdrawn_by k o) drop_vote votes) keep
      (All-update P (withdrawn_by k o) drop_vote votes h (λ v e p. keep v p))

-- No active vote of the poll is left for one of the options.
abbrev IsLeft : ℕ → List PollOption → PollVote → Type 0
IsLeft k os v =
    v.is_deleted ≡ false
    → (v.poll_id == k) ≡ true
    → exists (λ (o : PollOption). o.id == v.option_id) os ≡ false

withdraw-IsLeft :
    (k : ℕ) (os : List PollOption) (votes : List PollVote) → All (IsLeft k os) (withdraw k os votes)
unfolding withdraw exists
withdraw-IsLeft k [] votes = All-every (IsLeft k []) (λ v e m. refl) votes
withdraw-IsLeft k (o ∷ os) votes =
    let own = λ (v : PollVote).
      v.is_deleted ≡ false → (v.poll_id == k) ≡ true → (o.id == v.option_id) ≡ false in
    let once = update (withdrawn_by k o) drop_vote votes in
    let here : All own once =
      All-update_to (λ v. Unit {0}) own (withdrawn_by k o) drop_vote votes (λ v e u d. absurd (cc))
        (λ v e u d m. ground arith) (All-every (λ v. Unit {0}) (λ v. tt) votes) in
    let kept = withdraw-All own k os once (λ v h e. absurd (cc)) here in
    All-map (λ v. own v × IsLeft k os v) (IsLeft k (o ∷ os))
      (λ v h e m. let one = h.0 e m in let rest = h.1 e m in ground arith) (withdraw k os once)
      (All-both own (IsLeft k os) (withdraw k os once) kept (withdraw-IsLeft k os once))

current_has :
    (k j i : ℕ) (options : List PollOption)
    → (j == k) ≡ true
    → exists (is_option j i) options ≡ true
    → exists (λ (o : PollOption). o.id == i) (current_options k options) ≡ true
unfolding exists current_options
current_has k j i [] m h = absurd (cc)
current_has k j i (o ∷ os) m h =
    let rest = current_has k j i os m in
    elim (Bool-cases (is_option j i o)) [ inl hit ↦ ground arith | inr miss ↦ ground arith ]

other_kept :
    (k j i : ℕ) (options : List PollOption)
    → (j == k) ≡ false
    → exists (is_option j i) options ≡ true
    → exists (is_option j i) (update (is_current_option k) drop_option options) ≡ true
unfolding exists update
other_kept k j i [] m h = absurd (cc)
other_kept k j i (o ∷ os) m h =
    let rest = other_kept k j i os m in
    elim (Bool-cases (is_option j i o)) [ inl hit ↦ ground arith | inr miss ↦ ground arith ]

-- An active vote is for an option that its poll has.
abbrev pub IsCurrent : List PollOption → PollVote → Type 0
IsCurrent options v = v.is_deleted ≡ false → exists (is_option v.poll_id v.option_id) options ≡ true

module _ (k : ℕ) (options : List PollOption) (votes : List PollVote)
    (h : All (IsCurrent options) votes) where
  abbrev withdrawn : List PollVote
  withdrawn = withdraw k (current_options k options) votes

  -- Once the votes are withdrawn no active one is left in the poll.
  none_left : All (λ v. v.is_deleted ≡ false → (v.poll_id == k) ≡ false) withdrawn
  none_left =
      let both =
        All-both (IsCurrent options) (IsLeft k (current_options k options)) withdrawn
          (withdraw-All (IsCurrent options) k (current_options k options) votes
            (λ v p e. absurd (cc)) h)
          (withdraw-IsLeft k (current_options k options) votes) in
      All-map (λ v. IsCurrent options v × IsLeft k (current_options k options) v)
        (λ v. v.is_deleted ≡ false → (v.poll_id == k) ≡ false)
        (λ v p e. elim (Bool-cases (v.poll_id == k)) [
          | inr off ↦ off
          | inl own ↦
              let there = current_has k v.poll_id v.option_id options own (p.0 e) in
              let gone = p.1 e own in absurd (ground arith)
        ])
        withdrawn both

  pub withdraw-IsCurrent :
      (more : List PollOption)
      → All (IsCurrent (update (is_current_option k) drop_option options ++ more)) withdrawn
  withdraw-IsCurrent more =
      let both =
        All-both (IsCurrent options) (λ v. v.is_deleted ≡ false → (v.poll_id == k) ≡ false)
          withdrawn
          (withdraw-All (IsCurrent options) k (current_options k options) votes
            (λ v p e. absurd (cc)) h)
          none_left in
      All-map (λ v. IsCurrent options v × (v.is_deleted ≡ false → (v.poll_id == k) ≡ false))
        (IsCurrent (update (is_current_option k) drop_option options ++ more))
        (λ v p e.
          exists-append (is_option v.poll_id v.option_id)
            (update (is_current_option k) drop_option options) more
            (other_kept k v.poll_id v.option_id options (p.1 e) (p.0 e)))
        withdrawn both

  pub none_withdrawn : (a : ℕ) → active_of k a withdrawn ≡ 0
  none_withdrawn a =
      sum_where-All (λ v. is_vote_of k a v && is_active v) withdrawn
        (All-map (λ v. v.is_deleted ≡ false → (v.poll_id == k) ≡ false)
          (λ v. (is_vote_of k a v && is_active v) ≡ false)
          (λ v p. elim (Bool-cases v.is_deleted) [
            | inl gone ↦ ground arith
            | inr there ↦ let off = p there in ground arith
          ])
          withdrawn none_left)

-- Withdrawing adds neither rows nor active votes.
pub withdraw-rows :
    (k j o b : ℕ) (os : List PollOption) (votes : List PollVote)
    → rows j o b (withdraw k os votes) ≤ rows j o b votes
unfolding withdraw
withdraw-rows k j o b [] votes = omega arith
withdraw-rows k j o b (x ∷ os) votes =
    let once = sum_where-update (is_vote j o b) (withdrawn_by k x) drop_vote votes (λ v e. e) in
    let rest = withdraw-rows k j o b os (update (withdrawn_by k x) drop_vote votes) in omega arith

pub active_of-withdraw :
    (k j b : ℕ) (os : List PollOption) (votes : List PollVote)
    → active_of j b (withdraw k os votes) ≤ active_of j b votes
unfolding withdraw
active_of-withdraw k j b [] votes = omega arith
active_of-withdraw k j b (x ∷ os) votes =
    let once =
      sum_where-update (λ v. is_vote_of j b v && is_active v) (withdrawn_by k x) drop_vote votes
        (λ v e. absurd (ground arith)) in
    let rest = active_of-withdraw k j b os (update (withdrawn_by k x) drop_vote votes) in
    omega arith
