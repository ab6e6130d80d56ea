-- ===== src/Polls/Single.antt =====
-- What the votes of a poll with a single choice are, and a lemma on casting.
use nestora_server.Prelude.{ℕ, ◌≤◌, ◌≡◌, true, false, List, [], ◌∷◌, Bool-cases, inl, inr, arith}
use nestora_server.Prelude.Table.{All, All-insert, All-update, exists, insert, length, update}
use nestora_server.Prelude.Keys.{Keyed, KeysBelow}
use nestora_server.Polls.Data.{Poll, PollVote, Db}
use nestora_server.Polls.Service.{is_option, is_vote, revive, cast, cast_all, are_options}
use nestora_server.Polls.Votes.{active_of, rows, active_of-one}
use nestora_server.Polls.Withdrawn.{IsCurrent}

abbrev pub poll_key : Poll → ℕ
poll_key p = p.id

abbrev pub vote_key : PollVote → ℕ
vote_key v = v.poll_id

-- Where the poll is not a multiple choice, no account has two active votes in it.
abbrev pub IsSingle : List PollVote → Poll → Type 0
IsSingle votes p = p.is_multiple_choice ≡ false → (a : ℕ) → active_of p.id a votes ≤ 1

pub record IsSound (s : Db) : Type 0 where
  pub keyed : Keyed poll_key s.polls
  pub old : KeysBelow poll_key s.next_uuid s.polls
  pub votes_old : KeysBelow vote_key s.next_uuid s.poll_votes
  pub one_row : (k o a : ℕ) → rows k o a s.poll_votes ≤ 1
  pub current : All (IsCurrent s.poll_options) s.poll_votes
  pub single : All (IsSingle s.poll_votes) s.polls

-- What a vote for the option leaves, in a new row or in one that becomes active again, satisfies `P`.
abbrev pub Leaves {κ} : (P : PollVote → Type κ) → ℕ → ℕ → ℕ → Type κ
Leaves P k a i =
    P (record { poll_id = k; option_id = i; account_id = a; is_deleted = false })
    × ((v : PollVote) → is_vote k i a v ≡ true → P v → P (revive v))

pub cast_all-All {κ} :
    (P : PollVote → Type κ) (k a : ℕ) (is : List ℕ) (votes : List PollVote)
    → All (Leaves P k a) is
    → All P votes
    → All P (cast_all k a is votes)
unfolding cast_all cast
cast_all-All P k a [] votes new h = h
cast_all-All P k a (i ∷ is) votes new h = elim (Bool-cases (exists (is_vote k i a) votes)) [
  | inl there ↦ rw there (
      cast_all-All P k a is (update (is_vote k i a) revive votes) new.1
        (All-update P (is_vote k i a) revive votes h (λ v e p. new.0.1 v e p)))
  | inr missing ↦ rw missing (
      cast_all-All P k a is
        (insert (record { poll_id = k; option_id = i; account_id = a; is_deleted = false }) votes)
        new.1
        (All-insert P (record { poll_id = k; option_id = i; account_id = a; is_deleted = false })
          votes h new.0.0))
]

pub options_valid :
    (k : ℕ) (is : List ℕ) (s : Db)
    → are_options k is s ≡ true
    → All (λ i. exists (is_option k i) s.poll_options ≡ true) is
unfolding are_options
options_valid k [] s h = tt
options_valid k (i ∷ is) s h = (ground arith, options_valid k is s (ground arith))

-- A vote for one option at most leaves one active vote at most.
pub one_choice :
    (k a : ℕ) (is : List ℕ) (votes : List PollVote)
    → ((p q r : ℕ) → rows p q r votes ≤ 1)
    → length is ≤ 1
    → active_of k a votes ≡ 0
    → active_of k a (cast_all k a is votes) ≤ 1
unfolding length cast_all
one_choice k a [] votes h le none_yet = omega arith
one_choice k a (i ∷ []) votes h le none_yet =
    let one = active_of-one k a i votes (h k i a) in omega arith
one_choice k a (i ∷ j ∷ is) votes h le none_yet = absurd (omega arith)
