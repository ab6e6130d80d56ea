-- ===== src/Polls/Change.antt =====
-- What each request writes to the tables of polls, options and votes.
use nestora_server.Prelude.{
  Option, ℕ, ◌≤◌, ◌<◌, ◌≡◌, true, false, some, List, ◌++◌, Option-cases, inl, inr, arith,
}
use nestora_server.Prelude.Table.{first, insert, update, length}
use nestora_server.Http.{ok, Result-cases}
use nestora_server.Account.{Account}
use nestora_server.Polls.Data.{Poll, PollOption, PollVote, PollCreateRequest, PollVoteRequest, Db}
use nestora_server.Polls.Access.{
  role_code, is_poll, get_poll, require_association_access, authorized_poll, manager_poll,
  check_window,
}
use nestora_server.Polls.Service
use nestora_server.Polls.Service.{
  poll_notice, association_for, new_poll, add_options, announce, when, is_published, overwrite,
  is_current_option, current_options, drop_option, drop_vote, withdraw, is_vote_of, cast_all,
  unique, are_options, is_like, toggle_like,
}

abbrev cleared : ℕ → ℕ → List PollVote → List PollVote
cleared k a votes = update (is_vote_of k a) drop_vote votes

pub data PollChange (s s' : Db) : Type 0 where
  unchanged :
      s'.polls ≡ s.polls
      → s'.poll_options ≡ s.poll_options
      → s'.poll_votes ≡ s.poll_votes
      → s.next_uuid ≤ s'.next_uuid
      → PollChange s s'
  created :
      (p : PollCreateRequest) (association_id created_by : ℕ) (options : List PollOption)
      → s'.polls ≡ insert (new_poll p association_id created_by s.next_uuid s.now) s.polls
      → s'.poll_options ≡ s.poll_options ++ options
      → s'.poll_votes ≡ s.poll_votes
      → s.next_uuid < s'.next_uuid
      → PollChange s s'
  updated :
      (k : ℕ) (p : PollCreateRequest) (options : List PollOption)
      → s'.polls ≡ update (is_poll k) (overwrite p) s.polls
      → s'.poll_options ≡ update (is_current_option k) drop_option s.poll_options ++ options
      → s'.poll_votes ≡ withdraw k (current_options k s.poll_options) s.poll_votes
      → s.next_uuid ≤ s'.next_uuid
      → PollChange s s'
  deleted :
      (k : ℕ)
      → s'.polls ≡ update (is_poll k) (λ q. record q { is_deleted = true }) s.polls
      → s'.poll_options ≡ s.poll_options
      → s'.poll_votes ≡ s.poll_votes
      → s.next_uuid ≤ s'.next_uuid
      → PollChange s s'
  voted :
      (k a : ℕ) (ids : List ℕ) (poll : Poll)
      → first (is_poll k) s.polls ≡ some poll
      → (poll.is_multiple_choice ≡ false → length ids ≤ 1)
      → are_options k ids s ≡ true
      → s'.polls ≡ s.polls
      → s'.poll_options ≡ s.poll_options
      → s'.poll_votes ≡ cast_all k a ids (cleared k a s.poll_votes)
      → s.next_uuid ≤ s'.next_uuid
      → PollChange s s'

module _ (s : Db) (account : Account) where
  pub role_code_state : (role_code account s).1 ≡ s
  unfolding role_code
  role_code_state = ground arith

  pub require_association_access_state :
      (a : Option ℕ) → (require_association_access account a s).1 ≡ s
  unfolding require_association_access
  require_association_access_state a = ground (arith, role_code_state)

  get_poll_state : (k : ℕ) → (get_poll k s).1 ≡ s
  unfolding get_poll
  get_poll_state k = ground arith

  pub authorized_poll_state : (k : ℕ) → (authorized_poll k account s).1 ≡ s
  unfolding authorized_poll
  authorized_poll_state k = ground (arith, get_poll_state k, role_code_state)

  pub check_window_state : (p : Poll) → (check_window p account s).1 ≡ s
  unfolding check_window
  check_window_state p = ground (arith, role_code_state)

  -- The poll that a vote is for is the one that the query finds.
  authorized_poll_found :
      (k : ℕ) (p : Poll)
      → (authorized_poll k account s).0 ≡ ok p
      → first (is_poll k) s.polls ≡ some p
  unfolding authorized_poll get_poll
  authorized_poll_found k p e = elim (Option-cases (first (is_poll k) s.polls)) [
    | inl missing ↦ absurd (ground arith)
    | inr (q, found) ↦ let same = role_code_state in ground arith
  ]

module _ (s : Db) (account : Account) where
  pub manager_poll_state : (k : ℕ) → (manager_poll k account s).1 ≡ s
  unfolding manager_poll
  manager_poll_state k =
      let role = role_code_state s account in
      let got = get_poll_state s account k in
      elim (Result-cases (get_poll k s).0) [
        | inl (e, raised) ↦ ground arith
        | inr (p, found) ↦
            let access = require_association_access_state s account p.association_id in ground arith
      ]

-- `vote` writes the votes alone.
pub record Voted (k : ℕ) (p : PollVoteRequest) (account : Account) (s s' : Db) : Type 0 where
  pub poll : Poll
  pub found : first (is_poll k) s.polls ≡ some poll
  pub single : poll.is_multiple_choice ≡ false → length (unique p.option_ids) ≤ 1
  pub valid : are_options k (unique p.option_ids) s ≡ true
  pub state : s' ≡ record s {
    poll_votes = cast_all k account.id (unique p.option_ids) (cleared k account.id s.poll_votes);
  }

pub vote-Voted :
    (k : ℕ) (p : PollVoteRequest) (account : Account) (s : Db)
    → (Service.vote k p account s).0 ≡ ok tt
    → Voted k p account s (Service.vote k p account s).1
unfolding Service.vote
vote-Voted k p account s made =
    let role = role_code_state s account in
    let seen = authorized_poll_state s account k in
    elim (Result-cases (authorized_poll k account s).0) [
      | inl (e, raised) ↦ absurd (ground arith)
      | inr (poll, found) ↦ record {
        poll = poll;
        found = authorized_poll_found s account k poll found;
        single = λ one. ground arith;
        valid = ground arith;
        state = ground arith;
      }
    ]
