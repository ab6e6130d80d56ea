-- ===== src/Polls/Sound.antt =====
-- A poll with a single choice holds at most one active vote of each account.
use nestora_server.Prelude.{
  ℕ, ◌≤◌, ◌<◌, ◌≡◌, refl, sym, subst, Bool, true, false, some, List, [], ◌∷◌, ◌++◌, ◌==◌, ◌&&◌,
  Bool-cases, inl, inr, arith, ==_iff,
}
use nestora_server.Prelude.Table.{
  All, All-first, All-insert, All-update, first, first-holds, exists, length, update,
}
use nestora_server.Prelude.Keys.{
  Keyed, KeysBelow, All-map, All-every, All-both, All-update_to, KeysBelow-weaken, KeysBelow-update,
  Keyed-update, Keyed-insert, Keyed-first, exists-append, sum_where-All, sum_where-update,
}
use nestora_server.Http.{Result-cases, unit_of_work}
use nestora_server.Account.{Account}
use nestora_server.Polls.Data.{Poll, PollVote, PollCreateRequest, Db}
use nestora_server.Polls.Access.{is_poll}
use nestora_server.Polls.Service.{
  new_poll, overwrite, is_option, current_options, drop_vote, withdraw, is_vote_of, is_vote,
  cast_all, are_options,
}
use nestora_server.Polls.Votes.{
  is_active, rows, same_pair, active_of-cast_all, active_of-drop_vote, none_active, rows-cast_all,
}
use nestora_server.Polls.Withdrawn.{
  IsCurrent, withdraw-All, withdraw-IsCurrent, none_withdrawn, withdraw-rows, active_of-withdraw,
}
use nestora_server.Polls.Change.{PollChange}
use nestora_server.Polls.Effects.{execute-PollChange}
use nestora_server.Polls.Handler.{Request, execute, handle, serve, at}
use nestora_server.Polls.Single.{
  poll_key, vote_key, IsSingle, IsSound, Leaves, cast_all-All, options_valid, one_choice,
}

module _ (s : Db) (h : IsSound s) where
  abbrev cleared : ℕ → ℕ → List PollVote
  cleared k a = update (is_vote_of k a) drop_vote s.poll_votes

  rows-cleared : (k a p q r : ℕ) → rows p q r (cleared k a) ≤ 1
  rows-cleared k a p q r =
      let less =
        sum_where-update (is_vote p q r) (is_vote_of k a) drop_vote s.poll_votes (λ v e. e) in
      let before = h.one_row p q r in omega arith

  voted-IsSingle :
      (k a : ℕ) (is : List ℕ) (poll : Poll)
      → first (is_poll k) s.polls ≡ some poll
      → (poll.is_multiple_choice ≡ false → length is ≤ 1)
      → All (IsSingle (cast_all k a is (cleared k a))) s.polls
  voted-IsSingle k a is poll found le =
      let is_k = first-holds (is_poll k) s.polls poll found in
      All-map (λ x. IsSingle s.poll_votes x × ((x.id == poll.id) ≡ true → x ≡ poll))
        (IsSingle (cast_all k a is (cleared k a)))
        (λ x p one b. elim (Bool-cases (same_pair k a x.id b)) [
          | inl own ↦
              let same : x ≡ poll = p.1 (ground arith) in
              let poll_single : poll.is_multiple_choice ≡ false = rw (← same) one in
              let same_k : k ≡ x.id = (==_iff k x.id).0 (ground arith) in
              let same_a : a ≡ b = (==_iff a b).0 (ground arith) in
              rw (← same_k, ← same_a)
                (one_choice k a is (cleared k a) (rows-cleared k a) (le poll_single)
                  (none_active k a s.poll_votes))
          | inr other ↦
              let before = p.0 one b in
              let dropped = active_of-drop_vote k a x.id b other s.poll_votes in
              let counted = active_of-cast_all k a x.id b other is (cleared k a) in omega arith
        ])
        s.polls
        (All-both (IsSingle s.poll_votes) (λ x. (x.id == poll.id) ≡ true → x ≡ poll) s.polls
          h.single (Keyed-first poll_key (is_poll k) s.polls poll h.keyed found))

  voted-IsCurrent :
      (k a : ℕ) (is : List ℕ)
      → are_options k is s ≡ true
      → All (IsCurrent s.poll_options) (cast_all k a is (cleared k a))
  voted-IsCurrent k a is valid =
      cast_all-All (IsCurrent s.poll_options) k a is (cleared k a)
        (All-map (λ i. exists (is_option k i) s.poll_options ≡ true)
          (Leaves (IsCurrent s.poll_options) k a)
          (λ i there. (
            λ e. there,
            λ v m p e.
                let same_k : v.poll_id ≡ k = (==_iff v.poll_id k).0 (ground arith) in
                let same_i : v.option_id ≡ i = (==_iff v.option_id i).0 (ground arith) in
                rw (same_k, same_i) there,
          ))
          is (options_valid k is s valid))
        (All-update (IsCurrent s.poll_options) (is_vote_of k a) drop_vote s.poll_votes h.current
          (λ v e p d. absurd (cc)))

  voted_old :
      (k a n : ℕ) (is : List ℕ)
      → k < n
      → KeysBelow vote_key n s.poll_votes
      → KeysBelow vote_key n (cast_all k a is (cleared k a))
  voted_old k a n is lt low =
      cast_all-All (λ v. vote_key v < n) k a is (cleared k a)
        (All-every (Leaves (λ v. vote_key v < n) k a) (λ i. (lt, λ v m p. p)) is)
        (KeysBelow-update vote_key n (is_vote_of k a) drop_vote s.poll_votes (λ v. refl) low)

  new-IsSingle : (p : Poll) → p.id ≡ s.next_uuid → IsSingle s.poll_votes p
  new-IsSingle p new one a =
      let zero =
        sum_where-All (λ v. is_vote_of p.id a v && is_active v) s.poll_votes
          (All-map (λ v. vote_key v < s.next_uuid)
            (λ v. (is_vote_of p.id a v && is_active v) ≡ false) (λ v lt. ground arith) s.poll_votes
            h.votes_old) in
      omega arith

  module _ (n : ℕ) (le : s.next_uuid ≤ n) where
    kept_old : KeysBelow poll_key n s.polls
    kept_old = KeysBelow-weaken poll_key s.next_uuid n s.polls le h.old

    kept_votes_old : KeysBelow vote_key n s.poll_votes
    kept_votes_old = KeysBelow-weaken vote_key s.next_uuid n s.poll_votes le h.votes_old

    update_old :
        (p : Poll → Bool) (f : Poll → Poll)
        → ((x : Poll) → (f x).id ≡ x.id)
        → Keyed poll_key (update p f s.polls) × KeysBelow poll_key n (update p f s.polls)
    update_old p f same = (
      Keyed-update poll_key p f s.polls same h.keyed,
      KeysBelow-update poll_key n p f s.polls same kept_old,
    )

  abbrev withdrawn : ℕ → List PollVote
  withdrawn k = withdraw k (current_options k s.poll_options) s.poll_votes

  updated-IsSingle :
      (k : ℕ) (p : PollCreateRequest)
      → All (IsSingle (withdrawn k)) (update (is_poll k) (overwrite p) s.polls)
  updated-IsSingle k p =
      All-update_to (IsSingle s.poll_votes) (IsSingle (withdrawn k)) (is_poll k) (overwrite p)
        s.polls
        (λ x e one_before one a.
          let same : k ≡ x.id = sym ((==_iff x.id k).0 (ground arith)) in
          rw (← same)
            (let zero = none_withdrawn k s.poll_options s.poll_votes h.current a in omega arith))
        (λ x e one_before one a.
          let before = one_before one a in
          let less = active_of-withdraw k x.id a (current_options k s.poll_options) s.poll_votes in
          omega arith)
        h.single

  PollChange-IsSound : (s' : Db) → PollChange s s' → IsSound s'
  PollChange-IsSound s' (PollChange.unchanged polls options votes le) = record {
    keyed = rw polls h.keyed;
    old = rw polls (kept_old s'.next_uuid le);
    votes_old = rw votes (kept_votes_old s'.next_uuid le);
    one_row = λ k o a. rw votes (h.one_row k o a);
    current = rw (options, votes) h.current;
    single = rw (polls, votes) h.single;
  }
  PollChange-IsSound s' (PollChange.created p a c more polls options votes lt) =
      let new = new_poll p a c s.next_uuid s.now in
      record {
        keyed =
            rw polls (Keyed-insert poll_key s.next_uuid new s.polls h.keyed h.old (omega arith));
        old = rw polls (
            All-insert (λ x. poll_key x < s'.next_uuid) new s.polls
              (kept_old s'.next_uuid (omega arith)) lt);
        votes_old = rw votes (kept_votes_old s'.next_uuid (omega arith));
        one_row = λ k o b. rw votes (h.one_row k o b);
        current =
            rw (options, votes)
              (All-map (IsCurrent s.poll_options) (IsCurrent (s.poll_options ++ more))
                (λ v p e. exists-append (is_option v.poll_id v.option_id) s.poll_options more (p e))
                s.poll_votes h.current);
        single =
            rw (polls, votes)
              (All-insert (IsSingle s.poll_votes) new s.polls h.single (new-IsSingle new refl));
      }
  PollChange-IsSound s' (PollChange.updated k p more polls options votes le) =
      let keys = update_old s'.next_uuid le (is_poll k) (overwrite p) (λ x. refl) in
      record {
        keyed = rw polls keys.0;
        old = rw polls keys.1;
        votes_old = rw votes (
            withdraw-All (λ v. vote_key v < s'.next_uuid) k (current_options k s.poll_options)
              s.poll_votes (λ v lt. lt) (kept_votes_old s'.next_uuid le));
        one_row = λ j o b.
            let less = withdraw-rows k j o b (current_options k s.poll_options) s.poll_votes in
            let before = h.one_row j o b in rw votes (omega arith);
        current =
            rw (options, votes) (withdraw-IsCurrent k s.poll_options s.poll_votes h.current more);
        single = rw (polls, votes) (updated-IsSingle k p);
      }
  PollChange-IsSound s' (PollChange.deleted k polls options votes le) =
      let gone = λ (q : Poll). record q { is_deleted = true } in
      let keys = update_old s'.next_uuid le (is_poll k) gone (λ x. refl) in
      record {
        keyed = rw polls keys.0;
        old = rw polls keys.1;
        votes_old = rw votes (kept_votes_old s'.next_uuid le);
        one_row = λ j o b. rw votes (h.one_row j o b);
        current = rw (options, votes) h.current;
        single =
            rw (polls, votes)
              (All-update (IsSingle s.poll_votes) (is_poll k) gone s.polls h.single
                (λ x e one. one));
      }
  PollChange-IsSound s' (PollChange.voted k a is poll found le_one valid polls options votes le) =
      let is_k = first-holds (is_poll k) s.polls poll found in
      let low = All-first (λ x. poll_key x < s.next_uuid) (is_poll k) s.polls poll h.old found in
      record {
        keyed = rw polls h.keyed;
        old = rw polls (kept_old s'.next_uuid le);
        votes_old =
            rw votes
              (voted_old k a s'.next_uuid is (ground arith) (kept_votes_old s'.next_uuid le));
        one_row = λ j o b. rw votes (rows-cast_all k a j o b is (cleared k a) (rows-cleared k a));
        current = rw (options, votes) (voted-IsCurrent k a is valid);
        single = rw (polls, votes) (voted-IsSingle k a is poll found le_one);
      }

handle-PollChange :
    (account : Account) (request : Request) (s : Db) → PollChange s (handle account request s).1
unfolding handle unit_of_work
handle-PollChange account request s = elim (Result-cases (execute account request s).0) [
  | inl (e, raised) ↦
      let left : (handle account request s).1 ≡ s = ground arith in
      subst (PollChange s) (sym left) (PollChange.unchanged refl refl refl (omega arith))
  | inr (u, made) ↦
      let left : (handle account request s).1 ≡ (execute account request s).1 = ground arith in
      subst (PollChange s) (sym left) (execute-PollChange account request s made)
]

-- Any sequence of requests, those that raise included, keeps this: polls have unique ids, handed out
-- before; there is at most one row for each poll, option and account; an active vote is for an option
-- that its poll has; and in a poll that is not a multiple choice no account has two active votes, also
-- after the poll was changed from a multiple choice.
pub serve-keeps_votes :
    (requests : List (Account × ℕ × Request)) (s : Db) → IsSound s → IsSound (serve requests s)
unfolding serve
serve-keeps_votes [] s h = h
serve-keeps_votes ((account, elapsed, request) ∷ rest) s h =
    let t = at elapsed s in
    let next = (handle account request t).1 in
    let here : IsSound t = record {
      keyed = h.keyed;
      old = h.old;
      votes_old = h.votes_old;
      one_row = h.one_row;
      current = h.current;
      single = h.single;
    } in
    serve-keeps_votes rest next
      (PollChange-IsSound t here next (handle-PollChange account request t))
