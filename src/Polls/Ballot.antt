-- ===== src/Polls/Ballot.antt =====
-- What a vote leaves in the table of votes.
use nestora_server.Prelude.{ℕ, ◌≡◌, ◌∙◌, ap, false, arith}
use nestora_server.Http.{ok}
use nestora_server.Account.{Account}
use nestora_server.Directory.{is_in}
use nestora_server.Polls.Data.{PollVoteRequest, Db}
use nestora_server.Polls.Service.{vote, unique, is_vote_of, drop_vote}
use nestora_server.Prelude.Table.{update}
use nestora_server.Polls.Votes.{voted, same_pair, voted-cast_all, voted-drop_vote, is_in-unique}
use nestora_server.Polls.Change.{vote-Voted}

-- After a vote that returns, the account has an active vote in the poll for exactly the options that it
-- chose, and no vote of another account, or in another poll, has changed.
pub vote_chosen :
    (k : ℕ) (p : PollVoteRequest) (account : Account) (s : Db)
    → (vote k p account s).0 ≡ ok tt
    → ((o : ℕ) → voted k o account.id (vote k p account s).1.poll_votes ≡ is_in o p.option_ids)
      × ((j o b : ℕ)
          → same_pair k account.id j b ≡ false
          → voted j o b (vote k p account s).1.poll_votes ≡ voted j o b s.poll_votes)
vote_chosen k p account s made =
    let v = vote-Voted k p account s made in
    let a = account.id in
    let after = update (is_vote_of k a) drop_vote s.poll_votes in
    (
      λ o.
          let cast = voted-cast_all k a k a o (unique p.option_ids) after in
          let dropped = voted-drop_vote k a k a o s.poll_votes in
          let once = is_in-unique o p.option_ids in
          ap (λ (t : Db). voted k o a t.poll_votes) v.state ∙ cast ∙ ground (arith, dropped, once),
      λ j o b other.
          let cast = voted-cast_all k a j b o (unique p.option_ids) after in
          let dropped = voted-drop_vote k a j b o s.poll_votes in
          ap (λ (t : Db). voted j o b t.poll_votes) v.state ∙ cast ∙ ground (arith, dropped),
    )
