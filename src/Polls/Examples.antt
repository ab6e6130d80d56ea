-- ===== src/Polls/Examples.antt =====
-- A poll with two options in which one account has voted, runs on it, and the theorems at it.
use nestora_server.Prelude.{ℕ, ◌≡◌, refl, true, false, none, some, List, [], ◌∷◌, arith}
use nestora_server.Prelude.Table.{first, exists, length, sum_where}
use nestora_server.Prelude.Text.{text, text_eq}
use nestora_server.Http.{ok}
use nestora_server.Account.{Account, account_role}
use nestora_server.Directory.{Directory, is_in, association_ids_for_account}
use nestora_server.Polls.Data.{Poll, PollOption, PollCreateRequest, PollVoteRequest, Db}
use nestora_server.Polls.Access
use nestora_server.Polls.Service
use nestora_server.Polls.Service.{vote}
use nestora_server.Polls.Votes.{voted, same_pair}
use nestora_server.Polls.Ballot.{vote_chosen}
use nestora_server.Polls.Single.{IsSound}
use nestora_server.Polls.Sound.{serve-keeps_votes}
use nestora_server.Polls.Handler.{Request, serve}

abbrev admin : Account
admin = record { id = 1; role = some "admin"; user_id = none; email = [] }

abbrev directory : Directory
directory = record {
  accounts = [];
  user_details = [];
  units = [];
  blocks = [];
  associations = record { id = 41; is_deleted = false } ∷ [];
  admin_associations = record { admin_id = 1; association_id = 41 } ∷ [];
}

unfoldable poll : Poll
unfolding text
poll = record {
  id = 5;
  association_id = some 41;
  question = text "Paint?";
  description = none;
  visibility = text "All";
  status = text "Published";
  is_multiple_choice = false;
  end_date = none;
  created_by = some 1;
  created_at = 0;
  is_deleted = false;
}

abbrev options : List PollOption
options =
    record { id = 6; poll_id = 5; option_text = []; is_deleted = false }
    ∷ record { id = 7; poll_id = 5; option_text = []; is_deleted = false }
    ∷ []

abbrev db : Db
db = record {
  directory = directory;
  inbox = record { notifications = []; recipients = [] };
  polls = poll ∷ [];
  poll_options = options;
  poll_votes = record { poll_id = 5; option_id = 6; account_id = 1; is_deleted = false } ∷ [];
  poll_likes = [];
  poll_comments = [];
  now = 100;
  next_uuid = 10;
}

abbrev ballot : PollVoteRequest
ballot = record { option_ids = 7 ∷ 7 ∷ [] }

vote_returns : (vote 5 ballot admin db).0 ≡ ok tt
unfolding poll text text_eq vote Access.role_code Access.authorized_poll Access.get_poll
    Access.sees_poll Service.unique Service.are_options account_role association_ids_for_account
    is_in first exists length
vote_returns = refl

vote_chosen_example :
    ((o : ℕ) → voted 5 o 1 (vote 5 ballot admin db).1.poll_votes ≡ is_in o ballot.option_ids)
    × ((j o b : ℕ)
        → same_pair 5 1 j b ≡ false
        → voted j o b (vote 5 ballot admin db).1.poll_votes ≡ voted j o b db.poll_votes)
vote_chosen_example = vote_chosen 5 ballot admin db vote_returns

abbrev changed : PollCreateRequest
changed = record {
  question = [];
  description = none;
  visibility = [];
  status = [];
  is_multiple_choice = true;
  end_date = none;
  association_id = none;
  options = [] ∷ [] ∷ [];
}

db-IsSound : IsSound db
unfolding poll sum_where exists
db-IsSound = record {
  keyed = (tt, tt);
  old = (omega arith, tt);
  votes_old = (omega arith, tt);
  one_row = λ k o a. ground arith;
  current = (λ e. refl, tt);
  single = (λ one a. ground arith, tt);
}

serve-keeps_votes_example : IsSound (
    serve
      ((admin, 1, Request.vote_poll 5 ballot)
        ∷ (admin, 1, Request.update_poll 5 changed)
        ∷ (admin, 1, Request.like_poll 5)
        ∷ (admin, 1, Request.delete_poll 5)
        ∷ [])
      db)
serve-keeps_votes_example =
    serve-keeps_votes
      ((admin, 1, Request.vote_poll 5 ballot)
        ∷ (admin, 1, Request.update_poll 5 changed)
        ∷ (admin, 1, Request.like_poll 5)
        ∷ (admin, 1, Request.delete_poll 5)
        ∷ [])
      db db-IsSound
