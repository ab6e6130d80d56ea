-- ===== src/Polls/Service.antt =====
-- app/modules/polls/service.py: every method that writes.
use nestora_server.Prelude.{
  ℕ, ◌+◌, Bool, true, false, Option, none, some, List, [], ◌∷◌, ◌&&◌, ◌||◌, not, ◌==◌, ltb,
  if◌then◌else◌,
}
use nestora_server.Prelude.Table.{first, update, insert, exists, length}
use nestora_server.Prelude.Text.{Text, text, text_eq, lower, strip}
use nestora_server.Http.{Status, Exec, ok, pure, gets, modify, or_raise, raise_if, ◌>>=◌, ◌>>◌}
use nestora_server.Account.{Account, RoleCode}
use nestora_server.Directory.{member_association_id, association_exists}
use nestora_server.Notifications.Data.{Notice}
use nestora_server.Notifications.Service.{notify_association_audience}
use nestora_server.Polls.Data.{
  Poll, PollOption, PollVote, PollLike, PollCreateRequest, PollVoteRequest, Db,
}
use nestora_server.Polls.Access.{
  forbidden_poll, is_manager_role, is_voter_role, role_code, is_poll, require_association_access,
  authorized_poll, manager_poll, check_window,
}

-- `poll.status.strip().lower() == "published"`
abbrev pub is_published : Text → Bool
is_published status = text_eq (lower (strip status)) (text "published")

abbrev pub new_poll : PollCreateRequest → ℕ → ℕ → ℕ → ℕ → Poll
new_poll p association_id created_by uuid now = record {
  id = uuid;
  association_id = some association_id;
  question = p.question;
  description = p.description;
  visibility = p.visibility;
  status = p.status;
  is_multiple_choice = p.is_multiple_choice;
  end_date = p.end_date;
  created_by = some created_by;
  created_at = now;
  is_deleted = false;
}

unfoldable pub add_options : ℕ → List Text → Exec Db Unit
add_options poll_id [] s = (ok tt, s)
add_options poll_id (t ∷ ts) s = add_options poll_id ts (record s {
  poll_options =
      insert (record { id = s.next_uuid; poll_id = poll_id; option_text = t; is_deleted = false })
        s.poll_options;
  next_uuid = s.next_uuid + 1;
})

abbrev pub poll_notice : ℕ → Text → Notice
poll_notice poll_id question = record {
  title = text "New Poll";
  message = question;
  type = "poll";
  association_id = none;
  created_by_account_id = none;
  entity_type = some "poll";
  entity_id = some poll_id;
  action_url = some "/polls";
}

-- Nobody is of no association: `b.association_id = NULL` holds of no row.
unfoldable pub announce : ℕ → Option ℕ → PollCreateRequest → Account → Exec Db Unit
announce poll_id none p account = pure tt
announce poll_id (some association_id) p account = modify (λ s.
    let told =
      notify_association_audience s.directory association_id p.visibility
        (poll_notice poll_id p.question) (some account.id) s.now s.next_uuid s.inbox in
    record s { inbox = told.0; next_uuid = told.1 })

abbrev pub when : Bool → Exec Db Unit → Exec Db Unit
when true m = m
when false m = pure tt

-- The association of a new poll: that of the payload, or a board member's own.
unfoldable pub association_for : Option ℕ → RoleCode → Account → Db → Option ℕ
association_for (some a) role account s = if association_exists a s.directory then some a else none
association_for none RoleCode.board_member account s =
    elim (member_association_id account.user_id s.directory) [
      | none ↦ none
      | some a ↦ if association_exists a s.directory then some a else none
    ]
association_for none _ account s = none

unfoldable pub create : PollCreateRequest → Account → Exec Db ℕ
create p account = do
  role ← role_code account
  raise_if (not (is_manager_role role)) Status.forbidden forbidden_poll
  found ← gets (association_for p.association_id role account)
  association_id ← or_raise found Status.bad_request "association_id is required."
  require_association_access account (some association_id)
  poll_id ← gets (λ s. s.next_uuid)
  modify (λ s. record s {
    polls = insert (new_poll p association_id account.id s.next_uuid s.now) s.polls;
    next_uuid = s.next_uuid + 1;
  })
  add_options poll_id p.options
  when (is_published p.status) (announce poll_id (some association_id) p account)
  pure poll_id

-- The fields of the payload but its association and its options.
abbrev pub overwrite : PollCreateRequest → Poll → Poll
overwrite p poll = record poll {
  question = p.question;
  description = p.description;
  visibility = p.visibility;
  status = p.status;
  is_multiple_choice = p.is_multiple_choice;
  end_date = p.end_date;
}

abbrev pub is_current_option : ℕ → PollOption → Bool
is_current_option poll_id o = o.poll_id == poll_id && not o.is_deleted

unfoldable pub current_options : ℕ → List PollOption → List PollOption
current_options poll_id [] = []
current_options poll_id (o ∷ os) =
    if is_current_option poll_id o
    then o ∷ current_options poll_id os
    else current_options poll_id os

abbrev pub drop_option : PollOption → PollOption
drop_option o = record o { is_deleted = true }

abbrev pub drop_vote : PollVote → PollVote
drop_vote v = record v { is_deleted = true }

-- The active votes for each of the options are withdrawn.
unfoldable pub withdraw : ℕ → List PollOption → List PollVote → List PollVote
withdraw poll_id [] votes = votes
withdraw poll_id (o ∷ os) votes =
    withdraw poll_id os (
      update (λ v. v.poll_id == poll_id && v.option_id == o.id && not v.is_deleted) drop_vote votes)

unfoldable pub update_poll : ℕ → PollCreateRequest → Account → Exec Db Unit
update_poll poll_id p account = do
  poll ← manager_poll poll_id account
  check_window poll account
  modify (λ s. record s {
    polls = update (is_poll poll_id) (overwrite p) s.polls;
    poll_options = update (is_current_option poll_id) drop_option s.poll_options;
    poll_votes = withdraw poll_id (current_options poll_id s.poll_options) s.poll_votes;
  })
  add_options poll_id p.options
  when (not (is_published poll.status) && is_published p.status)
      (announce poll_id poll.association_id p account)

unfoldable pub delete : ℕ → Account → Exec Db Unit
delete poll_id account = do
  poll ← manager_poll poll_id account
  check_window poll account
  modify (λ s. record s {
    polls = update (is_poll poll_id) (λ q. record q { is_deleted = true }) s.polls;
  })

abbrev is_past : Option ℕ → ℕ → Bool
is_past none now = false
is_past (some end_date) now = ltb end_date now

-- `list(dict.fromkeys(ids))`: each id once, where it comes first.
abbrev pub without : ℕ → List ℕ → List ℕ
without i [] = []
without i (j ∷ js) = if i == j then without i js else j ∷ without i js

unfoldable pub unique : List ℕ → List ℕ
unique [] = []
unique (i ∷ is) = i ∷ without i (unique is)

-- `PollRepository.option`
abbrev pub is_option : ℕ → ℕ → PollOption → Bool
is_option poll_id option_id o = o.id == option_id && is_current_option poll_id o

unfoldable pub are_options : ℕ → List ℕ → Db → Bool
are_options poll_id [] s = true
are_options poll_id (i ∷ is) s =
    exists (is_option poll_id i) s.poll_options && are_options poll_id is s

abbrev pub is_vote_of : ℕ → ℕ → PollVote → Bool
is_vote_of poll_id account_id v = v.poll_id == poll_id && v.account_id == account_id

-- `session.get(PollVote, …)`, by the three columns of the primary key.
abbrev pub is_vote : ℕ → ℕ → ℕ → PollVote → Bool
is_vote poll_id option_id account_id v = v.option_id == option_id && is_vote_of poll_id account_id v

abbrev pub revive : PollVote → PollVote
revive v = record v { is_deleted = false }

-- A vote for one option: the row that is there becomes active, or there is a new one.
unfoldable pub cast : ℕ → ℕ → ℕ → List PollVote → List PollVote
cast poll_id account_id option_id votes =
    if exists (is_vote poll_id option_id account_id) votes
    then update (is_vote poll_id option_id account_id) revive votes
    else insert
        (record {
          poll_id = poll_id;
          option_id = option_id;
          account_id = account_id;
          is_deleted = false;
        })
        votes

unfoldable pub cast_all : ℕ → ℕ → List ℕ → List PollVote → List PollVote
cast_all poll_id account_id [] votes = votes
cast_all poll_id account_id (i ∷ is) votes =
    cast_all poll_id account_id is (cast poll_id account_id i votes)

unfoldable pub vote : ℕ → PollVoteRequest → Account → Exec Db Unit
vote poll_id p account = do
  role ← role_code account
  raise_if (not (is_voter_role role)) Status.forbidden forbidden_poll
  poll ← authorized_poll poll_id account
  now ← gets (λ s. s.now)
  raise_if (not (text_eq poll.status (text "Published")) || is_past poll.end_date now)
      Status.bad_request "Poll is not active."
  let option_ids = unique p.option_ids
  raise_if (not poll.is_multiple_choice && ltb 1 (length option_ids)) Status.bad_request
      "Multiple selection is not allowed for this poll."
  valid ← gets (are_options poll_id option_ids)
  raise_if (not valid) Status.bad_request "One or more options are invalid."
  modify (λ s. record s {
    poll_votes =
        cast_all poll_id account.id option_ids
          (update (is_vote_of poll_id account.id) drop_vote s.poll_votes);
  })

abbrev pub is_like : ℕ → ℕ → PollLike → Bool
is_like poll_id account_id l = l.poll_id == poll_id && l.account_id == account_id

unfoldable pub toggle_like : ℕ → ℕ → Exec Db Bool
toggle_like poll_id account_id s = elim (first (is_like poll_id account_id) s.poll_likes) [
  | none ↦ (
    ok true,
    record s {
      poll_likes =
          insert (record { poll_id = poll_id; account_id = account_id; is_deleted = false })
            s.poll_likes;
    },
  )
  | some l ↦ (
    ok l.is_deleted,
    record s {
      poll_likes =
          update (is_like poll_id account_id) (λ m. record m { is_deleted = not m.is_deleted })
            s.poll_likes;
    },
  )
]

unfoldable pub like : ℕ → Account → Exec Db Bool
like poll_id account = authorized_poll poll_id account >> toggle_like poll_id account.id

-- `PollCommentRequest.trim_comment`, which is run before the route is.
unfoldable pub add_comment : ℕ → Text → Account → Exec Db ℕ
add_comment poll_id comment account = do
  raise_if (text_eq (strip comment) []) Status.unprocessable_content "Comment cannot be blank"
  authorized_poll poll_id account
  comment_id ← gets (λ s. s.next_uuid)
  modify (λ s. record s {
    poll_comments =
        insert
          (record {
            id = s.next_uuid;
            poll_id = poll_id;
            account_id = account.id;
            content = strip comment;
            is_deleted = false;
          })
          s.poll_comments;
    next_uuid = s.next_uuid + 1;
  })
  pure comment_id
