-- ===== src/Polls/Effects.antt =====
-- What creation, update and the other requests write to the tables of polls, options and votes.
use nestora_server.Prelude.{
  Option, none, ℕ, ◌+◌, ◌≤◌, ◌≡◌, ◌∙◌, refl, sym, ap, subst, Bool, true, false, some, List, [], ◌∷◌,
  ◌++◌, ◌&&◌, not, Option-cases, inl, inr, arith,
}
use nestora_server.Prelude.Table.{first, insert, update}
use nestora_server.Prelude.Text.{Text}
use nestora_server.Http.{ok, Result-cases}
use nestora_server.Account.{Account}
use nestora_server.Notifications.Ids.{notify_association_audience_uuid}
use nestora_server.Polls.Data.{Poll, PollOption, PollCreateRequest, PollVoteRequest, Db}
use nestora_server.Polls.Access.{role_code, is_poll, manager_poll, check_window}
use nestora_server.Polls.Service
use nestora_server.Polls.Service.{
  poll_notice, association_for, new_poll, add_options, announce, when, is_published, overwrite,
  is_current_option, current_options, drop_option, drop_vote, withdraw, is_vote_of, cast_all,
  unique, are_options, is_like, toggle_like,
}
use nestora_server.Polls.Handler.{Request, execute}
use nestora_server.Polls.Change.{
  PollChange, role_code_state, require_association_access_state, authorized_poll_state,
  check_window_state, manager_poll_state, Voted, vote-Voted,
}

append_insert :
    (xs : List PollOption) (x : PollOption) (ys : List PollOption)
    → insert x xs ++ ys ≡ xs ++ x ∷ ys
append_insert [] x ys = refl
append_insert (z ∷ zs) x ys = ap (λ (ws : List PollOption). z ∷ ws) (append_insert zs x ys)

append_nil : (xs : List PollOption) → xs ≡ xs ++ []
append_nil [] = refl
append_nil (x ∷ xs) = ap (λ (ys : List PollOption). x ∷ ys) (append_nil xs)

-- The options, in a table that adds to that of `s`, are all that changes beside the ids.
pub record OptionsAdded (s s' : Db) : Type 0 where
  pub options : List PollOption
  pub added : s'.poll_options ≡ s.poll_options ++ options
  pub polls : s'.polls ≡ s.polls
  pub votes : s'.poll_votes ≡ s.poll_votes
  pub uuids : s.next_uuid ≤ s'.next_uuid

add_options_ok : (k : ℕ) (ts : List Text) (s : Db) → (add_options k ts s).0 ≡ ok tt
unfolding add_options
add_options_ok k [] s = refl
add_options_ok k (t ∷ ts) s = add_options_ok k ts _

add_options-OptionsAdded : (k : ℕ) (ts : List Text) (s : Db) → OptionsAdded s (add_options k ts s).1
unfolding add_options
add_options-OptionsAdded k [] s = record {
  options = [];
  added = append_nil s.poll_options;
  polls = refl;
  votes = refl;
  uuids = omega arith;
}
add_options-OptionsAdded k (t ∷ ts) s =
    let o : PollOption = record {
      id = s.next_uuid;
      poll_id = k;
      option_text = t;
      is_deleted = false;
    } in
    let s1 = record s { poll_options = insert o s.poll_options; next_uuid = s.next_uuid + 1 } in
    let later = add_options-OptionsAdded k ts s1 in
    let more = later.uuids in
    record {
      options = o ∷ later.options;
      added = later.added ∙ append_insert s.poll_options o later.options;
      polls = later.polls;
      votes = later.votes;
      uuids = omega arith;
    }

-- The announcement, if there is one, writes to the inbox.
announced :
    (b : Bool) (k : ℕ) (a : Option ℕ) (p : PollCreateRequest) (account : Account) (s : Db)
    → ((when b (announce k a p account) s).1.polls ≡ s.polls)
      × ((when b (announce k a p account) s).1.poll_options ≡ s.poll_options)
      × ((when b (announce k a p account) s).1.poll_votes ≡ s.poll_votes)
      × (s.next_uuid ≤ (when b (announce k a p account) s).1.next_uuid)
unfolding announce
announced true k none p account s = (refl, refl, refl, omega arith)
announced true k (some a) p account s = (
  refl,
  refl,
  refl,
  notify_association_audience_uuid s.directory (some account.id) s.now s.next_uuid s.inbox
      (poll_notice k p.question) a p.visibility,
)
announced false k a p account s = (refl, refl, refl, omega arith)

announce_ok :
    (b : Bool) (k : ℕ) (a : Option ℕ) (p : PollCreateRequest) (account : Account) (s : Db)
    → (when b (announce k a p account) s).0 ≡ ok tt
unfolding announce
announce_ok true k none p account s = refl
announce_ok true k (some a) p account s = refl
announce_ok false k a p account s = refl

module _ (s : Db) (account : Account) where
  create-PollChange :
      (p : PollCreateRequest) (r : ℕ)
      → (Service.create p account s).0 ≡ ok r
      → PollChange s (Service.create p account s).1
  unfolding Service.create
  create-PollChange p r made =
      let role = role_code_state s account in
      elim (Result-cases (role_code account s).0) [
        | inl (e, raised) ↦ absurd (ground arith)
        | inr (who, known) ↦ elim (Option-cases (association_for p.association_id who account s)) [
          | inl missing ↦ absurd (ground arith)
          | inr (a, found) ↦
              let access = require_association_access_state s account (some a) in
              let s1 = record s {
                polls = insert (new_poll p a account.id s.next_uuid s.now) s.polls;
                next_uuid = s.next_uuid + 1;
              } in
              let with_options = add_options-OptionsAdded s.next_uuid p.options s1 in
              let s2 = (add_options s.next_uuid p.options s1).1 in
              let added_ok = add_options_ok s.next_uuid p.options s1 in
              let told = announced (is_published p.status) s.next_uuid (some a) p account s2 in
              let told_ok = announce_ok (is_published p.status) s.next_uuid (some a) p account s2 in
              let s3 =
                (when (is_published p.status) (announce s.next_uuid (some a) p account) s2).1 in
              let left : (Service.create p account s).1 ≡ s3 = ground arith in
              let more = with_options.uuids in
              let most = told.3 in
              subst (PollChange s) (sym left) (
                PollChange.created p a account.id with_options.options (told.0 ∙ with_options.polls)
                  (told.1 ∙ with_options.added) (told.2 ∙ with_options.votes) (omega arith))
        ]
      ]

  manager_poll_ok :
      (k : ℕ) (poll : Poll)
      → (manager_poll k account s).0 ≡ ok poll
      → (manager_poll k account s).1 ≡ s
  manager_poll_ok k poll e = manager_poll_state s account k

  update_poll-PollChange :
      (k : ℕ) (p : PollCreateRequest)
      → (Service.update_poll k p account s).0 ≡ ok tt
      → PollChange s (Service.update_poll k p account s).1
  unfolding Service.update_poll
  update_poll-PollChange k p made =
      let managed = manager_poll_state s account k in
      elim (Result-cases (manager_poll k account s).0) [
        | inl (e, raised) ↦ absurd (ground arith)
        | inr (poll, found) ↦
            let in_time = check_window_state s account poll in
            elim (Result-cases (check_window poll account s).0) [
              | inl (e, late) ↦ absurd (ground arith)
              | inr (u, early) ↦
                  let s1 = record s {
                    polls = update (is_poll k) (overwrite p) s.polls;
                    poll_options = update (is_current_option k) drop_option s.poll_options;
                    poll_votes = withdraw k (current_options k s.poll_options) s.poll_votes;
                  } in
                  let with_options = add_options-OptionsAdded k p.options s1 in
                  let s2 = (add_options k p.options s1).1 in
                  let added_ok = add_options_ok k p.options s1 in
                  let news = not (is_published poll.status) && is_published p.status in
                  let told = announced news k poll.association_id p account s2 in
                  let s3 = (when news (announce k poll.association_id p account) s2).1 in
                  let left : (Service.update_poll k p account s).1 ≡ s3 = ground arith in
                  let more = with_options.uuids in
                  let most = told.3 in
                  subst (PollChange s) (sym left) (
                    PollChange.updated k p with_options.options (told.0 ∙ with_options.polls)
                      (told.1 ∙ with_options.added) (told.2 ∙ with_options.votes) (omega arith))
            ]
      ]

  delete-PollChange :
      (k : ℕ) → (Service.delete k account s).0 ≡ ok tt → PollChange s (Service.delete k account s).1
  unfolding Service.delete
  delete-PollChange k made =
      let managed = manager_poll_state s account k in
      elim (Result-cases (manager_poll k account s).0) [
        | inl (e, raised) ↦ absurd (ground arith)
        | inr (poll, found) ↦
            let in_time = check_window_state s account poll in
            elim (Result-cases (check_window poll account s).0) [
              | inl (e, late) ↦ absurd (ground arith)
              | inr (u, early) ↦
                  PollChange.deleted k (ground arith) (ground arith) (ground arith) (ground arith)
            ]
      ]

  like-PollChange : (k : ℕ) → PollChange s (Service.like k account s).1
  unfolding Service.like toggle_like
  like-PollChange k =
      let seen = authorized_poll_state s account k in
      elim (Option-cases (first (is_like k account.id) s.poll_likes)) [
        | inl new ↦ PollChange.unchanged (ground arith) (ground arith) (ground arith) (ground arith)
        | inr (l, found) ↦
            PollChange.unchanged (ground arith) (ground arith) (ground arith) (ground arith)
      ]

  add_comment-PollChange :
      (k : ℕ) (comment : Text) → PollChange s (Service.add_comment k comment account s).1
  unfolding Service.add_comment
  add_comment-PollChange k comment =
      let seen = authorized_poll_state s account k in
      PollChange.unchanged (ground arith) (ground arith) (ground arith) (ground arith)

Voted-PollChange :
    (k : ℕ) (p : PollVoteRequest) (account : Account) (s s' : Db)
    → Voted k p account s s'
    → PollChange s s'
Voted-PollChange k p account s s' v = subst (PollChange s) (sym v.state) (
    PollChange.voted k account.id (unique p.option_ids) v.poll v.found v.single v.valid refl refl
      refl (omega arith))

pub execute-PollChange :
    (account : Account) (request : Request) (s : Db)
    → (execute account request s).0 ≡ ok tt
    → PollChange s (execute account request s).1
unfolding execute
execute-PollChange a (Request.create_poll p) s done = elim (Result-cases (Service.create p a s).0) [
  | inl (e, raised) ↦ absurd (ground arith)
  | inr (r, made) ↦
      let left : (execute a (Request.create_poll p) s).1 ≡ (Service.create p a s).1 =
        ground arith in
      subst (PollChange s) (sym left) (create-PollChange s a p r made)
]
execute-PollChange a (Request.update_poll k p) s done = update_poll-PollChange s a k p done
execute-PollChange a (Request.delete_poll k) s done = delete-PollChange s a k done
execute-PollChange a (Request.vote_poll k p) s done =
    Voted-PollChange k p a s (Service.vote k p a s).1 (vote-Voted k p a s done)
execute-PollChange a (Request.like_poll k) s done =
    let left : (execute a (Request.like_poll k) s).1 ≡ (Service.like k a s).1 = ground arith in
    subst (PollChange s) (sym left) (like-PollChange s a k)
execute-PollChange a (Request.comment_poll k comment) s done =
    let left : (execute a (Request.comment_poll k comment) s).1
        ≡ (Service.add_comment k comment a s).1 =
      ground arith in
    subst (PollChange s) (sym left) (add_comment-PollChange s a k comment)
