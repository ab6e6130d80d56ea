-- ===== src/Polls/Handler.antt =====
-- app/modules/polls/router.py: the routes that write, each inside one `UnitOfWork`, and a sequence of
-- such requests.
use nestora_server.Prelude.{ℕ, ◌+◌, List, [], ◌∷◌}
use nestora_server.Prelude.Text.{Text}
use nestora_server.Http.{Exec, unit_of_work, pure, ◌>>◌}
use nestora_server.Account.{Account}
use nestora_server.Polls.Data.{PollCreateRequest, PollVoteRequest, Db}
use nestora_server.Polls.Service

pub data Request : Type 0 where
  create_poll : PollCreateRequest → Request
  update_poll : ℕ → PollCreateRequest → Request
  delete_poll : ℕ → Request
  vote_poll : ℕ → PollVoteRequest → Request
  like_poll : ℕ → Request
  comment_poll : ℕ → Text → Request

unfoldable pub execute : Account → Request → Exec Db Unit
execute account (create_poll p) = Service.create p account >> pure tt
execute account (update_poll poll_id p) = Service.update_poll poll_id p account
execute account (delete_poll poll_id) = Service.delete poll_id account
execute account (vote_poll poll_id p) = Service.vote poll_id p account
execute account (like_poll poll_id) = Service.like poll_id account >> pure tt
execute account (comment_poll poll_id comment) =
    Service.add_comment poll_id comment account >> pure tt

unfoldable pub handle : Account → Request → Exec Db Unit
handle account request = unit_of_work (execute account request)

-- The clock is set to a later time before each request.
abbrev pub at : ℕ → Db → Db
at elapsed s = record s { now = s.now + elapsed }

unfoldable pub serve : List (Account × ℕ × Request) → Db → Db
serve [] s = s
serve ((account, elapsed, request) ∷ rest) s = serve rest (handle account request (at elapsed s)).1
