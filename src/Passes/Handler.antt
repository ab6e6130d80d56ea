-- ===== src/Passes/Handler.antt =====
-- app/modules/events/router.py: the requests that write passes, each inside one `UnitOfWork`, and a
-- sequence of such requests.
use nestora_server.Prelude.{ℕ, List, [], ◌∷◌}
use nestora_server.Http.{Exec, unit_of_work, pure, ◌>>◌}
use nestora_server.Account.{Account}
use nestora_server.Passes.Data.{
  EventPassBookingRequest, EventPassShareRequest, EventPassCheckInRequest, Db,
}
use nestora_server.Passes.Service

pub data Request : Type 0 where
  book_event_pass : ℕ → EventPassBookingRequest → Request
  share_event_pass : ℕ → EventPassShareRequest → Request
  check_in_event_pass : ℕ → ℕ → EventPassCheckInRequest → Request

-- The service method that a route calls, without its reply.
unfoldable pub execute : Account → Request → Exec Db Unit
execute account (book_event_pass event_id p) = Service.book event_id p account >> pure tt
execute account (share_event_pass pass_id p) = Service.share pass_id p account >> pure tt
execute account (check_in_event_pass event_id pass_id p) =
    Service.check_in event_id pass_id p account >> pure tt

unfoldable pub handle : Account → Request → Exec Db Unit
handle account request = unit_of_work (execute account request)

unfoldable pub serve : List (Account × Request) → Db → Db
serve [] s = s
serve ((account, request) ∷ rest) s = serve rest (handle account request s).1
