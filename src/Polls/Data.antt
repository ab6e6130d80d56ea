-- ===== src/Polls/Data.antt =====
-- app/modules/polls/models.py and the payloads of schemas.py. The column `updated_at` is left out, and so
-- is `created_at` where no method reads it.
use nestora_server.Prelude.{ℕ, Bool, Option, List}
use nestora_server.Prelude.Text.{Text}
use nestora_server.Directory.{Directory}
use nestora_server.Notifications.Data.{Inbox}

pub record Poll : Type 0 where
  pub id : ℕ
  pub association_id : Option ℕ
  pub question : Text
  pub description : Option Text
  pub visibility : Text
  pub status : Text
  pub is_multiple_choice : Bool
  pub end_date : Option ℕ
  pub created_by : Option ℕ
  pub created_at : ℕ
  pub is_deleted : Bool

pub record PollOption : Type 0 where
  pub id : ℕ
  pub poll_id : ℕ
  pub option_text : Text
  pub is_deleted : Bool

pub record PollVote : Type 0 where
  pub poll_id : ℕ
  pub option_id : ℕ
  pub account_id : ℕ
  pub is_deleted : Bool

pub record PollLike : Type 0 where
  pub poll_id : ℕ
  pub account_id : ℕ
  pub is_deleted : Bool

pub record PollComment : Type 0 where
  pub id : ℕ
  pub poll_id : ℕ
  pub account_id : ℕ
  pub content : Text
  pub is_deleted : Bool

-- `association_id` is `none` where the payload has none, an empty one, "ALL" or "all".
pub record PollCreateRequest : Type 0 where
  pub question : Text
  pub description : Option Text
  pub visibility : Text
  pub status : Text
  pub is_multiple_choice : Bool
  pub end_date : Option ℕ
  pub association_id : Option ℕ
  pub options : List Text

pub record PollVoteRequest : Type 0 where
  pub option_ids : List ℕ

pub record Db : Type 0 where
  pub directory : Directory
  pub inbox : Inbox
  pub polls : List Poll
  pub poll_options : List PollOption
  pub poll_votes : List PollVote
  pub poll_likes : List PollLike
  pub poll_comments : List PollComment
  pub now : ℕ
  pub next_uuid : ℕ
