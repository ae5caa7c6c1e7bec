-- ===== src/Server.antt =====
-- server: requests and responses, and the handlers behind the routes.
pub mod Auth
pub mod CommentDelete
pub mod Captcha
pub mod Vote
pub mod CommentsGet
pub mod Site
pub mod CommentGet
pub mod CommentList
pub mod CommentCreate
pub mod CommentUpdate
pub mod Sites
pub mod Pages
pub mod Notifies
pub mod Users
use artalk.Prelude.{ℕ, String, Bool}

-- What the handlers read of a request besides their parameters.
pub record Request : Type 0 where
  pub query_token : String
  pub form_token : String
  pub authorization : String
  pub guest_header : String
  pub ip : String
  pub user_agent : String
  pub referer : String
  pub origin : String
  pub is_options : Bool

-- `RespData` or `RespSuccess`, or `RespError` with its status.
pub data Response (A : Type 0) : Type 0 where
  success : A → Response A
  error : ℕ → Response A
