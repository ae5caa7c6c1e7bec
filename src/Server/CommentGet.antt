-- ===== src/Server/CommentGet.antt =====
-- server/handler/comment_get.go: one comment, with the one it replies to. What is shown of a comment
-- besides its row is not modelled.
pub mod MayRead
use artalk.Prelude.{
  ℕ, ◌==◌, Bool, false, not, ◌&&◌, ◌||◌, Option, none, some, String, str_eq, if◌then◌else◌,
}
use artalk.Prelude.Result.{Result, ok, err}
use artalk.Entity.{User, Comment, comment_is_empty, empty_user}
use artalk.Backend.{Backend}
use artalk.Dao.{Dao}
use artalk.Dao.Find.{find_comment}
use artalk.Server.{Request, Response, success, error}
use artalk.Server.Auth.{AuthError, Crypto, get_user_by_req, guest_token_hash}
use artalk.Server.CommentsGet.Find.{Cooked, cook}

pub record ResponseCommentGet : Type 0 where
  pub comment : Cooked
  pub reply_comment : Option Cooked

unfoldable pub can_read : User → String → Comment → Bool
can_read user guest_hash c =
    not (comment_is_empty c)
    && (not c.is_pending
        || user.is_admin
        || (not (user.id == 0) && user.id == c.user_id)
        || (not (str_eq guest_hash "") && str_eq guest_hash c.guest_token_hash))

-- The user of a request, the zero value where there is none.
abbrev pub user_or_empty : Result AuthError User → User
user_or_empty (ok user) = user
user_or_empty (err e) = empty_user

module _ (K : Crypto) {B : Backend} where
  unfoldable pub comment_get : ℕ → Request → Dao B → Response ResponseCommentGet × Dao B
  unfolding can_read get_user_by_req guest_token_hash find_comment
  comment_get id r d =
      let (found, d₁) = get_user_by_req K r d in
      let user = user_or_empty found in
      let guest_hash = guest_token_hash K r in
      let (comment, d₂) = find_comment id d₁ in
      let (linked, d₃) = find_comment comment.rid d₂ in
      let response : Option Cooked → Response ResponseCommentGet =
        λ reply. success (record { comment = cook comment; reply_comment = reply }) in
      if not (can_read user guest_hash comment)
      then (error 404, d₂)
      else if comment.rid == 0
      then (response none, d₂)
      else if can_read user guest_hash linked
      then (response (some (record { comment = linked; visible = false })), d₃)
      else (response none, d₃)
