-- ===== src/Server/CommentDelete.antt =====
-- server/handler/comment_delete.go. The fuel bounds the depth of the search for replies; `none` is
-- fuel that ran out.
pub mod Tree
use artalk.Prelude.{ℕ, ◌==◌, Bool, true, false, Option, none, some, List, if◌then◌else◌}
use artalk.Prelude.Result.{Result, ok, err}
use artalk.Entity.{Comment, comment_is_empty}
use artalk.Backend.{Backend}
use artalk.Dao.{Dao, DbError}
use artalk.Dao.Find.{find_comment}
use artalk.Dao.Write.{del_comment, del_comment_children}
use artalk.Server.{Response, success, error}

-- The response to what deleting the replies came to.
unfoldable pub children_response : Result DbError (Unit {0}) → Response (Unit {0})
children_response (ok u) = success u
children_response (err e) = error 500

module _ {B : Backend} where
  -- From the comment on: it is deleted first, then the replies.
  unfoldable pub delete_found : ℕ → Comment → Dao B → Option (Response (Unit {0}) × Dao B)
  unfolding children_response
  delete_found fuel comment d = elim (del_comment comment d).0 [
    | err e ↦ some (error 500, (del_comment comment d).1)
    | ok u ↦ elim (del_comment_children fuel comment.id (del_comment comment d).1) [
      | none ↦ none
      | some (r, d') ↦ some (children_response r, d')
    ]
  ]

  unfoldable pub comment_delete : ℕ → ℕ → Dao B → Option (Response (Unit {0}) × Dao B)
  unfolding delete_found
  comment_delete fuel id d =
      let (comment, d') = find_comment id d in
      if comment_is_empty comment then some (error 404, d') else delete_found fuel comment d'
