-- ===== src/Server/Notifies.antt =====
-- server/handler/notify_list.go, notify_read.go and notify_read_all.go, and whose notifications a
-- request may see, server/common/guest.go.
pub mod Cleared
use artalk.Prelude.{
  ℕ, ◌==◌, Bool, true, false, not, ◌&&◌, none, some, List, any, filter, String, str_eq,
  if◌then◌else◌,
}
use artalk.Prelude.Result.{Result, ok, err}
use artalk.Entity.{User, Comment, Notify, empty_user, user_is_empty, notify_is_empty}
use artalk.Backend.{Backend}
use artalk.Dao.{Dao, Find, all_comments, all_notifies}
use artalk.Dao.Notifying.{find_notify_for_comment, notify_set_read}
use artalk.Limiter.Rate.{RateLimiter, allow}
use artalk.Server.{Request, Response, success, error}
use artalk.Server.Auth.{AuthError, Crypto, get_user_by_req, guest_token_hash}

-- `GetUserByReq` gives the zero value with an error.
abbrev pub user_or_empty : Result AuthError User → User
user_or_empty (ok user) = user
user_or_empty (err e) = empty_user

-- Whether the notification is of an approved reply to a comment of this browser, and for its author.
unfoldable pub is_guest_notify : String → List Comment → Notify → Bool
unfolding any
is_guest_notify hash comments n =
    any
      (λ c.
        c.id == n.comment_id
        && (not c.is_pending
            && any
                (λ q. q.id == c.rid && (str_eq q.guest_token_hash hash && q.user_id == n.user_id))
                comments))
      comments

-- The condition of `NotificationQuery`.
unfoldable pub is_owned : String → User → List Comment → Notify → Bool
unfolding is_guest_notify
is_owned hash user comments n =
    if not (user_is_empty user)
    then n.user_id == user.id
    else if str_eq hash ""
    then false
    else is_guest_notify hash comments n

abbrev pub as_read : ℕ → Notify → Notify
as_read now n = record n { is_read = true; read_at = some now }

module _ (K : Crypto) {B : Backend} where
  unfoldable pub notification_query : Request → Find B (Notify → Bool)
  unfolding get_user_by_req guest_token_hash is_owned
  notification_query r d =
      let (found, d') = get_user_by_req K r d in
      (is_owned (guest_token_hash K r) (user_or_empty found) (all_comments d'), d')

  unfoldable pub unread_notifications : Request → Find B (List Notify)
  unfolding notification_query filter
  unread_notifications r d =
      let (mine, d') = notification_query r d in
      (filter (λ n. mine n && not n.is_read) (all_notifies d'), d')

  unfoldable pub notify_list : Request → Dao B → Response (List Notify) × Dao B
  unfolding unread_notifications
  notify_list r d = let (unread, d') = unread_notifications r d in (success unread, d')

  unfoldable pub notify_read_all : ℕ → Request → Dao B → Response (Unit {0}) × Dao B
  unfolding get_user_by_req guest_token_hash notification_query
  notify_read_all now r d =
      let (found, d₁) = get_user_by_req K r d in
      let (mine, d₂) = notification_query r d₁ in
      let changed = B.notifies.update (λ n. mine n && not n.is_read) (as_read now) d₂.notifies in
      if user_is_empty (user_or_empty found) && str_eq (guest_token_hash K r) ""
      then (error 401, d₁)
      else (elim changed [
        | none ↦ (error 500, d₂)
        | some rows ↦ (success tt, record d₂ { notifies = rows })
      ])

-- Anyone who has the key of a notification marks it as read; the limiter bounds the guesses.
module _ {B : Backend} where
  unfoldable pub read_found : ℕ → Notify → Dao B → Response (Unit {0}) × Dao B
  unfolding notify_set_read
  read_found now notify d =
      let (saved, d') = notify_set_read now notify d in
      if notify_is_empty notify
      then (error 404, d)
      else if notify.is_read
      then (success tt, d)
      else (elim saved [ err e ↦ error 500 | ok _ ↦ success tt ], d')

  unfoldable pub notify_read :
      ℕ → ℕ → String → Request → RateLimiter → Dao B → (Response (Unit {0}) × RateLimiter) × Dao B
  unfolding allow find_notify_for_comment read_found
  notify_read now comment_id notify_key r limit d =
      let (admitted, limit₁) = allow now r.ip limit in
      let (answer, d₁) = read_found now (find_notify_for_comment comment_id notify_key d) d in
      if admitted then ((answer, limit₁), d₁) else ((error 429, limit₁), d)
