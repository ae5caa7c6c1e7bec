-- ===== src/Server/CommentUpdate.antt =====
-- server/handler/comment_update.go: the handler behind AdminGuard, and the notification of a comment
-- that is approved. The mails that it sends are a list beside the answer.
pub mod Author
pub mod Quiet
pub mod Updated
use artalk.Prelude.{
  ℕ, ◌==◌, Bool, true, false, not, ◌&&◌, ◌||◌, Option, none, some, List, [], ◌∷◌, String, str_eq,
  if◌then◌else◌,
}
use artalk.Prelude.Result.{Result, ok, err}
use artalk.Entity.{User, Comment, Notify, empty_user, comment_is_empty}
use artalk.Backend.{Backend}
use artalk.Dao.{Dao, DbError}
use artalk.Dao.Create.{Texts, validate_url, find_create_user, find_create_page, update_user}
use artalk.Dao.Find.{find_comment}
use artalk.Dao.Notifying.{fetch_user_for_comment, find_create_notify, notify_set_initial}
use artalk.Dao.Write.{update_comment}
use artalk.NotifyPusher.{PusherConf, Outgoing, Sending, async_send}
use artalk.Server.{Request, Response, success, error}
use artalk.Server.Auth.{Crypto, check_is_admin_req}
use artalk.Server.Site.{check_site_exist}

pub record ParamsCommentUpdate : Type 0 where
  pub site_name : String
  pub content : String
  pub page_key : String
  pub nick : String
  pub email : String
  pub link : String
  pub rid : ℕ
  pub ua : String
  pub ip : String
  pub is_collapsed : Bool
  pub is_pending : Bool
  pub is_pinned : Bool

abbrev pub or_old : String → String → String
or_old new old = if str_eq new "" then old else new

-- A user who was not found leaves the zero value.
abbrev pub user_or_empty : Result DbError User → User
user_or_empty (ok user) = user
user_or_empty (err e) = empty_user

-- The new author, unless the user could not be found or created.
abbrev pub new_user_id : Result DbError User → ℕ → ℕ
new_user_id (ok user) old = user.id
new_user_id (err e) old = old

-- The row that is saved: its fields from the request, its author, its page.
unfoldable pub edited : ParamsCommentUpdate → ℕ → Comment → Comment
edited p user_id c = record c {
  content = or_old p.content c.content;
  user_id = user_id;
  page_key = or_old p.page_key c.page_key;
  ua = or_old p.ua c.ua;
  ip = or_old p.ip c.ip;
  is_collapsed = p.is_collapsed;
  is_pinned = p.is_pinned;
  is_pending = p.is_pending;
}

-- The first refusal of a request for a comment that was found.
unfoldable pub update_status : Texts → ParamsCommentUpdate → Comment → Option ℕ
unfolding validate_url
update_status T p comment =
    if comment_is_empty comment
    then some 404
    else if not (str_eq p.email "") && not (T.is_email p.email)
    then some 400
    else if not (str_eq p.link "") && not (validate_url T p.link)
    then some 400
    else none

module _ (T : Texts) (pusher : PusherConf) (key : ℕ → ℕ → String) {B : Backend} where
  -- The last part of `renotifyWhenPendingModified`: a mail, unless one was sent before.
  unfoldable pub notify_parent : Comment → Comment → Sending B
  unfolding find_create_notify notify_set_initial async_send
  notify_parent comment parent d =
      let (notify, d₁) = find_create_notify key parent.user_id comment.id d in
      let (saved, d₂) = notify_set_initial notify d₁ in
      if notify.is_emailed
      then ([], d₁)
      else (elim saved [ err e ↦ [] | ok n ↦ async_send pusher n ], d₂)

  -- `renotifyWhenPendingModified`: the author of the parent is told, unless this is an
  -- administrator or the author of the comment.
  unfoldable pub renotify_when_pending_modified : Comment → Sending B
  unfolding find_comment fetch_user_for_comment notify_parent
  renotify_when_pending_modified comment d =
      let (parent, d₁) = find_comment comment.rid d in
      let (user, d₂) = fetch_user_for_comment parent d₁ in
      let told = notify_parent comment parent d₂ in
      if comment.rid == 0
      then ([], d)
      else if user.is_admin
      then ([], d₂)
      else if comment.user_id == parent.user_id
      then ([], d₂)
      else told

  -- The author: who is named in the request, or the author so far.
  unfoldable pub merge_user : ParamsCommentUpdate → Comment → Dao B → ℕ × Dao B
  unfolding fetch_user_for_comment find_create_user update_user
  merge_user p comment d =
      let (original, d₁) = fetch_user_for_comment comment d in
      let (found, d₂) =
        find_create_user T (or_old p.nick original.name) (or_old p.email original.email) p.link
          d₁ in
      let user = user_or_empty found in
      let relinked : User = record user { link = p.link } in
      let d₃ =
        if not (str_eq p.link "") && not (str_eq p.link user.link)
        then (update_user T relinked d₂).1
        else d₂ in
      (new_user_id found comment.user_id, d₃)

  -- A page is created for a new key; what this returns is dropped.
  unfoldable pub change_page : ParamsCommentUpdate → Comment → Dao B → Dao B
  unfolding find_create_page
  change_page p comment d =
      if not (str_eq p.page_key "") && not (str_eq p.page_key comment.page_key)
      then (find_create_page p.page_key "" p.site_name d).1
      else d

  -- A comment that was pending and is approved is told of, before it is saved.
  unfoldable pub approve : ParamsCommentUpdate → Comment → Comment → Sending B
  unfolding renotify_when_pending_modified
  approve p old new d =
      if old.is_pending && not p.is_pending then renotify_when_pending_modified new d else ([], d)

  unfoldable pub save_edited :
      ParamsCommentUpdate → Comment → Dao B → (Response Comment × List Outgoing) × Dao B
  unfolding merge_user change_page edited approve update_comment
  save_edited p comment d =
      let (user_id, d₁) = merge_user p comment d in
      let d₂ = change_page p comment d₁ in
      let new = edited p user_id comment in
      let (sent, d₃) = approve p comment new d₂ in
      let (saved, d₄) = update_comment new d₃ in
      ((elim saved [ err e ↦ error 500 | ok _ ↦ success new ], sent), d₄)

  unfoldable pub update_found :
      ParamsCommentUpdate → ℕ → Dao B → (Response Comment × List Outgoing) × Dao B
  unfolding check_site_exist find_comment update_status save_edited
  update_found p id d =
      let (no_site, d₁) = check_site_exist p.site_name d in
      let (comment, d₂) = find_comment id d₁ in
      elim no_site [
        | some status ↦ ((error status, []), d₁)
        | none ↦ elim (update_status T p comment) [
          | some status ↦ ((error status, []), d₂)
          | none ↦ save_edited p comment d₂
        ]
      ]

  unfoldable pub comment_update :
      Crypto
      → ParamsCommentUpdate
      → ℕ
      → Request
      → Dao B
      → (Response Comment × List Outgoing) × Dao B
  unfolding check_is_admin_req update_found
  comment_update K p id r d =
      let (is_admin, d₁) = check_is_admin_req K r d in
      if is_admin then update_found p id d₁ else ((error 403, []), d₁)
