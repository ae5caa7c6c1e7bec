-- ===== src/NotifyPusher.antt =====
-- internal/notify_pusher: who is told of a new comment, and the mails of internal/core/service_email.go.
-- What is sent is a list; the texts of the messages and their senders are not part of it.
pub mod Notified
pub mod Mails
use artalk.Prelude.{
  ℕ, ◌==◌, Bool, true, false, not, ◌&&◌, ◌||◌, Option, none, some, List, [], ◌∷◌, ◌++◌, any, map,
  if◌then◌else◌, String, str_eq,
}
use artalk.Prelude.Result.{Result, ok, err}
use artalk.Entity.{User, Comment, Notify, comment_is_empty}
use artalk.Backend.{Backend}
use artalk.Dao.{Dao}
use artalk.Dao.Notifying.{
  fetch_user_for_comment, find_create_notify, notify_set_initial, get_all_admins,
}

-- The parts of `AdminNotifyConf` that are read, and whether mails are sent at all.
pub record PusherConf : Type 0 where
  pub email_enabled : Bool
  pub notify_pending : Bool
  pub noise_mode : Bool
  pub lark_enabled : Bool
  pub bark_enabled : Bool
  pub webhook_enabled : Bool
  pub mail_enabled : Bool

-- The services behind the helper (Telegram and others) count as one channel.
pub data Channel : Type 0 where
  helper lark bark webhook : Channel

-- A mail about a notification, or a message about one on a channel.
pub data Outgoing : Type 0 where
  mail : Notify → Outgoing
  message : Channel → Notify → Outgoing

abbrev pub Sending : Backend → Type 0
Sending B = Dao B → List Outgoing × Dao B

module _ (conf : PusherConf) where
  -- `EmailService.AsyncSend`
  unfoldable pub async_send : Notify → List Outgoing
  async_send n = if conf.mail_enabled then mail n ∷ [] else []

  abbrev pub channels : List Channel
  channels =
      helper
      ∷ ((if conf.lark_enabled then lark ∷ [] else [])
          ++ (if conf.bark_enabled then bark ∷ [] else [])
          ++ (if conf.webhook_enabled then webhook ∷ [] else []))

module _ {B : Backend} (key : ℕ → ℕ → String) where
  -- The notification of a user for a comment, marked as new; `Save` may have failed.
  unfoldable pub renewed : ℕ → Comment → Dao B → Notify × Dao B
  unfolding find_create_notify notify_set_initial
  renewed user_id comment d =
      let (notify, d₁) = find_create_notify key user_id comment.id d in
      let (saved, d₂) = notify_set_initial notify d₁ in
      (elim saved [ ok n ↦ n | err _ ↦ record notify { is_read = false; is_emailed = false } ], d₂)

module _ (conf : PusherConf) {B : Backend} where
  unfoldable pub check_need_send_email_to_user : Comment → Comment → Dao B → Bool × Dao B
  unfolding fetch_user_for_comment
  check_need_send_email_to_user comment parent d =
      let (user, d₁) = fetch_user_for_comment parent d in
      if comment.user_id == parent.user_id
      then (false, d)
      else if comment.is_pending
      then (false, d)
      else if not user.receive_email
      then (false, d₁)
      else (let (again, d₂) = fetch_user_for_comment parent d₁ in
          (if again.is_admin && not conf.email_enabled then false else true, d₂))

  unfoldable pub check_need_send_email_to_admin : Comment → Comment → User → Dao B → Bool × Dao B
  unfolding fetch_user_for_comment
  check_need_send_email_to_admin comment parent admin d =
      let (author, d₁) = fetch_user_for_comment comment d in
      if not conf.email_enabled
      then (false, d)
      else if comment.is_pending && not conf.notify_pending
      then (false, d)
      else if comment.user_id == admin.id
      then (false, d)
      else if parent.user_id == admin.id
      then (false, d)
      else if author.is_admin
      then (false, d₁)
      else (admin.receive_email, d₁)

  unfoldable pub check_need_multi_push : Comment → Comment → Dao B → Bool × Dao B
  unfolding fetch_user_for_comment
  check_need_multi_push comment parent d =
      let (author, d₁) = fetch_user_for_comment comment d in
      let (receiver, d₂) = fetch_user_for_comment parent d₁ in
      if author.is_admin
      then (false, d₁)
      else if comment.is_pending && not conf.notify_pending
      then (false, d₁)
      else if not conf.noise_mode && not (comment_is_empty parent)
      then (receiver.is_admin, d₂)
      else (true, d₁)

  module _ (key : ℕ → ℕ → String) where
    unfoldable pub email_to_user : Comment → Comment → Sending B
    unfolding check_need_send_email_to_user renewed async_send
    email_to_user comment parent d =
        let (needed, d₁) = check_need_send_email_to_user comment parent d in
        let (notify, d₂) = renewed key parent.user_id comment d₁ in
        if needed then (async_send conf notify, d₂) else ([], d₁)

    -- The loop over the administrators, with the addresses met so far.
    unfoldable pub email_each : Comment → Comment → List String → List User → Sending B
    unfolding check_need_send_email_to_admin renewed async_send any
    email_each comment parent sent [] d = ([], d)
    email_each comment parent sent (admin ∷ rest) d =
        let known = any (λ a. str_eq a admin.email) sent in
        let (needed, d₁) = check_need_send_email_to_admin comment parent admin d in
        let (notify, d₂) = renewed key admin.id comment d₁ in
        let (others, d₃) =
          email_each comment parent (if known then sent else admin.email ∷ sent) rest
            (if known then d else if needed then d₂ else d₁) in
        (if not known && needed then async_send conf notify ++ others else others, d₃)

    unfoldable pub email_to_admins : Comment → Comment → Sending B
    unfolding email_each get_all_admins
    email_to_admins comment parent d = email_each comment parent [] (get_all_admins d) d

    -- The message goes to the first administrator's notification.
    unfoldable pub multi_push : Comment → Comment → Sending B
    unfolding check_need_multi_push get_all_admins find_create_notify
    multi_push comment parent d =
        let (needed, d₁) = check_need_multi_push comment parent d in
        elim (get_all_admins d₁) [
          | [] ↦ ([], d₁)
          | first ∷ _ ↦
              let (notify, d₂) = find_create_notify key first.id comment.id d₁ in
              if needed then (map (λ c. message c notify) (channels conf), d₂) else ([], d₁)
        ]

    -- `Push`; the parent of a root comment is the empty comment.
    unfoldable pub push : Comment → Comment → Sending B
    unfolding email_to_user email_to_admins multi_push
    push comment parent d =
        let is_root = comment_is_empty parent in
        let (to_user, d₁) = if is_root then ([], d) else email_to_user comment parent d in
        let (to_admins, d₂) =
          if is_root || conf.noise_mode then email_to_admins comment parent d₁ else ([], d₁) in
        let (pushed, d₃) = multi_push comment parent d₂ in (to_user ++ (to_admins ++ pushed), d₃)
