-- ===== src/Server/CommentUpdate/Quiet.antt =====
-- What CommentUpdate does before it saves touches no comment.
use artalk.Prelude.{
  ℕ, ◌==◌, true, false, not, ◌&&◌, [], String, str_eq, ◌≡◌, ◌≢◌, refl, arith, Bool-cases, inl, inr,
}
use artalk.Entity.{User, Comment}
use artalk.Backend.{Backend}
use artalk.Dao.{Dao}
use artalk.Dao.Calm.{
  Calm, Calm-refl, Calm-trans, Calm-if, Calm-ite, find_comment-Calm, fetch_user_for_comment-Calm,
}
use artalk.Dao.Calm.Calls.{
  update_user-Calm, find_create_user-Calm, find_create_page-Calm, find_create_notify-Calm,
  notify_set_initial-Calm,
}
use artalk.Dao.Create.{Texts, find_create_user}
use artalk.Dao.Find.{find_comment}
use artalk.Dao.Notifying.{fetch_user_for_comment, find_create_notify}
use artalk.NotifyPusher.{PusherConf}
use artalk.Server.CommentUpdate.{
  ParamsCommentUpdate, or_old, user_or_empty, notify_parent, renotify_when_pending_modified,
  merge_user, change_page, approve,
}

module _ (T : Texts) (pusher : PusherConf) (key : ℕ → ℕ → String) {B : Backend} where
  notify_parent-Calm :
      (c parent : Comment) (d : Dao B) → Calm d (notify_parent T pusher key c parent d).1
  unfolding notify_parent
  notify_parent-Calm c parent d =
      let found = find_create_notify key parent.user_id c.id d in
      let calm = find_create_notify-Calm key parent.user_id c.id d in
      Calm-ite found.0.is_emailed d _ _ calm
        (Calm-trans d found.1 _ calm (notify_set_initial-Calm found.0 found.1))

  renotify-Calm :
      (c : Comment) (d : Dao B) → Calm d (renotify_when_pending_modified T pusher key c d).1
  unfolding renotify_when_pending_modified
  renotify-Calm c d =
      let (parent, d₁) = find_comment c.rid d in
      let (user, d₂) = fetch_user_for_comment parent d₁ in
      let read : Calm d d₂ =
        Calm-trans d d₁ d₂ (find_comment-Calm c.rid d) (fetch_user_for_comment-Calm parent d₁) in
      Calm-ite (c.rid == 0) d _ _ (Calm-refl d) (
        Calm-ite user.is_admin d _ _ read (
          Calm-ite (c.user_id == parent.user_id) d _ _ read
            (Calm-trans d d₂ _ read (notify_parent-Calm c parent d₂))))

  pub approve-Calm :
      (p : ParamsCommentUpdate) (old new : Comment) (d : Dao B)
      → Calm d (approve T pusher key p old new d).1
  unfolding approve
  approve-Calm p old new d =
      Calm-ite (old.is_pending && not p.is_pending) d _ _ (renotify-Calm new d) (Calm-refl d)

  pub approve-told :
      (p : ParamsCommentUpdate) (old new : Comment) (d : Dao B)
      → (approve T pusher key p old new d).0 ≢ []
      → (old.is_pending ≡ true) × (p.is_pending ≡ false)
  unfolding approve
  approve-told p old new d h = elim (Bool-cases (old.is_pending && not p.is_pending)) [
    | inl both ↦ (ground (arith, both), ground (arith, both))
    | inr no_ ↦ absurd (h (rw no_ refl))
  ]

  pub merge_user-Calm :
      (p : ParamsCommentUpdate) (c : Comment) (d : Dao B) → Calm d (merge_user T pusher key p c d).1
  unfolding merge_user
  merge_user-Calm p c d =
      let (original, d₁) = fetch_user_for_comment c d in
      let calm = fetch_user_for_comment-Calm c d in
      let (found, d₂) =
        find_create_user T (or_old p.nick original.name) (or_old p.email original.email) p.link
          d₁ in
      let user = user_or_empty found in
      let relinked : User = record user { link = p.link } in
      let both : Calm d d₂ = Calm-trans d d₁ d₂ calm (
        find_create_user-Calm T (or_old p.nick original.name) (or_old p.email original.email) p.link
          d₁) in
      Calm-if (not (str_eq p.link "") && not (str_eq p.link user.link)) d _ _
        (Calm-trans d d₂ _ both (update_user-Calm T relinked d₂)) both

  pub change_page-Calm :
      (p : ParamsCommentUpdate) (c : Comment) (d : Dao B) → Calm d (change_page T pusher key p c d)
  unfolding change_page
  change_page-Calm p c d =
      Calm-if (not (str_eq p.page_key "") && not (str_eq p.page_key c.page_key)) d _ _
        (find_create_page-Calm p.page_key "" p.site_name d) (Calm-refl d)
