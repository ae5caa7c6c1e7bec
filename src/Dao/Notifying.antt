-- ===== src/Dao/Notifying.antt =====
-- Notifications in internal/dao: the queries of query_find.go, query_new.go and
-- query_find_create.go, the changes of service.go and query_update.go, and the rows that belong to
-- others, of association.go. The random key of a notification is a parameter, by user and comment.
use artalk.Prelude.{
  ℕ, ◌==◌, Bool, true, false, not, ◌&&◌, ◌||◌, none, some, List, [], filter, any, if◌then◌else◌,
  String,
}
use artalk.Prelude.Result.{ok, err}
use artalk.Entity.{User, Comment, Notify, empty_notify, empty_comment, notify_is_empty}
use artalk.Backend.{Backend}
use artalk.Dao.{Dao, Find, Act, write_failed, invalid_argument, first_or, all_notifies, all_users}
use artalk.Dao.Find.{struct_eq, find_comment, find_user_by_id}

module _ {B : Backend} where
  unfoldable pub fetch_user_for_comment : Comment → Find B User
  unfolding find_user_by_id
  fetch_user_for_comment c = find_user_by_id c.user_id

  unfoldable pub fetch_comment_for_notify : Notify → Find B Comment
  unfolding find_comment
  fetch_comment_for_notify n = find_comment n.comment_id

  unfoldable pub fetch_user_for_notify : Notify → Find B User
  unfolding find_user_by_id
  fetch_user_for_notify n = find_user_by_id n.user_id

  unfoldable pub find_notify : ℕ → ℕ → Dao B → Notify
  unfolding first_or
  find_notify user_id comment_id d =
      first_or empty_notify (λ n. n.user_id == user_id && n.comment_id == comment_id)
        (all_notifies d)

  -- A struct condition: an id or a key that is zero is left out.
  unfoldable pub find_notify_for_comment : ℕ → String → Dao B → Notify
  unfolding first_or
  find_notify_for_comment comment_id key d =
      first_or empty_notify
        (λ n. (comment_id == 0 || n.comment_id == comment_id) && struct_eq key n.key)
        (all_notifies d)

  unfoldable pub find_unread_notifies : ℕ → Dao B → List Notify
  unfolding filter
  find_unread_notifies user_id d =
      if user_id == 0
      then []
      else filter (λ n. n.user_id == user_id && not n.is_read) (all_notifies d)

  unfoldable pub find_notify_parent_comment : Notify → Find B Comment
  unfolding fetch_comment_for_notify find_comment
  find_notify_parent_comment n d =
      let (comment, d₁) = fetch_comment_for_notify n d in
      if comment.rid == 0 then (empty_comment, d₁) else find_comment comment.rid d₁

  -- `Save`: a notification without a key is created.
  unfoldable pub save_notify : Notify → Act B Notify
  save_notify n d =
      if notify_is_empty n
      then (elim (B.notifies.insert n d.notifies) [
        | none ↦ (err write_failed, d)
        | some (created, rows) ↦ (ok created, record d { notifies = rows })
      ])
      else (elim (B.notifies.save n d.notifies) [
        | none ↦ (err write_failed, d)
        | some rows ↦ (ok n, record d { notifies = rows })
      ])

  unfoldable pub notify_set_initial : Notify → Act B Notify
  unfolding save_notify
  notify_set_initial n = save_notify (record n { is_read = false; is_emailed = false })

  unfoldable pub notify_set_read : ℕ → Notify → Act B Notify
  unfolding save_notify
  notify_set_read now n = save_notify (record n { is_read = true; read_at = some now })

  unfoldable pub notify_set_emailed : ℕ → Notify → Act B Notify
  unfolding save_notify
  notify_set_emailed now n = save_notify (record n { is_emailed = true; email_at = some now })

  -- The error of the update is dropped.
  unfoldable pub user_notify_mark_all_as_read : ℕ → ℕ → Act B (Unit {0})
  user_notify_mark_all_as_read now user_id d =
      if user_id == 0
      then (err invalid_argument, d)
      else (elim (B.notifies.update (λ n. n.user_id == user_id)
          (λ n. record n { is_read = true; read_at = some now }) d.notifies) [
            | none ↦ (ok tt, d)
            | some rows ↦ (ok tt, record d { notifies = rows })
          ])

  unfoldable pub get_all_admins : Dao B → List User
  unfolding filter
  get_all_admins d = filter (λ u. u.is_admin) (all_users d)

  unfoldable pub is_admin_user_id : ℕ → Dao B → Bool
  unfolding any get_all_admins
  is_admin_user_id user_id d = any (λ u. u.id == user_id) (get_all_admins d)

  module _ (key : ℕ → ℕ → String) where
    -- The notification is returned also where it could not be stored.
    unfoldable pub new_notify : ℕ → ℕ → Dao B → Notify × Dao B
    new_notify user_id comment_id d =
        let notify = record empty_notify {
          user_id = user_id;
          comment_id = comment_id;
          key = key user_id comment_id;
        } in
        elim (B.notifies.insert notify d.notifies) [
          | none ↦ (notify, d)
          | some (created, rows) ↦ (created, record d { notifies = rows })
        ]

    unfoldable pub find_create_notify : ℕ → ℕ → Dao B → Notify × Dao B
    unfolding find_notify new_notify
    find_create_notify user_id comment_id d =
        let found = find_notify user_id comment_id d in
        if notify_is_empty found then new_notify user_id comment_id d else (found, d)
