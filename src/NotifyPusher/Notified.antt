-- ===== src/NotifyPusher/Notified.antt =====
-- The notification of a user for a comment, found or created.
use artalk.Prelude.{
  ℕ, ◌==◌, false, ◌&&◌, List, [], ◌∷◌, ◌≡◌, ◌∙◌, arith, Bool-cases, Option-cases, inl, inr, String,
  find_first,
}
use artalk.Prelude.Result.{ok, Result-cases}
use artalk.Entity.{Comment, Notify, empty_notify, notify_is_empty}
use artalk.Backend.{Backend}
use artalk.Dao.{Dao, first_or, all_notifies}
use artalk.Dao.Notifying.{
  find_notify, new_notify, find_create_notify, save_notify, notify_set_initial,
}
use artalk.NotifyPusher.{renewed}

-- The notification is one of a user for a comment.
abbrev pub IsFor : ℕ → ℕ → Notify → Type 0
IsFor user_id comment_id n = (n.user_id ≡ user_id) × (n.comment_id ≡ comment_id)

found_notify :
    (user_id comment_id : ℕ) (l : List Notify)
    → let n = first_or empty_notify (λ m. m.user_id == user_id && m.comment_id == comment_id) l in
      (n.id == 0) ≡ false → IsFor user_id comment_id n
unfolding first_or find_first
found_notify user_id comment_id [] h = absurd (cc h)
found_notify user_id comment_id (m ∷ l) h =
    elim (Bool-cases (m.user_id == user_id && m.comment_id == comment_id)) [
      | inl here ↦ (ground (arith, here), ground (arith, here))
      | inr there ↦
          let rest = found_notify user_id comment_id l (ground (arith, h, there)) in
          (ground (arith, there, rest.0), ground (arith, there, rest.1))
    ]

module _ {B : Backend} (key : ℕ → ℕ → String) where
  new_notify-IsFor :
      (user_id comment_id : ℕ) (d : Dao B)
      → IsFor user_id comment_id (new_notify key user_id comment_id d).0
  unfolding new_notify
  new_notify-IsFor user_id comment_id d =
      let fresh = record empty_notify {
        user_id = user_id;
        comment_id = comment_id;
        key = key user_id comment_id;
      } in
      elim (Option-cases (B.notifies.insert fresh d.notifies)) [
        | inl failed ↦ (ground (arith, failed), ground (arith, failed))
        | inr ((n, rows), put) ↦
            let (k, t, stamped, _) = B.notifies.insert_row fresh n d.notifies rows put in
            (ground (arith, put, stamped), ground (arith, put, stamped))
      ]

  pub find_create_notify-IsFor :
      (user_id comment_id : ℕ) (d : Dao B)
      → IsFor user_id comment_id (find_create_notify key user_id comment_id d).0
  unfolding find_create_notify find_notify
  find_create_notify-IsFor user_id comment_id d =
      let found = find_notify user_id comment_id d in
      let new = new_notify-IsFor user_id comment_id d in
      elim (Bool-cases (notify_is_empty found)) [
        | inl missing ↦ (ground (arith, missing, new.0), ground (arith, missing, new.1))
        | inr there ↦
            let old = found_notify user_id comment_id (all_notifies d) there in
            (ground (arith, there, old.0), ground (arith, there, old.1))
      ]

  save_notify-IsFor :
      (user_id comment_id : ℕ) (n n' : Notify) (d : Dao B)
      → (save_notify n d).0 ≡ ok n'
      → IsFor user_id comment_id n
      → IsFor user_id comment_id n'
  unfolding save_notify
  save_notify-IsFor user_id comment_id n n' d e h =
      elim (Option-cases (B.notifies.insert n d.notifies)) [
        | inl failed ↦ (ground (arith, e, failed, h.0), ground (arith, e, failed, h.1))
        | inr ((m, rows), put) ↦
            let (k, t, stamped, _) = B.notifies.insert_row n m d.notifies rows put in
            (ground (arith, e, put, stamped, h.0), ground (arith, e, put, stamped, h.1))
      ]

  pub renewed-IsFor :
      (user_id : ℕ) (comment : Comment) (d : Dao B)
      → IsFor user_id comment.id (renewed key user_id comment d).0
  unfolding renewed notify_set_initial
  renewed-IsFor user_id comment d =
      let found = find_create_notify key user_id comment.id d in
      let fresh = record found.0 { is_read = false; is_emailed = false } in
      let is = find_create_notify-IsFor user_id comment.id d in
      elim (Result-cases (save_notify fresh found.1).0) [
        | inl (n, saved) ↦
            let same = save_notify-IsFor user_id comment.id fresh n found.1 saved is in
            (ground (arith, saved, same.0), ground (arith, saved, same.1))
        | inr (x, failed) ↦ (ground (arith, failed, is.0), ground (arith, failed, is.1))
      ]

  find_create_notify-users :
      (user_id comment_id : ℕ) (d : Dao B)
      → (find_create_notify key user_id comment_id d).1.users ≡ d.users
  unfolding find_create_notify new_notify
  find_create_notify-users user_id comment_id d = ground arith

  notify_set_initial-users : (n : Notify) (d : Dao B) → (notify_set_initial n d).1.users ≡ d.users
  unfolding notify_set_initial save_notify
  notify_set_initial-users n d = ground arith

  pub renewed-users :
      (user_id : ℕ) (comment : Comment) (d : Dao B)
      → (renewed key user_id comment d).1.users ≡ d.users
  unfolding renewed
  renewed-users user_id comment d =
      notify_set_initial-users (find_create_notify key user_id comment.id d).0
        (find_create_notify key user_id comment.id d).1
      ∙ find_create_notify-users user_id comment.id d
