-- ===== src/NotifyPusher/Mails.antt =====
-- Whom `Push` mails.
use artalk.Prelude.{
  ℕ, ◌==◌, ◌≢◌, Bool, true, false, ◌||◌, List, [], ◌∷◌, ◌++◌, any, map, All, subst, if◌then◌else◌,
  ◌≡◌, ap, arith, ==_refl, All-map, Bool-cases, inl, inr, String, str_eq, filter,
}
use artalk.Entity.{User, Comment, Notify, comment_is_empty}
use artalk.Backend.{Backend}
use artalk.Dao.{Dao}
use artalk.Dao.Notifying.{fetch_user_for_comment, find_create_notify, get_all_admins}
use artalk.Dao.Reading.{find_user_by_id-Reads}
use artalk.NotifyPusher.Notified.{renewed-IsFor, renewed-users}
use artalk.NotifyPusher.{
  PusherConf, Channel, Outgoing, mail, message, async_send, channels, check_need_multi_push,
  check_need_send_email_to_user, check_need_send_email_to_admin, renewed, email_to_user, email_each,
  email_to_admins, multi_push, push,
}

-- What a mail of `Push` satisfies: it is about this comment, goes to another user than its author,
-- and, if the comment is pending, to an administrator, where this is wanted.
pub record MayMail (conf : PusherConf) (comment : Comment) (admins : List User) (n : Notify)
    : Type 0 where
  pub comment_id : n.comment_id ≡ comment.id
  pub not_author : n.user_id ≢ comment.user_id
  pub pending :
      comment.is_pending ≡ true
      → (conf.notify_pending ≡ true) × (any (λ (u : User). u.id == n.user_id) admins ≡ true)

abbrev pub MailsFit : PusherConf → Comment → List User → List Outgoing → Type 0
MailsFit conf comment admins [] = Unit
MailsFit conf comment admins (mail n ∷ rest) =
    MayMail conf comment admins n × MailsFit conf comment admins rest
MailsFit conf comment admins (message c n ∷ rest) = MailsFit conf comment admins rest

MailsFit-append :
    (conf : PusherConf) (comment : Comment) (admins : List User) (xs ys : List Outgoing)
    → MailsFit conf comment admins xs
    → MailsFit conf comment admins ys
    → MailsFit conf comment admins (xs ++ ys)
MailsFit-append conf comment admins [] ys h k = k
MailsFit-append conf comment admins (mail n ∷ xs) ys h k =
    (h.0, MailsFit-append conf comment admins xs ys h.1 k)
MailsFit-append conf comment admins (message c n ∷ xs) ys h k =
    MailsFit-append conf comment admins xs ys h k

MailsFit-if :
    (conf : PusherConf) (comment : Comment) (admins : List User) (n : Notify) (on : Bool)
    → MayMail conf comment admins n
    → MailsFit conf comment admins (if on then mail n ∷ [] else [])
MailsFit-if conf comment admins n true h = (h, tt)
MailsFit-if conf comment admins n false h = tt

MailsFit-async_send :
    (conf : PusherConf) (comment : Comment) (admins : List User) (n : Notify)
    → MayMail conf comment admins n
    → MailsFit conf comment admins (async_send conf n)
unfolding async_send
MailsFit-async_send conf comment admins n h = MailsFit-if conf comment admins n conf.mail_enabled h

MailsFit-messages :
    (conf : PusherConf) (comment : Comment) (admins : List User) (n : Notify) (cs : List Channel)
    → MailsFit conf comment admins (map (λ c. message c n) cs)
MailsFit-messages conf comment admins n [] = tt
MailsFit-messages conf comment admins n (c ∷ cs) = MailsFit-messages conf comment admins n cs

-- The mails to administrators go to administrators.
any_self :
    (admins : List User) → All (λ (u : User). any (λ (a : User). a.id == u.id) admins ≡ true) admins
unfolding any
any_self [] = tt
any_self (u ∷ us) = (
  ground (arith, ==_refl u.id),
  All-map (λ (v : User). any (λ (a : User). a.id == v.id) us ≡ true)
      (λ (v : User). any (λ (a : User). a.id == v.id) (u ∷ us) ≡ true) (λ v h. ground (arith, h)) us
      (any_self us),
)

module _ (conf : PusherConf) {B : Backend} (key : ℕ → ℕ → String) where
  user_needed :
      (comment parent : Comment) (d : Dao B)
      → (check_need_send_email_to_user conf comment parent d).0 ≡ true
      → ((comment.user_id == parent.user_id) ≡ false) × (comment.is_pending ≡ false)
  unfolding check_need_send_email_to_user
  user_needed comment parent d e = (ground (arith, e), ground (arith, e))

  admin_needed :
      (comment parent : Comment) (admin : User) (d : Dao B)
      → (check_need_send_email_to_admin conf comment parent admin d).0 ≡ true
      → ((comment.user_id == admin.id) ≡ false)
        × (comment.is_pending ≡ true → conf.notify_pending ≡ true)
  unfolding check_need_send_email_to_admin
  admin_needed comment parent admin d e = (ground (arith, e), λ p. ground (arith, e, p))

  email_to_user-MailsFit :
      (comment parent : Comment) (admins : List User) (d : Dao B)
      → MailsFit conf comment admins (email_to_user conf key comment parent d).0
  unfolding email_to_user
  email_to_user-MailsFit comment parent admins d =
      let check = check_need_send_email_to_user conf comment parent d in
      elim (Bool-cases check.0) [
        | inr no_ ↦ rw no_ tt
        | inl needed ↦
            let (other, open_) = user_needed comment parent d needed in
            let is = renewed-IsFor key parent.user_id comment check.1 in
            rw needed (
              MailsFit-async_send conf comment admins _ (record {
                comment_id = is.1;
                not_author = λ same. absurd (ground (arith, other, same, is.0));
                pending = λ p. absurd (cc (open_, p));
              }))
      ]

  email_each-MailsFit :
      (comment parent : Comment) (sent : List String) (admins rest : List User) (d : Dao B)
      → All (λ (u : User). any (λ (a : User). a.id == u.id) admins ≡ true) rest
      → MailsFit conf comment admins (email_each conf key comment parent sent rest d).0
  unfolding email_each
  email_each-MailsFit comment parent sent admins [] d h = tt
  email_each-MailsFit comment parent sent admins (u ∷ rest) d h =
      let known = any (λ a. str_eq a u.email) sent in
      let check = check_need_send_email_to_admin conf comment parent u d in
      let notify = renewed key u.id comment check.1 in
      elim (Bool-cases known) [
        | inl old ↦ rw old (email_each-MailsFit comment parent sent admins rest d h.1)
        | inr new ↦ elim (Bool-cases check.0) [
          | inr no_ ↦
              rw (new, no_)
                (email_each-MailsFit comment parent (u.email ∷ sent) admins rest check.1 h.1)
          | inl needed ↦
              let (other, open_) = admin_needed comment parent u d needed in
              let is = renewed-IsFor key u.id comment check.1 in
              rw (new, needed)
                (MailsFit-append conf comment admins (async_send conf notify.0) _
                  (MailsFit-async_send conf comment admins notify.0 (record {
                    comment_id = is.1;
                    not_author = λ same. absurd (ground (arith, other, same, is.0));
                    pending = λ p. (open_ p, ground (arith, is.0, h.0));
                  }))
                  (email_each-MailsFit comment parent (u.email ∷ sent) admins rest notify.1 h.1))
        ]
      ]

  multi_list :
      (comment : Comment) (admins : List User) (needed : Bool) (found : List User) (d₁ : Dao B)
      → MailsFit conf comment admins (
          let r : List Outgoing × Dao B = elim found [
            | [] ↦ ([], d₁)
            | first ∷ _ ↦
                let (notify, d₂) = find_create_notify key first.id comment.id d₁ in
                if needed then (map (λ c. message c notify) (channels conf), d₂) else ([], d₁)
          ] in
          r.0)
  multi_list comment admins needed [] d₁ = tt
  multi_list comment admins true (first ∷ rest) d₁ =
      MailsFit-messages conf comment admins (find_create_notify key first.id comment.id d₁).0
        (channels conf)
  multi_list comment admins false (first ∷ rest) d₁ = tt

  multi_push-MailsFit :
      (comment parent : Comment) (admins : List User) (d : Dao B)
      → MailsFit conf comment admins (multi_push conf key comment parent d).0
  unfolding multi_push
  multi_push-MailsFit comment parent admins d =
      let check = check_need_multi_push conf comment parent d in
      multi_list comment admins check.0 (get_all_admins check.1) check.1

  -- No mails on one side of a test.
  mails_if :
      (comment : Comment) (admins : List User) (b : Bool) (r : List Outgoing × Dao B) (d : Dao B)
      → MailsFit conf comment admins r.0
      → MailsFit conf comment admins
          (let out : List Outgoing × Dao B = if b then ([], d) else r in out.0)
  mails_if comment admins true r d h = tt
  mails_if comment admins false r d h = h

  mails_if_not :
      (comment : Comment) (admins : List User) (b : Bool) (r : List Outgoing × Dao B) (d : Dao B)
      → MailsFit conf comment admins r.0
      → MailsFit conf comment admins
          (let out : List Outgoing × Dao B = if b then r else ([], d) in out.0)
  mails_if_not comment admins true r d h = h
  mails_if_not comment admins false r d h = tt

  fetch-users : (c : Comment) (d : Dao B) → (fetch_user_for_comment c d).1.users ≡ d.users
  unfolding fetch_user_for_comment
  fetch-users c d = ap (λ (x : Dao B). x.users) (find_user_by_id-Reads c.user_id d).same

  check-users :
      (comment parent : Comment) (d : Dao B)
      → (check_need_send_email_to_user conf comment parent d).1.users ≡ d.users
  unfolding check_need_send_email_to_user
  check-users comment parent d =
      let once = fetch-users parent d in
      let twice = fetch-users parent (fetch_user_for_comment parent d).1 in
      ground (arith, once, twice)

  email_to_user-users :
      (comment parent : Comment) (d : Dao B)
      → (email_to_user conf key comment parent d).1.users ≡ d.users
  unfolding email_to_user
  email_to_user-users comment parent d =
      let d₁ = (check_need_send_email_to_user conf comment parent d).1 in
      ground (arith, check-users comment parent d, renewed-users key parent.user_id comment d₁)

  email_to_admins-MailsFit :
      (comment parent : Comment) (d d₁ : Dao B)
      → d₁.users ≡ d.users
      → MailsFit conf comment (get_all_admins d) (email_to_admins conf key comment parent d₁).0
  unfolding email_to_admins
  email_to_admins-MailsFit comment parent d d₁ same =
      let admins : get_all_admins d₁ ≡ get_all_admins d =
        (unfold get_all_admins in ap (λ r. filter (λ u. u.is_admin) (B.users.select r)) same) in
      subst (λ l. MailsFit conf comment l (email_to_admins conf key comment parent d₁).0) admins
        (email_each-MailsFit comment parent [] (get_all_admins d₁) (get_all_admins d₁) d₁
          (any_self (get_all_admins d₁)))

  -- Every mail of Push is about the comment, and goes to another user than its author; of a
  -- pending comment only administrators are mailed, and only if the configuration wants it.
  pub push-MailsFit :
      (comment parent : Comment) (d : Dao B)
      → MailsFit conf comment (get_all_admins d) (push conf key comment parent d).0
  unfolding push
  push-MailsFit comment parent d =
      let is_root = comment_is_empty parent in
      let to_user : List Outgoing × Dao B =
        if is_root then ([], d) else email_to_user conf key comment parent d in
      let to_admins : List Outgoing × Dao B =
        if is_root || conf.noise_mode
        then email_to_admins conf key comment parent to_user.1
        else ([], to_user.1) in
      let admins = get_all_admins d in
      let fits_user : MailsFit conf comment admins to_user.0 =
        mails_if comment admins is_root (email_to_user conf key comment parent d) d
          (email_to_user-MailsFit comment parent admins d) in
      let same : to_user.1.users ≡ d.users = ground (arith, email_to_user-users comment parent d) in
      let fits_admins : MailsFit conf comment admins to_admins.0 =
        mails_if_not comment admins (is_root || conf.noise_mode)
          (email_to_admins conf key comment parent to_user.1) to_user.1
          (email_to_admins-MailsFit comment parent d to_user.1 same) in
      MailsFit-append conf comment admins to_user.0 _ fits_user (
        MailsFit-append conf comment admins to_admins.0 _ fits_admins
          (multi_push-MailsFit comment parent admins to_admins.1))
