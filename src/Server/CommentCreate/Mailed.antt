-- ===== src/Server/CommentCreate/Mailed.antt =====
-- A comment that the spam check blocks is mailed all the same.
use artalk.Prelude.{
  ℕ, ◌==◌, Bool, true, false, not, ◌||◌, List, [], ◌∷◌, ◌++◌, any, if◌then◌else◌, String, str_eq,
  ◌≡◌, refl, sym, ap, ◌∙◌, arith, subst,
}
use artalk.Entity.{Comment, Notify, comment_is_empty}
use artalk.Backend.{Backend}
use artalk.Dao.{Dao, all_comments}
use artalk.Dao.Coherence.{IsCoherent, row_of}
use artalk.Dao.Find.{find_site}
use artalk.Dao.Notifying.{fetch_user_for_comment}
use artalk.Dao.Reading.{Reads, Reads-trans, find_user_by_id-Reads, find_site-Reads}
use artalk.Dao.Editing.{Accepts, Holds, IsCoherent-Holds}
use artalk.Server.CommentCreate.Jobs.{
  JobArguments, payload2_checker_params, spam_check, comment_created_jobs,
}
use artalk.AntiSpam.{Outside, ModeratorConf, check_and_block, get_enabled_checkers}
use artalk.AntiSpam.Blocked.{all_pass, or-true, check_and_block-Moderated}
use artalk.NotifyPusher.{
  PusherConf, Outgoing, mail, async_send, check_need_send_email_to_user, renewed, email_to_user,
  email_to_admins, multi_push, push,
}
use artalk.NotifyPusher.Notified.{IsFor, renewed-IsFor}

Reads-if :
    {B : Backend} (b : Bool) (d x y : Dao B) → Reads d x → Reads d y → Reads d (if b then y else x)
Reads-if true d x y p q = q
Reads-if false d x y p q = p

module _ (referer_origin : String → String) {B : Backend} where
  payload-Reads :
      (comment : Comment) (args : JobArguments) (d : Dao B)
      → Reads d (payload2_checker_params referer_origin comment args d).1
  unfolding payload2_checker_params
  payload-Reads comment args d =
      let d₁ = (fetch_user_for_comment comment d).1 in
      let user : Reads d d₁ =
        (unfold fetch_user_for_comment in find_user_by_id-Reads comment.user_id d) in
      let site = find_site-Reads comment.site_name d₁ in
      Reads-if (not (str_eq comment.site_name "")) d d₁ (find_site comment.site_name d₁).1 user
        (Reads-trans d d₁ _ user site)

  module _ (O : Outside) (moderator : ModeratorConf) (pusher : PusherConf)
      (key : ℕ → ℕ → String) where
    spam_check-pending :
        (comment : Comment) (args : JobArguments) (d : Dao B)
        → Accepts B
        → IsCoherent d
        → any (λ (c : Comment). c.id == comment.id) (all_comments d) ≡ true
        → args.is_admin ≡ false
        → all_pass O moderator
            (get_enabled_checkers moderator)
            (payload2_checker_params referer_origin comment args d).0
          ≡ false
        → (row_of comment.id
            (all_comments (spam_check referer_origin O moderator comment args d))).is_pending
          ≡ true
    spam_check-pending comment args d accepts h held plain refused =
        let params = (payload2_checker_params referer_origin comment args d).0 in
        let d₁ = (payload2_checker_params referer_origin comment args d).1 in
        let reads = payload-Reads comment args d in
        let rows : all_comments d₁ ≡ all_comments d =
          ap (λ (y : Dao B). all_comments y) reads.same in
        let x = row_of comment.id (all_comments d₁) in
        let named : params.comment_id ≡ comment.id = (unfold payload2_checker_params in refl) in
        let holds : Holds comment.id x d₁ =
          IsCoherent-Holds comment.id d₁ (reads.coherent h)
            (ap (any (λ (c : Comment). c.id == comment.id)) rows ∙ held) in
        let after =
          (check_and_block-Moderated O moderator accepts params x d₁
            (subst (λ k. Holds k x d₁) (sym named) holds)).holds in
        let is : spam_check referer_origin O moderator comment args d
            ≡ (check_and_block O moderator params d₁).1 =
          (unfold spam_check in rw plain refl) in
        let at : (row_of params.comment_id
              (all_comments (check_and_block O moderator params d₁).1)).is_pending
            ≡ (x.is_pending || not (all_pass O moderator (get_enabled_checkers moderator) params)) =
          ap (λ (c : Comment). c.is_pending) after.row in
        ap (λ (y : Dao B). (row_of comment.id (all_comments y)).is_pending) is
        ∙ ap (λ k. (row_of k (all_comments (check_and_block O moderator params d₁).1)).is_pending)
            (sym named)
        ∙ at
        ∙ ap (λ b. x.is_pending || not b) refused
        ∙ or-true x.is_pending

    email_to_user-mail :
        (comment parent : Comment) (d : Dao B)
        → comment.is_pending ≡ false
        → (comment.user_id == parent.user_id) ≡ false
        → pusher.mail_enabled ≡ true
        → pusher.email_enabled ≡ true
        → (fetch_user_for_comment parent d).0.receive_email ≡ true
        → (n : Notify) × IsFor parent.user_id comment.id n
          × ((email_to_user pusher key comment parent d).0 ≡ mail n ∷ [])
    email_to_user-mail comment parent d shown other mails emails receives =
        let check = check_need_send_email_to_user pusher comment parent d in
        let needed : check.0 ≡ true =
          (unfold check_need_send_email_to_user in
            ground (arith, shown, other, emails, receives)) in
        let notify = renewed key parent.user_id comment check.1 in
        let sent : async_send pusher notify.0 ≡ mail notify.0 ∷ [] =
          (unfold async_send in ap (λ b. if b then mail notify.0 ∷ [] else []) mails) in
        let is : (email_to_user pusher key comment parent d).0 ≡ async_send pusher notify.0 =
          (unfold email_to_user in
            ap
              (λ b.
                let r : List Outgoing × Dao B =
                  if b then (async_send pusher notify.0, notify.1) else ([], check.1) in
                r.0)
              needed) in
        (notify.0, renewed-IsFor key parent.user_id comment check.1, is ∙ sent)

    -- What the jobs did for a comment that a checker refused: its row is pending, and the first
    -- thing that is sent is a mail about it to the author of the parent.
    pub record MailedAnyway (comment parent : Comment) (checked : Dao B) (out : List Outgoing)
        : Type 0 where
      pub pending : (row_of comment.id (all_comments checked)).is_pending ≡ true
      pub notify : Notify
      pub rest : List Outgoing
      pub sent : out ≡ mail notify ∷ rest
      pub receiver : IsFor parent.user_id comment.id notify

    -- If a checker refuses a comment that was created as approved, the database accepts the
    -- saves and the cache agreed with the table, the row of the comment is pending after the
    -- check; yet the jobs mail the comment to the author of its parent, if this is someone else
    -- who receives mail, and the configuration has mails for users and administrators.
    pub comment_created_jobs-mails_blocked :
        (comment parent : Comment) (args : JobArguments) (d : Dao B)
        → Accepts B
        → IsCoherent d
        → any (λ (c : Comment). c.id == comment.id) (all_comments d) ≡ true
        → args.is_admin ≡ false
        → comment.is_pending ≡ false
        → comment_is_empty parent ≡ false
        → (comment.user_id == parent.user_id) ≡ false
        → pusher.mail_enabled ≡ true
        → pusher.email_enabled ≡ true
        → let checked = spam_check referer_origin O moderator comment args d in
          all_pass O moderator
              (get_enabled_checkers moderator)
              (payload2_checker_params referer_origin comment args d).0
            ≡ false
          → (fetch_user_for_comment parent checked).0.receive_email ≡ true
          → MailedAnyway comment parent checked
              (comment_created_jobs referer_origin O moderator pusher key comment parent args d).0
    comment_created_jobs-mails_blocked comment parent args d accepts h held plain shown reply other
          mails emails refused receives =
        let checked = spam_check referer_origin O moderator comment args d in
        let (n, is_for, sent) =
          email_to_user-mail comment parent checked shown other mails emails receives in
        let to_user = email_to_user pusher key comment parent checked in
        let to_admins : List Outgoing × Dao B =
          if false || pusher.noise_mode
          then email_to_admins pusher key comment parent to_user.1
          else ([], to_user.1) in
        let others = to_admins.0 ++ (multi_push pusher key comment parent to_admins.1).0 in
        let whole : (push pusher key comment parent checked).0 ≡ to_user.0 ++ others =
          (unfold push in rw reply refl) in
        let is : (comment_created_jobs referer_origin O moderator pusher key comment parent args
              d).0
            ≡ to_user.0 ++ others =
          (unfold comment_created_jobs in whole) in
        record {
          pending = spam_check-pending comment args d accepts h held plain refused;
          notify = n;
          rest = others;
          sent = is ∙ ap (λ l. l ++ others) sent;
          receiver = is_for;
        }
