-- ===== src/Server/CommentCreate/Jobs.antt =====
-- The jobs that run after server/handler/comment_create.go has answered: the spam check and the
-- notifications. The page title that is fetched besides is not part of it.
use artalk.Prelude.{ℕ, Bool, not, [], ◌∷◌, if◌then◌else◌, String, str_eq, split_and_trim_space}
use artalk.Entity.{Comment, Site}
use artalk.Backend.{Backend}
use artalk.Dao.{Dao}
use artalk.Dao.Find.{find_site}
use artalk.Dao.Notifying.{fetch_user_for_comment}
use artalk.AntiSpam.{Outside, ModeratorConf, CheckerParams, check_and_block}
use artalk.NotifyPusher.{PusherConf, Sending, push}

-- The arguments of the jobs that are read.
pub record JobArguments : Type 0 where
  pub ip : String
  pub ua : String
  pub referer : String
  pub is_admin : Bool

-- `CookSite(site).FirstUrl`
unfoldable pub first_url : Site → String
unfolding split_and_trim_space
first_url site = elim (split_and_trim_space site.urls ",") [ [] ↦ "" | url ∷ _ ↦ url ]

-- `referer_origin` gives the scheme and host of an address, or an empty text.
module _ (referer_origin : String → String) {B : Backend} where
  unfoldable pub payload2_checker_params : Comment → JobArguments → Dao B → CheckerParams × Dao B
  unfolding fetch_user_for_comment find_site first_url
  payload2_checker_params comment args d =
      let (user, d₁) = fetch_user_for_comment comment d in
      let (site, d₂) = find_site comment.site_name d₁ in
      let named = not (str_eq comment.site_name "") in
      let site_url = if named then first_url site else "" in
      (
        record {
          blog_url = if str_eq site_url "" then referer_origin args.referer else site_url;
          content = comment.content;
          comment_id = comment.id;
          user_name = user.name;
          user_email = user.email;
          user_id = user.id;
          user_ip = args.ip;
          user_agent = args.ua;
        },
        if named then d₂ else d₁,
      )

  module _ (O : Outside) (moderator : ModeratorConf) where
    -- An administrator's comment is not checked.
    unfoldable pub spam_check : Comment → JobArguments → Dao B → Dao B
    unfolding payload2_checker_params check_and_block
    spam_check comment args d =
        let (params, d₁) = payload2_checker_params comment args d in
        if args.is_admin then d else (check_and_block O moderator params d₁).1

    -- The notifications are about the comment as it was created.
    unfoldable pub comment_created_jobs :
        PusherConf → (ℕ → ℕ → String) → Comment → Comment → JobArguments → Sending B
    unfolding spam_check push
    comment_created_jobs pusher key comment parent args d =
        push pusher key comment parent (spam_check comment args d)
