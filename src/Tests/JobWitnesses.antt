-- ===== src/Tests/JobWitnesses.antt =====
-- The jobs behind a new comment, and the change of a comment by an administrator, at a reply.
use artalk.Prelude.{ℕ, true, false, none, some, List, [], ◌∷◌, any, refl, String, not}
use artalk.Entity.{Comment}
use artalk.Backend.Memory.{memory}
use artalk.Dao.{Dao, first_or}
use artalk.Dao.Editing.{IsCoherent-Holds}
use artalk.Dao.Notifying.{get_all_admins}
use artalk.AntiSpam.{Outside, ModeratorConf, CheckerParams, check_and_block, get_enabled_checkers}
use artalk.AntiSpam.Blocked.{Moderated, all_pass, check_and_block-Moderated}
use artalk.NotifyPusher.{PusherConf, Outgoing, push}
use artalk.NotifyPusher.Mails.{MailsFit, push-MailsFit}
use artalk.Server.{Response}
use artalk.Server.CommentCreate.Jobs.{JobArguments, comment_created_jobs, spam_check}
use artalk.Server.CommentCreate.Mailed.{MailedAnyway, comment_created_jobs-mails_blocked}
use artalk.Server.CommentUpdate.{ParamsCommentUpdate, comment_update}
use artalk.Server.CommentUpdate.Updated.{Updated}
use artalk.Tests.Fixtures.{first, crypto, request, texts}
use artalk.Tests.Authors.{answer, two_authors, two_authors-IsCoherent, memory-Accepts}

-- Mails and keywords, one of which is in a file.
abbrev pusher : PusherConf
pusher = record {
  email_enabled = true;
  notify_pending = true;
  noise_mode = true;
  lark_enabled = true;
  bark_enabled = false;
  webhook_enabled = false;
  mail_enabled = true;
}

abbrev key : ℕ → ℕ → String
key user_id comment_id = "k"

abbrev moderator : ModeratorConf
moderator = record {
  akismet_key = "";
  tencent_enabled = false;
  aliyun_enabled = false;
  keywords_enabled = true;
  keywords_pending = true;
  keywords_files = "words" ∷ [];
  keywords_file_sep = ",";
  keywords_replace_to = "x";
  api_fail_block = false;
}

abbrev outside : Outside
outside = record { remote = λ _ _. none; read_file = λ _. some "sell,buy" }

abbrev checked_params : CheckerParams
checked_params = record {
  blog_url = "";
  content = "buy";
  comment_id = 2;
  user_name = "eve";
  user_email = "e@x.org";
  user_id = 2;
  user_ip = "";
  user_agent = "";
}

abbrev arguments : JobArguments
arguments = record { ip = ""; ua = ""; referer = ""; is_admin = false }

push-MailsFit_example :
    MailsFit pusher
      (answer false)
      (get_all_admins (two_authors false))
      (push pusher key (answer false) first (two_authors false)).0
push-MailsFit_example = push-MailsFit pusher key (answer false) first (two_authors false)

check_and_block-Moderated_example :
    Moderated 2
      (answer false)
      (not (all_pass outside moderator (get_enabled_checkers moderator) checked_params))
      (two_authors false)
      (check_and_block outside moderator checked_params (two_authors false)).1
unfolding two_authors memory any first_or
check_and_block-Moderated_example =
    check_and_block-Moderated outside moderator memory-Accepts checked_params (answer false)
      (two_authors false)
      (IsCoherent-Holds 2 (two_authors false) (two_authors-IsCoherent false) refl)

comment_created_jobs-mails_blocked_example :
    MailedAnyway
      (λ _. "")
      outside
      moderator
      pusher
      key
      (answer false)
      first
      (spam_check (λ _. "") outside moderator (answer false) arguments (two_authors false))
      (comment_created_jobs
        (λ _. "")
        outside
        moderator
        pusher
        key
        (answer false)
        first
        arguments
        (two_authors false)).0
unfolding two_authors memory any spam_check
comment_created_jobs-mails_blocked_example =
    comment_created_jobs-mails_blocked (λ _. "") outside moderator pusher key (answer false) first
      arguments (two_authors false) memory-Accepts (two_authors-IsCoherent false) refl refl refl
      refl refl refl refl refl refl

-- The reply is approved.
abbrev approval : ParamsCommentUpdate
approval = record {
  site_name = "S";
  content = "";
  page_key = "";
  nick = "";
  email = "";
  link = "";
  rid = 0;
  ua = "";
  ip = "";
  is_collapsed = false;
  is_pending = false;
  is_pinned = false;
}

abbrev run : (Response Comment × List Outgoing) × Dao memory
run = comment_update texts pusher key crypto approval 2 request (two_authors true)
