-- ===== src/Tests/ReadWitnesses.antt =====
-- The theorems on what readers see, and on the guard of the captcha.
use artalk.Prelude.{◌≡◌, ◌⊎◌, true, false, refl, arith, [], All, trim_prefix, trim_space}
use artalk.Backend.Memory.{memory}
use artalk.Dao.{all_comments}
use artalk.Dao.Coherence.{row_of}
use artalk.Limiter.{pos, LimiterConf, new_limiter}
use artalk.Limiter.Answers.{unknown, new-Knows}
use artalk.Server.{Response, success, error}
use artalk.Server.Captcha.{limiter_guard}
use artalk.Server.Captcha.Guarded.{Outcome, limiter_guard-Outcome}
use artalk.Server.CommentGet.{ResponseCommentGet, comment_get}
use artalk.Server.CommentGet.MayRead.{Readable, Linked, comment_get-MayRead}
use artalk.Server.CommentList.{ParamsCommentList, ResponseCommentList, comment_list}
use artalk.Server.CommentList.Readable.{reads_as, comment_list-can_read}
use artalk.Server.CommentsGet.Find.{Cooked}
use artalk.Tests.Fixtures.{blog, site, site-IsCoherent, crypto, sql, anonymous, request}

abbrev list_params : ParamsCommentList
list_params = record {
  page_key = "/a";
  site_name = "S";
  limit = 20;
  offset = 0;
  flat_mode = true;
  sort_by = "";
  view_only_admin = false;
  search = "";
  type = "";
  scope = "";
}

abbrev listed : Response ResponseCommentList → ResponseCommentList
listed (success x) = x
listed (error status) = record { comments = []; count = 0; roots_count = 0 }

comment_list-can_read_example :
    All
      (λ (x : Cooked). reads_as crypto anonymous blog x.comment ≡ true)
      (listed (comment_list sql crypto list_params anonymous blog).0).comments
unfolding blog memory comment_list trim_prefix trim_space
comment_list-can_read_example =
    comment_list-can_read crypto anonymous blog sql list_params
      (comment_list sql crypto list_params anonymous blog).1
      (listed (comment_list sql crypto list_params anonymous blog).0) refl

comment_get-MayRead_example :
    ((response : ResponseCommentGet) × ((comment_get crypto 2 anonymous site).0 ≡ success response)
      × Readable crypto anonymous site 2
      × (response.comment.comment ≡ row_of 2 (all_comments site))
      × Linked crypto anonymous site (row_of 2 (all_comments site)).rid response.reply_comment)
    ⊎ (((comment_get crypto 2 anonymous site).0 ≡ error 404) × ¬ Readable crypto anonymous site 2)
comment_get-MayRead_example = comment_get-MayRead crypto anonymous site 2 site-IsCoherent

abbrev captcha : LimiterConf
captcha = record { always_mode = false; max_action_during_time = pos 1; reset_timeout = pos 60 }

limiter_guard-Outcome_example :
    Outcome crypto
      (λ _ d. (success true, d))
      1
      2
      (λ _. unknown)
      request
      (new_limiter captcha)
      site
      (limiter_guard crypto true 1 2 (λ _ d. (success true, d)) request (new_limiter captcha) site)
limiter_guard-Outcome_example =
    limiter_guard-Outcome crypto (λ _ d. (success true, d)) 0 1 2 (λ _. unknown) request
      (new_limiter captcha) site (omega arith) (omega arith) (new-Knows captcha)
