-- ===== src/Server/CommentList.antt =====
-- server/handler/comment_list.go: the lists of comments. The data of the page and of addresses in the
-- answer are not modelled, and neither is an offset or a limit below zero.
pub mod Readable
use artalk.Prelude.{ℕ, ◌==◌, Bool, not, Option, none, some, List, String, str_eq, if◌then◌else◌}
use artalk.Backend.{Backend}
use artalk.Dao.{Dao}
use artalk.Server.{Request, Response, success, error}
use artalk.Server.Auth.{Crypto, get_user_by_req, guest_token_hash}
use artalk.Server.CommentGet.{user_or_empty}
use artalk.Server.CommentsGet.{Scope, page_scope, user_scope, site_scope, QueryOptions, Sql}
use artalk.Server.CommentsGet.Find.{Cooked, find_comments}
use artalk.Server.Site.{check_site_exist}

pub record ParamsCommentList : Type 0 where
  pub page_key : String
  pub site_name : String
  pub limit : ℕ
  pub offset : ℕ
  pub flat_mode : Bool
  pub sort_by : String
  pub view_only_admin : Bool
  pub search : String
  pub type : String
  pub scope : String

-- The comments, their number and the number of roots.
pub record ResponseCommentList : Type 0 where
  pub comments : List Cooked
  pub count : ℕ
  pub roots_count : ℕ

unfoldable pub read_scope : String → Option Scope
read_scope s =
    if str_eq s ""
    then some page_scope
    else if str_eq s "page"
    then some page_scope
    else if str_eq s "user"
    then some user_scope
    else if str_eq s "site"
    then some site_scope
    else none

module _ (L : Sql) (K : Crypto) {B : Backend} where
  unfoldable pub query_options : ParamsCommentList → Request → Scope → Dao B → QueryOptions
  unfolding get_user_by_req guest_token_hash
  query_options p r scope d = record {
    user = user_or_empty (get_user_by_req K r d).0;
    guest_token_hash = guest_token_hash K r;
    scope = scope;
    page_payload = record {
      admin_only = p.view_only_admin;
      site_name = p.site_name;
      page_key = p.page_key;
    };
    type = p.type;
    site_name = p.site_name;
    sort_by = p.sort_by;
    search = p.search;
  }

  unfoldable pub list_response :
      ParamsCommentList → QueryOptions → Dao B → Response ResponseCommentList × Dao B
  unfolding find_comments
  list_response p opts d =
      let (comments, count, roots_count) =
        find_comments L opts
          (record { offset = p.offset; limit = p.limit; nested = not p.flat_mode }) d in
      (success (record { comments = comments; count = count; roots_count = roots_count }), d)

  unfoldable pub check_page_site : Scope → String → Dao B → Option ℕ × Dao B
  unfolding check_site_exist
  check_page_site page_scope site_name d = check_site_exist site_name d
  check_page_site user_scope site_name d = (none, d)
  check_page_site site_scope site_name d = (none, d)

  unfoldable pub comment_list :
      ParamsCommentList → Request → Dao B → Response ResponseCommentList × Dao B
  unfolding read_scope check_page_site query_options list_response
  comment_list p r d =
      let d₁ = (get_user_by_req K r d).1 in
      elim (read_scope p.scope) [
        | none ↦ (error 400, d₁)
        | some scope ↦
            let (no_site, d₂) = check_page_site scope p.site_name d₁ in
            elim no_site [
              | some status ↦ (error status, d₂)
              | none ↦ list_response p (query_options p r scope d) d₂
            ]
      ]
