-- ===== src/Server/CommentsGet.antt =====
-- server/handler/comments_get: the queries behind the lists of comments. A query is the list of its
-- conditions, as `liteDB` gathers them.
pub mod Find
pub mod Visible
pub mod Shown
use artalk.Prelude.{
  ℕ, ◌==◌, Bool, true, false, not, ◌&&◌, ◌||◌, Option, none, some, List, [], ◌∷◌, ◌++◌, map, filter,
  any, String, str_eq, concat, if◌then◌else◌, ltb,
}
use artalk.Entity.{User, Comment, user_is_empty}
use artalk.Backend.{Backend}
use artalk.Dao.{Dao, all_comments, all_users}
use artalk.Dao.Cache.{contains}

abbrev pub Condition : Type 0
Condition = Comment → Bool

abbrev pub Query : Type 0
Query = List Condition

-- A row that meets every condition.
unfoldable pub meets : Query → Comment → Bool
meets [] c = true
meets (p ∷ ps) c = p c && meets ps c

abbrev pub where_ : Condition → Query → Query
where_ p q = q ++ p ∷ []

-- `1 = 0`
abbrev pub no_rows : Condition
no_rows c = false

-- The database's lower case, and its LIKE with a pattern between two percent signs.
pub record Sql : Type 0 where
  pub lower : String → String
  pub contains_like : String → String → Bool

unfoldable pub no_pending : ℕ → Query → Query
no_pending allow_user_id q =
    if not (allow_user_id == 0)
    then where_ (λ c. (c.user_id == allow_user_id && c.is_pending) || not c.is_pending) q
    else where_ (λ c. not c.is_pending) q

-- Pending comments are for administrators, their authors, and the browser they came from.
unfoldable pub common_scope : User → String → Query → Query
unfolding no_pending
common_scope user guest_hash q =
    if not user.is_admin
    then (if not (str_eq guest_hash "") && user_is_empty user
        then where_ (λ c. not c.is_pending || str_eq c.guest_token_hash guest_hash) q
        else no_pending user.id q)
    else q

abbrev pub only_root : Condition
only_root c = c.rid == 0

pub record PageScopePayload : Type 0 where
  pub admin_only : Bool
  pub site_name : String
  pub page_key : String

unfoldable pub page_scope_query : PageScopePayload → List ℕ → Query → Query
unfolding contains
page_scope_query payload admin_ids q =
    if str_eq payload.site_name "" || str_eq payload.page_key ""
    then where_ no_rows q
    else (let within =
          where_ (λ c. str_eq c.page_key payload.page_key)
            (where_ (λ c. str_eq c.site_name payload.site_name) q) in
        if payload.admin_only then where_ (λ c. contains admin_ids c.user_id) within else within)

unfoldable pub site_scope_query : String → String → User → Query → Query
site_scope_query type site_name user q =
    if not user.is_admin
    then where_ no_rows q
    else (let q' =
          if not (str_eq site_name "") then where_ (λ c. str_eq c.site_name site_name) q else q in
        if str_eq type "pending" then where_ (λ c. c.is_pending) q' else q')

unfoldable pub guest_scope_query : String → String → List ℕ → Query → Query
unfolding contains
guest_scope_query type hash guest_ids q =
    if str_eq type "mine"
    then where_ (λ c. str_eq c.guest_token_hash hash) q
    else if str_eq type "pending"
    then where_ (λ c. str_eq c.guest_token_hash hash && c.is_pending) q
    else if str_eq type "mentions"
    then where_ (λ c. contains guest_ids c.rid && not (str_eq c.guest_token_hash hash)) q
    else where_ (λ c. str_eq c.guest_token_hash hash || contains guest_ids c.rid) q

unfoldable pub user_scope_query : String → User → String → List ℕ → List ℕ → Query → Query
unfolding guest_scope_query contains
user_scope_query type user hash guest_ids user_ids q =
    if user_is_empty user && not (str_eq hash "")
    then guest_scope_query type hash guest_ids q
    else if user_is_empty user
    then where_ no_rows q
    else if str_eq type "all"
    then where_ (λ c. c.user_id == user.id || contains user_ids c.rid) q
    else if str_eq type "mentions"
    then where_ (λ c. not (c.user_id == user.id) && contains user_ids c.rid) q
    else if str_eq type "mine"
    then where_ (λ c. c.user_id == user.id) q
    else if str_eq type "pending"
    then where_ (λ c. c.user_id == user.id && c.is_pending) q
    else q

pub data Scope : Type 0 where
  page_scope user_scope site_scope : Scope

-- `type` is the text of `UserPayload.Type` or `SitePayload.Type`, which the handler takes from one
-- parameter, as it takes the site's name.
pub record QueryOptions : Type 0 where
  pub user : User
  pub guest_token_hash : String
  pub scope : Scope
  pub page_payload : PageScopePayload
  pub type : String
  pub site_name : String
  pub sort_by : String
  pub search : String

module _ {B : Backend} where
  unfoldable pub get_all_admin_ids : Dao B → List ℕ
  unfolding filter
  get_all_admin_ids d = map (λ u. u.id) (filter (λ u. u.is_admin) (all_users d))

  unfoldable pub get_user_all_comment_ids : ℕ → Dao B → List ℕ
  unfolding filter
  get_user_all_comment_ids user_id d =
      map (λ c. c.id) (filter (λ c. c.user_id == user_id) (all_comments d))

  unfoldable pub get_guest_comment_ids : String → Dao B → List ℕ
  unfolding filter
  get_guest_comment_ids hash d =
      map (λ c. c.id) (filter (λ c. str_eq c.guest_token_hash hash) (all_comments d))

  module _ (L : Sql) where
    unfoldable pub search_scope : String → Dao B → Query → Query
    unfolding filter contains
    search_scope keywords d q =
        let user_ids =
          map (λ u. u.id)
            (filter
              (λ u.
                str_eq (L.lower u.name) (L.lower keywords)
                || str_eq (L.lower u.email) (L.lower keywords))
              (all_users d)) in
        where_
          (λ c.
            contains user_ids c.user_id
            || L.contains_like c.content keywords
            || str_eq c.page_key keywords
            || str_eq c.ip keywords
            || str_eq c.ua keywords)
          q

    unfoldable pub scope_of : Scope → QueryOptions → Dao B → Query → Query
    unfolding page_scope_query user_scope_query site_scope_query get_all_admin_ids
        get_user_all_comment_ids get_guest_comment_ids
    scope_of page_scope opts d q = page_scope_query opts.page_payload (get_all_admin_ids d) q
    scope_of user_scope opts d q =
        user_scope_query opts.type opts.user opts.guest_token_hash
          (get_guest_comment_ids opts.guest_token_hash d) (get_user_all_comment_ids opts.user.id d)
          q
    scope_of site_scope opts d q = site_scope_query opts.type opts.site_name opts.user q

    unfoldable pub get_query_scopes : QueryOptions → Dao B → Query
    unfolding common_scope search_scope scope_of
    get_query_scopes opts d =
        let q = common_scope opts.user opts.guest_token_hash [] in
        scope_of opts.scope opts d
          (if not (str_eq opts.search "") then search_scope opts.search d q else q)
