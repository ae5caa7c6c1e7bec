-- ===== src/Server/CommentCreate.antt =====
-- server/handler/comment_create.go, behind the limiter. The jobs that run after its answer are in Jobs.
pub mod Checked
pub mod Stored
pub mod Jobs
pub mod Mailed
use artalk.Prelude.{
  ℕ, ◌==◌, Bool, true, false, not, ◌&&◌, ◌||◌, Option, none, some, List, String, str_eq,
  if◌then◌else◌, trim_space,
}
use artalk.Prelude.Result.{Result, ok, err}
use artalk.Entity.{
  User, Comment, Page, Site, empty_comment, empty_user, comment_is_empty, page_is_empty,
  site_is_empty, user_is_empty, is_allow_reply,
}
use artalk.Ban.{is_email_banned}
use artalk.Backend.{Backend}
use artalk.Dao.{Dao, DbError, all_comments}
use artalk.Dao.Create.{
  Texts, validate_url, find_create_user, find_create_page, is_admin_user_by_name_email, update_user,
}
use artalk.Dao.Find.{find_comment, find_page, find_site, find_comment_root_id}
use artalk.Dao.Write.{create_comment}
use artalk.Server.{Request, Response, success, error}
use artalk.Server.Site.{check_site_exist}
use artalk.Server.Auth.{
  AuthError, token_not_provided, Crypto, get_user_by_req, check_is_admin_req, guest_token_hash,
}

pub record ParamsCommentCreate : Type 0 where
  pub name : String
  pub email : String
  pub link : String
  pub content : String
  pub rid : ℕ
  pub ua : String
  pub page_key : String
  pub page_title : String
  pub site_name : String

-- What the handler reads of the configuration, and the lines of the list of banned addresses.
pub record Conf : Type 0 where
  pub auth_enabled : Bool
  pub auth_anonymous : Bool
  pub pending_default : Bool
  pub banned : List String

-- `cmp.Or` on texts.
abbrev pub or_text : String → String → String
or_text a b = if not (str_eq a "") then a else b

-- The reasons for which a parent comment takes no reply: a status, or none.
unfoldable pub parent_status : ParamsCommentCreate → Comment → Option ℕ
parent_status p parent =
    if comment_is_empty parent
    then some 404
    else if not (str_eq parent.page_key p.page_key)
    then some 400
    else if not (is_allow_reply parent)
    then some 400
    else none

-- Whether the token of a request was provided and names no user.
unfoldable pub is_bad_login : Result AuthError User → Bool
is_bad_login (ok user) = user_is_empty user
is_bad_login (err token_not_provided) = false
is_bad_login (err _) = true

-- The page that was found or created, and the error that is dropped, are tested by being empty.
abbrev pub root_id_of : Option ℕ → ℕ
root_id_of none = 0
root_id_of (some r) = r

module _ (T : Texts) (K : Crypto) (conf : Conf) {B : Backend} where
  unfoldable pub is_allow_comment : ParamsCommentCreate → Request → Bool → Dao B → Option ℕ × Dao B
  unfolding is_admin_user_by_name_email check_is_admin_req get_user_by_req is_bad_login
  is_allow_comment p r page_admin_only d =
      let guarded = is_admin_user_by_name_email T p.name p.email d || page_admin_only in
      let (is_admin, d₁) = if guarded then check_is_admin_req K r d else (true, d) in
      let (login, d₂) = get_user_by_req K r d₁ in
      if not is_admin then (some 403, d₁) else (if is_bad_login login then some 401 else none, d₂)

  unfoldable pub check_parent : ParamsCommentCreate → Dao B → Option ℕ × Dao B
  unfolding find_comment parent_status
  check_parent p d =
      let (parent, d') = find_comment p.rid d in
      if p.rid == 0 then (none, d) else (parent_status p parent, d')

  -- Everything before the user is looked up: the status of a refusal, or whether an administrator
  -- sent the request.
  unfoldable pub check_request : ParamsCommentCreate → Request → Dao B → Result ℕ Bool × Dao B
  unfolding check_site_exist is_allow_comment check_parent validate_url check_is_admin_req
      is_email_banned find_page
  check_request p r d =
      if not (T.is_email p.email)
      then (err 400, d)
      else if not (str_eq p.link "") && not (validate_url T p.link)
      then (err 400, d)
      else (let (may_be_banned, d₁) = check_is_admin_req K r d in
          if not may_be_banned && is_email_banned T.lower conf.banned p.email
          then (err 403, d₁)
          else (let (no_site, d₂) = check_site_exist p.site_name d₁ in
              elim no_site [
                | some status ↦ (err status, d₂)
                | none ↦
                    let (is_admin, d₃) = check_is_admin_req K r d₂ in
                    let (page, d₄) = find_page p.page_key p.site_name d₃ in
                    let (refused, d₅) = is_allow_comment p r page.admin_only d₄ in
                    elim refused [
                      | some status ↦ (err status, d₅)
                      | none ↦
                          let (no_parent, d₆) = check_parent p d₅ in
                          elim no_parent [
                            | some status ↦ (err status, d₆)
                            | none ↦ (ok is_admin, d₆)
                          ]
                    ]
              ]))

  unfoldable pub get_update_anonymous_user :
      ParamsCommentCreate → String → String → Dao B → Result ℕ User × Dao B
  unfolding find_create_user update_user
  get_update_anonymous_user p ip ua d =
      if conf.auth_enabled && not conf.auth_anonymous
      then (err 500, d)
      else (let (found, d₁) = find_create_user T p.name p.email p.link d in
          elim found [
            | err e ↦ (err 500, d₁)
            | ok user ↦
                let changed : User = record user {
                  link = p.link;
                  last_ip = ip;
                  last_ua = ua;
                  name = p.name;
                  email = p.email;
                } in
                if not conf.auth_enabled
                then (ok changed, (update_user T changed d₁).1)
                else (ok user, d₁)
          ])

  -- Who writes the comment, and whether by a login.
  unfoldable pub author_of : ParamsCommentCreate → Request → Dao B → Result ℕ (User × Bool) × Dao B
  unfolding get_user_by_req get_update_anonymous_user
  author_of p r d =
      let (login, d₁) = get_user_by_req K r d in
      elim login [
        | ok user ↦ (ok (user, true), d₁)
        | err token_not_provided ↦
            let (anonymous, d₂) = get_update_anonymous_user p r.ip (or_text p.ua r.user_agent) d₁ in
            elim anonymous [ err status ↦ (err status, d₂) | ok user ↦ (ok (user, false), d₂) ]
        | err _ ↦ (err 500, d₁)
      ]

  -- The entity that is stored.
  unfoldable pub new_comment :
      ParamsCommentCreate → Request → Bool → User → Bool → Page → Dao B → Comment
  unfolding find_comment_root_id guest_token_hash
  new_comment p r is_admin user is_verified page d = record empty_comment {
    content = p.content;
    page_key = page.key;
    site_name = p.site_name;
    user_id = user.id;
    ip = r.ip;
    ua = or_text p.ua r.user_agent;
    rid = p.rid;
    root_id = root_id_of (find_comment_root_id p.rid (all_comments d));
    is_verified = is_verified;
    guest_token_hash = if is_verified then "" else guest_token_hash K r;
    is_pending = not is_admin && conf.pending_default;
  }

  unfoldable pub store_comment :
      ParamsCommentCreate → Request → Bool → User → Bool → Dao B → Response Comment × Dao B
  unfolding new_comment find_create_page create_comment
  store_comment p r is_admin user is_verified d =
      let (page, d₁) = find_create_page p.page_key p.page_title p.site_name d in
      let (created, d₂) = create_comment (new_comment p r is_admin user is_verified page d₁) d₁ in
      if page_is_empty page
      then (error 500, d₁)
      else (elim created [ err e ↦ (error 500, d₂) | ok c ↦ (success c, d₂) ])

  unfoldable pub comment_create : ParamsCommentCreate → Request → Dao B → Response Comment × Dao B
  unfolding check_request author_of store_comment
  comment_create p r d =
      let (checked, d₁) = check_request p r d in
      elim checked [
        | err status ↦ (error status, d₁)
        | ok is_admin ↦
            let (author, d₂) = author_of p r d₁ in
            elim author [
              | err status ↦ (error status, d₂)
              | ok (user, is_verified) ↦ store_comment p r is_admin user is_verified d₂
            ]
      ]
