-- ===== src/Dao/Create.antt =====
-- internal/dao/query_new.go, query_find.go and query_find_create.go: users and
-- pages that are found or created.
-- Calls with one key run one at a time, as the code's `singleflight` group makes them.
use artalk.Prelude.{
  any, Bool, false, not, ◌&&◌, ◌||◌, Option, none, some, String, str_eq, if◌then◌else◌, trim_space,
}
use artalk.Prelude.Result.{ok, err}
use artalk.Entity.{User, Page, empty_user, empty_page, user_is_empty, page_is_empty}
use artalk.Backend.{Backend, Value}
use artalk.Dao.{Dao, Find, Act, write_failed, invalid_argument, cache_action, first_or, all_users}
use artalk.Dao.Cache.{decode_user, user_cache_save, user_by_name_email_key}
use artalk.Dao.Find.{query_db_with_cache, find_page}
use artalk.Dao.Write.{create_page}

-- Go's lower case and comparison that ignores case, the database's lower case, the e-mail test of
-- govalidator, and the scheme that `url.ParseRequestURI` finds, if it parses the text.
pub record Texts : Type 0 where
  pub lower : String → String
  pub equal_fold : String → String → Bool
  pub sql_lower : String → String
  pub is_email : String → Bool
  pub request_uri_scheme : String → Option String

module _ (T : Texts) where
  unfoldable pub validate_url : String → Bool
  validate_url v = elim (T.request_uri_scheme v) [
    | none ↦ false
    | some scheme ↦ str_eq scheme "https" || str_eq scheme "http"
  ]

  abbrev pub is_named : String → String → User → Bool
  is_named name email u =
      str_eq (T.sql_lower u.name) (T.sql_lower name)
      && str_eq (T.sql_lower u.email) (T.sql_lower email)

  module _ {B : Backend} where
    unfoldable pub find_user : String → String → Find B User
    unfolding query_db_with_cache first_or
    find_user name email =
        query_db_with_cache (user_by_name_email_key (T.lower name) (T.lower email)) decode_user
          Value.user (λ d. first_or empty_user (is_named name email) (all_users d))

    unfoldable pub create_user : User → Act B User
    unfolding user_cache_save
    create_user user d = elim (B.users.insert user d.users) [
      | none ↦ (err write_failed, d)
      | some (created, rows) ↦ (
        ok created,
        (cache_action (user_cache_save B.store T.lower created) (record d { users = rows })).1,
      )
    ]

    unfoldable pub new_user : String → String → String → Act B User
    unfolding create_user
    new_user name email link =
        create_user (record empty_user { name = name; email = email; link = link })

    -- What is found, unless it is the zero value: then it is created.
    unfoldable pub find_create : {A : Type 0} → (A → Bool) → Find B A → Act B A → Act B A
    find_create is_empty find create d =
        let (found, d') = find d in if is_empty found then create d' else (ok found, d')

    unfoldable pub find_create_user : String → String → String → Act B User
    unfolding find_create find_user new_user validate_url
    find_create_user name email link d =
        let n = trim_space name in
        let e = trim_space email in
        let l = trim_space link in
        if str_eq n "" || str_eq e ""
        then (err invalid_argument, d)
        else if not (T.is_email e)
        then (err invalid_argument, d)
        else (let valid = if not (str_eq l "") && not (validate_url l) then "" else l in
            find_create user_is_empty (find_user n e) (new_user n e valid) d)

    unfoldable pub is_admin_user_by_name_email : String → String → Dao B → Bool
    unfolding any
    is_admin_user_by_name_email name email d =
        any (λ u. u.is_admin && T.equal_fold u.name name && T.equal_fold u.email email)
          (all_users d)

    -- The cache is written whether the save failed or not.
    unfoldable pub update_user : User → Act B (Unit {0})
    unfolding user_cache_save
    update_user user d = elim (B.users.save user d.users) [
      | none ↦ (err write_failed, (cache_action (user_cache_save B.store T.lower user) d).1)
      | some rows ↦ (
        ok tt,
        (cache_action (user_cache_save B.store T.lower user) (record d { users = rows })).1,
      )
    ]

module _ {B : Backend} where
  -- The error of a page that cannot be stored is dropped, and the page has no key then.
  unfoldable pub new_page : String → String → String → Act B Page
  unfolding create_page
  new_page key title site_name d =
      let page = record empty_page { key = key; title = title; site_name = site_name } in
      let (r, d') = create_page page d in (ok (elim r [ err e ↦ page | ok created ↦ created ]), d')

  unfoldable pub find_create_page : String → String → String → Dao B → Page × Dao B
  unfolding find_page new_page
  find_create_page key title site_name d =
      let (page, d₁) = find_page key site_name d in
      let (r, d₂) = new_page key title site_name d₁ in
      if page_is_empty page
      then (elim r [ err e ↦ empty_page | ok created ↦ created ], d₂)
      else (page, d₁)
