-- ===== src/Server/Users.antt =====
-- server/handler/user_create.go and user_update.go behind AdminGuard, user_login.go behind
-- LimiterGuard, and the passwords of internal/entity/user.go.
use artalk.Prelude.{
  ℕ, Bool, false, not, ◌&&◌, Option, none, some, [], ◌∷◌, String, str_eq, trim_space, concat,
  strip_prefix, if◌then◌else◌,
}
use artalk.Prelude.Result.{Result, ok, err}
use artalk.Entity.{User, empty_user, user_is_empty}
use artalk.Backend.{Backend}
use artalk.Dao.{Dao, cache_action}
use artalk.Dao.Cache.{user_cache_del}
use artalk.Dao.Create.{Texts, validate_url, find_user, create_user, update_user}
use artalk.Dao.Find.{find_user_by_id}
use artalk.Dao.Users.{find_users_by_email}
use artalk.Server.{Request, Response, success, error}
use artalk.Server.Auth.{Crypto, check_is_admin_req}

-- The package bcrypt: a hash, which may fail, and whether a hash is of a password.
pub record Bcrypt : Type 0 where
  pub generate : String → Option String
  pub compare : String → String → Bool

-- `ParamsUserCreate` and `ParamsUserUpdate`.
pub record ParamsUser : Type 0 where
  pub name : String
  pub email : String
  pub password : String
  pub link : String
  pub is_admin : Bool
  pub receive_email : Bool
  pub badge_name : String
  pub badge_color : String

pub record ParamsUserLogin : Type 0 where
  pub name : String
  pub email : String
  pub password : String

-- `none` is an error, which leaves the user alone.
unfoldable pub set_password_encrypt : Bcrypt → ℕ → String → User → Option User
set_password_encrypt P now password user = elim (P.generate password) [
  | none ↦ none
  | some encrypted ↦
      some (record user { password = concat "(bcrypt)" encrypted; token_valid_from = some now })
]

unfoldable pub check_password : Bcrypt → User → String → Bool
unfolding trim_space strip_prefix
check_password P user input =
    let password = trim_space user.password in
    if user_is_empty user
    then false
    else if str_eq password ""
    then false
    else (elim (strip_prefix "(bcrypt)" password) [
      | some hash ↦ P.compare hash input
      | none ↦ str_eq password input
    ])

-- The fields of the request, all but the password.
abbrev pub filled : ParamsUser → User → User
filled p user = record user {
  name = p.name;
  email = p.email;
  link = p.link;
  is_admin = p.is_admin;
  receive_email = p.receive_email;
  badge_name = p.badge_name;
  badge_color = p.badge_color;
}

-- The user with the new password; an error of the hash is dropped by an update.
abbrev pub or_same : Option User → User → User
or_same none user = user
or_same (some changed) user = changed

-- The new user, with a password if there is one.
unfoldable pub created_user : Bcrypt → ℕ → ParamsUser → Option User
unfolding set_password_encrypt
created_user P now p =
    let user = filled p empty_user in
    if str_eq p.password "" then some user else set_password_encrypt P now p.password user

module _ (T : Texts) where
  -- The first refusal of an address or a link.
  unfoldable pub user_status : ParamsUser → Option ℕ
  unfolding validate_url
  user_status p =
      if not (T.is_email p.email)
      then some 400
      else if not (str_eq p.link "") && not (validate_url T p.link)
      then some 400
      else none

  module _ (P : Bcrypt) (now : ℕ) {B : Backend} where
    unfoldable pub save_user : ParamsUser → User → Dao B → Response User × Dao B
    unfolding user_cache_del set_password_encrypt update_user
    save_user p user d =
        let d₁ = (cache_action (user_cache_del B.store T.lower user) d).1 in
        let same = filled p user in
        let changed =
          if str_eq p.password ""
          then same
          else or_same (set_password_encrypt P now p.password same) same in
        let (saved, d₂) = update_user T changed d₁ in
        (elim saved [ err e ↦ error 500 | ok _ ↦ success changed ], d₂)

    -- From the user on. A name and an address are looked up only if both are new.
    unfoldable pub update_found_user : ParamsUser → User → Dao B → Response User × Dao B
    unfolding find_user user_status save_user
    update_found_user p user d =
        let renamed = not (str_eq p.name user.name) && not (str_eq p.email user.email) in
        let (other, d₁) = find_user T p.name p.email d in
        let d₂ = if renamed then d₁ else d in
        let out = save_user p user d₂ in
        if user_is_empty user
        then (error 404, d)
        else if renamed && not (user_is_empty other)
        then (error 400, d₁)
        else (elim (user_status p) [ some status ↦ (error status, d₂) | none ↦ out ])

    unfoldable pub user_update : Crypto → ParamsUser → ℕ → Request → Dao B → Response User × Dao B
    unfolding check_is_admin_req find_user_by_id update_found_user
    user_update K p id r d =
        let (is_admin, d₁) = check_is_admin_req K r d in
        let (user, d₂) = find_user_by_id id d₁ in
        let out = update_found_user p user d₂ in if is_admin then out else (error 403, d₁)

    unfoldable pub user_create : Crypto → ParamsUser → Request → Dao B → Response User × Dao B
    unfolding check_is_admin_req find_user user_status created_user create_user
    user_create K p r d =
        let (is_admin, d₁) = check_is_admin_req K r d in
        let (other, d₂) = find_user T p.name p.email d₁ in
        let out : Response User × Dao B = elim (created_user P now p) [
          | none ↦ (error 500, d₂)
          | some user ↦
              let (made, d₃) = create_user T user d₂ in
              (elim made [ err e ↦ error 500 | ok stored ↦ success stored ], d₃)
        ] in
        if not is_admin
        then (error 403, d₁)
        else if not (user_is_empty other)
        then (error 400, d₂)
        else (elim (user_status p) [ some status ↦ (error status, d₂) | none ↦ out ])

  module _ (P : Bcrypt) {B : Backend} where
    -- Who logs in: the one user with the address, or the one with the name and the address.
    unfoldable pub login_user : ParamsUserLogin → Dao B → Result ℕ User × Dao B
    unfolding find_users_by_email find_user
    login_user p d =
        let (users, d₁) = find_users_by_email T p.email d in
        let (named, d₂) = find_user T p.name p.email d in
        let only : Result ℕ User = elim users [
          | [] ↦ ok empty_user
          | user ∷ rest ↦ elim rest [ [] ↦ ok user | _ ∷ _ ↦ err 400 ]
        ] in
        if not (str_eq p.name "")
        then (ok named, d₂)
        else if not (T.is_email p.email)
        then (err 400, d)
        else (only, d₁)

    -- `sign` is the token of `LoginGetUserToken`, `none` where it cannot be signed.
    unfoldable pub user_login :
        (User → Option String) → ParamsUserLogin → Dao B → Response (String × User) × Dao B
    unfolding login_user check_password
    user_login sign p d =
        let (found, d') = login_user p d in
        (
          elim found [
            | err status ↦ error status
            | ok user ↦
                if user_is_empty user
                then error 401
                else if not (check_password P user p.password)
                then error 401
                else (elim (sign user) [ none ↦ error 500 | some token ↦ success (token, user) ])
          ],
          d',
        )
