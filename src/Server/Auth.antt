-- ===== src/Server/Auth.antt =====
-- server/common/auth.go, check.go and guest.go: who sends a request, and the guards of the routes.
pub mod Access
use Prim.Native.String.{len}
use artalk.Prelude.{
  ℕ, ◌==◌, ◌≤◌, Bool, true, false, not, ◌&&◌, Option, none, some, List, [], ◌∷◌, if◌then◌else◌,
  String, str_eq, trim_prefix, decode_hex, length, ltb, ◌≡◌, refl, arith, eq_iff, ◌≢◌, ◌⊎◌, inl,
  inr,
}
use artalk.Prelude.Result.{Result, ok, err}
use artalk.Entity.{User, user_is_empty}
use artalk.Backend.{Backend}
use artalk.Dao.{Dao}
use artalk.Dao.Find.{find_user_by_id}
use artalk.Server.{Request, Response, success, error}

-- The claims of a token: `jwtCustomClaims`.
pub record Claims : Type 0 where
  pub user_id : ℕ
  pub issued_at : Option ℕ

pub data AuthError : Type 0 where
  token_not_provided token_not_valid token_user_not_found token_invalid_from_date : AuthError

unfoldable pub get_token_by_req : Request → String
get_token_by_req r =
    if not (str_eq r.query_token "")
    then r.query_token
    else if not (str_eq r.form_token "")
    then r.form_token
    else trim_prefix r.authorization "Bearer "

-- What the package takes from outside: the parser of signed tokens, with the application's key, and
-- SHA-256 written in hexadecimal digits.
pub record Crypto : Type 0 where
  pub parse_jwt : String → Option Claims
  pub sha256_hex : List ℕ → String

-- The time at which the token was issued, 0 where it does not say.
abbrev pub issued_time : Claims → ℕ
issued_time claims = elim claims.issued_at [ none ↦ 0 | some t ↦ t ]

abbrev pub is_before_valid_from : ℕ → User → Bool
is_before_valid_from t user = elim user.token_valid_from [ none ↦ false | some from ↦ ltb t from ]

unfoldable pub check_user : Claims → User → Result AuthError User
check_user claims user =
    if user_is_empty user
    then err token_user_not_found
    else if is_before_valid_from (issued_time claims) user
    then err token_invalid_from_date
    else ok user

abbrev pub is_admin_user : Result AuthError User → Bool
is_admin_user (err e) = false
is_admin_user (ok user) = not (user_is_empty user) && user.is_admin

module _ (K : Crypto) where
  unfoldable pub get_jwt_data_by_req : Request → Result AuthError Claims
  unfolding get_token_by_req
  get_jwt_data_by_req r =
      if str_eq (get_token_by_req r) ""
      then err token_not_provided
      else (elim (K.parse_jwt (get_token_by_req r)) [
        | none ↦ err token_not_valid
        | some claims ↦ ok claims
      ])

  -- The credential of an anonymous browser, which a login token rules out.
  unfoldable pub guest_token_hash : Request → String
  unfolding get_token_by_req
  guest_token_hash r =
      if not (str_eq (get_token_by_req r) "")
      then ""
      else if not (len r.guest_header == 64)
      then ""
      else (elim (decode_hex r.guest_header) [
        | none ↦ ""
        | some raw ↦ if not (length raw == 32) then "" else K.sha256_hex raw
      ])

  module _ {B : Backend} where
    unfoldable pub get_user_by_req : Request → Dao B → Result AuthError User × Dao B
    unfolding get_jwt_data_by_req check_user
    get_user_by_req r d = elim (get_jwt_data_by_req r) [
      | err e ↦ (err e, d)
      | ok claims ↦
          let (user, d') = find_user_by_id claims.user_id d in (check_user claims user, d')
    ]

    unfoldable pub check_is_admin_req : Request → Dao B → Bool × Dao B
    unfolding get_user_by_req
    check_is_admin_req r d = let (user, d') = get_user_by_req r d in (is_admin_user user, d')

    unfoldable pub admin_guard :
        {A : Type 0} → (Request → Dao B → Response A × Dao B) → Request → Dao B → Response A × Dao B
    unfolding check_is_admin_req
    admin_guard handler r d =
        let (is_admin, d') = check_is_admin_req r d in
        if is_admin then handler r d' else (error 403, d')

    unfoldable pub login_guard :
        {A : Type 0}
        → (Request → User → Dao B → Response A × Dao B)
        → Request
        → Dao B
        → Response A × Dao B
    unfolding get_user_by_req
    login_guard handler r d =
        let (found, d') = get_user_by_req r d in
        elim found [ err e ↦ (error 401, d') | ok user ↦ handler r user d' ]
