-- ===== src/Server/Auth/Access.antt =====
-- Who gets past the guards.
use artalk.Prelude.{
  ℕ, ◌≤◌, true, some, if◌then◌else◌, ◌≡◌, refl, arith, eq_iff, ◌≢◌, ◌⊎◌, inl, inr, Bool-cases,
}
use artalk.Prelude.Result.{Result, ok, err}
use artalk.Entity.{User}
use artalk.Backend.{Backend}
use artalk.Dao.{Dao}
use artalk.Dao.Find.{find_user_by_id}
use artalk.Server.{Request, Response, error}
use artalk.Server.Auth.{
  Claims, Crypto, AuthError, is_admin_user, get_token_by_req, get_jwt_data_by_req, issued_time,
  check_user, get_user_by_req, check_is_admin_req, admin_guard, guest_token_hash,
}

-- Why a request is taken to come from a user: its token is signed with the application's key and
-- names that user, who exists and whose tokens were not revoked after it was issued.
pub record IsLogin {B : Backend} (K : Crypto) (r : Request) (d : Dao B) (user : User) : Type 0 where
  pub claims : Claims
  pub has_token : get_token_by_req r ≢ ""
  pub signed : K.parse_jwt (get_token_by_req r) ≡ some claims
  pub named : user ≡ (find_user_by_id claims.user_id d).0
  pub exists : user.id ≢ 0
  pub not_revoked : (t : ℕ) → user.token_valid_from ≡ some t → t ≤ issued_time claims

module _ (K : Crypto) {B : Backend} (r : Request) (d : Dao B) where
  jwt-eq-ok :
      (claims : Claims)
      → get_jwt_data_by_req K r ≡ ok claims
      → (get_token_by_req r ≢ "") × (K.parse_jwt (get_token_by_req r) ≡ some claims)
  unfolding get_jwt_data_by_req
  jwt-eq-ok claims e = ground (arith, eq_iff (get_token_by_req r) "")

  check_user-eq-ok :
      (claims : Claims) (found user : User)
      → check_user claims found ≡ ok user
      → (user ≡ found)
        × (user.id ≢ 0)
        × ((t : ℕ) → user.token_valid_from ≡ some t → t ≤ issued_time claims)
  unfolding check_user
  check_user-eq-ok claims found user e = (ground arith, ground arith, λ t k. ground arith)

  -- If GetUserByReq gives a user, the request has a token, its signature was accepted, it names
  -- this user, the user exists, and the token was issued no earlier than the time from which
  -- the tokens of the user are valid.
  pub get_user_by_req-eq-ok :
      (user : User) → (get_user_by_req K r d).0 ≡ ok user → IsLogin K r d user
  unfolding get_user_by_req
  get_user_by_req-eq-ok user e = go (get_jwt_data_by_req K r) (λ c k. jwt-eq-ok c k) e
    where
      go :
          (q : Result AuthError Claims)
          → ((c : Claims)
              → q ≡ ok c
              → (get_token_by_req r ≢ "") × (K.parse_jwt (get_token_by_req r) ≡ some c))
          → (elim q as (λ _. Result AuthError User × Dao B) [
            | err e ↦ (err e, d)
            | ok claims ↦ (
              check_user claims (find_user_by_id claims.user_id d).0,
              (find_user_by_id claims.user_id d).1,
            )
          ]).0
            ≡ ok user
          → IsLogin K r d user
      go (err x) f e = absurd (cc)
      go (ok c) f e =
          let (token, signed) = f c refl in
          let (named, exists, fresh) = check_user-eq-ok c (find_user_by_id c.user_id d).0 user e in
          record {
            claims = c;
            has_token = token;
            signed = signed;
            named = named;
            exists = exists;
            not_revoked = fresh;
          }

  -- A handler behind AdminGuard either runs, and then the token of the request names an
  -- administrator who exists and is not revoked, or it does not run and the answer is 403.
  pub admin_guard-cases :
      {A : Type 0} (handler : Request → Dao B → Response A × Dao B)
      → ((user : User) × IsLogin K r d user
          × (user.is_admin ≡ true)
          × (admin_guard K handler r d ≡ handler r (get_user_by_req K r d).1))
        ⊎ (admin_guard K handler r d ≡ (error 403, (get_user_by_req K r d).1))
  unfolding admin_guard check_is_admin_req
  admin_guard-cases handler = go (get_user_by_req K r d).0 (λ u k. get_user_by_req-eq-ok u k)
    where
      go :
          (q : Result AuthError User)
          → ((u : User) → q ≡ ok u → IsLogin K r d u)
          → ((user : User) × IsLogin K r d user
              × (user.is_admin ≡ true)
              × ((if is_admin_user q
                    then handler r (get_user_by_req K r d).1
                    else (error 403, (get_user_by_req K r d).1))
                  ≡ handler r (get_user_by_req K r d).1))
            ⊎ ((if is_admin_user q
                  then handler r (get_user_by_req K r d).1
                  else (error 403, (get_user_by_req K r d).1))
                ≡ (error 403, (get_user_by_req K r d).1))
      go (err x) f = inr refl
      go (ok u) f = elim (Bool-cases (is_admin_user (ok u))) [
        | inl yes_admin ↦ inl (u, f u refl, ground arith, rw yes_admin)
        | inr not_admin ↦ inr (rw not_admin)
      ]

  -- A request from which GetUserByReq takes a user has no guest credential.
  pub guest_token_hash-login :
      (user : User) → (get_user_by_req K r d).0 ≡ ok user → guest_token_hash K r ≡ ""
  unfolding guest_token_hash
  guest_token_hash-login user e =
      let login = get_user_by_req-eq-ok user e in
      ground (arith, login.has_token, eq_iff (get_token_by_req r) "")
