-- ===== src/Server/Captcha.antt =====
-- LimiterGuard of server/common/captcha.go. The limiter that the middleware sets is always there; the
-- captcha that the refusal carries is not modelled.
pub mod Guarded
use artalk.Prelude.{ℕ, Bool, not, if◌then◌else◌}
use artalk.Backend.{Backend}
use artalk.Dao.{Dao}
use artalk.Limiter.{Limiter, is_pass, log}
use artalk.Server.{Request, Response, error}
use artalk.Server.Auth.{Crypto, check_is_admin_req, get_user_by_req}

module _ (K : Crypto) {B : Backend} where
  -- `now` is the time of the question, `later` that of the log.
  unfoldable pub limiter_guard :
      {A : Type 0}
      → Bool
      → ℕ
      → ℕ
      → (Request → Dao B → Response A × Dao B)
      → Request
      → Limiter
      → Dao B
      → Response A × Limiter × Dao B
  unfolding is_pass log check_is_admin_req get_user_by_req
  limiter_guard enabled now later handler r l d =
      if not enabled
      then (let (response, d') = handler r d in (response, l, d'))
      else (let (is_admin, d₁) = check_is_admin_req K r d in
          if is_admin
          then (let (response, d') = handler r d₁ in (response, l, d'))
          else (let (passes, l₁) = is_pass now r.ip l in
              if passes
              then (let (response, d') = handler r d₁ in
                  (response, (if not r.is_options then log later r.ip l₁ else l₁), d'))
              else (error 403, l₁, (get_user_by_req K r d₁).1)))
