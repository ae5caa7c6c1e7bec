-- ===== src/Server/Captcha/Guarded.antt =====
-- Which requests get past the limiter.
use artalk.Prelude.{ℕ, ◌≤◌, true, false, String, ◌≡◌, inl, inr, sym, ◌∙◌, arith, Bool-cases, subst}
use artalk.Entity.{User}
use artalk.Backend.{Backend}
use artalk.Dao.{Dao}
use artalk.Dao.Coherence.{SameTables}
use artalk.Dao.Reading.{Reads-trans}
use artalk.Limiter.{Limiter, is_pass, log}
use artalk.Limiter.Answers.{asked-Agrees}
use artalk.Limiter.History.{Knows, Track, asked, logged, react, at_address, log-Knows}
use artalk.Server.{Request, Response, error}
use artalk.Server.Auth.{Crypto, check_is_admin_req, get_user_by_req}
use artalk.Server.Auth.Access.{IsLogin}
use artalk.Server.Captcha.{limiter_guard}
use artalk.Server.CommentCreate.Checked.{
  check_is_admin_req-IsLogin, check_is_admin_req-Reads, get_user_by_req-Reads,
}

-- What is known of the addresses after the question of one, and after its action was logged.
abbrev pub after_asking : Limiter → ℕ → String → (String → Track) → String → Track
after_asking l now ip g = at_address ip (react l.conf now asked (g ip)).1 g

abbrev pub after_logging : Limiter → ℕ → String → (String → Track) → String → Track
after_logging l later ip g = at_address ip (react l.conf later logged (g ip)).1 g

module _ (K : Crypto) {B : Backend} {A : Type 0}
    (handler : Request → Dao B → Response A × Dao B) where
  -- The ways a request can take, as far as the limiter knows `g` of the addresses: the handler runs
  -- for an administrator, or where the limiter lets the address pass, which is logged unless it is a
  -- preflight request; else it does not run.
  pub data Outcome (now later : ℕ) (g : String → Track) (r : Request) (l : Limiter) (d : Dao B)
      : Response A × Limiter × Dao B → Type 0 where
    by_admin :
        (user : User)
        → IsLogin K r d user
        → user.is_admin ≡ true
        → (d₁ : Dao B) → SameTables d d₁
        → Outcome now later g r l d ((handler r d₁).0, l, (handler r d₁).1)
    let_through :
        (d₁ : Dao B) (l' : Limiter)
        → SameTables d d₁
        → (react l.conf now asked (g r.ip)).0 ≡ true
        → r.is_options ≡ false
        → Knows later (after_logging l later r.ip (after_asking l now r.ip g)) l'
        → Outcome now later g r l d ((handler r d₁).0, l', (handler r d₁).1)
    preflight :
        (d₁ : Dao B) (l' : Limiter)
        → SameTables d d₁
        → (react l.conf now asked (g r.ip)).0 ≡ true
        → r.is_options ≡ true
        → Knows now (after_asking l now r.ip g) l'
        → Outcome now later g r l d ((handler r d₁).0, l', (handler r d₁).1)
    refused :
        (d₁ : Dao B) (l' : Limiter)
        → SameTables d d₁
        → (react l.conf now asked (g r.ip)).0 ≡ false
        → Knows now (after_asking l now r.ip g) l'
        → Outcome now later g r l d (error 403, l', d₁)

  -- Where the captcha is enabled and the clock does not go back, LimiterGuard runs the handler
  -- on unchanged tables for an administrator, or where the limiter is meant to let the address
  -- pass, and then logs the action unless the request is a preflight one; else it answers 403
  -- with unchanged tables.
  pub limiter_guard-Outcome :
      (before now later : ℕ) (g : String → Track) (r : Request) (l : Limiter) (d : Dao B)
      → before ≤ now
      → now ≤ later
      → Knows before g l
      → Outcome now later g r l d (limiter_guard K true now later handler r l d)
  unfolding limiter_guard react
  limiter_guard-Outcome before now later g r l d le le' k =
      let check = check_is_admin_req K r d in
      let d₁ = check.1 in
      let reads = check_is_admin_req-Reads K r d in
      let ask = is_pass now r.ip l in
      let (answer, k₁) = asked-Agrees now r.ip le k in
      let run = handler r d₁ in
      elim (Bool-cases check.0) [
        | inl yes_admin ↦
            let (user, login, rights) = check_is_admin_req-IsLogin K r d yes_admin in
            let step : limiter_guard K true now later handler r l d ≡ (run.0, l, run.1) =
              ground (arith, yes_admin) in
            subst (Outcome now later g r l d) (sym step) (by_admin user login rights d₁ reads.same)
        | inr no_admin ↦ elim (Bool-cases ask.0) [
          | inr stopped ↦
              let d₂ = (get_user_by_req K r d₁).1 in
              let step : limiter_guard K true now later handler r l d ≡ (error 403, ask.1, d₂) =
                ground (arith, no_admin, stopped) in
              subst (Outcome now later g r l d) (sym step) (
                refused d₂ ask.1 (Reads-trans d d₁ d₂ reads (get_user_by_req-Reads K r d₁)).same
                  (sym answer ∙ stopped) k₁)
          | inl passes ↦ elim (Bool-cases r.is_options) [
            | inl options ↦
                let step : limiter_guard K true now later handler r l d ≡ (run.0, ask.1, run.1) =
                  ground (arith, no_admin, passes, options) in
                subst (Outcome now later g r l d) (sym step)
                  (preflight d₁ ask.1 reads.same (sym answer ∙ passes) options k₁)
            | inr counted ↦
                let step : limiter_guard K true now later handler r l d
                    ≡ (run.0, log later r.ip ask.1, run.1) =
                  ground (arith, no_admin, passes, counted) in
                subst (Outcome now later g r l d) (sym step) (
                  let_through d₁ (log later r.ip ask.1) reads.same (sym answer ∙ passes) counted
                    (log-Knows later r.ip le' k₁))
          ]
        ]
      ]
