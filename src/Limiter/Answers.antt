-- ===== src/Limiter/Answers.antt =====
-- Every answer of the limiter is the one meant for what happened to the address before.
use artalk.Prelude.{
  ℕ, ◌/◌, ◌≤◌, ◌&&◌, Bool, true, false, not, none, List, [], ◌∷◌, String, ◌≡◌, refl, sym, ap, ◌∙◌,
  arith, Bool-cases, inl, inr, eq_refl, subst₂, zero, suc,
}
use artalk.SimpleCache.View.{view}
use artalk.Limiter.{
  ℤ, pos, negsuc, suc_ℤ, pred_ℤ, leb_ℤ, LimiterConf, Limiter, new_limiter, timed_out, get_count,
  is_timeout_since_last_action, reset_log, is_pass, is_verified, log, mark_verify_passed,
  mark_verify_failed, get_count, set_count, increase_count, log_time, set_verified,
}
use artalk.Limiter.History.{
  Knows, Track, Action, asked, logged, passed, failed, react, act, track, at_address,
  at_address_same, Agrees, free-Agrees, count-Agrees, timeout-Agrees, reset-Knows, log-Knows,
  passed-Knows, failed-Knows,
}

module _ {now : ℕ} {g : String → Track} {l : Limiter} (t : ℕ) (ip : String) (le : now ≤ t)
    (h : Knows now g l) where
  unchanged : {l' : Limiter} → Knows t g l' → Knows t (at_address ip (g ip) g) l'
  unchanged k = record {
    content = k.content;
    holds = k.holds;
    tracks = λ j. k.tracks j ∙ at_address_same ip g j;
  }

  over_limit-Agrees :
      l.conf.always_mode ≡ false
      → leb_ℤ l.conf.max_action_during_time (g ip).actions ≡ true
      → Agrees t ip le h (is_pass t ip l) (react l.conf t asked (g ip))
  unfolding is_pass react get_count
  over_limit-Agrees mode full =
      let (n, k₁) = count-Agrees t ip le h in
      let l₁ = (get_count t ip l).1 in
      let (out, k₂) = timeout-Agrees {l = l₁} t ip (omega arith) k₁ in
      let l₂ = (is_timeout_since_last_action t ip l₁).1 in
      elim (Bool-cases (timed_out l.conf.reset_timeout (g ip).last t)) [
        | inl late ↦
            let step : is_pass t ip l ≡ (true, reset_log ip l₂) =
              ground (arith, mode, full, n, out, late) in
            let meant : react l.conf t asked (g ip)
                ≡ (true, record { actions = pos 0; last = 0; is_free = (g ip).is_free }) =
              ground (arith, mode, full, late) in
            subst₂ (Agrees t ip le h) (sym step) (sym meant)
              (refl, reset-Knows {l = l₂} t ip (omega arith) k₂)
        | inr soon ↦
            let step : is_pass t ip l ≡ (false, l₂) = ground (arith, mode, full, n, out, soon) in
            let meant : react l.conf t asked (g ip) ≡ (false, g ip) =
              ground (arith, mode, full, soon) in
            subst₂ (Agrees t ip le h) (sym step) (sym meant) (refl, unchanged k₂)
      ]

  pub asked-Agrees : Agrees t ip le h (is_pass t ip l) (react l.conf t asked (g ip))
  unfolding is_pass react
  asked-Agrees =
      let (n, k₁) = count-Agrees t ip le h in
      elim (Bool-cases l.conf.always_mode) [
        | inl mode ↦
            let step : is_pass t ip l ≡ is_verified t ip l = rw mode refl in
            let meant : react l.conf t asked (g ip) ≡ ((g ip).is_free, g ip) = rw mode refl in
            subst₂ (Agrees t ip le h) (sym step) (sym meant) (free-Agrees t ip le h)
        | inr mode ↦ elim (Bool-cases (leb_ℤ l.conf.max_action_during_time (g ip).actions)) [
          | inl full ↦ over_limit-Agrees mode full
          | inr below ↦
              let step : is_pass t ip l ≡ (true, (get_count t ip l).1) =
                ground (arith, mode, below, n) in
              let meant : react l.conf t asked (g ip) ≡ (true, g ip) =
                ground (arith, mode, below) in
              subst₂ (Agrees t ip le h) (sym step) (sym meant) (refl, unchanged k₁)
        ]
      ]

  -- Each operation answers and leaves what was meant, and does not change the configuration.
  pub act-Agrees : (a : Action) → Agrees t ip le h (act t ip a l) (react l.conf t a (g ip))
  unfolding act react
  act-Agrees asked = asked-Agrees
  act-Agrees logged = (refl, log-Knows t ip le h)
  act-Agrees passed = (refl, passed-Knows t ip le h)
  act-Agrees failed = (refl, failed-Knows t ip le h)

act-conf : (t : ℕ) (ip : String) (a : Action) (l : Limiter) → (act t ip a l).1.conf ≡ l.conf
unfolding act is_pass log mark_verify_passed mark_verify_failed get_count
    is_timeout_since_last_action reset_log is_verified set_count set_verified log_time
    increase_count
act-conf t ip asked l = ground arith
act-conf t ip logged l = refl
act-conf t ip passed l = refl
act-conf t ip failed l = refl

-- A sequence of calls, with their times and addresses, and the answers to them.
abbrev pub Event : Type 0
Event = ℕ × String × Action

unfoldable pub answers : Limiter → List Event → List Bool
unfolding act
answers l [] = []
answers l ((t, ip, a) ∷ rest) = let (b, l') = act t ip a l in b ∷ answers l' rest

unfoldable pub meant_answers : LimiterConf → (String → Track) → List Event → List Bool
unfolding react
meant_answers conf g [] = []
meant_answers conf g ((t, ip, a) ∷ rest) =
    let (b, x) = react conf t a (g ip) in b ∷ meant_answers conf (at_address ip x g) rest

-- The clock does not go back.
abbrev pub IsOrdered : ℕ → List Event → Type 0
IsOrdered now [] = Unit
IsOrdered now ((t, ip, a) ∷ rest) = (now ≤ t) × IsOrdered t rest

answers-from :
    (now : ℕ) (g : String → Track) (l : Limiter) (conf : LimiterConf) (es : List Event)
    → l.conf ≡ conf
    → Knows now g l
    → IsOrdered now es
    → answers l es ≡ meant_answers conf g es
unfolding answers meant_answers
answers-from now g l conf [] same h o = refl
answers-from now g l conf ((t, ip, a) ∷ rest) same h o =
    let (b, k) = act-Agrees t ip o.0 h a in
    let below =
      answers-from t (at_address ip (react l.conf t a (g ip)).1 g) (act t ip a l).1 conf rest
        (act-conf t ip a l ∙ same) k o.1 in
    ap (λ x. x ∷ answers (act t ip a l).1 rest) b
    ∙ ap (λ r. (react l.conf t a (g ip)).0 ∷ r) below
    ∙ ap
        (λ c.
          (react c t a (g ip)).0 ∷ meant_answers conf (at_address ip (react c t a (g ip)).1 g) rest)
        same

abbrev pub unknown : Track
unknown = record { actions = pos 0; last = 0; is_free = false }

pub new-Knows : (conf : LimiterConf) → Knows 0 (λ _. unknown) (new_limiter conf)
unfolding new_limiter track view
new-Knows conf = record {
  content = λ _. none;
  holds = record { is_map = tt; shows = λ t j _. refl };
  tracks = λ _. refl;
}

-- Over any sequence of calls whose times do not decrease, a new limiter gives the answers that
-- are meant: those of a state that keeps, for each address apart, its number of actions, the
-- time of the last one, and whether a captcha was solved.
pub answers-new :
    (conf : LimiterConf) (es : List Event)
    → IsOrdered 0 es
    → answers (new_limiter conf) es ≡ meant_answers (new_limiter conf).conf (λ _. unknown) es
answers-new conf es o =
    answers-from 0 (λ _. unknown) (new_limiter conf) (new_limiter conf).conf es refl
      (new-Knows conf) o

suc-pred : (n : ℤ) → suc_ℤ (pred_ℤ n) ≡ n
unfolding suc_ℤ pred_ℤ
suc-pred (pos zero) = refl
suc-pred (pos (suc n)) = refl
suc-pred (negsuc n) = refl

leb_refl : (n : ℤ) → leb_ℤ n n ≡ true
unfolding leb_ℤ
leb_refl (pos n) = ground arith
leb_refl (negsuc n) = ground arith

leb-pred : (n : ℤ) → leb_ℤ n (pred_ℤ n) ≡ false
unfolding leb_ℤ pred_ℤ
leb-pred (pos zero) = refl
leb-pred (pos (suc n)) = ground arith
leb-pred (negsuc n) = ground arith

meant-once :
    (conf : LimiterConf) (g : String → Track) (ip : String) (a b c d : ℕ)
    → meant_answers conf g
        ((a, ip, passed) ∷ (b, ip, asked) ∷ (c, ip, logged) ∷ (d, ip, asked) ∷ [])
      ≡ true
        ∷ true
        ∷ true
        ∷ (not conf.always_mode && timed_out conf.reset_timeout (c / 1000000000) d)
        ∷ []
unfolding meant_answers react
meant-once conf g ip a b c d =
    let m = conf.max_action_during_time in
    elim (Bool-cases conf.always_mode) [
      | inl mode ↦ rw (eq_refl ip) (rw mode refl)
      | inr mode ↦ elim (Bool-cases (timed_out conf.reset_timeout (c / 1000000000) d)) [
        | inl late ↦ ground (arith, mode, late, eq_refl ip, leb-pred m, leb_refl m, suc-pred m)
        | inr soon ↦ ground (arith, mode, soon, eq_refl ip, leb-pred m, leb_refl m, suc-pred m)
      ]
    ]

-- After a captcha is solved the limiter lets the next action pass, and, once that is logged,
-- lets another one pass only if it counts actions and its timeout has run out since, for calls
-- whose times do not decrease.
pub passed-once :
    {now : ℕ} {g : String → Track} (l : Limiter) (h : Knows now g l) (ip : String) (a b c d : ℕ)
    → now ≤ a
    → a ≤ b
    → b ≤ c
    → c ≤ d
    → answers l ((a, ip, passed) ∷ (b, ip, asked) ∷ (c, ip, logged) ∷ (d, ip, asked) ∷ [])
      ≡ true
        ∷ true
        ∷ true
        ∷ (not l.conf.always_mode && timed_out l.conf.reset_timeout (c / 1000000000) d)
        ∷ []
passed-once {now = now} {g = g} l h ip a b c d na ab bc cd =
    answers-from now g l l.conf _ refl h (na, (ab, (bc, (cd, tt)))) ∙ meant-once l.conf g ip a b c d
