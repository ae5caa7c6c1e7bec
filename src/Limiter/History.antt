-- ===== src/Limiter/History.antt =====
-- The limiter as its store is meant to be read: for each address a count, the time of the last
-- action and a flag.
use artalk.Prelude.{
  ℕ, ◌/◌, ◌≤◌, Bool, true, false, Option, none, some, String, str_eq, if◌then◌else◌, ◌≡◌, refl, sym,
  ap, ◌∙◌, arith, Bool-cases, inl, inr, eq_iff, eq_refl, subst,
}
use artalk.SimpleCache.{get}
use artalk.Limiter.{
  ℤ, pos, negsuc, suc_ℤ, pred_ℤ, leb_ℤ, Key, action_time, action_count, verified, Stored, count,
  timestamp, flag, keys, LimiterConf, Limiter, read_count, read_time, read_flag, timed_out,
  get_count, set_count, increase_count, log_time, set_verified, is_verified,
  is_timeout_since_last_action, reset_log, is_pass, log, mark_verify_passed, mark_verify_failed,
}
use artalk.Limiter.Content.{Holds, put, set-Holds, get-Holds, delete-Holds, wait-Holds}

-- What is known of one address.
pub record Track : Type 0 where
  pub actions : ℤ
  pub last : ℕ
  pub is_free : Bool

unfoldable pub track : (Key → Option Stored) → String → Track
track f ip = record {
  actions = read_count (f (action_count ip));
  last = read_time (f (action_time ip));
  is_free = read_flag (f (verified ip));
}

-- What the operations mean for the address they are called with.
pub data Action : Type 0 where
  asked logged passed failed : Action

unfoldable pub react : LimiterConf → ℕ → Action → Track → Bool × Track
unfolding timed_out leb_ℤ suc_ℤ pred_ℤ
react conf t asked x =
    if conf.always_mode
    then (x.is_free, x)
    else if leb_ℤ conf.max_action_during_time x.actions
    then (if timed_out conf.reset_timeout x.last t
        then (true, record { actions = pos 0; last = 0; is_free = x.is_free })
        else (false, x))
    else (true, x)
react conf t logged x =
    (true, record { actions = suc_ℤ x.actions; last = t / 1000000000; is_free = false })
react conf t passed x =
    (true, record x { actions = pred_ℤ conf.max_action_during_time; is_free = true })
react conf t failed x =
    (true, record { actions = suc_ℤ x.actions; last = t / 1000000000; is_free = false })

-- The operation of the limiter.
unfoldable pub act : ℕ → String → Action → Limiter → Bool × Limiter
unfolding is_pass log mark_verify_passed mark_verify_failed
act t ip asked l = is_pass t ip l
act t ip logged l = (true, log t ip l)
act t ip passed l = (true, mark_verify_passed t ip l)
act t ip failed l = (true, mark_verify_failed t ip l)

-- From the time `now` on, the limiter knows of each address what `g` says.
pub record Knows (now : ℕ) (g : String → Track) (l : Limiter) : Type 0 where
  pub content : Key → Option Stored
  pub holds : Holds now content l.store
  pub tracks : (ip : String) → track content ip ≡ g ip

abbrev pub at_address : String → Track → (String → Track) → String → Track
at_address ip x g j = if str_eq ip j then x else g j

-- Only the address was written.
pub tracks_at :
    (ip : String) (f f' : Key → Option Stored) (g : String → Track) (x : Track)
    → track f' ip ≡ x
    → ((j : String) → str_eq ip j ≡ false → track f' j ≡ track f j)
    → ((j : String) → track f j ≡ g j)
    → (j : String) → track f' j ≡ at_address ip x g j
tracks_at ip f f' g x here others before j = elim (Bool-cases (str_eq ip j)) [
  | inl same ↦
      let eq : ip ≡ j = ground (arith, eq_iff ip j) in rw same (subst (λ i. track f' i ≡ x) eq here)
  | inr other ↦ rw other (others j other ∙ before j)
]

at_address_twice :
    (ip : String) (x y : Track) (g : String → Track) (j : String)
    → at_address ip x (at_address ip y g) j ≡ at_address ip x g j
at_address_twice ip x y g j = elim (Bool-cases (str_eq ip j)) [
  | inl same ↦ rw same refl
  | inr other ↦ rw other refl
]

pub at_address_same :
    (ip : String) (g : String → Track) (j : String) → g j ≡ at_address ip (g ip) g j
at_address_same ip g j = elim (Bool-cases (str_eq ip j)) [
  | inl same ↦ let eq : ip ≡ j = ground (arith, eq_iff ip j) in rw same (ap g (sym eq))
  | inr other ↦ rw other refl
]

no_timeout : (r : ℤ) (last t : ℕ) → leb_ℤ r (pos 0) ≡ true → timed_out r last t ≡ false
unfolding leb_ℤ timed_out
no_timeout (pos n) last t h = ground (arith, h)
no_timeout (negsuc n) last t h = refl

module _ {now : ℕ} {g : String → Track} {l : Limiter} (t : ℕ) (ip : String) (le : now ≤ t)
    (h : Knows now g l) where
  pub log-Knows : Knows t (at_address ip (react l.conf t logged (g ip)).1 g) (log t ip l)
  unfolding log increase_count log_time set_verified get_count set_count react track
  log-Knows =
      let (read, k₁) = get-Holds le h.holds (action_count ip) in
      let n = suc_ℤ (read_count (get keys t (action_count ip) l.store).0) in
      let k₂ = set-Holds (omega arith) k₁ (action_count ip) (count n) in
      let k₃ = set-Holds (omega arith) k₂ (action_time ip) (timestamp (t / 1000000000)) in
      let k₄ = set-Holds (omega arith) k₃ (verified ip) (flag false) in
      let known : n ≡ suc_ℤ (g ip).actions =
        ap (λ v. suc_ℤ (read_count v)) read ∙ ap (λ (x : Track). suc_ℤ x.actions) (h.tracks ip) in
      let f' = put (verified ip) (some (flag false)) (
        put (action_time ip) (some (timestamp (t / 1000000000)))
          (put (action_count ip) (some (count n)) h.content)) in
      record {
        content = f';
        holds = k₄;
        tracks =
            tracks_at ip h.content f' g _
              (rw (eq_refl ip) (
                ap (λ (a : ℤ). record { actions = a; last = t / 1000000000; is_free = false })
                  known))
              (λ j other. rw other refl) h.tracks;
      }

  pub passed-Knows :
      Knows t (at_address ip (react l.conf t passed (g ip)).1 g) (mark_verify_passed t ip l)
  unfolding mark_verify_passed set_verified set_count react track
  passed-Knows =
      let n = pred_ℤ l.conf.max_action_during_time in
      let k₁ = set-Holds le h.holds (action_count ip) (count n) in
      let k₂ = set-Holds (omega arith) k₁ (verified ip) (flag true) in
      let f' =
        put (verified ip) (some (flag true)) (put (action_count ip) (some (count n)) h.content) in
      record {
        content = f';
        holds = k₂;
        tracks =
            tracks_at ip h.content f' g _
              (rw (eq_refl ip) (
                ap (λ (x : Track). record { actions = n; last = x.last; is_free = true })
                  (h.tracks ip)))
              (λ j other. rw other refl) h.tracks;
      }

  pub failed-Knows :
      Knows t (at_address ip (react l.conf t failed (g ip)).1 g) (mark_verify_failed t ip l)
  unfolding mark_verify_failed set_verified react track
  failed-Knows =
      let k = log-Knows in
      let y = (react l.conf t logged (g ip)).1 in
      let own : track k.content ip ≡ y =
        k.tracks ip ∙ ap (λ b. if b then y else g ip) (eq_refl ip) in
      let f' = put (verified ip) (some (flag false)) k.content in
      record {
        content = f';
        holds = set-Holds (omega arith) k.holds (verified ip) (flag false);
        tracks = λ j.
            tracks_at ip k.content f' _ (react l.conf t failed (g ip)).1
              (rw (eq_refl ip) (
                ap (λ (x : Track). record { actions = x.actions; last = x.last; is_free = false })
                  own))
              (λ i other. rw other refl) k.tracks j
            ∙ at_address_twice ip _ _ g j;
      }

  -- What was answered and what is known then, against what was meant.
  abbrev pub Agrees : Bool × Limiter → Bool × Track → Type 0
  Agrees q r = (q.0 ≡ r.0) × Knows t (at_address ip r.1 g) q.1

  pub kept :
      (content : Key → Option Stored)
      → ((j : String) → track content j ≡ g j)
      → (j : String) → track content j ≡ at_address ip (g ip) g j
  kept content tracks j = tracks j ∙ at_address_same ip g j

  pub free-Agrees : Agrees (is_verified t ip l) ((g ip).is_free, g ip)
  unfolding is_verified track
  free-Agrees =
      let (read, k) = get-Holds le h.holds (verified ip) in
      (
        ap read_flag read ∙ ap (λ (x : Track). x.is_free) (h.tracks ip),
        record { content = h.content; holds = k; tracks = kept h.content h.tracks },
      )

  pub count-Agrees : ((get_count t ip l).0 ≡ (g ip).actions) × Knows t g (get_count t ip l).1
  unfolding get_count track
  count-Agrees =
      let (read, k) = get-Holds le h.holds (action_count ip) in
      (
        ap read_count read ∙ ap (λ (x : Track). x.actions) (h.tracks ip),
        record { content = h.content; holds = k; tracks = h.tracks },
      )

  abbrev pub Times : Bool × Limiter → Type 0
  Times q = (q.0 ≡ timed_out l.conf.reset_timeout (g ip).last t) × Knows t g q.1

  pub timeout-Agrees :
      ((is_timeout_since_last_action t ip l).0 ≡ timed_out l.conf.reset_timeout (g ip).last t)
      × Knows t g (is_timeout_since_last_action t ip l).1
  unfolding is_timeout_since_last_action track
  timeout-Agrees =
      let (read, k) = get-Holds le h.holds (action_time ip) in
      let seen = ap read_time read ∙ ap (λ (x : Track). x.last) (h.tracks ip) in
      elim (Bool-cases (leb_ℤ l.conf.reset_timeout (pos 0))) [
        | inl never ↦
            let step : is_timeout_since_last_action t ip l ≡ (false, l) = rw never refl in
            subst Times (sym step) (
              sym (no_timeout l.conf.reset_timeout (g ip).last t never),
              record { content = h.content; holds = wait-Holds le h.holds; tracks = h.tracks },
            )
        | inr maybe ↦
            let (v, s) = get keys t (action_time ip) l.store in
            let step : is_timeout_since_last_action t ip l
                ≡ (timed_out l.conf.reset_timeout (read_time v) t, record l { store = s }) =
              rw maybe refl in
            subst Times (sym step) (
              ap (λ x. timed_out l.conf.reset_timeout x t) seen,
              record { content = h.content; holds = k; tracks = h.tracks },
            )
      ]

  pub reset-Knows :
      Knows t
        (at_address ip (record { actions = pos 0; last = 0; is_free = (g ip).is_free }) g)
        (reset_log ip l)
  unfolding reset_log track
  reset-Knows =
      let k₁ = delete-Holds le h.holds (action_time ip) in
      let k₂ = delete-Holds (omega arith) k₁ (action_count ip) in
      let f' = put (action_count ip) none (put (action_time ip) none h.content) in
      record {
        content = f';
        holds = k₂;
        tracks =
            tracks_at ip h.content f' g _
              (rw (eq_refl ip) (
                ap (λ (x : Track). record { actions = pos 0; last = 0; is_free = x.is_free })
                  (h.tracks ip)))
              (λ j other. rw other refl) h.tracks;
      }
