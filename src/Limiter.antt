-- ===== src/Limiter.antt =====
-- internal/limiter/base.go and lib.go: the limiter of the captcha, which counts the actions of an
-- address. A time is a number of nanoseconds; the texts that the store keeps are the numbers and
-- flags they stand for.
pub mod Rate
pub mod Content
pub mod History
pub mod Answers
use artalk.Prelude.{
  ℕ, suc, zero, ◌+◌, ◌-◌, ◌*◌, ◌/◌, ◌==◌, ◌&&◌, Bool, true, false, not, Option, none, some, String,
  str_eq, if◌then◌else◌, ltb, leb, ◌≡◌, eq_iff, eq_refl, arith,
}
use artalk.SimpleCache.{Keys, Cache, new_with_gc_thold, get, set, delete}

-- The machine's `int`, whose bounds no counter reaches.
pub data ℤ : Type 0 where
  pos negsuc : ℕ → ℤ

unfoldable pub suc_ℤ : ℤ → ℤ
suc_ℤ (pos n) = pos (suc n)
suc_ℤ (negsuc zero) = pos 0
suc_ℤ (negsuc (suc n)) = negsuc n

unfoldable pub pred_ℤ : ℤ → ℤ
pred_ℤ (pos zero) = negsuc 0
pred_ℤ (pos (suc n)) = pos n
pred_ℤ (negsuc n) = negsuc (suc n)

unfoldable pub leb_ℤ : ℤ → ℤ → Bool
leb_ℤ (pos m) (pos n) = leb m n
leb_ℤ (pos m) (negsuc n) = false
leb_ℤ (negsuc m) (pos n) = true
leb_ℤ (negsuc m) (negsuc n) = leb n m

-- The three prefixes, with the address behind them.
pub data Key : Type 0 where
  action_time action_count verified : String → Key

pub data Stored : Type 0 where
  timestamp : ℕ → Stored
  count : ℤ → Stored
  flag : Bool → Stored

abbrev pub key_eqb : Key → Key → Bool
key_eqb (action_time a) (action_time b) = str_eq a b
key_eqb (action_count a) (action_count b) = str_eq a b
key_eqb (verified a) (verified b) = str_eq a b
key_eqb _ _ = false

pub key_eqb_refl : (k : Key) → key_eqb k k ≡ true
key_eqb_refl (action_time a) = eq_refl a
key_eqb_refl (action_count a) = eq_refl a
key_eqb_refl (verified a) = eq_refl a

pub key_eqb-eq : (j k : Key) → key_eqb j k ≡ true → j ≡ k
key_eqb-eq (action_time a) (action_time b) h = ground (arith, eq_iff a b)
key_eqb-eq (action_count a) (action_count b) h = ground (arith, eq_iff a b)
key_eqb-eq (verified a) (verified b) h = ground (arith, eq_iff a b)
key_eqb-eq (action_time a) (action_count b) h = absurd (cc)
key_eqb-eq (action_time a) (verified b) h = absurd (cc)
key_eqb-eq (action_count a) (action_time b) h = absurd (cc)
key_eqb-eq (action_count a) (verified b) h = absurd (cc)
key_eqb-eq (verified a) (action_time b) h = absurd (cc)
key_eqb-eq (verified a) (action_count b) h = absurd (cc)

abbrev pub keys : Keys Key
keys = record { eqb = key_eqb; eqb_refl = key_eqb_refl; eqb-eq = key_eqb-eq }

pub record LimiterConf : Type 0 where
  pub always_mode : Bool
  pub max_action_during_time : ℤ
  pub reset_timeout : ℤ

abbrev pub Store : Type 0
Store = Cache Key Stored

pub record Limiter : Type 0 where
  pub conf : LimiterConf
  pub store : Store

unfoldable pub new_limiter : LimiterConf → Limiter
unfolding leb_ℤ
new_limiter conf = record {
  conf =
      if leb_ℤ conf.max_action_during_time (pos 0)
      then record conf { always_mode = true }
      else conf;
  store = new_with_gc_thold 1000;
}

abbrev pub read_count : Option Stored → ℤ
read_count (some (count n)) = n
read_count _ = pos 0

abbrev pub read_time : Option Stored → ℕ
read_time (some (timestamp t)) = t
read_time _ = 0

abbrev pub read_flag : Option Stored → Bool
read_flag (some (flag b)) = b
read_flag _ = false

-- More seconds since `last` than the timeout has, if it has any.
unfoldable pub timed_out : ℤ → ℕ → ℕ → Bool
timed_out (pos s) last now = ltb 0 s && ltb (s * 1000000000) (now - last * 1000000000)
timed_out (negsuc s) last now = false

unfoldable pub get_count : ℕ → String → Limiter → ℤ × Limiter
unfolding get
get_count now ip l =
    let (v, s) = get keys now (action_count ip) l.store in (read_count v, record l { store = s })

unfoldable pub set_count : ℕ → String → ℤ → Limiter → Limiter
unfolding set
set_count now ip n l = record l { store = set keys now (action_count ip) (count n) none l.store }

unfoldable pub increase_count : ℕ → String → Limiter → Limiter
unfolding get_count set_count suc_ℤ
increase_count now ip l = let (n, l') = get_count now ip l in set_count now ip (suc_ℤ n) l'

-- `time.Now().Unix()`: whole seconds.
unfoldable pub log_time : ℕ → String → Limiter → Limiter
unfolding set
log_time now ip l = record l {
  store = set keys now (action_time ip) (timestamp (now / 1000000000)) none l.store;
}

unfoldable pub set_verified : ℕ → String → Bool → Limiter → Limiter
unfolding set
set_verified now ip pass l = record l {
  store = set keys now (verified ip) (flag pass) none l.store;
}

unfoldable pub is_verified : ℕ → String → Limiter → Bool × Limiter
unfolding get
is_verified now ip l =
    let (v, s) = get keys now (verified ip) l.store in (read_flag v, record l { store = s })

unfoldable pub is_timeout_since_last_action : ℕ → String → Limiter → Bool × Limiter
unfolding get timed_out leb_ℤ
is_timeout_since_last_action now ip l =
    if leb_ℤ l.conf.reset_timeout (pos 0)
    then (false, l)
    else (let (v, s) = get keys now (action_time ip) l.store in
        (timed_out l.conf.reset_timeout (read_time v) now, record l { store = s }))

unfoldable pub reset_log : String → Limiter → Limiter
unfolding delete
reset_log ip l = record l {
  store = delete keys (action_count ip) (delete keys (action_time ip) l.store);
}

unfoldable pub is_pass : ℕ → String → Limiter → Bool × Limiter
unfolding is_verified get_count is_timeout_since_last_action reset_log leb_ℤ
is_pass now ip l =
    if l.conf.always_mode
    then is_verified now ip l
    else (let (n, l₁) = get_count now ip l in
        let (out, l₂) = is_timeout_since_last_action now ip l₁ in
        if leb_ℤ l.conf.max_action_during_time n
        then (if out then (true, reset_log ip l₂) else (false, l₂))
        else (true, l₁))

unfoldable pub log : ℕ → String → Limiter → Limiter
unfolding increase_count log_time set_verified
log now ip l = set_verified now ip false (log_time now ip (increase_count now ip l))

unfoldable pub mark_verify_passed : ℕ → String → Limiter → Limiter
unfolding set_count set_verified pred_ℤ
mark_verify_passed now ip l =
    set_verified now ip true (set_count now ip (pred_ℤ l.conf.max_action_during_time) l)

unfoldable pub mark_verify_failed : ℕ → String → Limiter → Limiter
unfolding log set_verified
mark_verify_failed now ip l = set_verified now ip false (log now ip l)
