-- ===== src/Limiter/Rate.antt =====
-- internal/limiter/rate.go: admissions for each key and in total, within a fixed window. A time is
-- a number of nanoseconds, and before the first call the window has long expired.
use artalk.Prelude.{
  ℕ, suc, ◌+◌, ◌==◌, ◌≤◌, ◌<◌, ◌&&◌, ◌||◌, Bool, true, false, Option, none, some, List, [], ◌∷◌,
  String, str_eq, if◌then◌else◌, ltb, leb, ◌≡◌, refl, ap, ◌∙◌, arith, Bool-cases, inl, inr, eq_refl,
  eq_iff,
}

pub record RateLimiter : Type 0 where
  pub per_key_limit : ℕ
  pub total_limit : ℕ
  pub window : ℕ
  pub expires : ℕ
  pub counts : String → ℕ
  pub total : ℕ

-- `none` is the panic.
unfoldable pub new_rate_limiter : ℕ → ℕ → ℕ → Option RateLimiter
new_rate_limiter per_key total window =
    if per_key == 0 || total == 0 || window == 0
    then none
    else (some (record {
      per_key_limit = per_key;
      total_limit = total;
      window = window;
      expires = 0;
      counts = λ _. 0;
      total = 0;
    }))

-- An old window is discarded.
unfoldable pub renew : ℕ → RateLimiter → RateLimiter
renew now l =
    if ltb now l.expires
    then l
    else record l { counts = λ _. 0; total = 0; expires = now + l.window }

unfoldable pub increment : String → (String → ℕ) → String → ℕ
increment key counts k = if str_eq key k then suc (counts k) else counts k

unfoldable pub allow : ℕ → String → RateLimiter → Bool × RateLimiter
unfolding renew increment
allow now key l =
    let l' = renew now l in
    if leb l'.total_limit l'.total || leb l'.per_key_limit (l'.counts key)
    then (false, l')
    else (true, record l' { counts = increment key l'.counts; total = suc l'.total })

-- How many of a sequence of calls, each with its time and key, were admitted: for a key, and in all.
unfoldable pub admitted : (String → Bool) → RateLimiter → List (ℕ × String) → ℕ
unfolding allow
admitted p l [] = 0
admitted p l ((now, key) ∷ rest) =
    let (b, l') = allow now key l in
    let below = admitted p l' rest in if b && p key then suc below else below

abbrev pub Within : ℕ → ℕ → List (ℕ × String) → Type 0
Within start end [] = Unit
Within start end ((now, key) ∷ rest) = (start ≤ now) × (now < end) × Within start end rest

-- The calls of a key, and the bounds that an open window keeps.
unfoldable pub calls_of : String → List (ℕ × String) → ℕ
calls_of key [] = 0
calls_of key ((now, k) ∷ rest) =
    let below = calls_of key rest in if str_eq key k then suc below else below

unfoldable pub calls : List (ℕ × String) → ℕ
calls [] = 0
calls (c ∷ rest) = suc (calls rest)

allow-open :
    (now : ℕ) (key : String) (l : RateLimiter)
    → now < l.expires
    → allow now key l ≡ (
        if leb l.total_limit l.total || leb l.per_key_limit (l.counts key)
        then (false, l)
        else (true, record l { counts = increment key l.counts; total = suc l.total }))
unfolding allow renew
allow-open now key l lt = ground (arith, lt)

-- Within an open window the calls admit no more than is left of it, for each key and in all.
open-bounds :
    (key : String) (cs : List (ℕ × String)) (start : ℕ) (l : RateLimiter)
    → Within start l.expires cs
    → l.counts key ≤ l.per_key_limit
    → l.total ≤ l.total_limit
    → (admitted (str_eq key) l cs + l.counts key ≤ l.per_key_limit)
      × (admitted (λ _. true) l cs + l.total ≤ l.total_limit)
unfolding admitted increment
open-bounds key [] start l w h k = (omega arith, omega arith)
open-bounds key ((now, j) ∷ rest) start l w h k =
    let step = allow-open now j l w.1 in
    elim (Bool-cases (leb l.total_limit l.total || leb l.per_key_limit (l.counts j))) [
      | inl full ↦
          let refused : allow now j l ≡ (false, l) = step ∙ rw full refl in
          let (a, b) = open-bounds key rest start l w.2 h k in (rw refused a, rw refused b)
      | inr room ↦
          let l' : RateLimiter = record l { counts = increment j l.counts; total = suc l.total } in
          let admits : allow now j l ≡ (true, l') = step ∙ rw room refl in
          let (a, b) =
            open-bounds key rest start l' w.2 (ground (arith, room, eq_iff j key))
              (ground (arith, room)) in
          (rw admits (ground (arith, a, eq_iff j key, eq_iff key j)), rw admits (omega (arith, b)))
    ]

-- Calls that fit into what is left are all admitted.
open-serves :
    (cs : List (ℕ × String)) (start : ℕ) (l : RateLimiter)
    → Within start l.expires cs
    → ((key : String) → calls_of key cs + l.counts key ≤ l.per_key_limit)
    → calls cs + l.total ≤ l.total_limit
    → admitted (λ _. true) l cs ≡ calls cs
unfolding admitted increment calls_of calls
open-serves [] start l w h k = refl
open-serves ((now, j) ∷ rest) start l w h k =
    let l' : RateLimiter = record l { counts = increment j l.counts; total = suc l.total } in
    let own = h j in
    let admits : allow now j l ≡ (true, l') =
      allow-open now j l w.1 ∙ ground (arith, own, eq_refl j, k) in
    rw admits (
      ap suc (
        open-serves rest start l' w.2 (λ key. ground (arith, h key, eq_iff j key, eq_iff key j))
          (omega (arith, k))))

-- A window that opens with a call: the limiter has it before the call already.
admitted-renew :
    (p : String → Bool) (now : ℕ) (key : String) (rest : List (ℕ × String)) (l : RateLimiter)
    → l.expires ≤ now
    → 0 < l.window
    → admitted p l ((now, key) ∷ rest)
      ≡ admitted p
          (record l { counts = λ _. 0; total = 0; expires = now + l.window })
          ((now, key) ∷ rest)
unfolding admitted allow renew
admitted-renew p now key rest l le pos =
    let fresh : RateLimiter = record l { counts = λ _. 0; total = 0; expires = now + l.window } in
    let old : renew now l ≡ fresh = ground (arith, le) in
    let new : renew now fresh ≡ fresh = ground (arith, pos) in
    let same : allow now key l ≡ allow now key fresh = rw old (rw new refl) in rw same refl

-- Over the calls of a window that begins with a call at or after the end of the old one,
-- RateLimiter admits no more calls of one key than the limit for a key, and no more calls in
-- all than the total limit, if the window has a length.
pub window-bounds :
    (l : RateLimiter) (key : String) (now : ℕ) (first : String) (rest : List (ℕ × String))
    → l.expires ≤ now
    → 0 < l.window
    → Within now (now + l.window) rest
    → (admitted (str_eq key) l ((now, first) ∷ rest) ≤ l.per_key_limit)
      × (admitted (λ _. true) l ((now, first) ∷ rest) ≤ l.total_limit)
window-bounds l key now first rest le pos w =
    let fresh : RateLimiter = record l { counts = λ _. 0; total = 0; expires = now + l.window } in
    let (a, b) =
      open-bounds key ((now, first) ∷ rest) now fresh (omega arith, omega (arith, pos), w)
        (omega arith) (omega arith) in
    (
      rw (admitted-renew (str_eq key) now first rest l le pos) (omega (arith, a)),
      rw (admitted-renew (λ _. true) now first rest l le pos) (omega (arith, b)),
    )

-- If the calls of such a window, of every key and in all, stay within the limits, RateLimiter
-- admits all of them.
pub window-serves :
    (l : RateLimiter) (now : ℕ) (first : String) (rest : List (ℕ × String))
    → l.expires ≤ now
    → 0 < l.window
    → Within now (now + l.window) rest
    → ((key : String) → calls_of key ((now, first) ∷ rest) ≤ l.per_key_limit)
    → calls ((now, first) ∷ rest) ≤ l.total_limit
    → admitted (λ _. true) l ((now, first) ∷ rest) ≡ calls ((now, first) ∷ rest)
window-serves l now first rest le pos w h k =
    let fresh : RateLimiter = record l { counts = λ _. 0; total = 0; expires = now + l.window } in
    admitted-renew (λ _. true) now first rest l le pos
    ∙ open-serves ((now, first) ∷ rest) now fresh (omega arith, omega (arith, pos), w)
        (λ key. omega (arith, h key)) (omega (arith, k))
