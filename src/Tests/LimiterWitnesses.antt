-- ===== src/Tests/LimiterWitnesses.antt =====
-- The theorems on the limiters and their cache, at a few calls.
use artalk.Prelude.{
  ◌≡◌, ◌≤◌, ◌/◌, ◌&&◌, not, true, false, arith, [], ◌∷◌, some, str_eq, if◌then◌else◌,
}
use artalk.SimpleCache.{Cache, new_with_gc_thold, set, get, gc, expiry}
use artalk.SimpleCache.View.{view, live, IsMap, view-gc, view-set, get-view}
use artalk.Limiter.{pos, LimiterConf, new_limiter, timed_out, keys, Stored, Key, verified, flag}
use artalk.Limiter.Answers.{answers, meant_answers, unknown, answers-new, passed-once, new-Knows}
use artalk.Limiter.History.{asked, logged, passed}
use artalk.Limiter.Rate.{RateLimiter, admitted, calls, calls_of, window-bounds, window-serves}

abbrev conf : LimiterConf
conf = record { always_mode = false; max_action_during_time = pos 1; reset_timeout = pos 60 }

answers-new_example :
    answers
      (new_limiter conf)
      ((5, "a", asked) ∷ (6, "a", logged) ∷ (7, "b", asked) ∷ (8, "a", asked) ∷ [])
    ≡ meant_answers
        (new_limiter conf).conf
        (λ _. unknown)
        ((5, "a", asked) ∷ (6, "a", logged) ∷ (7, "b", asked) ∷ (8, "a", asked) ∷ [])
answers-new_example =
    answers-new conf ((5, "a", asked) ∷ (6, "a", logged) ∷ (7, "b", asked) ∷ (8, "a", asked) ∷ [])
      (omega arith, (omega arith, (omega arith, (omega arith, tt))))

passed-once_example :
    answers
      (new_limiter conf)
      ((1, "a", passed) ∷ (2, "a", asked) ∷ (3, "a", logged) ∷ (4, "a", asked) ∷ [])
    ≡ true
      ∷ true
      ∷ true
      ∷ (not (new_limiter conf).conf.always_mode
          && timed_out (new_limiter conf).conf.reset_timeout (3 / 1000000000) 4)
      ∷ []
passed-once_example =
    passed-once (new_limiter conf) (new-Knows conf) "a" 1 2 3 4 (omega arith) (omega arith)
      (omega arith) (omega arith)

abbrev limiter : RateLimiter
limiter = record {
  per_key_limit = 1;
  total_limit = 2;
  window = 10;
  expires = 0;
  counts = λ _. 0;
  total = 0;
}

window-bounds_example :
    (admitted (str_eq "a") limiter ((5, "a") ∷ (6, "a") ∷ (7, "b") ∷ []) ≤ 1)
    × (admitted (λ _. true) limiter ((5, "a") ∷ (6, "a") ∷ (7, "b") ∷ []) ≤ 2)
window-bounds_example =
    window-bounds limiter "a" 5 "a" ((6, "a") ∷ (7, "b") ∷ []) (omega arith) (omega arith)
      (omega arith, omega arith, (omega arith, omega arith, tt))

abbrev roomy : RateLimiter
roomy = record limiter { per_key_limit = 2 }

window-serves_example :
    admitted (λ _. true) roomy ((5, "a") ∷ (6, "b") ∷ []) ≡ calls ((5, "a") ∷ (6, "b") ∷ [])
unfolding calls_of calls
window-serves_example =
    window-serves roomy 5 "a" ((6, "b") ∷ []) (omega arith) (omega arith)
      (omega arith, omega arith, tt) (λ key. ground arith) (omega arith)

abbrev cache : Cache Key Stored
cache = new_with_gc_thold 1000

view-gc_example :
    (view keys 9 (verified "a") (gc keys 5 true cache) ≡ view keys 9 (verified "a") cache)
    × IsMap keys (gc keys 5 true cache).data_map
view-gc_example = view-gc keys 5 9 true (verified "a") cache (omega arith) tt

view-set_example :
    (view keys 9 (verified "a") (set keys 5 (verified "a") (flag true) (some 10) cache) ≡ (
      if keys.eqb (verified "a") (verified "a")
      then live keys 9 (some (record { value = flag true; expiration = expiry 5 (some 10) }))
      else view keys 9 (verified "a") cache))
    × IsMap keys (set keys 5 (verified "a") (flag true) (some 10) cache).data_map
view-set_example =
    view-set keys 5 9 (verified "a") (verified "a") (flag true) (some 10) cache (omega arith) tt

get-view_example :
    ((get keys 5 (verified "a") cache).0 ≡ view keys 5 (verified "a") cache)
    × (view keys 9 (verified "b") (get keys 5 (verified "a") cache).1
        ≡ view keys 9 (verified "b") cache)
    × IsMap keys (get keys 5 (verified "a") cache).1.data_map
get-view_example = get-view keys 5 9 (verified "a") (verified "b") cache (omega arith) tt
