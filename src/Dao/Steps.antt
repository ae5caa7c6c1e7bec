-- ===== src/Dao/Steps.antt =====
-- Chains of calls that may fail: what a successful chain did, one call after the other.
use artalk.Prelude.{◌≡◌, refl}
use artalk.Prelude.Result.{Result, ok, err}
use artalk.Backend.{Backend}
use artalk.Dao.{Dao, Act, DbError, ◌>>=◌, continue}

module _ {B : Backend} {A C : Type 0} where
  continue-eq-ok :
      (r : Result DbError A) (f : A → Act B C) (d : Dao B) (c : C)
      → (continue r f d).0 ≡ ok c
      → (a : A) × (r ≡ ok a) × ((f a d).0 ≡ ok c) × (continue r f d ≡ f a d)
  continue-eq-ok (ok a) f d c e = (a, refl, e, refl)
  continue-eq-ok (err x) f d c e = absurd (cc e)

  -- A chain that succeeds is its second call after the first one, and both succeed.
  pub >>=-eq-ok :
      (m : Act B A) (f : A → Act B C) (d : Dao B) (c : C)
      → ((m >>= f) d).0 ≡ ok c
      → (a : A) × ((m d).0 ≡ ok a) × ((f a (m d).1).0 ≡ ok c) × ((m >>= f) d ≡ f a (m d).1)
  >>=-eq-ok m f d c e = continue-eq-ok (m d).0 f (m d).1 c e
