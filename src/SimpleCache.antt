-- ===== src/SimpleCache.antt =====
-- internal/cache/simple_cache/cache.go: an in-memory store whose entries may expire. A time is a
-- number of nanoseconds, and every operation reads the clock once. The atomic counter is an int32.
pub mod View
use artalk.Prelude.{
  ℕ, ◌+◌, ◌==◌, ◌%◌, ◌&&◌, Bool, true, false, not, Option, none, some, List, [], ◌∷◌, if◌then◌else◌,
  ltb, ◌≡◌,
}

-- Keys that can be compared.
pub record Keys (K : Type 0) : Type 0 where
  pub eqb : K → K → Bool
  pub eqb_refl : (k : K) → eqb k k ≡ true
  pub eqb-eq : (j k : K) → eqb j k ≡ true → j ≡ k

pub record Entry (V : Type 0) : Type 0 where
  pub value : V
  pub expiration : Option ℕ

pub record Cache (K V : Type 0) : Type 0 where
  pub data_map : List (K × Entry V)
  pub gc_thold : ℕ
  pub len : ℕ

abbrev pub is_expired : {V : Type 0} → ℕ → Entry V → Bool
is_expired now e = elim e.expiration [ none ↦ false | some t ↦ ltb t now ]

-- When an entry expires that is written with a duration, or without one.
abbrev pub expiry : ℕ → Option ℕ → Option ℕ
expiry now none = none
expiry now (some d) = some (now + d)

-- `atomic.Int32.Add(1)` and `Add(-1)`, and `int(len) < thold` of the signed number.
unfoldable pub add_one : ℕ → ℕ
add_one n = (n + 1) % 4294967296

unfoldable pub sub_one : ℕ → ℕ
sub_one n = (n + 4294967295) % 4294967296

unfoldable pub below_thold : ℕ → ℕ → Bool
below_thold n thold = if ltb n 2147483648 then ltb n thold else true

abbrev pub new_with_gc_thold : {K V : Type 0} → ℕ → Cache K V
new_with_gc_thold thold = record { data_map = []; gc_thold = thold; len = 0 }

module _ {K V : Type 0} (E : Keys K) where
  -- The map of the standard library: `Load`, `Store` and `Delete`.
  unfoldable pub load : K → List (K × Entry V) → Option (Entry V)
  load k [] = none
  load k ((j, e) ∷ rest) = let below = load k rest in if E.eqb j k then some e else below

  unfoldable pub remove : K → List (K × Entry V) → List (K × Entry V)
  remove k [] = []
  remove k ((j, e) ∷ rest) =
      let below = remove k rest in if E.eqb j k then below else (j, e) ∷ below

  unfoldable pub delete : K → Cache K V → Cache K V
  unfolding remove sub_one
  delete k c = record c { data_map = remove k c.data_map; len = sub_one c.len }

  -- The function that `Range` runs on the entries it saw.
  unfoldable pub sweep : ℕ → List (K × Entry V) → Cache K V → Cache K V
  unfolding delete
  sweep now [] c = c
  sweep now ((k, e) ∷ rest) c = sweep now rest (if is_expired now e then delete k c else c)

  unfoldable pub gc : ℕ → Bool → Cache K V → Cache K V
  unfolding sweep below_thold
  gc now force c = if below_thold c.len c.gc_thold && not force then c else sweep now c.data_map c

  -- `ttl` is `none` where no duration was given, or none above zero.
  unfoldable pub set : ℕ → K → V → Option ℕ → Cache K V → Cache K V
  unfolding remove add_one gc
  set now k v ttl c =
      let entry : Entry V = record { value = v; expiration = expiry now ttl } in
      gc now false (record c { data_map = (k, entry) ∷ remove k c.data_map; len = add_one c.len })

  unfoldable pub get : ℕ → K → Cache K V → Option V × Cache K V
  unfolding load remove gc
  get now k c = elim (load k c.data_map) [
    | none ↦ (none, gc now false c)
    | some e ↦
        if is_expired now e
        then (none, gc now false (record c { data_map = remove k c.data_map }))
        else (some e.value, gc now false c)
  ]
