-- ===== src/Backend/Memory.antt =====
-- A backend in memory: lists of rows and an association list, which never fail. It shows that the
-- laws of `Backend` can be met, and runs the model in tests.
use artalk.Prelude.{
  ◌≢◌, ℕ, suc, ◌==◌, ◌≤◌, ◌<◌, Bool, false, not, ◌||◌, ◌&&◌, Option, none, some, List, [], ◌∷◌,
  ◌++◌, map, ◌∙◌, ◌≡◌, refl, sym, ap, filter, any, if◌then◌else◌, arith, Bool-cases, inl, inr, ltb,
}
use mathlib.Core.Option.{some-injective}
use artalk.Backend.{
  Distinct, Table, Key, key_eq, Value, CacheStore, Backend, stamp_user, stamp_comment, stamp_page,
  stamp_site, stamp_notify, stamp_vote,
}

map-congr : {E : Type 0} (f g : E → E) → ((x : E) → f x ≡ g x) → (l : List E) → map f l ≡ map g l
map-congr f g h [] = refl
map-congr f g h (x ∷ xs) = cc (h x, map-congr f g h xs)

module _ {E : Type 0} (key : E → ℕ) (stamp : ℕ → ℕ → E → E) where
  -- The first number above all keys.
  unfoldable pub next_key : List E → ℕ
  next_key [] = 1
  next_key (x ∷ xs) = let n = next_key xs in if ltb (key x) n then n else suc (key x)

  -- Valid rows: keys that differ, and none that is zero.
  pub record IsRows (l : List E) : Type 0 where
    pub distinct : Distinct key l
    pub nonzero : any (λ x. key x == 0) l ≡ false

  pub next_key_pos : (l : List E) → 0 < next_key l
  unfolding next_key
  next_key_pos [] = omega arith
  next_key_pos (x ∷ xs) = ground (arith, next_key_pos xs)

  pub next_key_fresh : (l : List E) (n : ℕ) → next_key l ≤ n → any (λ x. key x == n) l ≡ false
  unfolding next_key any
  next_key_fresh [] n h = refl
  next_key_fresh (x ∷ xs) n h = ground (arith, next_key_fresh xs n)

  any-append-key :
      (l : List E) (e : E) (n : ℕ)
      → any (λ x. key x == n) (l ++ e ∷ []) ≡ (any (λ x. key x == n) l || key e == n)
  unfolding any
  any-append-key [] e n = ground arith
  any-append-key (x ∷ xs) e n = ground (arith, any-append-key xs e n)

  -- A row with a new key can be put at the end.
  pub append-IsRows :
      (l : List E) (e : E)
      → IsRows l
      → any (λ x. key x == key e) l ≡ false
      → key e ≢ 0
      → IsRows (l ++ e ∷ [])
  unfolding any
  append-IsRows [] e h f z = record { distinct = (refl, tt); nonzero = ground arith }
  append-IsRows (x ∷ xs) e h f z =
      let rest =
        append-IsRows xs e (record { distinct = h.distinct.1; nonzero = ground (arith, h.nonzero) })
          (ground (arith, f)) z in
      record {
        distinct = (ground (arith, any-append-key xs e (key x), h.distinct.0, f), rest.distinct);
        nonzero = ground (arith, rest.nonzero, h.nonzero);
      }

  pub any-filter :
      (p : E → Bool) (l : List E) (n : ℕ)
      → any (λ x. key x == n) l ≡ false
      → any (λ x. key x == n) (filter p l) ≡ false
  unfolding any filter
  any-filter p [] n h = refl
  any-filter p (x ∷ xs) n h = ground (arith, any-filter p xs n)

  pub filter-Distinct : (p : E → Bool) (l : List E) → Distinct key l → Distinct key (filter p l)
  unfolding filter
  filter-Distinct p [] h = tt
  filter-Distinct p (x ∷ xs) h = elim (Bool-cases (p x)) [
    | inl e ↦ rw e (any-filter p xs (key x) h.0, filter-Distinct p xs h.1)
    | inr e ↦ rw e (filter-Distinct p xs h.1)
  ]

  module _ (g : E → E) (keeps : (x : E) → key (g x) ≡ key x) where
    any-map : (l : List E) (n : ℕ) → any (λ x. key x == n) (map g l) ≡ any (λ x. key x == n) l
    unfolding any
    any-map [] n = refl
    any-map (x ∷ xs) n = ground (arith, any-map xs n, keeps x)

    map-Distinct : (l : List E) → Distinct key l → Distinct key (map g l)
    map-Distinct [] h = tt
    map-Distinct (x ∷ xs) h =
        (ground (arith, keeps x, any-map xs (key x), h.0), map-Distinct xs h.1)

    pub map-IsRows : (l : List E) → IsRows l → IsRows (map g l)
    map-IsRows l h = record {
      distinct = map-Distinct l h.distinct;
      nonzero = any-map l 0 ∙ h.nonzero;
    }

  abbrev pub MemRows : Type 0
  MemRows = (l : List E) × IsRows l

  module _ (stamped : (k t : ℕ) (e : E) → key (stamp k t e) ≡ k) where
    pub mem_insert : E → MemRows → Option (E × MemRows)
    mem_insert e r =
        let k = next_key r.0 in
        let e' = stamp k 0 e in
        some (
          e',
          (
            r.0 ++ e' ∷ [],
            append-IsRows r.0 e' r.1 (rw (stamped k 0 e) (next_key_fresh r.0 k (omega arith)))
                (rw (stamped k 0 e) (omega (arith, next_key_pos r.0))),
          ),
        )

    pub overwrite : E → E → E
    overwrite e x = if key x == key e then e else x

    pub overwrite-keeps : (e x : E) → key (overwrite e x) ≡ key x
    unfolding overwrite
    overwrite-keeps e x = ground arith

    pub mem_save : E → MemRows → Option MemRows
    mem_save e r =
        some (map (overwrite e) r.0, map-IsRows (overwrite e) (overwrite-keeps e) r.0 r.1)

    pub mem_save-some : (e : E) (r : MemRows) → (r' : MemRows) × (mem_save e r ≡ some r')
    unfolding mem_save
    mem_save-some e r =
        ((map (overwrite e) r.0, map-IsRows (overwrite e) (overwrite-keeps e) r.0 r.1), refl)

    pub rewrite : (E → Bool) → (E → E) → E → E
    rewrite p f x = if p x && key (f x) == key x then f x else x

    pub rewrite-keeps : (p : E → Bool) (f : E → E) (x : E) → key (rewrite p f x) ≡ key x
    unfolding rewrite
    rewrite-keeps p f x = ground arith

    pub mem_update : (E → Bool) → (E → E) → MemRows → Option MemRows
    mem_update p f r =
        some (map (rewrite p f) r.0, map-IsRows (rewrite p f) (rewrite-keeps p f) r.0 r.1)

    pub mem_delete : (E → Bool) → MemRows → Option MemRows
    mem_delete p r = some (
      filter (λ x. not (p x)) r.0,
      record {
        distinct = filter-Distinct (λ x. not (p x)) r.0 r.1.distinct;
        nonzero = any-filter (λ x. not (p x)) r.0 0 r.1.nonzero;
      },
    )

    pub insert_row :
        (e e' : E) (r r' : MemRows)
        → mem_insert e r ≡ some (e', r')
        → (k : ℕ) × (t : ℕ) × (e' ≡ stamp k t e) × (key e' ≡ k)
    unfolding mem_insert
    insert_row e e' r r' h =
        let same : e' ≡ stamp (next_key r.0) 0 e = cc (h) in
        (next_key r.0, 0, same, rw same (stamped (next_key r.0) 0 e))

    pub insert_select :
        (e e' : E) (r r' : MemRows) → mem_insert e r ≡ some (e', r') → r'.0 ≡ r.0 ++ e' ∷ []
    unfolding mem_insert
    insert_select e e' r r' h =
        let same = some-injective _ _ h in
        sym (ap (λ (x : E × MemRows). x.1.0) same) ∙ ap (λ (x : E × MemRows). r.0 ++ x.0 ∷ []) same

    pub update_select :
        (p : E → Bool) (f : E → E) (r r' : MemRows)
        → ((x : E) → key (f x) ≡ key x)
        → mem_update p f r ≡ some r'
        → r'.0 ≡ map (λ x. if p x then f x else x) r.0
    unfolding mem_update rewrite
    update_select p f r r' k h =
        sym (ap (λ (x : MemRows). x.0) (some-injective _ _ h))
        ∙ map-congr _ _ (λ x. ground (arith, k x)) r.0

    unfoldable pub table : Table E key stamp
    unfolding mem_insert mem_save mem_update mem_delete overwrite rewrite
    table = record {
      Rows = MemRows;
      select = λ r. r.0;
      insert = mem_insert;
      save = mem_save;
      update = mem_update;
      delete = mem_delete;
      select_distinct = λ r. r.1.distinct;
      select_keys = λ r. r.1.nonzero;
      insert_row = insert_row;
      insert_select = insert_select;
      save_select = λ e r r' _ h. sym (ap (λ (x : MemRows). x.0) (some-injective _ _ h));
      update_select = update_select;
      delete_select = λ p r r' h. sym (ap (λ (x : MemRows). x.0) (some-injective _ _ h));
    }

abbrev pub MemStore : Type 0
MemStore = Key → Option Value

unfoldable pub cache_store : CacheStore
cache_store = record {
  Store = MemStore;
  get = λ k s. s k;
  set = λ k v s j. if key_eq k j then some v else s j;
  del = λ k s j. if key_eq k j then none else s j;
  get-set = λ k j v s. refl;
  get-del = λ k j s. refl;
}

unfoldable pub memory : Backend
unfolding table cache_store
memory = record {
  users = table (λ u. u.id) stamp_user (λ k t e. refl);
  comments = table (λ c. c.id) stamp_comment (λ k t e. refl);
  pages = table (λ p. p.id) stamp_page (λ k t e. refl);
  sites = table (λ s. s.id) stamp_site (λ k t e. refl);
  notifies = table (λ n. n.id) stamp_notify (λ k t e. refl);
  votes = table (λ v. v.id) stamp_vote (λ k t e. refl);
  store = cache_store;
}
