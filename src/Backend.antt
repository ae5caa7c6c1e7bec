-- ===== src/Backend.antt =====
-- What the program takes from GORM and the database behind it, and from the cache store: a table
-- of rows with a numeric primary key, and a key-value store. Both are parameters of the model.
-- A write that fails returns `none`. A read that fails is not modelled.
pub mod Memory
use artalk.Prelude.{
  ℕ, ◌==◌, Bool, false, true, not, Option, none, some, List, [], ◌∷◌, ◌++◌, map, ◌≡◌, ◌≢◌, filter,
  any, String, if◌then◌else◌, ◌&&◌, str_eq,
}
use artalk.Entity.{User, Comment, Page, Site, Notify, Vote}

-- No two rows have the same key.
abbrev pub Distinct {ℓ} : {E : Type ℓ} → (E → ℕ) → List E → Type 0
Distinct key [] = Unit
Distinct key (x ∷ xs) = (any (λ y. key y == key x) xs ≡ false) × Distinct key xs

-- A table of rows `E`: `key` is the primary key, and `stamp` sets the key and the creation time.
pub record Table (E : Type 0) (key : E → ℕ) (stamp : ℕ → ℕ → E → E) : Type 1 where
  pub Rows : Type 0
  -- all rows, in the order of the primary key
  pub select : Rows → List E
  -- `Create`: the row as it was stored
  pub insert : E → Rows → Option (E × Rows)
  -- `Save` of a row
  pub save : E → Rows → Option Rows
  -- `Where(p).Updates`
  pub update : (E → Bool) → (E → E) → Rows → Option Rows
  -- `Unscoped().Where(p).Delete`
  pub delete : (E → Bool) → Rows → Option Rows
  pub select_distinct : (r : Rows) → Distinct key (select r)
  pub select_keys : (r : Rows) → any (λ x. key x == 0) (select r) ≡ false
  -- a new row has a key of its own, and is otherwise the row that was given
  pub insert_row :
      (e e' : E) (r r' : Rows)
      → insert e r ≡ some (e', r')
      → (k : ℕ) × (t : ℕ) × (e' ≡ stamp k t e) × (key e' ≡ k)
  pub insert_select :
      (e e' : E) (r r' : Rows) → insert e r ≡ some (e', r') → select r' ≡ select r ++ e' ∷ []
  -- the row with the key is overwritten, if there is one
  pub save_select :
      (e : E) (r r' : Rows)
      → any (λ x. key x == key e) (select r) ≡ true
      → save e r ≡ some r'
      → select r' ≡ map (λ x. if key x == key e then e else x) (select r)
  pub update_select :
      (p : E → Bool) (f : E → E) (r r' : Rows)
      → ((x : E) → key (f x) ≡ key x)
      → update p f r ≡ some r'
      → select r' ≡ map (λ x. if p x then f x else x) (select r)
  pub delete_select :
      (p : E → Bool) (r r' : Rows)
      → delete p r ≡ some r'
      → select r' ≡ filter (λ x. not (p x)) (select r)

-- The names under which the cache keeps what it holds: a format of dao/cache.go with its arguments,
-- the texts of a format with two of them joined as `Sprintf` joins them.
pub data Key : Type 0 where
  user_by_id : ℕ → Key
  user_by_name_email : String → Key
  user_id_by_email : String → Key
  site_by_id : ℕ → Key
  site_by_name : String → Key
  page_by_id : ℕ → Key
  page_by_key_site_name : String → Key
  comment_by_id : ℕ → Key
  comment_child_ids_by_id : ℕ → Key

abbrev pub key_eq : Key → Key → Bool
key_eq (user_by_id a) (user_by_id b) = a == b
key_eq (user_by_name_email a) (user_by_name_email b) = str_eq a b
key_eq (user_id_by_email a) (user_id_by_email b) = str_eq a b
key_eq (site_by_id a) (site_by_id b) = a == b
key_eq (site_by_name a) (site_by_name b) = str_eq a b
key_eq (page_by_id a) (page_by_id b) = a == b
key_eq (page_by_key_site_name a) (page_by_key_site_name b) = str_eq a b
key_eq (comment_by_id a) (comment_by_id b) = a == b
key_eq (comment_child_ids_by_id a) (comment_child_ids_by_id b) = a == b
key_eq _ _ = false

-- What is kept there, as the marshaler writes it.
pub data Value : Type 0 where
  user : User → Value
  site : Site → Value
  page : Page → Value
  comment : Comment → Value
  ids : List ℕ → Value

-- The store behind `internal/cache`: bigcache, Redis or Memcache.
pub record CacheStore : Type 1 where
  pub Store : Type 0
  pub get : Key → Store → Option Value
  pub set : Key → Value → Store → Store
  pub del : Key → Store → Store
  pub get-set :
      (k j : Key) (v : Value) (s : Store)
      → get j (set k v s) ≡ (if key_eq k j then some v else get j s)
  pub get-del : (k j : Key) (s : Store) → get j (del k s) ≡ (if key_eq k j then none else get j s)

abbrev pub stamp_user : ℕ → ℕ → User → User
stamp_user k t u = record u { id = k; created_at = t }

abbrev pub stamp_comment : ℕ → ℕ → Comment → Comment
stamp_comment k t c = record c { id = k; created_at = t }

abbrev pub stamp_page : ℕ → ℕ → Page → Page
stamp_page k t p = record p { id = k; created_at = t }

abbrev pub stamp_site : ℕ → ℕ → Site → Site
stamp_site k t s = record s { id = k; created_at = t }

abbrev pub stamp_notify : ℕ → ℕ → Notify → Notify
stamp_notify k t n = record n { id = k; created_at = t }

abbrev pub stamp_vote : ℕ → ℕ → Vote → Vote
stamp_vote k t v = record v { id = k; created_at = t }

-- Everything that the data access objects stand on.
pub record Backend : Type 1 where
  pub users : Table User (λ u. u.id) stamp_user
  pub comments : Table Comment (λ c. c.id) stamp_comment
  pub pages : Table Page (λ p. p.id) stamp_page
  pub sites : Table Site (λ s. s.id) stamp_site
  pub notifies : Table Notify (λ n. n.id) stamp_notify
  pub votes : Table Vote (λ v. v.id) stamp_vote
  pub store : CacheStore
