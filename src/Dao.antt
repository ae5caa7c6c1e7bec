-- ===== src/Dao.antt =====
-- internal/dao/base.go: the state behind the data access objects, and the writes that the methods
-- make. A method that fails keeps what it wrote before.
pub mod Steps
pub mod Cache
pub mod Find
pub mod Write
pub mod Coherence
pub mod Rows
pub mod Children
pub mod Descend
pub mod Below
pub mod Deletion
pub mod DeletionCache
pub mod Saving
pub mod SavingCache
pub mod RootId
pub mod Create
pub mod Reading
pub mod VoteSync
pub mod Notifying
pub mod Editing
pub mod Calm
pub mod Sites
pub mod Renaming
pub mod Users
pub mod WarmUp
use artalk.Prelude.{
  ℕ, ◌==◌, Bool, true, false, Option, none, some, List, [], ◌∷◌, if◌then◌else◌, ◌≡◌, refl,
  find_first,
}
use artalk.Prelude.Result.{Result, ok, err}
use artalk.Entity.{User, Comment, Page, Site, Notify, Vote}
use artalk.Backend.{Backend, Key, Value}

-- `cache` is `none` where the configuration disables it.
pub record Dao (B : Backend) : Type 0 where
  pub users : B.users.Rows
  pub comments : B.comments.Rows
  pub pages : B.pages.Rows
  pub sites : B.sites.Rows
  pub notifies : B.notifies.Rows
  pub votes : B.votes.Rows
  pub cache : Option B.store.Store

pub data DbError : Type 0 where
  write_failed missing_where_clause record_not_found invalid_argument : DbError

module _ (B : Backend) where
  -- A method that reads and may fill the cache, and one that may fail.
  abbrev pub Find : Type 0 → Type 0
  Find A = Dao B → A × Dao B

  abbrev pub Act : Type 0 → Type 0
  Act A = Dao B → Result DbError A × Dao B

module _ {B : Backend} where
  abbrev pub continue : {A C : Type 0} → Result DbError A → (A → Act B C) → Act B C
  continue (ok a) f d = f a d
  continue (err e) f d = (err e, d)

  infixl 5 ◌>>=◌ ◌>>◌
  abbrev pub ◌>>=◌ : {A C : Type 0} → Act B A → (A → Act B C) → Act B C
  ◌>>=◌ m f d = let (r, d') = m d in continue r f d'

  abbrev pub ◌>>◌ : {C : Type 0} → Act B (Unit {0}) → Act B C → Act B C
  m >> k = m >>= λ _. k

  abbrev pub pure : {A : Type 0} → A → Act B A
  pure a d = (ok a, d)

  abbrev pub fail : {A : Type 0} → DbError → Act B A
  fail e d = (err e, d)

  -- `CacheAction`: nothing happens where the cache is disabled.
  abbrev pub cache_action : (B.store.Store → B.store.Store) → Act B (Unit {0})
  cache_action f d = elim d.cache [
    | none ↦ (ok tt, d)
    | some s ↦ (ok tt, record d { cache = some (f s) })
  ]

  -- All rows of a table, as the database holds them.
  abbrev pub all_comments : Dao B → List Comment
  all_comments d = B.comments.select d.comments

  abbrev pub all_votes : Dao B → List Vote
  all_votes d = B.votes.select d.votes

  abbrev pub all_notifies : Dao B → List Notify
  all_notifies d = B.notifies.select d.notifies

  abbrev pub all_users : Dao B → List User
  all_users d = B.users.select d.users

  abbrev pub all_pages : Dao B → List Page
  all_pages d = B.pages.select d.pages

  abbrev pub all_sites : Dao B → List Site
  all_sites d = B.sites.select d.sites

-- `First(&x)` with its error ignored: the first row that fits, else the zero value.
unfoldable pub first_or : {E : Type 0} → E → (E → Bool) → List E → E
unfolding find_first
first_or e p l = elim (find_first p l) [ none ↦ e | some x ↦ x ]
