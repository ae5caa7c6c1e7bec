-- ===== src/Dao/WarmUp.antt =====
-- internal/dao/cache_wram.go: filling and emptying the cache.
pub mod Positions
pub mod Warming
pub mod Spared
pub mod Warm
use artalk.Prelude.{List, [], ◌∷◌, String}
use artalk.Backend.{Backend}
use artalk.Dao.{Dao, cache_action, all_comments, all_pages, all_sites, all_users}
use artalk.Dao.Cache.{
  user_cache_save, user_cache_del, site_cache_save, site_cache_del, page_cache_save, page_cache_del,
  comment_cache_save, comment_cache_del,
}

module _ {B : Backend} where
  -- One of the loops over the rows of a table.
  unfoldable pub cache_each :
      {A : Type 0} → (A → B.store.Store → B.store.Store) → List A → Dao B → Dao B
  cache_each f [] d = d
  cache_each f (x ∷ rest) d = cache_each f rest (cache_action (f x) d).1

  unfoldable pub cache_warm_up : (String → String) → Dao B → Dao B
  unfolding cache_each user_cache_save site_cache_save page_cache_save comment_cache_save
  cache_warm_up lower d =
      let d₁ = cache_each (user_cache_save B.store lower) (all_users d) d in
      let d₂ = cache_each (site_cache_save B.store) (all_sites d₁) d₁ in
      let d₃ = cache_each (page_cache_save B.store) (all_pages d₂) d₂ in
      cache_each (comment_cache_save B.store) (all_comments d₃) d₃

  unfoldable pub cache_flush_all : (String → String) → Dao B → Dao B
  unfolding cache_each user_cache_del site_cache_del page_cache_del comment_cache_del
  cache_flush_all lower d =
      let d₁ = cache_each (user_cache_del B.store lower) (all_users d) d in
      let d₂ = cache_each (site_cache_del B.store) (all_sites d₁) d₁ in
      let d₃ = cache_each (page_cache_del B.store) (all_pages d₂) d₂ in
      cache_each (comment_cache_del B.store) (all_comments d₃) d₃
