-- ===== src/Dao/WarmUp/Warm.antt =====
-- A cache that is warmed up agrees with the table, and has every comment.
use artalk.Prelude.{
  some, List, [], ◌∷◌, All, All-map, String, ◌≡◌, refl, sym, ap, subst, ◌∙◌, arith,
}
use artalk.Entity.{Comment}
use artalk.Backend.{Backend}
use artalk.Dao.{Dao, cache_action, all_comments, all_pages, all_sites, all_users}
use artalk.Dao.Cache.{user_cache_save, site_cache_save, page_cache_save, comment_cache_save}
use artalk.Dao.Coherence.{IsCoherent, Agrees, cached_comment, row_of}
use artalk.Dao.WarmUp.{cache_each, cache_warm_up}
use artalk.Dao.WarmUp.Warming.{
  Has, Warming, stored_each, Warming-all, Agrees-Warming, Warming-Agrees,
}
use artalk.Dao.WarmUp.Spared.{
  Spares-Agrees, Spares-each, user_cache_save-Spares, site_cache_save-Spares,
  page_cache_save-Spares,
}

module _ {B : Backend} where
  cache_each-on :
      {A : Type 0} (f : A → B.store.Store → B.store.Store) (l : List A) (d : Dao B)
      (s : B.store.Store)
      → d.cache ≡ some s
      → cache_each f l d ≡ record d { cache = some (stored_each B.store (all_comments d) f l s) }
  unfolding cache_each
  cache_each-on f [] d s on = ap (λ o. record d { cache = o }) on
  cache_each-on f (x ∷ l) d s on =
      let step : (cache_action (f x) d).1 ≡ record d { cache = some (f x s) } =
        ground (arith, on) in
      ap (cache_each f l) step ∙ cache_each-on f l (record d { cache = some (f x s) }) (f x s) refl

  -- If the cache is enabled and agrees with the table of comments, CacheWarmUp changes nothing
  -- but the cache, which still agrees with the table and then holds the row of every comment.
  pub cache_warm_up-IsCoherent :
      (lower : String → String) (d : Dao B) (s : B.store.Store)
      → d.cache ≡ some s
      → IsCoherent d
      → IsCoherent (cache_warm_up lower d)
        × (cache_warm_up lower d ≡ record d { cache = (cache_warm_up lower d).cache })
        × All
            (λ (c : Comment).
              cached_comment B.store (cache_warm_up lower d).cache c.id
              ≡ some (row_of c.id (all_comments d)))
            (all_comments d)
  unfolding cache_warm_up
  cache_warm_up-IsCoherent lower d s on h =
      let rows = all_comments d in
      let s₁ = stored_each B.store rows (user_cache_save B.store lower) (all_users d) s in
      let s₂ = stored_each B.store rows (site_cache_save B.store) (all_sites d) s₁ in
      let s₃ = stored_each B.store rows (page_cache_save B.store) (all_pages d) s₂ in
      let s₄ = stored_each B.store rows (comment_cache_save B.store) rows s₃ in
      let sites : Dao B → Dao B = λ z. cache_each (site_cache_save B.store) (all_sites z) z in
      let pages : Dao B → Dao B = λ z. cache_each (page_cache_save B.store) (all_pages z) z in
      let comments : Dao B → Dao B =
        λ z. cache_each (comment_cache_save B.store) (all_comments z) z in
      let with_ : B.store.Store → Dao B = λ t. record d { cache = some t } in
      let is : cache_warm_up lower d ≡ with_ s₄ =
        ap (λ z. comments (pages (sites z)))
          (cache_each-on (user_cache_save B.store lower) (all_users d) d s on)
        ∙ ap (λ z. comments (pages z))
            (cache_each-on (site_cache_save B.store) (all_sites d) (with_ s₁) s₁ refl)
        ∙ ap comments (cache_each-on (page_cache_save B.store) (all_pages d) (with_ s₂) s₂ refl)
        ∙ cache_each-on (comment_cache_save B.store) rows (with_ s₃) s₃ refl in
      let first : Agrees B.store (some s) rows = subst (λ o. Agrees B.store o rows) on h in
      let spared : Agrees B.store (some s₃) rows =
        Spares-Agrees B.store rows s₂ s₃
          (Spares-each B.store rows (page_cache_save B.store) (all_pages d) s₂
            (page_cache_save-Spares B.store rows))
          (Spares-Agrees B.store rows s₁ s₂
            (Spares-each B.store rows (site_cache_save B.store) (all_sites d) s₁
              (site_cache_save-Spares B.store rows))
            (Spares-Agrees B.store rows s s₁
              (Spares-each B.store rows (user_cache_save B.store lower) (all_users d) s
                (user_cache_save-Spares B.store rows lower))
              first)) in
      let warm : Warming B.store rows rows s₄ =
        Warming-all B.store rows [] rows s₃ refl (B.comments.select_distinct d.comments)
          (Agrees-Warming B.store rows s₃ spared) in
      let end_ : (cache_warm_up lower d).cache ≡ some s₄ = ap (λ (z : Dao B). z.cache) is in
      (
        subst IsCoherent (sym is) (Warming-Agrees B.store rows s₄ warm),
        is ∙ ap (λ o. record d { cache = o }) (sym end_),
        All-map (Has B.store rows s₄)
            (λ (c : Comment).
              cached_comment B.store (cache_warm_up lower d).cache c.id ≡ some (row_of c.id rows))
            (λ c (y, e).
              ap (λ o. cached_comment B.store o c.id) end_
              ∙ e
              ∙ ap (λ x. some x) (warm.comment_at c.id y e))
            rows warm.has,
      )
