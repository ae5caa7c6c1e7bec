-- ===== src/Dao/WarmUp/Spared.antt =====
-- The loops over users, sites and pages leave comments and lists of replies alone.
use artalk.Prelude.{ℕ, some, List, [], ◌∷◌, String, ◌≡◌, refl, sym, ◌∙◌, arith}
use artalk.Entity.{User, Comment, Page, Site}
use artalk.Backend.{CacheStore, Key, Value}
use artalk.Dao.Cache.{
  store_cache, user_cache_save, site_cache_save, page_cache_save, user_by_name_email_key,
  page_by_key_site_name_key,
}
use artalk.Dao.Coherence.{Agrees, cached_comment, cached_ids}
use artalk.Dao.WarmUp.Warming.{stored_each}

module _ (S : CacheStore) (rows : List Comment) where
  -- A write that leaves comments and lists of replies alone.
  pub record Spares (s s' : S.Store) : Type 0 where
    pub comment : (i : ℕ) → cached_comment S (some s') i ≡ cached_comment S (some s) i
    pub ids : (i : ℕ) → cached_ids S (some s') i ≡ cached_ids S (some s) i

  pub Spares-Agrees :
      (s s' : S.Store) → Spares s s' → Agrees S (some s) rows → Agrees S (some s') rows
  Spares-Agrees s s' k h = record {
    comment_at = λ i c e. h.comment_at i c (sym (k.comment i) ∙ e);
    ids_at = λ p l z e. h.ids_at p l z (sym (k.ids p) ∙ e);
  }

  pub Spares-each :
      {A : Type 0} (f : A → S.Store → S.Store) (l : List A) (s : S.Store)
      → ((x : A) (t : S.Store) → Spares t (f x t))
      → Spares s (stored_each S rows f l s)
  Spares-each f [] s h = record { comment = λ i. refl; ids = λ i. refl }
  Spares-each f (x ∷ l) s h =
      let one = h x s in
      let rest = Spares-each f l (f x s) h in
      record { comment = λ i. rest.comment i ∙ one.comment i; ids = λ i. rest.ids i ∙ one.ids i }

  pub user_cache_save-Spares :
      (lower : String → String) (u : User) (s : S.Store) → Spares s (user_cache_save S lower u s)
  unfolding user_cache_save store_cache
  user_cache_save-Spares lower u s =
      let k₁ = Key.user_by_id u.id in
      let k₂ = user_by_name_email_key (lower u.name) (lower u.email) in
      let s₁ = S.set k₁ (Value.user u) s in
      record {
        comment = λ i. ground (
          arith,
          S.get-set k₁ (Key.comment_by_id i) (Value.user u) s,
          S.get-set k₂ (Key.comment_by_id i) (Value.user u) s₁,
        );
        ids = λ i. ground (
          arith,
          S.get-set k₁ (Key.comment_child_ids_by_id i) (Value.user u) s,
          S.get-set k₂ (Key.comment_child_ids_by_id i) (Value.user u) s₁,
        );
      }

  pub site_cache_save-Spares : (x : Site) (s : S.Store) → Spares s (site_cache_save S x s)
  unfolding site_cache_save store_cache
  site_cache_save-Spares x s =
      let k₁ = Key.site_by_id x.id in
      let k₂ = Key.site_by_name x.name in
      let s₁ = S.set k₁ (Value.site x) s in
      record {
        comment = λ i. ground (
          arith,
          S.get-set k₁ (Key.comment_by_id i) (Value.site x) s,
          S.get-set k₂ (Key.comment_by_id i) (Value.site x) s₁,
        );
        ids = λ i. ground (
          arith,
          S.get-set k₁ (Key.comment_child_ids_by_id i) (Value.site x) s,
          S.get-set k₂ (Key.comment_child_ids_by_id i) (Value.site x) s₁,
        );
      }

  pub page_cache_save-Spares : (x : Page) (s : S.Store) → Spares s (page_cache_save S x s)
  unfolding page_cache_save store_cache
  page_cache_save-Spares x s =
      let k₁ = Key.page_by_id x.id in
      let k₂ = page_by_key_site_name_key x.key x.site_name in
      let s₁ = S.set k₁ (Value.page x) s in
      record {
        comment = λ i. ground (
          arith,
          S.get-set k₁ (Key.comment_by_id i) (Value.page x) s,
          S.get-set k₂ (Key.comment_by_id i) (Value.page x) s₁,
        );
        ids = λ i. ground (
          arith,
          S.get-set k₁ (Key.comment_child_ids_by_id i) (Value.page x) s,
          S.get-set k₂ (Key.comment_child_ids_by_id i) (Value.page x) s₁,
        );
      }
