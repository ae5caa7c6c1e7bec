-- ===== src/Dao/DeletionCache.antt =====
-- `DelComment` drops the entries of the cache that would no longer say what the table says.
use artalk.Prelude.{
  ℕ, ◌==◌, true, false, not, Option, none, some, List, [], ◌∷◌, filter, if◌then◌else◌, ◌≡◌, ◌≢◌,
  refl, sym, ap, ◌∙◌, arith, All, All-map, find_first,
}
use mathlib.Core.Option
use artalk.Prelude.Result.{ok}
use artalk.Entity.{Comment}
use artalk.Backend.{Backend, CacheStore, Key}
use artalk.Dao.{Dao, all_comments, first_or}
use artalk.Dao.Cache.{comment_cache_del}
use artalk.Dao.Find.{child_ids_of}
use artalk.Dao.Rows.{row_of_self, DistinctIds}
use artalk.Dao.Coherence.{row_of, Agrees, IsCoherent}
use artalk.Dao.Write.{del_comment}
use artalk.Dao.Deletion.{del_comment-Removed}

-- Rows with another key are found as before.
row_of-filter :
    (i n : ℕ) (rows : List Comment)
    → (i == n) ≡ false
    → row_of i (filter (λ (x : Comment). not (x.id == n)) rows) ≡ row_of i rows
unfolding first_or filter find_first
row_of-filter i n [] h = refl
row_of-filter i n (x ∷ rows) h = ground (arith, row_of-filter i n rows h)

-- A row with the key of `c` is `c`.
is_row :
    (c : Comment) (rows : List Comment)
    → DistinctIds rows
    → c ≡ row_of c.id rows
    → All (λ (x : Comment). (x.id == c.id) ≡ true → x ≡ c) rows
is_row c rows h e =
    All-map (λ (x : Comment). row_of x.id rows ≡ x) (λ (x : Comment). (x.id == c.id) ≡ true → x ≡ c)
      (λ x own k.
        let same : x.id ≡ c.id = ground arith in sym own ∙ ap (λ i. row_of i rows) same ∙ sym e)
      rows (row_of_self rows h)

-- The replies to another comment than the parent of `c` do not change.
child_ids_of-filter :
    (p : ℕ) (c : Comment) (rows : List Comment)
    → p ≢ 0
    → p ≢ c.rid
    → All (λ (x : Comment). (x.id == c.id) ≡ true → x ≡ c) rows
    → child_ids_of p (filter (λ (x : Comment). not (x.id == c.id)) rows) ≡ child_ids_of p rows
unfolding filter
child_ids_of-filter p c [] z ne h = refl
child_ids_of-filter p c (x ∷ rows) z ne h =
    ground (arith, h.0, ap (λ (y : Comment). y.rid), child_ids_of-filter p c rows z ne h.1)

module _ (S : CacheStore) (c : Comment) (s : S.Store) where
  -- What the cache still holds after the deletions for a comment.
  get_comment-comment_cache_del :
      (i : ℕ)
      → S.get (Key.comment_by_id i) (comment_cache_del S c s)
        ≡ (if c.id == i then none else S.get (Key.comment_by_id i) s)
  unfolding comment_cache_del
  get_comment-comment_cache_del i =
      let s₁ = S.del (Key.comment_by_id c.id) s in
      let s₂ = S.del (Key.comment_child_ids_by_id c.id) s₁ in
      ground (
        arith,
        S.get-del (Key.comment_by_id c.id) (Key.comment_by_id i) s,
        S.get-del (Key.comment_child_ids_by_id c.id) (Key.comment_by_id i) s₁,
        S.get-del (Key.comment_child_ids_by_id c.rid) (Key.comment_by_id i) s₂,
      )

  get_ids-comment_cache_del :
      (p : ℕ)
      → p ≢ 0
      → S.get (Key.comment_child_ids_by_id p) (comment_cache_del S c s) ≡ (
          if c.id == p
          then none
          else if c.rid == p
          then none
          else S.get (Key.comment_child_ids_by_id p) s)
  unfolding comment_cache_del
  get_ids-comment_cache_del p z =
      let s₁ = S.del (Key.comment_by_id c.id) s in
      let s₂ = S.del (Key.comment_child_ids_by_id c.id) s₁ in
      ground (
        arith,
        S.get-del (Key.comment_by_id c.id) (Key.comment_child_ids_by_id p) s,
        S.get-del (Key.comment_child_ids_by_id c.id) (Key.comment_child_ids_by_id p) s₁,
        S.get-del (Key.comment_child_ids_by_id c.rid) (Key.comment_child_ids_by_id p) s₂,
      )

module _ (S : CacheStore) where
  comment_cache_del-Agrees :
      (c : Comment) (o : Option S.Store) (rows : List Comment)
      → DistinctIds rows
      → c ≡ row_of c.id rows
      → Agrees S o rows
      → Agrees S
          (Option.map (comment_cache_del S c) o)
          (filter (λ (x : Comment). not (x.id == c.id)) rows)
  comment_cache_del-Agrees c none rows di e h = record {
    comment_at = λ i x k. cc;
    ids_at = λ p l z k. cc;
  }
  comment_cache_del-Agrees c (some s) rows di e h = record {
    comment_at = λ i x k.
        ground (
          arith,
          get_comment-comment_cache_del S c s i,
          h.comment_at i x,
          row_of-filter i c.id rows,
        );
    ids_at = λ p l z k. ground (
      arith,
      get_ids-comment_cache_del S c s p z,
      h.ids_at p l z,
      child_ids_of-filter p c rows z,
      is_row c rows di e,
    );
  }

-- If DelComment of a stored comment succeeds, a cache that agreed with the table of comments
-- agrees with it afterwards.
pub del_comment-IsCoherent :
    {B : Backend} (c : Comment) (d : Dao B)
    → IsCoherent d
    → c ≡ row_of c.id (all_comments d)
    → (del_comment c d).0 ≡ ok tt
    → IsCoherent (del_comment c d).1
del_comment-IsCoherent {B} c d h e k =
    let gone = del_comment-Removed c d k in
    rw (gone.cache, gone.comments)
      (comment_cache_del-Agrees B.store c d.cache (all_comments d)
        (B.comments.select_distinct d.comments) e h)
