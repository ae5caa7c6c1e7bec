-- ===== src/Dao/SavingCache.antt =====
-- `UpdateComment` of a comment whose siblings are in the cache.
use artalk.Prelude.{
  ℕ, ◌==◌, true, false, some, List, [], ◌∷◌, map, filter, any, if◌then◌else◌, ◌≡◌, ◌≢◌, refl, ap,
  arith, All, find_first,
}
use artalk.Entity.{Comment}
use artalk.Backend.{Backend}
use artalk.Dao.{Dao, all_comments, first_or}
use artalk.Dao.Cache.{contains, append_new}
use artalk.Dao.Find.{child_ids_of}
use artalk.Dao.Coherence.{row_of, IsCoherent, cached_ids, cached_comment}
use artalk.Dao.Write.{update_comment}
use artalk.Dao.Saving.{
  get_comment-comment_cache_save, ids_in-comment_cache_save, cache-update_comment,
}

module _ (c : Comment) where
  -- The rows after `c` was saved over the row with its key.
  abbrev pub replaced : List Comment → List Comment
  replaced rows = map (λ (x : Comment). if x.id == c.id then c else x) rows

  -- The row with the key of `c` has the parent that `c` has.
  abbrev pub KeepsParent : List Comment → Type 0
  KeepsParent rows = All (λ (x : Comment). (x.id == c.id) ≡ true → x.rid ≡ c.rid) rows

  pub row_of-replaced_ne :
      (i : ℕ) (rows : List Comment) → (c.id == i) ≡ false → row_of i (replaced rows) ≡ row_of i rows
  unfolding first_or find_first
  row_of-replaced_ne i [] h = refl
  row_of-replaced_ne i (x ∷ rows) h = ground (arith, row_of-replaced_ne i rows h)

  pub row_of-replaced_self :
      (rows : List Comment)
      → any (λ (x : Comment). x.id == c.id) rows ≡ true
      → row_of c.id (replaced rows) ≡ c
  unfolding first_or find_first any
  row_of-replaced_self [] h = absurd (cc)
  row_of-replaced_self (x ∷ rows) h = ground (arith, row_of-replaced_self rows)

  child_ids_of-replaced :
      (p : ℕ) (rows : List Comment)
      → KeepsParent rows
      → child_ids_of p (replaced rows) ≡ child_ids_of p rows
  unfolding filter
  child_ids_of-replaced p [] h = refl
  child_ids_of-replaced p (x ∷ rows) h = ground (arith, h.0, child_ids_of-replaced p rows h.1)

  contains-child_ids_of :
      (rows : List Comment)
      → KeepsParent rows
      → any (λ (x : Comment). x.id == c.id) rows ≡ true
      → contains (child_ids_of c.rid rows) c.id ≡ true
  unfolding filter contains any
  contains-child_ids_of [] h k = cc
  contains-child_ids_of (x ∷ rows) h k = ground (arith, h.0, contains-child_ids_of rows h.1)

module _ {B : Backend} (c : Comment) (d : Dao B) (s : B.store.Store) (on : d.cache ≡ some s) where
  -- With a cache that agrees with the table of comments, UpdateComment of a stored comment that
  -- keeps its parent leaves cache and table in agreement, if the database accepts the save and
  -- the cache has the list of replies that the save adds to.
  pub update_comment-IsCoherent :
      (rows : B.comments.Rows) (l : List ℕ)
      → IsCoherent d
      → c.id ≢ 0
      → any (λ (x : Comment). x.id == c.id) (all_comments d) ≡ true
      → KeepsParent c (all_comments d)
      → cached_ids B.store d.cache (if c.rid == 0 then c.id else c.rid) ≡ some l
      → B.comments.save c d.comments ≡ some rows
      → IsCoherent (update_comment c d).1
  update_comment-IsCoherent rows l h z held keeps listed saved =
      let after : all_comments (update_comment c d).1 ≡ replaced c (all_comments d) =
        (unfold update_comment in
          ground (arith, B.comments.save_select c d.comments rows held saved)) in
      let known = h.ids_at (if c.rid == 0 then c.id else c.rid) l (ground arith) listed in
      rw (after, cache-update_comment c d s on)
        (record {
          comment_at = λ i x k. ground (
            arith,
            get_comment-comment_cache_save B.store c s i,
            h.comment_at i x,
            ap (λ o. cached_comment B.store o i) on,
            row_of-replaced_ne c i (all_comments d),
            row_of-replaced_self c (all_comments d) held,
          );
          ids_at = λ p m nz k.
              unfold append_new in
              ground (
                arith,
                ids_in-comment_cache_save B.store c s p,
                h.ids_at p m nz,
                known,
                listed,
                ap (λ o. cached_ids B.store o p) on,
                ap (λ o. cached_ids B.store o c.id) on,
                ap (λ o. cached_ids B.store o c.rid) on,
                child_ids_of-replaced c p (all_comments d) keeps,
                contains-child_ids_of c (all_comments d) keeps held,
              );
        })
