-- ===== src/Dao/Saving.antt =====
-- `UpdateComment` and the cache: when the entries that it writes say what the table says, and when
-- they do not.
use artalk.Prelude.{
  ℕ, ◌==◌, true, Option, none, some, List, [], ◌∷◌, any, if◌then◌else◌, ◌≡◌, ◌≢◌, ap, ◌∙◌, arith,
}
use artalk.Prelude.Result.{err}
use artalk.Entity.{Comment}
use artalk.Backend.{Backend, CacheStore, Key, Value}
use artalk.Dao.{Dao, write_failed, all_comments}
use artalk.Dao.Cache.{contains, append_new, or_no_ids, decode_ids, comment_cache_save}
use artalk.Dao.Find.{child_ids_of, find_comment, find_child_ids}
use artalk.Dao.Coherence.{IsCoherent, cached_ids, find_comment_hit, find_child_ids_hit}
use artalk.Dao.Write.{update_comment}

module _ (S : CacheStore) (c : Comment) (s : S.Store) where
  -- The replies that the cache lists for a comment.
  abbrev ids_in : ℕ → S.Store → Option (List ℕ)
  ids_in p t = decode_ids (S.get (Key.comment_child_ids_by_id p) t)

  -- What the cache holds after a comment was saved to it.
  pub get_comment-comment_cache_save :
      (i : ℕ)
      → S.get (Key.comment_by_id i) (comment_cache_save S c s)
        ≡ (if c.id == i then some (Value.comment c) else S.get (Key.comment_by_id i) s)
  unfolding comment_cache_save
  get_comment-comment_cache_save i =
      let s₁ = S.set (Key.comment_by_id c.id) (Value.comment c) s in
      ground (
        arith,
        S.get-set (Key.comment_by_id c.id) (Key.comment_by_id i) (Value.comment c) s,
        S.get-set (Key.comment_child_ids_by_id c.id) (Key.comment_by_id i) (Value.ids []) s₁,
        S.get-set (Key.comment_child_ids_by_id c.rid) (Key.comment_by_id i)
            (Value.ids (append_new (or_no_ids (ids_in c.rid s₁)) c.id)) s₁,
      )

  -- The lists of replies: a root comment has one, any other is on its parent's.
  pub ids_in-comment_cache_save :
      (p : ℕ)
      → ids_in p (comment_cache_save S c s) ≡ (
          if c.rid == 0
          then (if c.id == p then some (or_no_ids (ids_in c.id s)) else ids_in p s)
          else if c.rid == p
          then some (append_new (or_no_ids (ids_in c.rid s)) c.id)
          else ids_in p s)
  unfolding comment_cache_save
  ids_in-comment_cache_save p =
      let s₁ = S.set (Key.comment_by_id c.id) (Value.comment c) s in
      ground (
        arith,
        S.get-set (Key.comment_by_id c.id) (Key.comment_child_ids_by_id p) (Value.comment c) s,
        S.get-set (Key.comment_by_id c.id) (Key.comment_child_ids_by_id c.id) (Value.comment c) s,
        S.get-set (Key.comment_by_id c.id) (Key.comment_child_ids_by_id c.rid) (Value.comment c) s,
        S.get-set (Key.comment_child_ids_by_id c.id) (Key.comment_child_ids_by_id p) (Value.ids [])
            s₁,
        S.get-set (Key.comment_child_ids_by_id c.rid) (Key.comment_child_ids_by_id p)
            (Value.ids (append_new (or_no_ids (ids_in c.rid s₁)) c.id)) s₁,
      )

module _ {B : Backend} (c : Comment) (d : Dao B) (s : B.store.Store) (on : d.cache ≡ some s) where
  pub cache-update_comment : (update_comment c d).1.cache ≡ some (comment_cache_save B.store c s)
  unfolding update_comment
  cache-update_comment = ground arith

  -- If the cache is enabled but does not hold the replies to the parent of a comment,
  -- UpdateComment makes it list this comment as the only reply; if the table holds another
  -- reply, cache and table disagree from then on.
  pub update_comment-forgets_siblings :
      c.rid ≢ 0
      → cached_ids B.store d.cache c.rid ≡ none
      → ((find_child_ids c.rid (update_comment c d).1).0 ≡ c.id ∷ [])
        × ((n : ℕ)
            → n ≢ c.id
            → contains (child_ids_of c.rid (all_comments (update_comment c d).1)) n ≡ true
            → ¬ IsCoherent (update_comment c d).1)
  update_comment-forgets_siblings z miss =
      let saved = comment_cache_save B.store c s in
      let listed : cached_ids B.store (some saved) c.rid ≡ some (c.id ∷ []) =
        (unfold append_new contains any in
          ground (
            arith,
            ids_in-comment_cache_save B.store c s c.rid,
            ap (λ o. cached_ids B.store o c.rid) on,
          )) in
      (
        ap (λ r. r.0) (find_child_ids_hit _ saved cache-update_comment c.rid (c.id ∷ []) listed),
        λ n ne has h.
            let alone =
              h.ids_at c.rid (c.id ∷ []) z
                (ap (λ o. cached_ids B.store o c.rid) cache-update_comment ∙ listed) in
            let only : contains (c.id ∷ []) n ≡ true = ap (λ l. contains l n) alone ∙ has in
            ne (unfold contains any in ground arith),
      )

  -- If the cache is enabled and the database refuses the save, UpdateComment reports it and
  -- changes nothing in any table, but the cache holds the comment as it was to be saved, and
  -- FindComment returns that.
  pub update_comment-keeps_unsaved :
      B.comments.save c d.comments ≡ none
      → ((update_comment c d).0 ≡ err write_failed)
        × ((update_comment c d).1 ≡ record d { cache = (update_comment c d).1.cache })
        × ((find_comment c.id (update_comment c d).1).0 ≡ c)
  unfolding update_comment
  update_comment-keeps_unsaved refused = (
    ground arith,
    ground arith,
    ap (λ r. r.0)
        (find_comment_hit _ (comment_cache_save B.store c s) cache-update_comment c.id c
          (ground (arith, get_comment-comment_cache_save B.store c s c.id))),
  )
