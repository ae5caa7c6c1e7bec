-- ===== src/Dao/Coherence.antt =====
-- The cache of comments against the table: what a cached entry says is what the table holds.
use artalk.Prelude.{
  ℕ, ◌==◌, Option, none, some, List, ◌≡◌, ◌≢◌, refl, ap, ◌∙◌, arith, Option-cases, inl, inr,
}
use artalk.Entity.{Comment, empty_comment}
use artalk.Backend.{Backend, CacheStore, Key, Value}
use artalk.Dao.{Dao, all_comments, first_or}
use artalk.Dao.Cache.{decode_ids, decode_comment, store_cache}
use artalk.Dao.Find.{query_db_with_cache, find_comment, find_child_ids, child_ids_of}

-- The row with an id, or the empty comment.
abbrev pub row_of : ℕ → List Comment → Comment
row_of i l = first_or empty_comment (λ c. c.id == i) l

module _ (S : CacheStore) where
  -- The entries of the cache that hold comments and lists of replies.
  abbrev pub cached_comment : Option S.Store → ℕ → Option Comment
  cached_comment none i = none
  cached_comment (some s) i = decode_comment (S.get (Key.comment_by_id i) s)

  abbrev pub cached_ids : Option S.Store → ℕ → Option (List ℕ)
  cached_ids none i = none
  cached_ids (some s) i = decode_ids (S.get (Key.comment_child_ids_by_id i) s)

  pub record Agrees (o : Option S.Store) (rows : List Comment) : Type 0 where
    pub comment_at : (i : ℕ) (c : Comment) → cached_comment o i ≡ some c → c ≡ row_of i rows
    pub ids_at : (p : ℕ) (l : List ℕ) → p ≢ 0 → cached_ids o p ≡ some l → l ≡ child_ids_of p rows

  -- An entry that says what the table says, and any deletion, keep the agreement.
  pub set_comment-Agrees :
      (i : ℕ) (s : S.Store) (rows : List Comment)
      → Agrees (some s) rows
      → Agrees (some (S.set (Key.comment_by_id i) (Value.comment (row_of i rows)) s)) rows
  set_comment-Agrees i s rows h = record {
    comment_at = λ j c e. ground (
      arith,
      S.get-set (Key.comment_by_id i) (Key.comment_by_id j) (Value.comment (row_of i rows)) s,
      h.comment_at j c,
    );
    ids_at = λ p l z e. ground (
      arith,
      S.get-set (Key.comment_by_id i) (Key.comment_child_ids_by_id p)
          (Value.comment (row_of i rows)) s,
      h.ids_at p l,
    );
  }

  pub set_ids-Agrees :
      (i : ℕ) (s : S.Store) (rows : List Comment)
      → Agrees (some s) rows
      → Agrees
          (some (S.set (Key.comment_child_ids_by_id i) (Value.ids (child_ids_of i rows)) s))
          rows
  set_ids-Agrees i s rows h = record {
    comment_at = λ j c e. ground (
      arith,
      S.get-set (Key.comment_child_ids_by_id i) (Key.comment_by_id j)
          (Value.ids (child_ids_of i rows)) s,
      h.comment_at j c,
    );
    ids_at = λ p l z e. ground (
      arith,
      S.get-set (Key.comment_child_ids_by_id i) (Key.comment_child_ids_by_id p)
          (Value.ids (child_ids_of i rows)) s,
      h.ids_at p l,
    );
  }

  pub del-Agrees :
      (k : Key) (s : S.Store) (rows : List Comment)
      → Agrees (some s) rows
      → Agrees (some (S.del k s)) rows
  del-Agrees k s rows h = record {
    comment_at = λ j c e. ground (arith, S.get-del k (Key.comment_by_id j) s, h.comment_at j c);
    ids_at = λ p l z e. ground (arith, S.get-del k (Key.comment_child_ids_by_id p) s, h.ids_at p l);
  }

-- The cache of a state agrees with its table of comments.
abbrev pub IsCoherent : {B : Backend} → Dao B → Type 0
IsCoherent {B} d = Agrees B.store d.cache (all_comments d)

-- Only the cache may differ.
abbrev pub SameTables : {B : Backend} → Dao B → Dao B → Type 0
SameTables d d' = d' ≡ record d { cache = d'.cache }

pub SameTables-trans :
    {B : Backend} (d d₁ d₂ : Dao B) → SameTables d d₁ → SameTables d₁ d₂ → SameTables d d₂
SameTables-trans {B} d d₁ d₂ p q =
    q ∙ ap {A = Dao B} {B = Dao B} (λ x. record x { cache = d₂.cache }) p

module _ {B : Backend} {A : Type 0} where
  -- The three ways of a cached query: the cache is off, it has the answer, it has not.
  module _ (k : Key) (decode : Option Value → Option A) (encode : A → Value) (query : Dao B → A)
      (d : Dao B) where
    pub query_off : d.cache ≡ none → query_db_with_cache k decode encode query d ≡ (query d, d)
    unfolding query_db_with_cache
    query_off off = ground arith

    pub query_hit :
        (s : B.store.Store) (v : A)
        → d.cache ≡ some s
        → decode (B.store.get k s) ≡ some v
        → query_db_with_cache k decode encode query d ≡ (v, d)
    unfolding query_db_with_cache
    query_hit s v on hit = ground arith

    pub query_miss :
        (s : B.store.Store)
        → d.cache ≡ some s
        → decode (B.store.get k s) ≡ none
        → query_db_with_cache k decode encode query d
          ≡ (query d, record d { cache = some (B.store.set k (encode (query d)) s) })
    unfolding query_db_with_cache store_cache
    query_miss s on miss = ground arith

module _ {B : Backend} (d : Dao B) (s : B.store.Store) (on : d.cache ≡ some s) where
  pub find_comment_hit :
      (i : ℕ) (c : Comment) → cached_comment B.store (some s) i ≡ some c → find_comment i d ≡ (c, d)
  unfolding find_comment
  find_comment_hit i c hit =
      query_hit _ decode_comment Value.comment (λ x. row_of i (all_comments x)) d s c on hit

  pub find_child_ids_hit :
      (p : ℕ) (l : List ℕ) → cached_ids B.store (some s) p ≡ some l → find_child_ids p d ≡ (l, d)
  unfolding find_child_ids
  find_child_ids_hit p l hit =
      query_hit _ decode_ids Value.ids (λ x. child_ids_of p (all_comments x)) d s l on hit

module _ {B : Backend} where
  -- With a cache that agrees with the table of comments, FindComment returns the row that the
  -- table holds or the empty comment, changes no table, and leaves cache and table in
  -- agreement.
  pub find_comment-IsCoherent :
      (i : ℕ) (d : Dao B)
      → IsCoherent d
      → ((find_comment i d).0 ≡ row_of i (all_comments d))
        × SameTables d (find_comment i d).1
        × IsCoherent (find_comment i d).1
  unfolding find_comment
  find_comment-IsCoherent i d h = elim (Option-cases d.cache) [
    | inl off ↦ rw (query_off, off) (refl, refl, h)
    | inr (s, on) ↦ elim (Option-cases (cached_comment B.store (some s) i)) [
      | inl miss ↦
          rw (query_miss, on, miss) (refl, refl, set_comment-Agrees B.store i s _ (rw on at h))
      | inr (c, hit) ↦
          rw (query_hit, on, hit)
            (h.comment_at i c (ap (λ o. cached_comment B.store o i) on ∙ hit), refl, h)
    ]
  ]

  pub find_child_ids-IsCoherent :
      (p : ℕ) (d : Dao B)
      → p ≢ 0
      → IsCoherent d
      → ((find_child_ids p d).0 ≡ child_ids_of p (all_comments d))
        × SameTables d (find_child_ids p d).1
        × IsCoherent (find_child_ids p d).1
  unfolding find_child_ids
  find_child_ids-IsCoherent p d z h = elim (Option-cases d.cache) [
    | inl off ↦ rw (query_off, off) (refl, refl, h)
    | inr (s, on) ↦ elim (Option-cases (cached_ids B.store (some s) p)) [
      | inl miss ↦ rw (query_miss, on, miss) (refl, refl, set_ids-Agrees B.store p s _ (rw on at h))
      | inr (l, hit) ↦
          rw (query_hit, on, hit)
            (h.ids_at p l z (ap (λ o. cached_ids B.store o p) on ∙ hit), refl, h)
    ]
  ]
