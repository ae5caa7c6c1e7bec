-- ===== src/Dao/Reading.antt =====
-- Reads change nothing but the cache, and keep it in agreement with the table of comments.
use artalk.Prelude.{
  ℕ, ◌==◌, Bool, true, false, Option, some, String, ◌≡◌, refl, sym, ◌∙◌, arith, Option-cases, inl,
  inr, subst, str_eq,
}
use artalk.Entity.{empty_page, empty_site, empty_user}
use artalk.Backend.{Backend, CacheStore, Key, Value}
use artalk.Dao.{Dao, all_comments, first_or, all_pages, all_sites, all_users}
use artalk.Dao.Cache.{decode_page, decode_site, decode_user, page_by_key_site_name_key}
use artalk.Dao.Coherence.{
  IsCoherent, SameTables, SameTables-trans, Agrees, cached_comment, cached_ids, query_off,
  query_hit, query_miss, find_comment-IsCoherent,
}
use artalk.Dao.Find.{
  query_db_with_cache, find_comment, find_page, find_site, find_user_by_id, page_matches,
}

pub record Reads {B : Backend} (d d' : Dao B) : Type 0 where
  pub same : SameTables d d'
  pub coherent : IsCoherent d → IsCoherent d'

pub Reads-refl : {B : Backend} (d : Dao B) → Reads d d
Reads-refl d = record { same = refl; coherent = λ h. h }

pub Reads-trans : {B : Backend} (d d₁ d₂ : Dao B) → Reads d d₁ → Reads d₁ d₂ → Reads d d₂
Reads-trans d d₁ d₂ p q = record {
  same = SameTables-trans d d₁ d₂ p.same q.same;
  coherent = λ h. q.coherent (p.coherent h);
}

-- A key under which neither comments nor lists of replies are kept.
abbrev pub is_other : Key → Bool
is_other (Key.comment_by_id i) = false
is_other (Key.comment_child_ids_by_id i) = false
is_other _ = true

other_comment :
    (S : CacheStore) (k : Key) (v : Value) (s : S.Store) (i : ℕ)
    → is_other k ≡ true
    → cached_comment S (some (S.set k v s)) i ≡ cached_comment S (some s) i
other_comment S k v s i h = ground (arith, S.get-set k (Key.comment_by_id i) v s, h)

other_ids :
    (S : CacheStore) (k : Key) (v : Value) (s : S.Store) (i : ℕ)
    → is_other k ≡ true
    → cached_ids S (some (S.set k v s)) i ≡ cached_ids S (some s) i
other_ids S k v s i h = ground (arith, S.get-set k (Key.comment_child_ids_by_id i) v s, h)

module _ {B : Backend} where
  pub query-Reads :
      {A : Type 0} (k : Key) (decode : Option Value → Option A) (encode : A → Value)
      (query : Dao B → A) (d : Dao B)
      → is_other k ≡ true
      → Reads d (query_db_with_cache k decode encode query d).1
  query-Reads k decode encode query d h = elim (Option-cases d.cache) [
    | inl off ↦ rw (query_off k decode encode query d off) (Reads-refl d)
    | inr (s, on) ↦ elim (Option-cases (decode (B.store.get k s))) [
      | inr (v, hit) ↦ rw (query_hit k decode encode query d s v on hit) (Reads-refl d)
      | inl miss ↦ rw (query_miss k decode encode query d s on miss) (record {
        same = refl;
        coherent = λ c.
            let c' : Agrees B.store (some s) (all_comments d) =
              subst (λ o. Agrees B.store o (all_comments d)) on c in
            record {
              comment_at = λ i x e. c'.comment_at i x (sym (other_comment B.store k _ s i h) ∙ e);
              ids_at = λ p l z e. c'.ids_at p l z (sym (other_ids B.store k _ s p h) ∙ e);
            };
      })
    ]
  ]

  pub find_page-Reads : (key site_name : String) (d : Dao B) → Reads d (find_page key site_name d).1
  unfolding find_page
  find_page-Reads key site_name d =
      query-Reads (page_by_key_site_name_key key site_name) decode_page Value.page
        (λ x. first_or empty_page (page_matches key site_name) (all_pages x)) d refl

  pub find_site-Reads : (name : String) (d : Dao B) → Reads d (find_site name d).1
  unfolding find_site
  find_site-Reads name d =
      query-Reads (Key.site_by_name name) decode_site Value.site
        (λ x. first_or empty_site (λ y. str_eq y.name name) (all_sites x)) d refl

  pub find_user_by_id-Reads : (id : ℕ) (d : Dao B) → Reads d (find_user_by_id id d).1
  unfolding find_user_by_id
  find_user_by_id-Reads id d =
      query-Reads (Key.user_by_id id) decode_user Value.user
        (λ x. first_or empty_user (λ u. u.id == id) (all_users x)) d refl

  pub find_comment-Reads : (id : ℕ) (d : Dao B) → IsCoherent d → Reads d (find_comment id d).1
  find_comment-Reads id d h =
      let (_, same, h') = find_comment-IsCoherent id d h in
      record { same = same; coherent = λ _. h' }
