-- ===== src/Dao/Calm.antt =====
-- Calls that leave the comments alone: the table of comments stays, and so does what the cache says of
-- each comment, up to entries that say what the table says.
pub mod Calls
use artalk.Prelude.{
  ℕ, ◌==◌, Bool, true, false, Option, some, any, String, trim_space, not, ◌&&◌, ◌||◌, if◌then◌else◌,
  ◌≡◌, refl, sym, ap, subst, ◌∙◌, arith, Option-cases, Bool-cases, inl, inr, str_eq,
}
use artalk.Entity.{
  User, Comment, Page, Notify, empty_page, empty_site, empty_user, page_is_empty, user_is_empty,
}
use artalk.Backend.{Backend, CacheStore, Key, Value}
use artalk.Dao.{
  Dao, Find, Act, cache_action, first_or, all_comments, all_pages, all_sites, all_users,
}
use artalk.Dao.Cache.{
  decode_page, decode_site, decode_user, page_by_key_site_name_key, user_by_name_email_key,
  user_cache_save, page_cache_save, store_cache,
}
use artalk.Dao.Coherence.{row_of, cached_comment, query_off, query_hit, query_miss}
use artalk.Dao.Create.{
  Texts, find_user, create_user, new_user, find_create, find_create_user, update_user, new_page,
  find_create_page, is_named, validate_url,
}
use artalk.Dao.Editing.{Holds}
use artalk.Dao.Find.{
  query_db_with_cache, find_comment, find_page, find_site, find_user_by_id, page_matches,
}
use artalk.Dao.Notifying.{
  fetch_user_for_comment, new_notify, find_create_notify, notify_set_initial, save_notify,
}
use artalk.Dao.Reading.{is_other}
use artalk.Dao.Write.{create_page}

pub record Calm {B : Backend} (d d' : Dao B) : Type 0 where
  pub same : d'.comments ≡ d.comments
  pub keeps : (k : ℕ) (x : Comment) → Holds k x d → Holds k x d'

module _ {B : Backend} where
  pub Calm-refl : (d : Dao B) → Calm d d
  Calm-refl d = record { same = refl; keeps = λ k x h. h }

  pub Calm-trans : (d d₁ d₂ : Dao B) → Calm d d₁ → Calm d₁ d₂ → Calm d d₂
  Calm-trans d d₁ d₂ p q = record {
    same = q.same ∙ p.same;
    keeps = λ k x h. q.keeps k x (p.keeps k x h);
  }

  pub Calm-if : (b : Bool) (d x y : Dao B) → Calm d x → Calm d y → Calm d (if b then x else y)
  Calm-if true d x y p q = p
  Calm-if false d x y p q = q

  -- The same for calls with a result.
  pub Calm-ite :
      {A : Type 0} (b : Bool) (d : Dao B) (r r' : A × Dao B)
      → Calm d r.1
      → Calm d r'.1
      → Calm d (let out : A × Dao B = if b then r else r' in out.1)
  Calm-ite true d r r' p q = p
  Calm-ite false d r r' p q = q

  pub find_create-Calm :
      {A : Type 0} (T : Texts) (is_empty : A → Bool) (find : Find B A) (create : Act B A)
      (d : Dao B)
      → Calm d (find d).1
      → ((d' : Dao B) → Calm d' (create d').1)
      → Calm d (find_create T is_empty find create d).1
  unfolding find_create
  find_create-Calm T is_empty find create d p q =
      Calm-ite (is_empty (find d).0) d _ _ (Calm-trans d (find d).1 _ p (q (find d).1)) p

  -- The table stays and the cache has the same comments.
  pub Calm-of :
      (d d' : Dao B)
      → d'.comments ≡ d.comments
      → ((k : ℕ) → cached_comment B.store d'.cache k ≡ cached_comment B.store d.cache k)
      → Calm d d'
  Calm-of d d' same cached = record {
    same = same;
    keeps = λ k x h.
        let rows : all_comments d' ≡ all_comments d = ap (λ r. B.comments.select r) same in
        record {
          row = ap (row_of k) rows ∙ h.row;
          held = ap (any (λ (c : Comment). c.id == k)) rows ∙ h.held;
          cached = λ c e. h.cached c (sym (cached k) ∙ e);
        };
  }

  pub query-Calm :
      {A : Type 0} (q : Key) (decode : Option Value → Option A) (encode : A → Value)
      (query : Dao B → A) (d : Dao B)
      → is_other q ≡ true
      → Calm d (query_db_with_cache q decode encode query d).1
  query-Calm q decode encode query d h = elim (Option-cases d.cache) [
    | inl off ↦ rw (query_off q decode encode query d off) (Calm-refl d)
    | inr (s, on) ↦ elim (Option-cases (decode (B.store.get q s))) [
      | inr (v, hit) ↦ rw (query_hit q decode encode query d s v on hit) (Calm-refl d)
      | inl miss ↦ rw (query_miss q decode encode query d s on miss) (
          Calm-of d _ refl (λ k. ground (
            arith,
            B.store.get-set q (Key.comment_by_id k) (encode (query d)) s,
            h,
            ap (λ o. cached_comment B.store o k) on,
          )))
    ]
  ]

  pub find_page-Calm : (key site_name : String) (d : Dao B) → Calm d (find_page key site_name d).1
  unfolding find_page
  find_page-Calm key site_name d =
      query-Calm (page_by_key_site_name_key key site_name) decode_page Value.page
        (λ x. first_or empty_page (page_matches key site_name) (all_pages x)) d refl

  pub find_site-Calm : (name : String) (d : Dao B) → Calm d (find_site name d).1
  unfolding find_site
  find_site-Calm name d =
      query-Calm (Key.site_by_name name) decode_site Value.site
        (λ x. first_or empty_site (λ y. str_eq y.name name) (all_sites x)) d refl

  pub find_user_by_id-Calm : (id : ℕ) (d : Dao B) → Calm d (find_user_by_id id d).1
  unfolding find_user_by_id
  find_user_by_id-Calm id d =
      query-Calm (Key.user_by_id id) decode_user Value.user
        (λ x. first_or empty_user (λ u. u.id == id) (all_users x)) d refl

  pub find_comment-Calm : (i : ℕ) (d : Dao B) → Calm d (find_comment i d).1
  unfolding find_comment
  find_comment-Calm i d = elim (Option-cases d.cache) [
    | inl off ↦ rw (query_off, off) (Calm-refl d)
    | inr (s, on) ↦ elim (Option-cases (cached_comment B.store (some s) i)) [
      | inr (c, hit) ↦ rw (query_hit, on, hit) (Calm-refl d)
      | inl miss ↦
          rw (query_miss, on, miss)
            (record {
              same = refl;
              keeps = λ k x h. record {
                row = h.row;
                held = h.held;
                cached = λ c e.
                    let set =
                      B.store.get-set (Key.comment_by_id i) (Key.comment_by_id k)
                        (Value.comment (row_of i (all_comments d))) s in
                    let was = ap (λ o. cached_comment B.store o k) on in
                    elim (Bool-cases (i == k)) [
                      | inl here ↦
                          let it : i ≡ k = ground (arith, here) in
                          let row : row_of i (all_comments d) ≡ x =
                            ap (λ j. row_of j (all_comments d)) it ∙ h.row in
                          ground (arith, e, set, here, row)
                      | inr there ↦ h.cached c (ground (arith, e, set, there, was))
                    ];
              };
            })
    ]
  ]

  pub fetch_user_for_comment-Calm :
      (c : Comment) (d : Dao B) → Calm d (fetch_user_for_comment c d).1
  unfolding fetch_user_for_comment
  fetch_user_for_comment-Calm c d = find_user_by_id-Calm c.user_id d

  -- A write to the cache that keeps its comments.
  pub cache_action-Calm :
      (f : B.store.Store → B.store.Store) (d : Dao B)
      → ((s : B.store.Store) (k : ℕ)
          → cached_comment B.store (some (f s)) k ≡ cached_comment B.store (some s) k)
      → Calm d (cache_action f d).1
  cache_action-Calm f d h = Calm-of d (cache_action f d).1 (ground arith) (λ k.
      elim (Option-cases d.cache) [
        | inl off ↦ ground (arith, off)
        | inr (s, on) ↦ ground (arith, on, h s k)
      ])
