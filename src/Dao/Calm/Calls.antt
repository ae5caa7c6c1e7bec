-- ===== src/Dao/Calm/Calls.antt =====
-- Users, pages and notifications are found, created and updated without touching the comments.
use artalk.Prelude.{
  ℕ, some, String, trim_space, not, ◌&&◌, ◌||◌, if◌then◌else◌, ◌≡◌, refl, sym, subst, arith,
  Option-cases, inl, inr, str_eq,
}
use artalk.Entity.{User, Page, Notify, empty_user, page_is_empty, user_is_empty}
use artalk.Backend.{Backend, CacheStore, Key, Value}
use artalk.Dao.{Dao, cache_action, first_or, all_users}
use artalk.Dao.Cache.{
  decode_user, page_by_key_site_name_key, user_by_name_email_key, user_cache_save, page_cache_save,
  store_cache,
}
use artalk.Dao.Coherence.{cached_comment}
use artalk.Dao.Create.{
  Texts, find_user, create_user, new_user, find_create_user, update_user, new_page,
  find_create_page, is_named, validate_url,
}
use artalk.Dao.Find.{find_page}
use artalk.Dao.Notifying.{new_notify, find_create_notify, notify_set_initial, save_notify}
use artalk.Dao.Write.{create_page}
use artalk.Dao.Calm.{
  Calm, Calm-refl, Calm-trans, Calm-ite, Calm-of, cache_action-Calm, query-Calm, find_create-Calm,
  find_page-Calm,
}

module _ (S : CacheStore) where
  cached-user_cache_save :
      (lower : String → String) (u : User) (s : S.Store) (k : ℕ)
      → cached_comment S (some (user_cache_save S lower u s)) k ≡ cached_comment S (some s) k
  unfolding user_cache_save store_cache
  cached-user_cache_save lower u s k =
      let k₁ = Key.user_by_id u.id in
      let k₂ = user_by_name_email_key (lower u.name) (lower u.email) in
      let s₁ = S.set k₁ (Value.user u) s in
      ground (
        arith,
        S.get-set k₁ (Key.comment_by_id k) (Value.user u) s,
        S.get-set k₂ (Key.comment_by_id k) (Value.user u) s₁,
      )

  cached-page_cache_save :
      (p : Page) (s : S.Store) (k : ℕ)
      → cached_comment S (some (page_cache_save S p s)) k ≡ cached_comment S (some s) k
  unfolding page_cache_save store_cache
  cached-page_cache_save p s k =
      let k₁ = Key.page_by_id p.id in
      let k₂ = page_by_key_site_name_key p.key p.site_name in
      let s₁ = S.set k₁ (Value.page p) s in
      ground (
        arith,
        S.get-set k₁ (Key.comment_by_id k) (Value.page p) s,
        S.get-set k₂ (Key.comment_by_id k) (Value.page p) s₁,
      )

module _ {B : Backend} where
  module _ (T : Texts) where
    user_save-Calm :
        (u : User) (d : Dao B) → Calm d (cache_action (user_cache_save B.store T.lower u) d).1
    user_save-Calm u d =
        cache_action-Calm (user_cache_save B.store T.lower u) d
          (λ s k. cached-user_cache_save B.store T.lower u s k)

    create_user-Calm : (u : User) (d : Dao B) → Calm d (create_user T u d).1
    create_user-Calm u d = elim (Option-cases (B.users.insert u d.users)) [
      | inl failed ↦
          let is : (create_user T u d).1 ≡ d = (unfold create_user in ground (arith, failed)) in
          subst (Calm d) (sym is) (Calm-refl d)
      | inr ((created, rows), put) ↦
          let d₁ = record d { users = rows } in
          let is : (create_user T u d).1
              ≡ (cache_action (user_cache_save B.store T.lower created) d₁).1 =
            (unfold create_user in ground (arith, put)) in
          subst (Calm d) (sym is)
            (Calm-trans d d₁ _ (Calm-of d d₁ refl (λ k. refl)) (user_save-Calm created d₁))
    ]

    new_user-Calm : (name email link : String) (d : Dao B) → Calm d (new_user T name email link d).1
    unfolding new_user
    new_user-Calm name email link d = create_user-Calm _ d

    pub update_user-Calm : (u : User) (d : Dao B) → Calm d (update_user T u d).1
    update_user-Calm u d = elim (Option-cases (B.users.save u d.users)) [
      | inl failed ↦
          let is : (update_user T u d).1 ≡ (cache_action (user_cache_save B.store T.lower u) d).1 =
            (unfold update_user in ground (arith, failed)) in
          subst (Calm d) (sym is) (user_save-Calm u d)
      | inr (rows, put) ↦
          let d₁ = record d { users = rows } in
          let is : (update_user T u d).1 ≡ (cache_action (user_cache_save B.store T.lower u) d₁).1 =
            (unfold update_user in ground (arith, put)) in
          subst (Calm d) (sym is)
            (Calm-trans d d₁ _ (Calm-of d d₁ refl (λ k. refl)) (user_save-Calm u d₁))
    ]

    find_user-Calm : (name email : String) (d : Dao B) → Calm d (find_user T name email d).1
    unfolding find_user
    find_user-Calm name email d =
        query-Calm (user_by_name_email_key (T.lower name) (T.lower email)) decode_user Value.user
          (λ x. first_or empty_user (is_named T name email) (all_users x)) d refl

    pub find_create_user-Calm :
        (name email link : String) (d : Dao B) → Calm d (find_create_user T name email link d).1
    unfolding find_create_user
    find_create_user-Calm name email link d =
        let n = trim_space name in
        let e = trim_space email in
        let l = trim_space link in
        let valid = if not (str_eq l "") && not (validate_url T l) then "" else l in
        Calm-ite (str_eq n "" || str_eq e "") d _ _ (Calm-refl d) (
          Calm-ite (not (T.is_email e)) d _ _ (Calm-refl d) (
            find_create-Calm T user_is_empty (find_user T n e) (new_user T n e valid) d
              (find_user-Calm n e d) (λ d'. new_user-Calm n e valid d')))

  page_save-Calm : (p : Page) (d : Dao B) → Calm d (cache_action (page_cache_save B.store p) d).1
  page_save-Calm p d =
      cache_action-Calm (page_cache_save B.store p) d (λ s k. cached-page_cache_save B.store p s k)

  create_page-Calm : (p : Page) (d : Dao B) → Calm d (create_page p d).1
  create_page-Calm p d = elim (Option-cases (B.pages.insert p d.pages)) [
    | inl failed ↦
        let is : (create_page p d).1 ≡ d = (unfold create_page in ground (arith, failed)) in
        subst (Calm d) (sym is) (Calm-refl d)
    | inr ((created, rows), put) ↦
        let d₁ = record d { pages = rows } in
        let is : (create_page p d).1 ≡ (cache_action (page_cache_save B.store created) d₁).1 =
          (unfold create_page in ground (arith, put)) in
        subst (Calm d) (sym is)
          (Calm-trans d d₁ _ (Calm-of d d₁ refl (λ k. refl)) (page_save-Calm created d₁))
  ]

  pub find_create_page-Calm :
      (key title site_name : String) (d : Dao B) → Calm d (find_create_page key title site_name d).1
  unfolding find_create_page new_page
  find_create_page-Calm key title site_name d =
      let d₁ = (find_page key site_name d).1 in
      let found = find_page-Calm key site_name d in
      Calm-ite (page_is_empty (find_page key site_name d).0) d _ _
        (Calm-trans d d₁ _ found (create_page-Calm _ d₁)) found

  module _ (key : ℕ → ℕ → String) where
    pub find_create_notify-Calm :
        (user_id comment_id : ℕ) (d : Dao B)
        → Calm d (find_create_notify key user_id comment_id d).1
    unfolding find_create_notify new_notify
    find_create_notify-Calm user_id comment_id d = Calm-of d _ (ground arith) (λ k. ground arith)

  pub notify_set_initial-Calm : (n : Notify) (d : Dao B) → Calm d (notify_set_initial n d).1
  unfolding notify_set_initial save_notify
  notify_set_initial-Calm n d = Calm-of d _ (ground arith) (λ k. ground arith)
