-- ===== src/Server/Pages.antt =====
-- server/handler/page_update.go, page_delete.go and page_pv.go: the first two behind AdminGuard.
pub mod Rekeyed
use artalk.Prelude.{ℕ, Bool, not, ◌&&◌, none, some, filter, String, str_eq, if◌then◌else◌}
use artalk.Prelude.Result.{ok, err}
use artalk.Entity.{Comment, Page, page_is_empty}
use artalk.Backend.{Backend}
use artalk.Dao.{Dao, cache_action, all_comments}
use artalk.Dao.Cache.{page_cache_del}
use artalk.Dao.Create.{find_create_page}
use artalk.Dao.Find.{find_page, find_page_by_id}
use artalk.Dao.Sites.{update_comments}
use artalk.Dao.Write.{update_page, del_page, increment_page_pv}
use artalk.Limiter.Rate.{RateLimiter, allow}
use artalk.Server.{Request, Response, success, error}
use artalk.Server.Auth.{Crypto, check_is_admin_req}
use artalk.Server.Site.{check_site_exist}

pub record ParamsPageUpdate : Type 0 where
  pub site_name : String
  pub key : String
  pub title : String
  pub admin_only : Bool

pub record ParamsPagePv : Type 0 where
  pub page_key : String
  pub page_title : String
  pub site_name : String

abbrev pub keyed : String → Comment → Comment
keyed key c = record c { page_key = key }

module _ {B : Backend} where
  -- The comments are found by the key alone.
  unfoldable pub rename_page : String → String → Dao B → Dao B
  unfolding update_comments filter
  rename_page old new d =
      update_comments (keyed new) (filter (λ c. str_eq c.page_key old) (all_comments d)) d

  -- From the tests on: the cache forgets the page, then its comments get the new key.
  unfoldable pub save_page : ParamsPageUpdate → Page → Dao B → Response Page × Dao B
  unfolding page_cache_del rename_page update_page
  save_page p page d =
      let d₁ = (cache_action (page_cache_del B.store page) d).1 in
      let d₂ = if not (str_eq p.key page.key) then rename_page page.key p.key d₁ else d₁ in
      let changed : Page = record page {
        key = p.key;
        title = p.title;
        admin_only = p.admin_only;
      } in
      let (saved, d₃) = update_page changed d₂ in
      (elim saved [ err e ↦ error 500 | ok _ ↦ success changed ], d₃)

  -- From the page on.
  unfoldable pub update_found_page : ParamsPageUpdate → Page → Dao B → Response Page × Dao B
  unfolding find_page save_page
  update_found_page p page d =
      let modify_key = not (str_eq p.key page.key) in
      let (other, d₁) = find_page p.key page.site_name d in
      let out = save_page p page (if modify_key then d₁ else d) in
      if page_is_empty page
      then (error 404, d)
      else if modify_key && not (page_is_empty other)
      then (error 400, d₁)
      else out

  unfoldable pub page_update :
      Crypto → ParamsPageUpdate → ℕ → Request → Dao B → Response Page × Dao B
  unfolding check_is_admin_req check_site_exist find_page_by_id update_found_page
  page_update K p id r d =
      let (is_admin, d₁) = check_is_admin_req K r d in
      let (no_site, d₂) = check_site_exist p.site_name d₁ in
      let (page, d₃) = find_page_by_id id d₂ in
      let out = update_found_page p page d₃ in
      if not is_admin
      then (error 403, d₁)
      else (elim no_site [ some status ↦ (error status, d₂) | none ↦ out ])

  unfoldable pub page_delete : Crypto → ℕ → Request → Dao B → Response (Unit {0}) × Dao B
  unfolding check_is_admin_req find_page_by_id del_page
  page_delete K id r d =
      let (is_admin, d₁) = check_is_admin_req K r d in
      let (page, d₂) = find_page_by_id id d₁ in
      let (gone, d₃) = del_page page d₂ in
      if not is_admin
      then (error 403, d₁)
      else if page_is_empty page
      then (error 404, d₂)
      else (elim gone [ err e ↦ error 500 | ok u ↦ success u ], d₃)

  -- `IncrementPagePV` and the answer.
  unfoldable pub count_view : Page → Dao B → Response ℕ × Dao B
  unfolding increment_page_pv
  count_view page d =
      let (r, d') = increment_page_pv page d in
      (elim r [ err e ↦ error 500 | ok seen ↦ success seen.pv ], d')

  -- A page that is not there is created, if `creationLimit` admits the address.
  unfoldable pub view_page :
      ℕ → ParamsPagePv → Request → RateLimiter → Dao B → (Response ℕ × RateLimiter) × Dao B
  unfolding find_page find_create_page allow count_view
  view_page now p r limit d =
      let (page, d₁) = find_page p.page_key p.site_name d in
      let (admitted, limit₁) = allow now r.ip limit in
      let (made, d₂) = find_create_page p.page_key p.page_title p.site_name d₁ in
      let (seen, d₃) = count_view page d₁ in
      let (first, d₄) = count_view made d₂ in
      if not (page_is_empty page)
      then ((seen, limit), d₃)
      else if not admitted
      then ((success 0, limit₁), d₁)
      else if page_is_empty made
      then ((error 500, limit₁), d₂)
      else ((first, limit₁), d₄)

  unfoldable pub page_pv :
      ℕ → ParamsPagePv → Request → RateLimiter → Dao B → (Response ℕ × RateLimiter) × Dao B
  unfolding check_site_exist view_page
  page_pv now p r limit d =
      let (no_site, d₁) = check_site_exist p.site_name d in
      elim no_site [ some status ↦ ((error status, limit), d₁) | none ↦ view_page now p r limit d₁ ]
