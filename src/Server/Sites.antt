-- ===== src/Server/Sites.antt =====
-- server/handler/site_create.go, site_update.go and site_delete.go: the handlers behind AdminGuard.
pub mod Moved
pub mod Renamed
use artalk.Prelude.{ℕ, Bool, not, ◌&&◌, List, any, filter, String, str_eq, join, if◌then◌else◌}
use artalk.Prelude.Result.{ok, err}
use artalk.Entity.{Comment, Page, Site, empty_site, site_is_empty}
use artalk.Backend.{Backend}
use artalk.Dao.{Dao, cache_action, all_comments, all_pages}
use artalk.Dao.Cache.{site_cache_del}
use artalk.Dao.Create.{Texts, validate_url}
use artalk.Dao.Find.{find_site}
use artalk.Dao.Sites.{
  find_site_by_id, create_site, update_site, del_site, update_comments, update_pages,
}
use artalk.Server.{Request, Response, success, error}
use artalk.Server.Auth.{Crypto, check_is_admin_req}

-- `ParamsSiteCreate` and `ParamsSiteUpdate`.
pub record ParamsSite : Type 0 where
  pub name : String
  pub urls : List String

abbrev pub named_comment : String → Comment → Comment
named_comment name c = record c { site_name = name }

abbrev pub named_page : String → Page → Page
named_page name p = record p { site_name = name }

unfoldable pub is_bad_urls : Texts → List String → Bool
unfolding any validate_url
is_bad_urls T urls = any (λ url. not (validate_url T url)) urls

module _ {B : Backend} where
  -- The comments and the pages of a site get its new name.
  unfoldable pub rename_site : String → String → Dao B → Dao B
  unfolding update_comments update_pages filter
  rename_site old new d =
      let comments = filter (λ c. str_eq c.site_name old) (all_comments d) in
      let pages = filter (λ p. str_eq p.site_name old) (all_pages d) in
      update_pages (named_page new) pages (update_comments (named_comment new) comments d)

  module _ (T : Texts) where
    -- From the tests on: the cache forgets the site, then everything gets the new name.
    unfoldable pub save_site : ParamsSite → Site → Dao B → Response Site × Dao B
    unfolding site_cache_del rename_site update_site join
    save_site p site d =
        let d₁ = (cache_action (site_cache_del B.store site) d).1 in
        let d₂ = if not (str_eq p.name site.name) then rename_site site.name p.name d₁ else d₁ in
        let changed : Site = record site { name = p.name; urls = join p.urls "," } in
        let (saved, d₃) = update_site changed d₂ in
        (elim saved [ err e ↦ error 500 | ok _ ↦ success changed ], d₃)

    unfoldable pub site_update : Crypto → ParamsSite → ℕ → Request → Dao B → Response Site × Dao B
    unfolding check_is_admin_req find_site_by_id find_site is_bad_urls save_site
    site_update K p id r d =
        let (is_admin, d₁) = check_is_admin_req K r d in
        let (site, d₂) = find_site_by_id id d₁ in
        let modify_name = not (str_eq p.name site.name) in
        let (other, d₃) = find_site p.name d₂ in
        let d₄ = if modify_name then d₃ else d₂ in
        let out = save_site p site d₄ in
        if not is_admin
        then (error 403, d₁)
        else if site_is_empty site
        then (error 404, d₂)
        else if modify_name && not (site_is_empty other)
        then (error 400, d₃)
        else if is_bad_urls T p.urls
        then (error 400, d₄)
        else out

    unfoldable pub site_create : Crypto → ParamsSite → Request → Dao B → Response Site × Dao B
    unfolding check_is_admin_req find_site is_bad_urls create_site join
    site_create K p r d =
        let (is_admin, d₁) = check_is_admin_req K r d in
        let (other, d₂) = find_site p.name d₁ in
        let (made, d₃) =
          create_site (record empty_site { name = p.name; urls = join p.urls "," }) d₂ in
        if not is_admin
        then (error 403, d₁)
        else if is_bad_urls T p.urls
        then (error 400, d₁)
        else if not (site_is_empty other)
        then (error 400, d₂)
        else (elim made [ err e ↦ error 500 | ok site ↦ success site ], d₃)

  unfoldable pub site_delete : Crypto → ℕ → Request → Dao B → Response (Unit {0}) × Dao B
  unfolding check_is_admin_req find_site_by_id del_site
  site_delete K id r d =
      let (is_admin, d₁) = check_is_admin_req K r d in
      let (site, d₂) = find_site_by_id id d₁ in
      let (gone, d₃) = del_site site d₂ in
      if not is_admin
      then (error 403, d₁)
      else if site_is_empty site
      then (error 404, d₂)
      else (elim gone [ err e ↦ error 500 | ok u ↦ success u ], d₃)
