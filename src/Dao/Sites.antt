-- ===== src/Dao/Sites.antt =====
-- internal/dao/query_new.go, query_update.go, query_find.go, query_find_create.go and query_del.go:
-- sites, and the loops of the handlers that rename.
use artalk.Prelude.{
  ℕ, ◌==◌, true, false, none, some, List, [], ◌∷◌, String, str_eq, if◌then◌else◌, filter,
}
use artalk.Prelude.Result.{ok, err}
use artalk.Entity.{Comment, Page, Site, empty_site, site_is_empty}
use artalk.Backend.{Backend, Key, Value}
use artalk.Dao.{
  Dao, Find, Act, write_failed, missing_where_clause, ◌>>◌, cache_action, first_or, all_sites,
  all_pages,
}
use artalk.Dao.Cache.{decode_site, site_cache_save, site_cache_del}
use artalk.Dao.Find.{query_db_with_cache, find_site}
use artalk.Dao.Write.{update_comment, update_page, del_page}

module _ {B : Backend} where
  unfoldable pub find_site_by_id : ℕ → Find B Site
  unfolding query_db_with_cache first_or
  find_site_by_id id =
      query_db_with_cache (Key.site_by_id id) decode_site Value.site
        (λ d. first_or empty_site (λ s. s.id == id) (all_sites d))

  unfoldable pub create_site : Site → Act B Site
  unfolding site_cache_save
  create_site site d = elim (B.sites.insert site d.sites) [
    | none ↦ (err write_failed, d)
    | some (created, rows) ↦
        (ok created, (cache_action (site_cache_save B.store created) (record d { sites = rows })).1)
  ]

  -- The error of a site that cannot be stored is dropped.
  unfoldable pub new_site : String → String → Dao B → Site × Dao B
  unfolding create_site
  new_site name urls d =
      let site = record empty_site { name = name; urls = urls } in
      let (r, d') = create_site site d in (elim r [ err e ↦ site | ok created ↦ created ], d')

  unfoldable pub find_create_site : String → String → Dao B → Site × Dao B
  unfolding find_site new_site
  find_create_site name urls d =
      let (site, d₁) = find_site name d in
      let created = new_site name urls d₁ in if site_is_empty site then created else (site, d₁)

  -- The cache is written whether the save failed or not.
  unfoldable pub update_site : Site → Act B (Unit {0})
  unfolding site_cache_save
  update_site site d = elim (B.sites.save site d.sites) [
    | none ↦ (err write_failed, (cache_action (site_cache_save B.store site) d).1)
    | some rows ↦
        (ok tt, (cache_action (site_cache_save B.store site) (record d { sites = rows })).1)
  ]

  -- GORM refuses to delete a struct without a primary key.
  unfoldable pub delete_site_row : Site → Act B (Unit {0})
  delete_site_row site d = elim (site.id == 0) [
    | true ↦ (err missing_where_clause, d)
    | false ↦ elim (B.sites.delete (λ x. x.id == site.id) d.sites) [
      | none ↦ (err write_failed, d)
      | some rows ↦ (ok tt, record d { sites = rows })
    ]
  ]

  -- The loop over the pages of a deleted site, which drops the errors.
  unfoldable pub del_pages : List Page → Dao B → Dao B
  unfolding del_page
  del_pages [] d = d
  del_pages (p ∷ rest) d = del_pages rest (del_page p d).1

  unfoldable pub del_site_pages : Site → Act B (Unit {0})
  unfolding del_pages filter
  del_site_pages site d =
      (ok tt, del_pages (filter (λ p. str_eq p.site_name site.name) (all_pages d)) d)

  unfoldable pub del_site : Site → Act B (Unit {0})
  unfolding delete_site_row del_site_pages site_cache_del
  del_site site = do
    delete_site_row site
    del_site_pages site
    cache_action (site_cache_del B.store site)

  -- The loops that change rows one by one and drop the errors.
  unfoldable pub update_comments : (Comment → Comment) → List Comment → Dao B → Dao B
  unfolding update_comment
  update_comments f [] d = d
  update_comments f (c ∷ rest) d = update_comments f rest (update_comment (f c) d).1

  unfoldable pub update_pages : (Page → Page) → List Page → Dao B → Dao B
  unfolding update_page
  update_pages f [] d = d
  update_pages f (p ∷ rest) d = update_pages f rest (update_page (f p) d).1
