-- ===== src/Server/Site.antt =====
-- server/common/site.go: whether the site of a request exists.
use artalk.Prelude.{ℕ, Option, none, some, String, str_eq, if◌then◌else◌, trim_space}
use artalk.Entity.{site_is_empty}
use artalk.Backend.{Backend}
use artalk.Dao.{Dao}
use artalk.Dao.Find.{find_site}

module _ {B : Backend} where
  -- `none` is a site that exists, else the status.
  unfoldable pub check_site_exist : String → Dao B → Option ℕ × Dao B
  unfolding find_site
  check_site_exist site_name d =
      let name = trim_space site_name in
      let (site, d') = find_site name d in
      if str_eq name "" then (some 400, d) else (if site_is_empty site then some 404 else none, d')
