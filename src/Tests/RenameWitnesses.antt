-- ===== src/Tests/RenameWitnesses.antt =====
-- An administrator renames a site and a page, and a user reads all notifications.
use artalk.Prelude.{
  true, false, not, ◌&&◌, [], ◌∷◌, any, map, refl, trim_prefix, trim_space, ◌≡◌, ◌≢◌, if◌then◌else◌,
}
use artalk.Entity.{User, Comment, Page, Site, Notify, empty_site, empty_page}
use artalk.Backend.{stamp_comment, stamp_page}
use artalk.Backend.Memory.{memory, table, mem_save-some}
use artalk.Dao.{Dao, all_notifies}
use artalk.Dao.Renaming.{Stores}
use artalk.Dao.Find.{find_page_by_id, find_user_by_id}
use artalk.Dao.Sites.{find_site_by_id}
use artalk.Server.{Response, success, error}
use artalk.Server.Auth.{check_is_admin_req}
use artalk.Server.Auth.Access.{IsLogin}
use artalk.Server.Site.{check_site_exist}
use artalk.Server.Sites.{ParamsSite, site_update}
use artalk.Server.Sites.Renamed.{Renamed, site_update-Renamed}
use artalk.Server.Pages.{ParamsPageUpdate, page_update}
use artalk.Server.Pages.Rekeyed.{Rekeyed, page_update-Rekeyed}
use artalk.Server.Notifies.{as_read, notification_query, unread_notifications, notify_read_all}
use artalk.Server.Notifies.Cleared.{notify_read_all-clears}
use artalk.Tests.Authors.{two_authors}
use artalk.Tests.Fixtures.{crypto, request, texts, site, notify}

keeps_comments : Stores memory.comments
unfolding memory table
keeps_comments c r = mem_save-some (λ (x : Comment). x.id) stamp_comment (λ k t e. refl) c r

keeps_pages : Stores memory.pages
unfolding memory table
keeps_pages p r = mem_save-some (λ (x : Page). x.id) stamp_page (λ k t e. refl) p r

abbrev site_of : Response Site → Site
site_of (success s) = s
site_of (error status) = empty_site

abbrev page_of : Response Page → Page
page_of (success s) = s
page_of (error status) = empty_page

abbrev new_name : ParamsSite
new_name = record { name = "T"; urls = [] }

abbrev renamed_site : Response Site × Dao memory
renamed_site = site_update texts crypto new_name 1 request (two_authors false)

site_update-Renamed_example :
    let x = (find_site_by_id 1 (check_is_admin_req crypto request (two_authors false)).1).0 in
    ((user : User) × IsLogin crypto request (two_authors false) user × (user.is_admin ≡ true))
    × (x.id ≢ 0)
    × Renamed new_name x (site_of renamed_site.0) (two_authors false) renamed_site.1
unfolding two_authors memory any site_update trim_prefix trim_space find_user_by_id
site_update-Renamed_example =
    site_update-Renamed keeps_comments keeps_pages texts crypto new_name 1 request
      (site_of renamed_site.0) (two_authors false) renamed_site.1 refl

abbrev new_key : ParamsPageUpdate
new_key = record { site_name = "S"; key = "/b"; title = "B"; admin_only = false }

abbrev renamed_page : Response Page × Dao memory
renamed_page = page_update crypto new_key 1 request (two_authors false)

page_update-Rekeyed_example :
    let d₁ = (check_is_admin_req crypto request (two_authors false)).1 in
    let x = (find_page_by_id 1 (check_site_exist "S" d₁).1).0 in
    ((user : User) × IsLogin crypto request (two_authors false) user × (user.is_admin ≡ true))
    × (x.id ≢ 0)
    × Rekeyed new_key x (page_of renamed_page.0) (two_authors false) renamed_page.1
unfolding two_authors memory any page_update trim_prefix trim_space find_user_by_id
page_update-Rekeyed_example =
    page_update-Rekeyed keeps_comments crypto new_key 1 request (page_of renamed_page.0)
      (two_authors false) renamed_page.1 refl

-- The administrator has an unread notification.
unfoldable told_site : Dao memory
unfolding site memory table any
told_site = record site {
  notifies = (record notify { user_id = 7 } ∷ [], record { distinct = (refl, tt); nonzero = refl });
}

abbrev all_read : Response (Unit {0}) × Dao memory
all_read = notify_read_all crypto 3 request told_site

notify_read_all-clears_example :
    let mine = (notification_query crypto request told_site).0 in
    ((unread_notifications crypto request all_read.1).0 ≡ [])
    × (all_notifies all_read.1
        ≡ map
            (λ (n : Notify). if mine n && not n.is_read then as_read 3 n else n)
            (all_notifies told_site))
    × (all_read.1 ≡ record told_site { notifies = all_read.1.notifies; cache = all_read.1.cache })
unfolding told_site site memory any notify_read_all trim_prefix trim_space find_user_by_id
notify_read_all-clears_example = notify_read_all-clears crypto request 3 told_site all_read.1 refl
