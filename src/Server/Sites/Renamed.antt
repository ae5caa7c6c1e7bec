-- ===== src/Server/Sites/Renamed.antt =====
-- What SiteUpdate changes.
use artalk.Prelude.{
  ℕ, ◌==◌, true, not, any, map, str_eq, join, if◌then◌else◌, ◌≡◌, ◌≢◌, refl, sym, ap, subst, ◌∙◌,
  arith, Bool-cases, Option-cases, inl, inr,
}
use artalk.Entity.{User, Site, site_is_empty, empty_site}
use artalk.Backend.{Backend, Key, Value}
use artalk.Dao.{Dao, cache_action, all_comments, all_pages, all_sites, first_or}
use artalk.Dao.Cache.{site_cache_del, site_cache_save, decode_site}
use artalk.Dao.Coherence.{SameTables}
use artalk.Dao.Create.{Texts}
use artalk.Dao.Find.{find_site}
use artalk.Dao.Reading.{Reads, Reads-trans, query-Reads, find_site-Reads}
use artalk.Dao.Renaming.{Stores}
use artalk.Dao.Sites.{find_site_by_id, update_site}
use artalk.Server.{Request, success}
use artalk.Server.Auth.{Crypto, check_is_admin_req}
use artalk.Server.Auth.Access.{IsLogin}
use artalk.Server.CommentCreate.Checked.{check_is_admin_req-Reads, check_is_admin_req-IsLogin}
use artalk.Server.Sites.{ParamsSite, rename_site, save_site, site_update}
use artalk.Dao.Renaming.{cache_action-SameTables}
use artalk.Server.Sites.Moved.{moved_comments, moved_pages, Moved, renamed-Moved}

-- The site `x` was saved as `s`, with its comments and pages.
pub record Renamed {B : Backend} (p : ParamsSite) (x s : Site) (d d' : Dao B) : Type 0 where
  pub saved_as : s ≡ record x { name = p.name; urls = join p.urls "," }
  pub comments : all_comments d' ≡ moved_comments x.name p.name (all_comments d)
  pub pages : all_pages d' ≡ moved_pages x.name p.name (all_pages d)
  pub row :
      any (λ (y : Site). y.id == x.id) (all_sites d) ≡ true
      → all_sites d' ≡ map (λ (y : Site). if y.id == x.id then s else y) (all_sites d)
  pub users : d'.users ≡ d.users
  pub votes : d'.votes ≡ d.votes
  pub notifies : d'.notifies ≡ d.notifies

module _ {B : Backend} (keeps_comments : Stores B.comments) (keeps_pages : Stores B.pages) where
  save_site-Renamed :
      (T : Texts) (p : ParamsSite) (x s : Site) (d d' : Dao B)
      → save_site T p x d ≡ (success s, d')
      → Renamed p x s d d'
  unfolding save_site update_site
  save_site-Renamed T p x s d d' e =
      let d₁ = (cache_action (site_cache_del B.store x) d).1 in
      let forgot = cache_action-SameTables (site_cache_del B.store x) d in
      let d₂ = if not (str_eq p.name x.name) then rename_site x.name p.name d₁ else d₁ in
      let moved : Moved x.name p.name d₁ d₂ =
        renamed-Moved keeps_comments keeps_pages x.name p.name d₁ in
      let changed : Site = record x { name = p.name; urls = join p.urls "," } in
      elim (Option-cases (B.sites.save changed d₂.sites)) [
        | inl failed ↦ absurd (ground (arith, ap (λ q. q.0) e, failed))
        | inr (rows, put) ↦
            let d₃ = record d₂ { sites = rows } in
            let saved = cache_action-SameTables (site_cache_save B.store changed) d₃ in
            let is : changed ≡ s = ground (arith, ap (λ q. q.0) e, put) in
            let end_ : d' ≡ (cache_action (site_cache_save B.store changed) d₃).1 =
              ground (arith, ap (λ q. q.1) e, put) in
            let last : SameTables d₃ d' = subst (SameTables d₃) (sym end_) saved in
            let sites₂ : d₂.sites ≡ d.sites = moved.sites ∙ ap (λ (z : Dao B). z.sites) forgot in
            record {
              saved_as = sym is;
              comments =
                  ap (λ (z : Dao B). all_comments z) last
                  ∙ moved.comments
                  ∙ ap (λ (z : Dao B). moved_comments x.name p.name (all_comments z)) forgot;
              pages =
                  ap (λ (z : Dao B). all_pages z) last
                  ∙ moved.pages
                  ∙ ap (λ (z : Dao B). moved_pages x.name p.name (all_pages z)) forgot;
              row = λ held.
                  ap (λ (z : Dao B). all_sites z) last
                  ∙ B.sites.save_select changed d₂.sites rows
                      (ap (λ r. any (λ (y : Site). y.id == x.id) (B.sites.select r)) sites₂ ∙ held)
                      put
                  ∙ ap
                      (λ r.
                        map (λ (y : Site). if y.id == x.id then changed else y) (B.sites.select r))
                      sites₂
                  ∙ ap (λ z. map (λ (y : Site). if y.id == x.id then z else y) (all_sites d)) is;
              users =
                  ap (λ (z : Dao B). z.users) last
                  ∙ moved.users
                  ∙ ap (λ (z : Dao B). z.users) forgot;
              votes =
                  ap (λ (z : Dao B). z.votes) last
                  ∙ moved.votes
                  ∙ ap (λ (z : Dao B). z.votes) forgot;
              notifies =
                  ap (λ (z : Dao B). z.notifies) last
                  ∙ moved.notifies
                  ∙ ap (λ (z : Dao B). z.notifies) forgot;
            }
      ]

  -- A call that only reads before.
  Renamed-read :
      (p : ParamsSite) (x s : Site) (d d₁ d' : Dao B)
      → SameTables d d₁
      → Renamed p x s d₁ d'
      → Renamed p x s d d'
  Renamed-read p x s d d₁ d' same h = record {
    saved_as = h.saved_as;
    comments = h.comments ∙ ap (λ (z : Dao B). moved_comments x.name p.name (all_comments z)) same;
    pages = h.pages ∙ ap (λ (z : Dao B). moved_pages x.name p.name (all_pages z)) same;
    row = λ held.
        h.row (ap (λ (z : Dao B). any (λ (y : Site). y.id == x.id) (all_sites z)) same ∙ held)
        ∙ ap (λ (z : Dao B). map (λ (y : Site). if y.id == x.id then s else y) (all_sites z)) same;
    users = h.users ∙ ap (λ (z : Dao B). z.users) same;
    votes = h.votes ∙ ap (λ (z : Dao B). z.votes) same;
    notifies = h.notifies ∙ ap (λ (z : Dao B). z.notifies) same;
  }

  find_site_by_id-Reads : (id : ℕ) (d : Dao B) → Reads d (find_site_by_id id d).1
  unfolding find_site_by_id
  find_site_by_id-Reads id d =
      query-Reads (Key.site_by_id id) decode_site Value.site
        (λ z. first_or empty_site (λ y. y.id == id) (all_sites z)) d refl

  -- If the database accepts every save of a comment or a page and SiteUpdate answers with a
  -- site, the request has the token of an administrator, the site that was found has the name
  -- and the addresses of the request, and its row as well, if there is one; every comment and
  -- every page that had its old name has the new one; and all else is as it was.
  pub site_update-Renamed :
      (T : Texts) (K : Crypto) (p : ParamsSite) (id : ℕ) (r : Request) (s : Site) (d d' : Dao B)
      → site_update T K p id r d ≡ (success s, d')
      → let x = (find_site_by_id id (check_is_admin_req K r d).1).0 in
        ((user : User) × IsLogin K r d user × (user.is_admin ≡ true))
        × (x.id ≢ 0)
        × Renamed p x s d d'
  unfolding site_update
  site_update-Renamed T K p id r s d d' e =
      let (is_admin, d₁) = check_is_admin_req K r d in
      let (x, d₂) = find_site_by_id id d₁ in
      let (other, d₃) = find_site p.name d₂ in
      let modify = not (str_eq p.name x.name) in
      let r₁ = check_is_admin_req-Reads K r d in
      let r₂ = Reads-trans d d₁ d₂ r₁ (find_site_by_id-Reads id d₁) in
      let r₃ = Reads-trans d d₂ d₃ r₂ (find_site-Reads p.name d₂) in
      elim (Bool-cases is_admin) [
        | inr guest ↦ absurd (ground (arith, e, guest))
        | inl admin ↦ elim (Bool-cases (site_is_empty x)) [
          | inl empty ↦ absurd (ground (arith, e, admin, empty))
          | inr stored ↦ elim (Bool-cases modify) [
            | inl new_ ↦
                let end_ : save_site T p x d₃ ≡ (success s, d') =
                  ground (arith, e, admin, stored, new_) in
                (
                  check_is_admin_req-IsLogin K r d admin,
                  ground (arith, stored),
                  Renamed-read p x s d d₃ d' r₃.same (save_site-Renamed T p x s d₃ d' end_),
                )
            | inr old_ ↦
                let end_ : save_site T p x d₂ ≡ (success s, d') =
                  ground (arith, e, admin, stored, old_) in
                (
                  check_is_admin_req-IsLogin K r d admin,
                  ground (arith, stored),
                  Renamed-read p x s d d₂ d' r₂.same (save_site-Renamed T p x s d₂ d' end_),
                )
          ]
        ]
      ]
