-- ===== src/Server/Sites/Moved.antt =====
-- The comments and pages of a site get its new name.
use artalk.Prelude.{
  not, List, [], ◌∷◌, map, filter, String, str_eq, eq_iff, if◌then◌else◌, ◌≡◌, refl, sym, ap, ◌∙◌,
  arith, Bool-cases, inl, inr,
}
use artalk.Entity.{Comment, Page}
use artalk.Backend.{Backend}
use artalk.Dao.{Dao, all_comments, all_pages}
use artalk.Dao.Renaming.{
  Stores, saved_each, saved_each-filter, update_comments-rows, update_pages-rows,
}
use artalk.Dao.Sites.{update_comments}
use artalk.Server.Sites.{named_comment, named_page, rename_site}

-- The rows of one site with another name, and all other rows.
abbrev pub moved_comments : String → String → List Comment → List Comment
moved_comments old new l =
    map (λ (c : Comment). if str_eq c.site_name old then named_comment new c else c) l

abbrev pub moved_pages : String → String → List Page → List Page
moved_pages old new l = map (λ (p : Page). if str_eq p.site_name old then named_page new p else p) l

moved_comments-same : (name : String) (l : List Comment) → moved_comments name name l ≡ l
moved_comments-same name [] = refl
moved_comments-same name (c ∷ l) =
    ground (arith, eq_iff c.site_name name, moved_comments-same name l)

moved_pages-same : (name : String) (l : List Page) → moved_pages name name l ≡ l
moved_pages-same name [] = refl
moved_pages-same name (p ∷ l) = ground (arith, eq_iff p.site_name name, moved_pages-same name l)

-- Comments and pages have moved, and nothing else has changed but sites and the cache.
pub record Moved {B : Backend} (old new : String) (d d' : Dao B) : Type 0 where
  pub comments : all_comments d' ≡ moved_comments old new (all_comments d)
  pub pages : all_pages d' ≡ moved_pages old new (all_pages d)
  pub users : d'.users ≡ d.users
  pub votes : d'.votes ≡ d.votes
  pub notifies : d'.notifies ≡ d.notifies
  pub sites : d'.sites ≡ d.sites

module _ {B : Backend} (keeps_comments : Stores B.comments) (keeps_pages : Stores B.pages) where
  rename_site-Moved : (old new : String) (d : Dao B) → Moved old new d (rename_site old new d)
  unfolding rename_site
  rename_site-Moved old new d =
      let comments = filter (λ c. str_eq c.site_name old) (all_comments d) in
      let pages = filter (λ p. str_eq p.site_name old) (all_pages d) in
      let d₁ = update_comments (named_comment new) comments d in
      let (only₁, rows₁) = update_comments-rows (named_comment new) comments d in
      let (only₂, rows₂) = update_pages-rows (named_page new) pages d₁ in
      let same : d₁.pages ≡ d.pages = ap (λ (z : Dao B). z.pages) only₁ in
      record {
        comments =
            ap (λ (z : Dao B). all_comments z) only₂
            ∙ ap B.comments.select rows₁
            ∙ saved_each-filter B.comments (named_comment new) (λ c. refl) keeps_comments
                (λ c. str_eq c.site_name old) d.comments;
        pages =
            ap B.pages.select rows₂
            ∙ ap (λ r. B.pages.select (saved_each B.pages (named_page new) pages r)) same
            ∙ saved_each-filter B.pages (named_page new) (λ c. refl) keeps_pages
                (λ p. str_eq p.site_name old) d.pages;
        users = ap (λ (z : Dao B). z.users) only₂ ∙ ap (λ (z : Dao B). z.users) only₁;
        votes = ap (λ (z : Dao B). z.votes) only₂ ∙ ap (λ (z : Dao B). z.votes) only₁;
        notifies = ap (λ (z : Dao B). z.notifies) only₂ ∙ ap (λ (z : Dao B). z.notifies) only₁;
        sites = ap (λ (z : Dao B). z.sites) only₂ ∙ ap (λ (z : Dao B). z.sites) only₁;
      }

  -- Whether the name is new or not.
  pub renamed-Moved :
      (old new : String) (d : Dao B)
      → Moved old new d (if not (str_eq new old) then rename_site old new d else d)
  renamed-Moved old new d = elim (Bool-cases (str_eq new old)) [
    | inr other ↦ rw other (rename_site-Moved old new d)
    | inl same ↦
        let it : new ≡ old = ground (arith, same, eq_iff new old) in
        rw (same, it)
          (record {
            comments = sym (moved_comments-same old (all_comments d));
            pages = sym (moved_pages-same old (all_pages d));
            users = refl;
            votes = refl;
            notifies = refl;
            sites = refl;
          })
  ]
