-- ===== src/Server/Pages/Rekeyed.antt =====
-- What PageUpdate changes.
use artalk.Prelude.{
  ℕ, ◌==◌, true, not, List, [], ◌∷◌, any, map, filter, String, str_eq, eq_iff, if◌then◌else◌, ◌≡◌,
  ◌≢◌, refl, sym, ap, subst, ◌∙◌, arith, Bool-cases, Option-cases, inl, inr,
}
use artalk.Entity.{User, Comment, Page, page_is_empty, empty_page}
use artalk.Backend.{Backend, Key, Value}
use artalk.Dao.{Dao, cache_action, all_comments, all_pages, first_or}
use artalk.Dao.Cache.{page_cache_del, page_cache_save, decode_page}
use artalk.Dao.Coherence.{SameTables}
use artalk.Dao.Find.{find_page, find_page_by_id}
use artalk.Dao.Reading.{Reads, Reads-trans, query-Reads, find_page-Reads}
use artalk.Dao.Renaming.{Stores, saved_each-filter, update_comments-rows, cache_action-SameTables}
use artalk.Dao.Write.{update_page}
use artalk.Server.{Request, success}
use artalk.Server.Auth.{Crypto, check_is_admin_req}
use artalk.Server.Auth.Access.{IsLogin}
use artalk.Server.CommentCreate.Checked.{
  check_is_admin_req-Reads, check_is_admin_req-IsLogin, check_site_exist-Reads,
}
use artalk.Server.Site.{check_site_exist}
use artalk.Server.Pages.{
  ParamsPageUpdate, keyed, rename_page, save_page, update_found_page, page_update,
}

-- The comments of one key, in whatever site, with another key, and all other comments.
abbrev pub rekeyed : String → String → List Comment → List Comment
rekeyed old new l = map (λ (c : Comment). if str_eq c.page_key old then keyed new c else c) l

rekeyed-same : (key : String) (l : List Comment) → rekeyed key key l ≡ l
rekeyed-same key [] = refl
rekeyed-same key (c ∷ l) = ground (arith, eq_iff c.page_key key, rekeyed-same key l)

-- Only comments and the cache have changed.
record MovedComments {B : Backend} (old new : String) (d d' : Dao B) : Type 0 where
  pub comments : all_comments d' ≡ rekeyed old new (all_comments d)
  pub only : d' ≡ record d { comments = d'.comments; cache = d'.cache }

-- The page `x` was saved as `s`.
pub record Rekeyed {B : Backend} (p : ParamsPageUpdate) (x s : Page) (d d' : Dao B) : Type 0 where
  pub saved_as : s ≡ record x { key = p.key; title = p.title; admin_only = p.admin_only }
  pub comments : all_comments d' ≡ rekeyed x.key p.key (all_comments d)
  pub row :
      any (λ (y : Page). y.id == x.id) (all_pages d) ≡ true
      → all_pages d' ≡ map (λ (y : Page). if y.id == x.id then s else y) (all_pages d)
  pub only : d' ≡ record d { comments = d'.comments; pages = d'.pages; cache = d'.cache }

module _ {B : Backend} (keeps_comments : Stores B.comments) where
  rename_page-MovedComments :
      (old new : String) (d : Dao B) → MovedComments old new d (rename_page old new d)
  unfolding rename_page
  rename_page-MovedComments old new d =
      let comments = filter (λ c. str_eq c.page_key old) (all_comments d) in
      let (only, rows) = update_comments-rows (keyed new) comments d in
      record {
        comments =
            ap B.comments.select rows
            ∙ saved_each-filter B.comments (keyed new) (λ c. refl) keeps_comments
                (λ c. str_eq c.page_key old) d.comments;
        only = only;
      }

  -- Whether the key is new or not.
  renamed-MovedComments :
      (old new : String) (d : Dao B)
      → MovedComments old new d (if not (str_eq new old) then rename_page old new d else d)
  renamed-MovedComments old new d = elim (Bool-cases (str_eq new old)) [
    | inr other ↦ rw other (rename_page-MovedComments old new d)
    | inl same ↦
        let it : new ≡ old = ground (arith, same, eq_iff new old) in
        rw (same, it) (record { comments = sym (rekeyed-same old (all_comments d)); only = refl })
  ]

  save_page-Rekeyed :
      (p : ParamsPageUpdate) (x s : Page) (d d' : Dao B)
      → save_page p x d ≡ (success s, d')
      → Rekeyed p x s d d'
  unfolding save_page update_page
  save_page-Rekeyed p x s d d' e =
      let d₁ = (cache_action (page_cache_del B.store x) d).1 in
      let forgot = cache_action-SameTables (page_cache_del B.store x) d in
      let d₂ = if not (str_eq p.key x.key) then rename_page x.key p.key d₁ else d₁ in
      let moved : MovedComments x.key p.key d₁ d₂ = renamed-MovedComments x.key p.key d₁ in
      let changed : Page = record x { key = p.key; title = p.title; admin_only = p.admin_only } in
      let pages₂ : d₂.pages ≡ d.pages =
        ap (λ (z : Dao B). z.pages) moved.only ∙ ap (λ (z : Dao B). z.pages) forgot in
      elim (Option-cases (B.pages.save changed d₂.pages)) [
        | inl failed ↦ absurd (ground (arith, ap (λ q. q.0) e, failed))
        | inr (rows, put) ↦
            let d₃ = record d₂ { pages = rows } in
            let saved = cache_action-SameTables (page_cache_save B.store changed) d₃ in
            let is : changed ≡ s = ground (arith, ap (λ q. q.0) e, put) in
            let end_ : d' ≡ (cache_action (page_cache_save B.store changed) d₃).1 =
              ground (arith, ap (λ q. q.1) e, put) in
            let last : SameTables d₃ d' = subst (SameTables d₃) (sym end_) saved in
            let same_rest : Dao B → Dao B =
              λ z. record z { comments = d'.comments; pages = d'.pages; cache = d'.cache } in
            record {
              saved_as = sym is;
              comments =
                  ap (λ (z : Dao B). all_comments z) last
                  ∙ moved.comments
                  ∙ ap (λ (z : Dao B). rekeyed x.key p.key (all_comments z)) forgot;
              row = λ held.
                  ap (λ (z : Dao B). all_pages z) last
                  ∙ B.pages.save_select changed d₂.pages rows
                      (ap (λ r. any (λ (y : Page). y.id == x.id) (B.pages.select r)) pages₂ ∙ held)
                      put
                  ∙ ap
                      (λ r.
                        map (λ (y : Page). if y.id == x.id then changed else y) (B.pages.select r))
                      pages₂
                  ∙ ap (λ z. map (λ (y : Page). if y.id == x.id then z else y) (all_pages d)) is;
              only = ap same_rest last ∙ ap same_rest moved.only ∙ ap same_rest forgot;
            }
      ]

  -- A call that only reads before.
  Rekeyed-read :
      (p : ParamsPageUpdate) (x s : Page) (d d₁ d' : Dao B)
      → SameTables d d₁
      → Rekeyed p x s d₁ d'
      → Rekeyed p x s d d'
  Rekeyed-read p x s d d₁ d' same h =
      let same_rest : Dao B → Dao B =
        λ z. record z { comments = d'.comments; pages = d'.pages; cache = d'.cache } in
      record {
        saved_as = h.saved_as;
        comments = h.comments ∙ ap (λ (z : Dao B). rekeyed x.key p.key (all_comments z)) same;
        row = λ held.
            h.row (ap (λ (z : Dao B). any (λ (y : Page). y.id == x.id) (all_pages z)) same ∙ held)
            ∙ ap (λ (z : Dao B). map (λ (y : Page). if y.id == x.id then s else y) (all_pages z))
                same;
        only = h.only ∙ ap same_rest same;
      }

  find_page_by_id-Reads : (id : ℕ) (d : Dao B) → Reads d (find_page_by_id id d).1
  unfolding find_page_by_id
  find_page_by_id-Reads id d =
      query-Reads (Key.page_by_id id) decode_page Value.page
        (λ z. first_or empty_page (λ y. y.id == id) (all_pages z)) d refl

  update_found_page-Rekeyed :
      (p : ParamsPageUpdate) (x s : Page) (d d' : Dao B)
      → update_found_page p x d ≡ (success s, d')
      → (x.id ≢ 0) × Rekeyed p x s d d'
  unfolding update_found_page
  update_found_page-Rekeyed p x s d d' e =
      let (other, d₁) = find_page p.key x.site_name d in
      let read = find_page-Reads p.key x.site_name d in
      elim (Bool-cases (page_is_empty x)) [
        | inl empty ↦ absurd (ground (arith, e, empty))
        | inr stored ↦ elim (Bool-cases (str_eq p.key x.key)) [
          | inr new_ ↦
              let end_ : save_page p x d₁ ≡ (success s, d') = ground (arith, e, stored, new_) in
              (
                ground (arith, stored),
                Rekeyed-read p x s d d₁ d' read.same (save_page-Rekeyed p x s d₁ d' end_),
              )
          | inl old_ ↦
              let end_ : save_page p x d ≡ (success s, d') = ground (arith, e, stored, old_) in
              (ground (arith, stored), save_page-Rekeyed p x s d d' end_)
        ]
      ]

  -- If the database accepts every save of a comment and PageUpdate answers with a page, the
  -- request has the token of an administrator, and the page that was found has the key and the
  -- title of the request, and its row as well, if there is one; but every comment that had its
  -- old key has the new one, also the comments of pages with the same key in other sites. All
  -- else is as it was.
  pub page_update-Rekeyed :
      (K : Crypto) (p : ParamsPageUpdate) (id : ℕ) (r : Request) (s : Page) (d d' : Dao B)
      → page_update K p id r d ≡ (success s, d')
      → let d₁ = (check_is_admin_req K r d).1 in
        let x = (find_page_by_id id (check_site_exist p.site_name d₁).1).0 in
        ((user : User) × IsLogin K r d user × (user.is_admin ≡ true))
        × (x.id ≢ 0)
        × Rekeyed p x s d d'
  unfolding page_update
  page_update-Rekeyed K p id r s d d' e =
      let (is_admin, d₁) = check_is_admin_req K r d in
      let (no_site, d₂) = check_site_exist p.site_name d₁ in
      let (x, d₃) = find_page_by_id id d₂ in
      let r₁ = check_is_admin_req-Reads K r d in
      let r₂ = Reads-trans d d₁ d₂ r₁ (check_site_exist-Reads p.site_name d₁) in
      let r₃ = Reads-trans d d₂ d₃ r₂ (find_page_by_id-Reads id d₂) in
      elim (Bool-cases is_admin) [
        | inr guest ↦ absurd (ground (arith, e, guest))
        | inl admin ↦ elim (Option-cases no_site) [
          | inr (status, refused) ↦ absurd (ground (arith, e, admin, refused))
          | inl on_site ↦
              let (stored, done) =
                update_found_page-Rekeyed p x s d₃ d' (ground (arith, e, admin, on_site)) in
              (
                check_is_admin_req-IsLogin K r d admin,
                stored,
                Rekeyed-read p x s d d₃ d' r₃.same done,
              )
        ]
      ]
