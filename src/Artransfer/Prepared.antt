-- ===== src/Artransfer/Prepared.antt =====
-- What the preparation of a file yields where no comment is skipped: an entity for each comment.
use artalk.Prelude.{
  Bool-cases, ℕ, suc, ◌<◌, Bool, true, false, not, ◌&&◌, Option, none, some, List, [], ◌∷◌, All,
  ◌≡◌, refl, sym, ap, ◌∙◌, subst, arith, ==_refl, Option-cases, inl, inr, String, str_eq,
  if◌then◌else◌, trim_space,
}
use artalk.Prelude.Result.{Result, ok}
use artalk.Entity.{User, Comment, Page, Site}
use artalk.Backend.{Backend}
use artalk.Dao.{Dao, Act, DbError, ◌>>=◌}
use artalk.Dao.Steps.{>>=-eq-ok}
use artalk.Dao.Create.{Texts}
use artalk.Artransfer.{Artran, ImportParams, Formats, is_true}
use artalk.Artransfer.Ids.{GenIdMap}
use artalk.Artransfer.Prepare.{
  or_text, prepare_site, page_key_of, prepare_page, prepare_user, comment_of, site_name_of,
  prepare_comment, comment_on_site, comment_on_page, insert_site_row, save_site_row, save_page_row,
  save_user_row, first_or_create_page, first_or_create_user, give_badge,
}
use artalk.Artransfer.Import.{Dates, keep, put_date, prepare_all}
use artalk.Artransfer.Placed.{IsPlaced, prepare_page-key, prepare_site-name}
use artalk.Artransfer.Rows.{Beside}

-- The import does not skip the comment: it has a site and a page.
abbrev pub is_kept : ImportParams → Artran → Bool
is_kept p c =
    not (str_eq (trim_space (or_text p.target_site_name c.site_name)) "")
    && not (str_eq (trim_space c.page_key) "")

module _ {B : Backend} where
  prepare_site-comments :
      (name urls : String) (d : Dao B) → (prepare_site name urls d).1.comments ≡ d.comments
  unfolding prepare_site insert_site_row save_site_row
  prepare_site-comments name urls d = ground arith

  prepare_page-comments :
      (key title site_name : String) (admin_only : Bool) (d : Dao B)
      → (prepare_page key title site_name admin_only d).1.comments ≡ d.comments
  unfolding prepare_page first_or_create_page save_page_row
  prepare_page-comments key title site_name admin_only d = ground arith

  prepare_user-comments :
      (T : Texts) (c : Artran) (d : Dao B) → (prepare_user T c d).1.comments ≡ d.comments
  unfolding prepare_user first_or_create_user give_badge save_user_row
  prepare_user-comments T c d = ground arith

module _ (F : Formats) (T : Texts) (p : ImportParams) (ids roots : GenIdMap) where
  abbrev pub IsMade : Artran → Comment → Type 0
  IsMade c x =
      (site : Site) × (page : Page) × (user : User) × (x
        ≡ comment_of F T p ids roots c site page user)
      × IsPlaced F p c site page

  abbrev Named : Artran → Site → Type 0
  Named c site =
      site.name
      ≡ trim_space (if str_eq p.target_site_name "" then c.site_name else p.target_site_name)

  -- The dates of the comments from the index `i` on.
  abbrev pub IsDated : ℕ → List Artran → Dates → Type 0
  IsDated i [] dates = Unit
  IsDated i (c ∷ rest) dates = (dates i ≡ F.parse_date c.created_at) × IsDated (suc i) rest dates

  IsDated-put :
      {A : Type 0} (i j : ℕ) (rest : List Artran) (o : Option A) (t : ℕ) (dates : Dates)
      → i < j
      → IsDated j rest dates
      → IsDated j rest (put_date o i t dates)
  IsDated-put {A} i j [] o t dates lt h = tt
  IsDated-put {A} i j (c ∷ rest) none t dates lt h =
      (h.0, IsDated-put {A = A} i (suc j) rest none t dates (omega arith) h.1)
  IsDated-put {A} i j (c ∷ rest) (some x) t dates lt h =
      (ground (arith, h.0), IsDated-put i (suc j) rest (some x) t dates (omega arith) h.1)

  module _ {B : Backend} where
    comment_on_page-IsMade :
        (c : Artran) (site : Site) (key : String) (d : Dao B) (made : Option Comment)
        → Named c site
        → page_key_of F p c.page_key ≡ some key
        → (comment_on_page F T p ids roots c site key d).0 ≡ ok made
        → (x : Comment) × (made ≡ some x)
          × IsMade c x
          × ((comment_on_page F T p ids roots c site key d).1.comments ≡ d.comments)
    unfolding comment_on_page
    comment_on_page-IsMade c site key d made named keyed e =
        let admin_only = is_true c.page_admin_only in
        let (page, e₀, e₁, is₁) =
          >>=-eq-ok (prepare_page key c.page_title site.name admin_only) _ d made e in
        let d₁ = (prepare_page key c.page_title site.name admin_only d).1 in
        let (user, _, e₂, is₂) = >>=-eq-ok (prepare_user T c) _ d₁ made e₁ in
        let d₂ = (prepare_user T c d₁).1 in
        (
          comment_of F T p ids roots c site page user,
          ground (arith, e₂),
          (
            site,
            page,
            user,
            refl,
            record {
              name = named;
              key = (key, keyed, prepare_page-key key c.page_title site.name admin_only d page e₀);
            },
          ),
          ap (λ (y : Result _ _ × Dao B). y.1.comments) (is₁ ∙ is₂)
              ∙ prepare_user-comments T c d₁
              ∙ prepare_page-comments key c.page_title site.name admin_only d,
        )

    comment_on_site-IsMade :
        (c : Artran) (site : Site) (d : Dao B) (made : Option Comment)
        → is_kept p c ≡ true
        → Named c site
        → (comment_on_site F T p ids roots c site d).0 ≡ ok made
        → (x : Comment) × (made ≡ some x)
          × IsMade c x
          × ((comment_on_site F T p ids roots c site d).1.comments ≡ d.comments)
    comment_on_site-IsMade c site d made kept named e =
        let paged : str_eq (trim_space c.page_key) "" ≡ false = ground (arith, kept) in
        elim (Option-cases (page_key_of F p c.page_key)) [
          | inl refused ↦ absurd (unfold comment_on_site in ground (arith, e, paged, refused))
          | inr (key, found) ↦
              let is : comment_on_site F T p ids roots c site d
                  ≡ comment_on_page F T p ids roots c site key d =
                (unfold comment_on_site in rw paged (rw found refl)) in
              let (x, some_x, parts, same) =
                comment_on_page-IsMade c site key d made named found
                  (ap (λ (y : Result _ _ × Dao B). y.0) (sym is) ∙ e) in
              (
                x,
                some_x,
                parts,
                ap (λ (y : Result _ (Option Comment) × Dao B). y.1.comments) is ∙ same,
              )
        ]

    pub prepare_comment-IsMade :
        (c : Artran) (d : Dao B) (made : Option Comment)
        → is_kept p c ≡ true
        → (prepare_comment F T p ids roots c d).0 ≡ ok made
        → (x : Comment) × (made ≡ some x)
          × IsMade c x
          × ((prepare_comment F T p ids roots c d).1.comments ≡ d.comments)
    prepare_comment-IsMade c d made kept e =
        let name = site_name_of F T p ids roots c in
        let urls = trim_space (or_text p.target_site_url c.site_urls) in
        let named : str_eq name "" ≡ false = ground (arith, kept) in
        let chain = prepare_site name urls >>= comment_on_site F T p ids roots c in
        let is : prepare_comment F T p ids roots c d ≡ chain d =
          (unfold prepare_comment in rw named refl) in
        let is_name : name
            ≡ trim_space
                (if str_eq p.target_site_name "" then c.site_name else p.target_site_name) =
          ground arith in
        let (site, e₀, e₁, is₁) =
          >>=-eq-ok (prepare_site name urls) (comment_on_site F T p ids roots c) d made
            (ap (λ (y : Result _ _ × Dao B). y.0) (sym is) ∙ e) in
        let d₁ = (prepare_site name urls d).1 in
        let (x, some_x, parts, same) =
          comment_on_site-IsMade c site d₁ made kept
            (prepare_site-name name urls d site e₀ ∙ is_name) e₁ in
        (
          x,
          some_x,
          parts,
          ap (λ (y : Result _ (Option Comment) × Dao B). y.1.comments) (is ∙ is₁)
              ∙ same
              ∙ prepare_site-comments name urls d,
        )

    -- A comment without a site or a page is skipped.
    pub prepare_comment-skipped :
        (c : Artran) (d : Dao B) (made : Option Comment)
        → is_kept p c ≡ false
        → (prepare_comment F T p ids roots c d).0 ≡ ok made
        → (made ≡ none) × ((prepare_comment F T p ids roots c d).1.comments ≡ d.comments)
    prepare_comment-skipped c d made skipped e =
        let name = site_name_of F T p ids roots c in
        let urls = trim_space (or_text p.target_site_url c.site_urls) in
        let chain : Act B (Option Comment) =
          prepare_site name urls >>= comment_on_site F T p ids roots c in
        elim (Bool-cases (str_eq name "")) [
          | inl nameless ↦
              let is : prepare_comment F T p ids roots c d ≡ (ok none, d) =
                (unfold prepare_comment in rw nameless refl) in
              let none_ : ◌≡◌ {A = Result DbError (Option Comment)} (ok none) (ok made) =
                sym (ap (λ (y : Result _ (Option Comment) × Dao B). y.0) is) ∙ e in
              (cc (none_), ap (λ (y : Result _ (Option Comment) × Dao B). y.1.comments) is)
          | inr named ↦
              let pageless : str_eq (trim_space c.page_key) "" ≡ true =
                ground (arith, skipped, named) in
              let is : prepare_comment F T p ids roots c d ≡ chain d =
                (unfold prepare_comment in rw named refl) in
              let (site, _, e₁, is₁) =
                >>=-eq-ok (prepare_site name urls) (comment_on_site F T p ids roots c) d made
                  (ap (λ (y : Result _ _ × Dao B). y.0) (sym is) ∙ e) in
              let d₁ = (prepare_site name urls d).1 in
              let off : comment_on_site F T p ids roots c site d₁ ≡ (ok none, d₁) =
                (unfold comment_on_site in rw pageless refl) in
              let none_ : ◌≡◌ {A = Result DbError (Option Comment)} (ok none) (ok made) =
                sym (ap (λ (y : Result _ (Option Comment) × Dao B). y.0) off) ∙ e₁ in
              (
                cc (none_),
                ap (λ (y : Result _ (Option Comment) × Dao B). y.1.comments) (is ∙ is₁ ∙ off)
                    ∙ prepare_site-comments name urls d,
              )
        ]

    -- Each comment yields an entity, and no row of the table of comments changes.
    pub prepare_all-IsMade :
        (i : ℕ) (comments : List Artran) (d : Dao B) (prepared : List Comment × Dates)
        → All (λ c. is_kept p c ≡ true) comments
        → (prepare_all F T p ids roots i comments d).0 ≡ ok prepared
        → Beside IsMade comments prepared.0
          × IsDated i comments prepared.1
          × ((prepare_all F T p ids roots i comments d).1.comments ≡ d.comments)
    unfolding prepare_all
    prepare_all-IsMade i [] d prepared kept e =
        let same : ([], λ _. 0) ≡ prepared = cc (e) in
        subst
          (λ (q : List Comment × Dates).
            Beside IsMade [] q.0 × IsDated i [] q.1 × (d.comments ≡ d.comments))
          same (tt, tt, refl)
    prepare_all-IsMade i (c ∷ rest) d prepared kept e =
        let above : i < suc i = omega arith in
        let (made, e₀, e₁, is₁) = >>=-eq-ok (prepare_comment F T p ids roots c) _ d prepared e in
        let d₁ = (prepare_comment F T p ids roots c d).1 in
        let (others, e₂, e₃, is₂) =
          >>=-eq-ok (prepare_all F T p ids roots (suc i) rest) _ d₁ prepared e₁ in
        let (x, some_x, parts, same) = prepare_comment-IsMade c d made kept.0 e₀ in
        let (below, dated, same') = prepare_all-IsMade (suc i) rest d₁ others kept.1 e₂ in
        let dates = put_date (some x) i (F.parse_date c.created_at) others.1 in
        let made_x : (keep made others.0, put_date made i (F.parse_date c.created_at) others.1)
            ≡ (x ∷ others.0, dates) =
          ap
            (λ (o : Option Comment).
              (keep o others.0, put_date o i (F.parse_date c.created_at) others.1))
            some_x in
        let whole : (x ∷ others.0, dates) ≡ prepared = sym made_x ∙ cc (e₃) in
        let here : dates i ≡ F.parse_date c.created_at = rw (==_refl i) refl in
        let (beside, times) =
          subst
            (λ (q : List Comment × Dates). Beside IsMade (c ∷ rest) q.0 × IsDated i (c ∷ rest) q.1)
            whole
            (
              (parts, below),
              (
                here,
                IsDated-put i (suc i) rest (some x) (F.parse_date c.created_at) others.1 above
                    dated,
              ),
            ) in
        (
          beside,
          times,
          ap (λ (y : Result _ (List Comment × Dates) × Dao B). y.1.comments) (is₁ ∙ is₂)
              ∙ same'
              ∙ same,
        )
