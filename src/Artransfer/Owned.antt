-- ===== src/Artransfer/Owned.antt =====
-- The authors of the comments that an import (internal/artransfer/importer.go) prepares, in the table
-- of users.
use artalk.Prelude.{
  ℕ, suc, Bool, true, false, Option, some, List, [], ◌∷◌, All, ◌≡◌, refl, sym, ap, ◌∙◌, subst,
  arith, Option-cases, inl, inr, String, str_eq, trim_space,
}
use artalk.Prelude.Result.{Result, ok}
use artalk.Entity.{Comment, Site}
use artalk.Backend.{Backend}
use artalk.Dao.{Dao, Act, all_users, ◌>>=◌}
use artalk.Dao.Create.{Texts}
use artalk.Dao.Steps.{>>=-eq-ok}
use artalk.Artransfer.{Artran, ImportParams, Formats, is_true}
use artalk.Artransfer.Authors.{prepare_user-IsOwner}
use artalk.Artransfer.Ids.{GenIdMap}
use artalk.Artransfer.Import.{Dates, keep, put_date, prepare_all}
use artalk.Artransfer.Owners.{IsOwner, AllKept, AllKept-refl, AllKept-trans, IsOwner-AllKept}
use artalk.Artransfer.Prepare.{
  or_text, prepare_site, page_key_of, prepare_page, prepare_user, comment_of, site_name_of,
  prepare_comment, comment_on_site, comment_on_page, insert_site_row, save_site_row, save_page_row,
  first_or_create_page,
}
use artalk.Artransfer.Prepared.{is_kept, prepare_comment-IsMade}
use artalk.Artransfer.Rows.{Beside}

module _ {B : Backend} where
  prepare_site-users :
      (name urls : String) (d : Dao B) → (prepare_site name urls d).1.users ≡ d.users
  unfolding prepare_site insert_site_row save_site_row
  prepare_site-users name urls d = ground arith

  prepare_page-users :
      (key title site_name : String) (admin_only : Bool) (d : Dao B)
      → (prepare_page key title site_name admin_only d).1.users ≡ d.users
  unfolding prepare_page first_or_create_page save_page_row
  prepare_page-users key title site_name admin_only d = ground arith

  pub AllKept-same : (d d' : Dao B) → d'.users ≡ d.users → AllKept (all_users d) (all_users d')
  AllKept-same d d' same =
      subst (λ l. AllKept (all_users d) l) (sym (ap (λ r. B.users.select r) same))
        (AllKept-refl (all_users d))

module _ (F : Formats) (T : Texts) (p : ImportParams) (ids roots : GenIdMap) {B : Backend} where
  -- What a step from `d` to `d'` that makes the entity `made` does to users.
  abbrev Owned : Artran → Option Comment → Dao B → Dao B → Type 0
  Owned c made d d' =
      ((x : Comment) → made ≡ some x → IsOwner T c d' x.user_id)
      × AllKept (all_users d) (all_users d')

  Owned-after :
      (c : Artran) (made : Option Comment) (d d₁ d' : Dao B)
      → d₁.users ≡ d.users
      → Owned c made d₁ d'
      → Owned c made d d'
  Owned-after c made d d₁ d' same (owner, kept) =
      (owner, AllKept-trans (all_users d) (all_users d₁) _ (AllKept-same d d₁ same) kept)

  comment_on_page-Owned :
      (c : Artran) (site : Site) (key : String) (d : Dao B) (made : Option Comment)
      → (comment_on_page F T p ids roots c site key d).0 ≡ ok made
      → Owned c made d (comment_on_page F T p ids roots c site key d).1
  unfolding comment_on_page
  comment_on_page-Owned c site key d made e =
      let admin_only = is_true c.page_admin_only in
      let (page, _, e₁, is₁) =
        >>=-eq-ok (prepare_page key c.page_title site.name admin_only) _ d made e in
      let d₁ = (prepare_page key c.page_title site.name admin_only d).1 in
      let (user, e₀, e₂, is₂) = >>=-eq-ok (prepare_user T c) _ d₁ made e₁ in
      let (owner, kept) = prepare_user-IsOwner T c user d₁ e₀ in
      let last : (comment_on_page F T p ids roots c site key d).1 ≡ (prepare_user T c d₁).1 =
        ap (λ (y : Result _ (Option Comment) × Dao B). y.1) (is₁ ∙ is₂) in
      let is_made : some (comment_of F T p ids roots c site page user) ≡ made =
        ground (arith, e₂) in
      Owned-after c made d d₁ _ (prepare_page-users key c.page_title site.name admin_only d) (
        subst (λ y. Owned c made d₁ y) (sym last)
          (
            (λ x some_x.
                let is_x : comment_of F T p ids roots c site page user ≡ x = cc (is_made, some_x) in
                let own : user.id ≡ x.user_id =
                  (unfold comment_of in ap (λ (y : Comment). y.user_id) is_x) in
                subst (λ i. IsOwner T c (prepare_user T c d₁).1 i) own owner),
            kept,
          ))

  comment_on_site-Owned :
      (c : Artran) (site : Site) (d : Dao B) (made : Option Comment)
      → is_kept p c ≡ true
      → (comment_on_site F T p ids roots c site d).0 ≡ ok made
      → Owned c made d (comment_on_site F T p ids roots c site d).1
  comment_on_site-Owned c site d made kept e =
      let paged : str_eq (trim_space c.page_key) "" ≡ false = ground (arith, kept) in
      elim (Option-cases (page_key_of F p c.page_key)) [
        | inl refused ↦ absurd (unfold comment_on_site in ground (arith, e, paged, refused))
        | inr (key, found) ↦
            let is : comment_on_site F T p ids roots c site d
                ≡ comment_on_page F T p ids roots c site key d =
              (unfold comment_on_site in rw paged (rw found refl)) in
            subst (λ (y : Result _ (Option Comment) × Dao B). Owned c made d y.1) (sym is)
              (comment_on_page-Owned c site key d made
                (ap (λ (y : Result _ _ × Dao B). y.0) (sym is) ∙ e))
      ]

  prepare_comment-Owned :
      (c : Artran) (d : Dao B) (made : Option Comment)
      → is_kept p c ≡ true
      → (prepare_comment F T p ids roots c d).0 ≡ ok made
      → Owned c made d (prepare_comment F T p ids roots c d).1
  prepare_comment-Owned c d made kept e =
      let name = site_name_of F T p ids roots c in
      let urls = trim_space (or_text p.target_site_url c.site_urls) in
      let named : str_eq name "" ≡ false = ground (arith, kept) in
      let chain : Act B (Option Comment) =
        prepare_site name urls >>= comment_on_site F T p ids roots c in
      let is : prepare_comment F T p ids roots c d ≡ chain d =
        (unfold prepare_comment in rw named refl) in
      let (site, _, e₁, is₁) =
        >>=-eq-ok (prepare_site name urls) (comment_on_site F T p ids roots c) d made
          (ap (λ (y : Result _ _ × Dao B). y.0) (sym is) ∙ e) in
      let d₁ = (prepare_site name urls d).1 in
      subst (λ (y : Result _ (Option Comment) × Dao B). Owned c made d y.1) (sym (is ∙ is₁))
        (Owned-after c made d d₁ _ (prepare_site-users name urls d)
          (comment_on_site-Owned c site d₁ made kept e₁))

  -- The authors of all comments are in the table after the whole preparation.
  pub prepare_all-Owned :
      (i : ℕ) (comments : List Artran) (d : Dao B) (prepared : List Comment × Dates)
      → All (λ c. is_kept p c ≡ true) comments
      → (prepare_all F T p ids roots i comments d).0 ≡ ok prepared
      → Beside
          (λ c (x : Comment). IsOwner T c (prepare_all F T p ids roots i comments d).1 x.user_id)
          comments
          prepared.0
        × AllKept (all_users d) (all_users (prepare_all F T p ids roots i comments d).1)
  unfolding prepare_all
  prepare_all-Owned i [] d prepared kept e =
      let same : ([], λ _. 0) ≡ prepared = cc (e) in
      (
        subst
            (λ (q : List Comment × Dates).
              Beside (λ c (x : Comment). IsOwner T c d x.user_id) [] q.0)
            same tt,
        AllKept-refl (all_users d),
      )
  prepare_all-Owned i (c ∷ rest) d prepared kept e =
      let (made, e₀, e₁, is₁) = >>=-eq-ok (prepare_comment F T p ids roots c) _ d prepared e in
      let d₁ = (prepare_comment F T p ids roots c d).1 in
      let (others, e₂, e₃, is₂) =
        >>=-eq-ok (prepare_all F T p ids roots (suc i) rest) _ d₁ prepared e₁ in
      let d₂ = (prepare_all F T p ids roots (suc i) rest d₁).1 in
      let (x, some_x, _, _) = prepare_comment-IsMade F T p ids roots c d made kept.0 e₀ in
      let (owner, kept₁) = prepare_comment-Owned c d made kept.0 e₀ in
      let (owners, kept₂) = prepare_all-Owned (suc i) rest d₁ others kept.1 e₂ in
      let whole : (keep made others.0, put_date made i (F.parse_date c.created_at) others.1)
          ≡ prepared =
        cc (e₃) in
      let rows : x ∷ others.0 ≡ prepared.0 =
        ap (λ (o : Option Comment). keep o others.0) (sym some_x)
        ∙ ap (λ (q : List Comment × Dates). q.0) whole in
      let last : d₂ ≡ (prepare_all F T p ids roots i (c ∷ rest) d).1 =
        sym (ap (λ (y : Result _ (List Comment × Dates) × Dao B). y.1) (is₁ ∙ is₂)) in
      subst
        (λ (y : Dao B).
          Beside (λ a (z : Comment). IsOwner T a y z.user_id) (c ∷ rest) prepared.0
          × AllKept (all_users d) (all_users y))
        last
        (
          subst (Beside (λ a (z : Comment). IsOwner T a d₂ z.user_id) (c ∷ rest)) rows
              (IsOwner-AllKept T c d₁ d₂ x.user_id kept₂ (owner x some_x), owners),
          AllKept-trans (all_users d) (all_users d₁) _ kept₁ kept₂,
        )
