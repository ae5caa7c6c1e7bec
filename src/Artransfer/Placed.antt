-- ===== src/Artransfer/Placed.antt =====
-- The site and the page that an import finds or makes for a comment (internal/artransfer/importer.go).
use artalk.Prelude.{
  ◌==◌, Bool, true, not, some, List, [], ◌∷◌, find_first, if◌then◌else◌, String, str_eq, trim_space,
  ◌≡◌, ◌⊎◌, refl, sym, ap, ◌∙◌, arith, Bool-cases, Option-cases, inl, inr, eq_iff,
}
use artalk.Prelude.Result.{Result, ok}
use artalk.Entity.{Page, Site, empty_page, empty_site}
use artalk.Backend.{Backend}
use artalk.Dao.{Dao, Act, first_or, all_pages, all_sites, ◌>>◌, pure}
use artalk.Dao.Find.{struct_eq, page_matches}
use artalk.Dao.Steps.{>>=-eq-ok}
use artalk.Artransfer.{Artran, ImportParams, Formats}
use artalk.Artransfer.Prepare.{
  page_key_of, prepare_site, prepare_page, first_or_create_page, insert_site_row, save_site_row,
  save_page_row, merge_urls,
}

-- The comment names the site and the page: the site by its name or by the one that all comments of
-- the import get, without spaces around it, the page by the rules of the import for keys.
pub record IsPlaced (F : Formats) (p : ImportParams) (c : Artran) (site : Site) (page : Page)
    : Type 0 where
  pub name :
      site.name
      ≡ trim_space (if str_eq p.target_site_name "" then c.site_name else p.target_site_name)
  pub key : (k : String) × (page_key_of F p c.page_key ≡ some k) × ((k ≡ "") ⊎ (page.key ≡ k))

-- What is found fits, unless it is the default.
pub first_or-holds :
    {E : Type 0} (e : E) (t : E → Bool) (l : List E)
    → (first_or e t l ≡ e) ⊎ (t (first_or e t l) ≡ true)
unfolding first_or find_first
first_or-holds e t [] = inl refl
first_or-holds e t (x ∷ l) = elim (Bool-cases (t x)) [
  | inl here ↦ inr (ground (arith, here))
  | inr there ↦ elim (first_or-holds e t l) [
    | inl default ↦ inl (ground (arith, there, default))
    | inr fits ↦ inr (ground (arith, there, fits))
  ]
]

module _ {B : Backend} where
  pub prepare_site-name :
      (name urls : String) (d : Dao B) (site : Site)
      → (prepare_site name urls d).0 ≡ ok site
      → site.name ≡ name
  prepare_site-name name urls d site e =
      let s = first_or empty_site (λ (s : Site). struct_eq name s.name) (all_sites d) in
      let new : Site = record empty_site { name = name; urls = urls } in
      elim (Bool-cases (str_eq name "")) [
        | inl blank ↦ absurd (unfold prepare_site in ground (arith, e, blank))
        | inr named ↦ elim (Bool-cases (s.id == 0)) [
          | inl missing ↦ elim (Option-cases (B.sites.insert new d.sites)) [
            | inl failed ↦
                absurd
                  (unfold prepare_site insert_site_row in ground (arith, e, named, missing, failed))
            | inr ((row, rows), put) ↦
                let same : row ≡ site =
                  (unfold prepare_site insert_site_row in ground (arith, e, named, missing, put)) in
                let (k, t, stamped, _) = B.sites.insert_row new row d.sites rows put in
                ap (λ (x : Site). x.name) (sym same ∙ stamped)
          ]
          | inr there ↦
              let fits : s.name ≡ name =
                elim (first_or-holds empty_site (λ (x : Site). struct_eq name x.name)
                  (all_sites d)) [
                    | inl default ↦ absurd (ground (arith, default, there))
                    | inr found ↦ ground (arith, found, named, eq_iff s.name name)
                  ] in
              elim (Option-cases (merge_urls s.urls urls)) [
                | inl same ↦
                    let is : s ≡ site =
                      (unfold prepare_site in ground (arith, e, named, there, same)) in
                    ap (λ (x : Site). x.name) (sym is) ∙ fits
                | inr (merged, more) ↦
                    let changed : Site = record s { urls = merged } in
                    let chain : Act B Site = save_site_row changed >> pure changed in
                    let is : prepare_site name urls d ≡ chain d =
                      (unfold prepare_site in ground (arith, named, there, more)) in
                    let (_, _, last, _) =
                      >>=-eq-ok (save_site_row changed) (λ _. pure changed) d site
                        (ap (λ (y : Result _ Site × Dao B). y.0) (sym is) ∙ e) in
                    let got : changed ≡ site = cc (last) in
                    ap (λ (x : Site). x.name) (sym got) ∙ fits
              ]
        ]
      ]

  first_or_create_page-key :
      (key title site_name : String) (d : Dao B) (page : Page)
      → (first_or_create_page key title site_name d).0 ≡ ok page
      → (key ≡ "") ⊎ (page.key ≡ key)
  first_or_create_page-key key title site_name d page e =
      let s = first_or empty_page (page_matches key site_name) (all_pages d) in
      let new : Page = record empty_page { key = key; title = title; site_name = site_name } in
      elim (Bool-cases (str_eq key "")) [
        | inl blank ↦ inl (ground (arith, blank, eq_iff key ""))
        | inr keyed ↦ inr (elim (Bool-cases (s.id == 0)) [
          | inl missing ↦ elim (Option-cases (B.pages.insert new d.pages)) [
            | inl failed ↦
                absurd (unfold first_or_create_page in ground (arith, e, missing, failed))
            | inr ((row, rows), put) ↦
                let same : row ≡ page =
                  (unfold first_or_create_page in ground (arith, e, missing, put)) in
                let (k, t, stamped, _) = B.pages.insert_row new row d.pages rows put in
                ap (λ (x : Page). x.key) (sym same ∙ stamped)
          ]
          | inr there ↦
              let same : s ≡ page = (unfold first_or_create_page in ground (arith, e, there)) in
              let fits : s.key ≡ key =
                elim (first_or-holds empty_page (page_matches key site_name) (all_pages d)) [
                  | inl default ↦ absurd (ground (arith, default, there))
                  | inr found ↦ ground (arith, found, keyed, eq_iff s.key key)
                ] in
              ap (λ (x : Page). x.key) (sym same) ∙ fits
        ])
      ]

  pub prepare_page-key :
      (key title site_name : String) (admin_only : Bool) (d : Dao B) (page : Page)
      → (prepare_page key title site_name admin_only d).0 ≡ ok page
      → (key ≡ "") ⊎ (page.key ≡ key)
  unfolding prepare_page
  prepare_page-key key title site_name admin_only d page e =
      let (first, found, last, _) =
        >>=-eq-ok (first_or_create_page key title site_name) _ d page e in
      let d₁ = (first_or_create_page key title site_name d).1 in
      let changed : Page = record first { admin_only = admin_only } in
      let is_key : page.key ≡ first.key =
        elim (Bool-cases (if first.admin_only then admin_only else not admin_only)) [
          | inl same ↦
              let got : first ≡ page = ground (arith, last, same) in
              ap (λ (x : Page). x.key) (sym got)
          | inr differs ↦
              let (_, _, end_, _) =
                >>=-eq-ok (save_page_row changed) (λ _. pure changed) d₁ page
                  (ground (arith, last, differs)) in
              let got : changed ≡ page = cc (end_) in ap (λ (x : Page). x.key) (sym got)
        ] in
      elim (first_or_create_page-key key title site_name d first found) [
        | inl blank ↦ inl blank
        | inr keyed ↦ inr (is_key ∙ keyed)
      ]
