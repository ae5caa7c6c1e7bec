-- ===== src/Server/CommentCreate/Checked.antt =====
-- What a request went through before its comment is stored.
use artalk.Prelude.{
  ◌==◌, Bool, true, false, not, ◌&&◌, ◌||◌, none, String, str_eq, ◌≡◌, ◌≢◌, sym, ap, ◌∙◌, arith,
  Bool-cases, Option-cases, inl, inr, eq_iff, trim_space, subst,
}
use artalk.Prelude.Result.{ok, Result-cases}
use artalk.Entity.{User, Comment}
use artalk.Ban.{is_email_banned}
use artalk.Backend.{Backend}
use artalk.Dao.{Dao, all_comments}
use artalk.Dao.Coherence.{IsCoherent, SameTables, SameTables-trans, row_of, find_comment-IsCoherent}
use artalk.Dao.Create.{Texts, validate_url, is_admin_user_by_name_email}
use artalk.Dao.Find.{find_comment, find_page, find_site, find_user_by_id}
use artalk.Dao.Reading.{
  Reads, Reads-refl, Reads-trans, find_page-Reads, find_site-Reads, find_user_by_id-Reads,
}
use artalk.Server.{Request}
use artalk.Server.Auth.{Crypto, get_user_by_req, get_jwt_data_by_req, check_is_admin_req}
use artalk.Server.Auth.Access.{IsLogin, get_user_by_req-eq-ok}
use artalk.Server.Site.{check_site_exist}
use artalk.Server.CommentCreate.{
  ParamsCommentCreate, Conf, parent_status, is_allow_comment, check_parent, check_request,
}

module _ (K : Crypto) {B : Backend} (r : Request) (d : Dao B) where
  pub get_user_by_req-Reads : Reads d (get_user_by_req K r d).1
  unfolding get_user_by_req
  get_user_by_req-Reads = elim (Result-cases (get_jwt_data_by_req K r)) [
    | inr (x, e) ↦
        let step : (get_user_by_req K r d).1 ≡ d = ground (arith, e) in
        subst (λ y. Reads d y) (sym step) (Reads-refl d)
    | inl (c, e) ↦
        let step : (get_user_by_req K r d).1 ≡ (find_user_by_id c.user_id d).1 =
          ground (arith, e) in
        subst (λ y. Reads d y) (sym step) (find_user_by_id-Reads c.user_id d)
  ]

  pub check_is_admin_req-Reads : Reads d (check_is_admin_req K r d).1
  unfolding check_is_admin_req
  check_is_admin_req-Reads = get_user_by_req-Reads

  -- An administrator was taken from the token.
  pub check_is_admin_req-IsLogin :
      (check_is_admin_req K r d).0 ≡ true
      → (user : User) × IsLogin K r d user × (user.is_admin ≡ true)
  unfolding check_is_admin_req
  check_is_admin_req-IsLogin h = elim (Result-cases (get_user_by_req K r d).0) [
    | inr (x, e) ↦ absurd (ground (arith, h, e))
    | inl (u, e) ↦ (u, get_user_by_req-eq-ok K r d u e, ground (arith, h, e))
  ]

-- A comment takes replies from the page that it is on.
pub record TakesReply (page_key : String) (parent : Comment) : Type 0 where
  pub stored : parent.id ≢ 0
  pub same_page : parent.page_key ≡ page_key
  pub approved : parent.is_pending ≡ false
  pub open_ : parent.is_collapsed ≡ false

parent_status-TakesReply :
    (p : ParamsCommentCreate) (parent : Comment)
    → parent_status p parent ≡ none
    → TakesReply p.page_key parent
unfolding parent_status
parent_status-TakesReply p parent h = record {
  stored = ground (arith, h);
  same_page = ground (arith, h, eq_iff parent.page_key p.page_key);
  approved = ground (arith, h);
  open_ = ground (arith, h);
}

module _ {B : Backend} where
  pub check_site_exist-Reads : (name : String) (d : Dao B) → Reads d (check_site_exist name d).1
  unfolding check_site_exist
  check_site_exist-Reads name d = elim (Bool-cases (str_eq (trim_space name) "")) [
    | inl no_name ↦
        let step : (check_site_exist name d).1 ≡ d = ground (arith, no_name) in
        subst (λ y. Reads d y) (sym step) (Reads-refl d)
    | inr named ↦
        let step : (check_site_exist name d).1 ≡ (find_site (trim_space name) d).1 =
          ground (arith, named) in
        subst (λ y. Reads d y) (sym step) (find_site-Reads (trim_space name) d)
  ]

module _ (T : Texts) (K : Crypto) (conf : Conf) {B : Backend} where
  -- What lets a comment pass: where only administrators may write, one sent it.
  is_allow_comment-Reads :
      (p : ParamsCommentCreate) (r : Request) (admin_only : Bool) (d : Dao B)
      → (is_allow_comment T K conf p r admin_only d).0 ≡ none
      → Reads d (is_allow_comment T K conf p r admin_only d).1
  unfolding is_allow_comment
  is_allow_comment-Reads p r admin_only d h =
      let d₁ = (check_is_admin_req K r d).1 in
      elim (Bool-cases (is_admin_user_by_name_email T p.name p.email d || admin_only)) [
        | inl guarded ↦
            let step : (is_allow_comment T K conf p r admin_only d).1 ≡ (get_user_by_req K r d₁).1 =
              ground (arith, guarded, h) in
            subst (λ y. Reads d y) (sym step)
              (Reads-trans d d₁ _ (check_is_admin_req-Reads K r d) (get_user_by_req-Reads K r d₁))
        | inr free ↦
            let step : (is_allow_comment T K conf p r admin_only d).1 ≡ (get_user_by_req K r d).1 =
              ground (arith, free, h) in
            subst (λ y. Reads d y) (sym step) (get_user_by_req-Reads K r d)
      ]

  check_parent-TakesReply :
      (p : ParamsCommentCreate) (d : Dao B)
      → IsCoherent d
      → (check_parent T K conf p d).0 ≡ none
      → SameTables d (check_parent T K conf p d).1
        × IsCoherent (check_parent T K conf p d).1
        × (p.rid ≢ 0 → TakesReply p.page_key (row_of p.rid (all_comments d)))
  unfolding check_parent
  check_parent-TakesReply p d c h = elim (Bool-cases (p.rid == 0)) [
    | inl root ↦
        let step : (check_parent T K conf p d).1 ≡ d = ground (arith, root) in
        (
          step ∙ ap (λ (x : Dao B). record d { cache = x.cache }) (sym step),
          subst (λ y. IsCoherent y) (sym step) c,
          λ reply. absurd (ground (arith, root, reply)),
        )
    | inr reply ↦
        let (row, same, c') = find_comment-IsCoherent p.rid d c in
        let step : (check_parent T K conf p d).1 ≡ (find_comment p.rid d).1 =
          ground (arith, reply) in
        let taken =
          parent_status-TakesReply p (find_comment p.rid d).0 (ground (arith, reply, h)) in
        (
          subst (λ y. SameTables d y) (sym step) same,
          subst (λ y. IsCoherent y) (sym step) c',
          λ _. subst (λ x. TakesReply p.page_key x) row taken,
        )
  ]

-- What is known once a request passed the checks, which changed nothing but the cache.
pub record Passed {B : Backend} (K : Crypto) (p : ParamsCommentCreate) (r : Request)
    (is_admin : Bool) (d d' : Dao B) : Type 0 where
  pub same : SameTables d d'
  pub coherent : IsCoherent d'
  pub taken : p.rid ≢ 0 → TakesReply p.page_key (row_of p.rid (all_comments d))
  pub admin :
      is_admin ≡ true
      → (user : User) × (d₀ : Dao B) × SameTables d d₀
        × IsLogin K r d₀ user
        × (user.is_admin ≡ true)

module _ (T : Texts) (K : Crypto) (conf : Conf) {B : Backend} where
  pub check_request-Passed :
      (p : ParamsCommentCreate) (r : Request) (is_admin : Bool) (d d' : Dao B)
      → IsCoherent d
      → check_request T K conf p r d ≡ (ok is_admin, d')
      → Passed K p r is_admin d d'
  unfolding check_request
  check_request-Passed p r is_admin d d' c e =
      let d₁ = (check_is_admin_req K r d).1 in
      let site = check_site_exist p.site_name d₁ in
      let d₂ = site.1 in
      let admin = check_is_admin_req K r d₂ in
      let d₃ = admin.1 in
      let page = find_page p.page_key p.site_name d₃ in
      let d₄ = page.1 in
      let allowed = is_allow_comment T K conf p r page.0.admin_only d₄ in
      let d₅ = allowed.1 in
      let parent = check_parent T K conf p d₅ in
      elim (Bool-cases
        (not (T.is_email p.email) || (not (str_eq p.link "") && not (validate_url T p.link)))) [
          | inl malformed ↦ absurd (ground (arith, e, malformed))
          | inr formed ↦
              elim (Bool-cases
                (not (check_is_admin_req K r d).0 && is_email_banned T.lower conf.banned p.email)) [
                  | inl banned ↦ absurd (ground (arith, e, formed, banned))
                  | inr welcome ↦ elim (Option-cases site.0) [
                    | inr (x, no_site) ↦ absurd (ground (arith, e, formed, welcome, no_site))
                    | inl on_site ↦ elim (Option-cases allowed.0) [
                      | inr (x, refused) ↦
                          absurd (ground (arith, e, formed, welcome, on_site, refused))
                      | inl allow ↦ elim (Option-cases parent.0) [
                        | inr (x, no_parent) ↦
                            absurd (ground (arith, e, formed, welcome, on_site, allow, no_parent))
                        | inl fits ↦
                            let r₁ = check_is_admin_req-Reads K r d in
                            let r₂ =
                              Reads-trans d d₁ d₂ r₁ (check_site_exist-Reads p.site_name d₁) in
                            let r₃ = Reads-trans d d₂ d₃ r₂ (check_is_admin_req-Reads K r d₂) in
                            let r₄ =
                              Reads-trans d d₃ d₄ r₃ (find_page-Reads p.page_key p.site_name d₃) in
                            let r₅ =
                              Reads-trans d d₄ d₅ r₄
                                (is_allow_comment-Reads T K conf p r page.0.admin_only d₄ allow) in
                            let (same, c₆, takes) =
                              check_parent-TakesReply T K conf p d₅ (r₅.coherent c) fits in
                            let last : parent.1 ≡ d' =
                              ground (arith, e, formed, welcome, on_site, allow, fits) in
                            let answer : admin.0 ≡ is_admin =
                              ground (arith, e, formed, welcome, on_site, allow, fits) in
                            record {
                              same =
                                  subst (λ y. SameTables d y) last
                                    (SameTables-trans d d₅ parent.1 r₅.same same);
                              coherent = subst (λ y. IsCoherent y) last c₆;
                              taken = λ reply.
                                  subst (λ l. TakesReply p.page_key (row_of p.rid l))
                                    (ap (λ (x : Dao B). all_comments x) r₅.same) (takes reply);
                              admin = λ yes.
                                  let (u, login, rights) =
                                    check_is_admin_req-IsLogin K r d₂ (answer ∙ yes) in
                                  (u, d₂, r₂.same, login, rights);
                            }
                      ]
                    ]
                  ]
                ]
        ]
