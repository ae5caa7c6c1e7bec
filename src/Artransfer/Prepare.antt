-- ===== src/Artransfer/Prepare.antt =====
-- What internal/artransfer/importer.go does for one comment of a file before comments are stored:
-- its site, page and user are found or created, in the transaction and without the cache.
use Prim.Native.Char.{code}
use artalk.Prelude.{
  ◌≡◌, refl, ◌==◌, Bool, false, not, ◌&&◌, ◌||◌, Option, none, some, [], ◌∷◌, ◌++◌, if◌then◌else◌,
  String, str_eq, trim_space, concat, any, filter, split, join, split_and_trim_space, atoi,
  strip_prefix,
}
use artalk.Prelude.Result.{ok, err}
use artalk.Entity.{
  User, Comment, Page, Site, empty_user, empty_comment, empty_page, empty_site, site_is_empty,
  page_is_empty, user_is_empty,
}
use artalk.Backend.{Backend}
use artalk.Dao.{
  Act, write_failed, invalid_argument, ◌>>=◌, ◌>>◌, pure, first_or, all_pages, all_sites, all_users,
}
use artalk.Dao.Find.{struct_eq, page_matches}
use artalk.Dao.Create.{Texts, validate_url, is_named}
use artalk.Artransfer.{Artran, ImportParams, Formats, is_true}
use artalk.Artransfer.Ids.{GenIdMap}

abbrev pub or_text : String → String → String
or_text a b = if not (str_eq a "") then a else b

-- `^https?://[^/]+`: what follows the scheme and at least one other character up to a slash.
unfoldable pub drop_host : String → String
drop_host String.[] = String.[]
drop_host (String.◌∷◌ c s) =
    let rest = drop_host s in if code c == b'/' then String.◌∷◌ c s else rest

unfoldable pub after_scheme : String → Option String
unfolding strip_prefix
after_scheme url = elim (strip_prefix "https://" url) [
  | some rest ↦ some rest
  | none ↦ strip_prefix "http://" url
]

has_host : String → Bool
has_host String.[] = false
has_host (String.◌∷◌ c s) = not (code c == b'/')

unfoldable pub strip_domain_from_url : String → String
unfolding drop_host after_scheme has_host
strip_domain_from_url full_url =
    let result : String = elim (after_scheme full_url) [
      | none ↦ full_url
      | some rest ↦ if has_host rest then drop_host rest else full_url
    ] in
    if str_eq result "" then "/" else result

strip_tests :
    (strip_domain_from_url "https://github.com/abc" ≡ "/abc")
    × (strip_domain_from_url "https://domain.com" ≡ "/")
    × (strip_domain_from_url "/some/path" ≡ "/some/path")
unfolding strip_domain_from_url
strip_tests = (refl, refl, refl)

module _ (F : Formats) where
  unfoldable pub get_resolved_page_key : String → String → String
  get_resolved_page_key base_url page_key =
      if str_eq base_url "" then page_key else (elim (F.parse_url base_url) [
        | none ↦ page_key
        | some base ↦ elim (F.parse_url page_key) [
          | none ↦ page_key
          | some comment_url ↦ F.url_string (F.resolve_reference base (F.without_host comment_url))
        ]
      ])

  -- The key of the page, or the refusal of a resolver that has no URL.
  unfoldable pub page_key_of : ImportParams → String → Option String
  unfolding get_resolved_page_key split_and_trim_space strip_domain_from_url
  page_key_of p key =
      if p.url_resolver
      then (elim (split_and_trim_space p.target_site_url ",") [
        | [] ↦ none
        | first ∷ _ ↦ some (get_resolved_page_key first key)
      ])
      else some
          (if p.url_keep_domain then trim_space key else strip_domain_from_url (trim_space key))

-- `correctUserBasicInfo`
unfoldable pub correct_user_basic_info : Texts → Artran → Artran
unfolding validate_url
correct_user_basic_info T c = record c {
  nick = if str_eq (trim_space c.nick) "" then "Anonymous" else c.nick;
  email =
      if str_eq (trim_space c.email) "" || not (T.is_email c.email)
      then "anonymous@example.org"
      else c.email;
  link =
      if not (str_eq (trim_space c.link) "") && not (validate_url T c.link)
      then concat "https://" c.link
      else c.link;
}

-- The URLs of a site with those put before them that it does not have.
unfoldable pub merge_urls : String → String → Option String
unfolding split join filter any split_and_trim_space
merge_urls urls target =
    let original = split urls "," in
    let new =
      filter (λ u. not (any (λ x. str_eq x u) original)) (split_and_trim_space target ",") in
    elim new [ [] ↦ none | u ∷ rest ↦ some (join ((u ∷ rest) ++ original) ",") ]

module _ {B : Backend} where
  unfoldable pub insert_site_row : Site → Act B Site
  insert_site_row site d = elim (B.sites.insert site d.sites) [
    | none ↦ (err write_failed, d)
    | some (created, rows) ↦ (ok created, record d { sites = rows })
  ]

  unfoldable pub save_site_row : Site → Act B (Unit {0})
  save_site_row site d = elim (B.sites.save site d.sites) [
    | none ↦ (err write_failed, d)
    | some rows ↦ (ok tt, record d { sites = rows })
  ]

  unfoldable pub save_page_row : Page → Act B (Unit {0})
  save_page_row page d = elim (B.pages.save page d.pages) [
    | none ↦ (err write_failed, d)
    | some rows ↦ (ok tt, record d { pages = rows })
  ]

  unfoldable pub save_user_row : User → Act B (Unit {0})
  save_user_row user d = elim (B.users.save user d.users) [
    | none ↦ (err write_failed, d)
    | some rows ↦ (ok tt, record d { users = rows })
  ]

  -- The site that the transaction finds, changed or created.
  unfoldable pub prepare_site : String → String → Act B Site
  unfolding insert_site_row save_site_row first_or merge_urls
  prepare_site name urls d =
      let site = first_or empty_site (λ s. struct_eq name s.name) (all_sites d) in
      if str_eq name ""
      then (err invalid_argument, d)
      else if site_is_empty site
      then insert_site_row (record empty_site { name = name; urls = urls }) d
      else (elim (merge_urls site.urls urls) [
        | none ↦ (ok site, d)
        | some merged ↦
            let changed : Site = record site { urls = merged } in
            (save_site_row changed >> pure changed) d
      ])

  unfoldable pub first_or_create_page : String → String → String → Act B Page
  unfolding first_or
  first_or_create_page key title site_name d =
      let page = first_or empty_page (page_matches key site_name) (all_pages d) in
      if page_is_empty page
      then (elim (B.pages.insert
          (record empty_page { key = key; title = title; site_name = site_name }) d.pages) [
            | none ↦ (err write_failed, d)
            | some (created, rows) ↦ (ok created, record d { pages = rows })
          ])
      else (ok page, d)

  unfoldable pub prepare_page : String → String → String → Bool → Act B Page
  unfolding first_or_create_page save_page_row
  prepare_page key title site_name admin_only = do
    page ← first_or_create_page key title site_name
    let changed : Page = record page { admin_only = admin_only }
    if (if page.admin_only then admin_only else not admin_only)
        then pure page
        else save_page_row changed >> pure changed

  unfoldable pub first_or_create_user : Texts → String → String → String → Act B User
  unfolding first_or
  first_or_create_user T name email link d =
      let user = first_or empty_user (is_named T name email) (all_users d) in
      if user_is_empty user
      then (elim (B.users.insert (record empty_user { name = name; email = email; link = link })
          d.users) [
            | none ↦ (err write_failed, d)
            | some (created, rows) ↦ (ok created, record d { users = rows })
          ])
      else (ok user, d)

  -- A user who is no administrator gets the badge of the file.
  unfoldable pub give_badge : Artran → User → Act B User
  unfolding save_user_row
  give_badge c user d =
      let named = not (str_eq c.badge_name "") && not (str_eq c.badge_name user.badge_name) in
      let colored = not (str_eq c.badge_color "") && not (str_eq c.badge_color user.badge_color) in
      let changed : User = record user {
        badge_name = if named then c.badge_name else user.badge_name;
        badge_color = if colored then c.badge_color else user.badge_color;
      } in
      if not user.is_admin && (named || colored)
      then (save_user_row changed >> pure changed) d
      else (ok user, d)

  unfoldable pub prepare_user : Texts → Artran → Act B User
  unfolding first_or_create_user give_badge correct_user_basic_info
  prepare_user T c =
      let fixed = correct_user_basic_info T c in
      first_or_create_user T fixed.nick fixed.email fixed.link >>= give_badge fixed

module _ (F : Formats) (T : Texts) (p : ImportParams) (ids roots : GenIdMap) where
  -- The entity for one comment, which still has the numbers of the file in `rid` and `root_id`.
  unfoldable pub comment_of : Artran → Site → Page → User → Comment
  unfolding atoi
  comment_of c site page user = record empty_comment {
    rid = ids c.rid;
    root_id = roots c.rid;
    content = c.content;
    ua = c.ua;
    ip = c.ip;
    is_collapsed = is_true c.is_collapsed;
    is_pending = is_true c.is_pending;
    is_pinned = is_true c.is_pinned;
    vote_up = atoi c.vote_up;
    vote_down = atoi c.vote_down;
    user_id = user.id;
    page_key = page.key;
    site_name = site.name;
  }

  abbrev pub site_name_of : Artran → String
  site_name_of c = trim_space (or_text p.target_site_name c.site_name)

  -- The rest of the loop's body, once the site and the key of the page are known.
  unfoldable pub comment_on_page : {B : Backend} → Artran → Site → String → Act B (Option Comment)
  unfolding prepare_page prepare_user comment_of
  comment_on_page c site key = do
    page ← prepare_page key c.page_title site.name (is_true c.page_admin_only)
    user ← prepare_user T c
    pure (some (comment_of c site page user))

  -- A comment without a page is skipped, its site is kept.
  unfoldable pub comment_on_site : {B : Backend} → Artran → Site → Act B (Option Comment)
  unfolding trim_space page_key_of comment_on_page
  comment_on_site c site d =
      if str_eq (trim_space c.page_key) ""
      then (ok none, d)
      else (elim (page_key_of F p c.page_key) [
        | none ↦ (err invalid_argument, d)
        | some key ↦ comment_on_page c site key d
      ])

  -- The body of the loop: the comment to be stored, or `none` where it is skipped.
  unfoldable pub prepare_comment : {B : Backend} → Artran → Act B (Option Comment)
  unfolding trim_space prepare_site comment_on_site
  prepare_comment c d =
      if str_eq (site_name_of c) ""
      then (ok none, d)
      else (prepare_site (site_name_of c) (trim_space (or_text p.target_site_url c.site_urls))
            >>= comment_on_site c)
          d
