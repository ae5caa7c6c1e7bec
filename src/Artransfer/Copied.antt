-- ===== src/Artransfer/Copied.antt =====
-- An import copies the comments of its file, with their replies.
use artalk.Prelude.{
  ℕ, suc, ◌==◌, ◌||◌, Bool, true, Option, none, some, List, [], ◌∷◌, ◌++◌, All, Bool-cases, ◌≡◌,
  sym, ap, subst, ◌∙◌, arith, inl, inr, String, str_eq, atoi, trim_space, if◌then◌else◌, ◌⊎◌,
}
use artalk.Prelude.Result.{ok}
use artalk.Entity.{Comment}
use artalk.Backend.{Backend}
use artalk.Dao.{Dao, all_comments}
use artalk.Dao.Create.{Texts}
use artalk.Artransfer.{Artran, ImportParams, Formats, is_true}
use artalk.Artransfer.Ids.{
  build_gen_id_map, build_rid2root_gen_id_map, is_root_gen_id, get_root_id, or_zero,
}
use artalk.Artransfer.Owned.{prepare_all-Owned, AllKept-same}
use artalk.Artransfer.Stored.{import_artrans-rows}
use artalk.Artransfer.Owners.{IsOwner, IsOwner-AllKept}
use artalk.Artransfer.Prepare.{comment_of, page_key_of}
use artalk.Artransfer.Import.{Dates, restored, real_id_map, prepare_all, import_artrans}
use artalk.Artransfer.Rows.{Beside, Beside-map, IsStamped, final_rows}
use artalk.Artransfer.Numbers.{
  DistinctIds, id_beside, rid_of, rid_by_gen_id-build_gen_id_map, real-build_gen_id_map,
  real_id_map-zero, build_rid2root-All, get_root_id-root,
}
use artalk.Artransfer.Prepared.{is_kept, IsMade, IsDated, prepare_all-IsMade}

-- Whether a comment with this parent is a root, or replies to one.
abbrev pub is_near_root : List Artran → String → Bool
is_near_root comments rid = elim (rid_of comments rid) [
  | none ↦ true
  | some above ↦ str_eq above "0" || str_eq above ""
]

-- The row is the comment of the file, on its site and page, and by its author in the table of users
-- of `d`; its parent is the row that stands beside the comment which has the parent's id in the file.
pub record IsCopy {B : Backend} (F : Formats) (T : Texts) (p : ImportParams) (d : Dao B)
    (comments : List Artran) (rows : List Comment) (c : Artran) (r : Comment) : Type 0 where
  pub content : r.content ≡ c.content
  pub ua : r.ua ≡ c.ua
  pub ip : r.ip ≡ c.ip
  pub is_collapsed : r.is_collapsed ≡ is_true c.is_collapsed
  pub is_pending : r.is_pending ≡ is_true c.is_pending
  pub is_pinned : r.is_pinned ≡ is_true c.is_pinned
  pub vote_up : r.vote_up ≡ atoi c.vote_up
  pub vote_down : r.vote_down ≡ atoi c.vote_down
  pub created : r.created_at ≡ F.parse_date c.created_at
  pub site :
      r.site_name
      ≡ trim_space (if str_eq p.target_site_name "" then c.site_name else p.target_site_name)
  pub page : (k : String) × (page_key_of F p c.page_key ≡ some k) × ((k ≡ "") ⊎ (r.page_key ≡ k))
  pub author : IsOwner T c d r.user_id
  pub parent : r.rid ≡ id_beside comments rows c.rid
  pub root : is_near_root comments c.rid ≡ true → r.root_id ≡ r.rid

module _ (F : Formats) (T : Texts) (p : ImportParams) (comments : List Artran)
    (distinct : DistinctIds comments) where
  abbrev ids : String → ℕ
  ids = build_gen_id_map comments

  abbrev roots : String → ℕ
  roots = build_rid2root_gen_id_map comments ids

  is_root_gen_id-near : (k : String) → is_root_gen_id comments (ids k) ≡ is_near_root comments k
  unfolding is_root_gen_id
  is_root_gen_id-near k =
      ap
        (λ (o : Option String). elim o as (λ _. Bool) [
          | none ↦ true
          | some above ↦ str_eq above "0" || str_eq above ""
        ])
        (rid_by_gen_id-build_gen_id_map comments k distinct)

  module _ (rows : List Comment) (dates : Dates) (real : ℕ → ℕ)
      (leads : (k : String) → real (ids k) ≡ id_beside comments rows k) (none_ : real 0 ≡ 0) where
    -- The parent of a row, whatever part of the file the row is for.
    pub restored-rid :
        (i : ℕ) (c : Artran) (x s : Comment)
        → IsMade F T p ids roots c x
        → IsStamped x s
        → (restored dates real i s s).rid ≡ id_beside comments rows c.rid
    unfolding restored comment_of
    restored-rid i c x s (site, page, user, made, placed) (t, stamped) =
        let rid : s.rid ≡ ids c.rid = ground (arith, made, stamped) in
        elim (Bool-cases (s.rid == 0)) [
          | inl top ↦
              let zero_ : s.rid ≡ 0 = ground (arith, top) in
              rw top (zero_ ∙ sym none_ ∙ ap real (sym zero_ ∙ rid) ∙ leads c.rid)
          | inr reply ↦ rw reply (ap real rid ∙ leads c.rid)
        ]

    pub final_rows-rid :
        (i : ℕ) (cs : List Artran) (news saved : List Comment)
        → Beside (IsMade F T p ids roots) cs news
        → Beside IsStamped news saved
        → Beside (λ c r. r.rid ≡ id_beside comments rows c.rid) cs (final_rows dates real i saved)
    unfolding final_rows
    final_rows-rid i [] [] [] m st = tt
    final_rows-rid i [] [] (s ∷ saved) m st = absurd st
    final_rows-rid i [] (x ∷ news) saved m st = absurd m
    final_rows-rid i (c ∷ cs) [] saved m st = absurd m
    final_rows-rid i (c ∷ cs) (x ∷ news) [] m st = absurd st
    final_rows-rid i (c ∷ cs) (x ∷ news) (s ∷ saved) m st =
        (restored-rid i c x s m.0 st.0, final_rows-rid (suc i) cs news saved m.1 st.1)

    restored-IsCopy :
        {B : Backend} (d : Dao B) (i : ℕ) (c : Artran) (x s : Comment)
        → IsMade F T p ids roots c x
        → IsOwner T c d x.user_id
        → IsStamped x s
        → dates i ≡ F.parse_date c.created_at
        → roots c.rid ≡ or_zero (get_root_id comments ids c.rid)
        → IsCopy F T p d comments rows c (restored dates real i s s)
    unfolding restored comment_of
    restored-IsCopy d i c x s (site, page, user, made, placed) owner (t, stamped) dated rooted =
        let site_is : s.site_name ≡ site.name = ground (arith, made, stamped) in
        let page_is : s.page_key ≡ page.key = ground (arith, made, stamped) in
        let user_is : x.user_id ≡ s.user_id = ground (arith, stamped) in
        let rid : s.rid ≡ ids c.rid = ground (arith, made, stamped) in
        let root : s.root_id ≡ roots c.rid = ground (arith, made, stamped) in
        record {
          content = ground (arith, made, stamped);
          ua = ground (arith, made, stamped);
          ip = ground (arith, made, stamped);
          is_collapsed = ground (arith, made, stamped);
          is_pending = ground (arith, made, stamped);
          is_pinned = ground (arith, made, stamped);
          vote_up = ground (arith, made, stamped);
          vote_down = ground (arith, made, stamped);
          created = dated;
          site = site_is ∙ placed.name;
          page =
              let (k, resolved, is_key) = placed.key in
              (
                k,
                resolved,
                elim is_key [ inl blank ↦ inl blank | inr keyed ↦ inr (page_is ∙ keyed) ],
              );
          author = subst (λ u. IsOwner T c d u) user_is owner;
          parent = restored-rid i c x s (site, page, user, made, placed) (t, stamped);
          root = λ near.
              let same : s.root_id ≡ s.rid =
                root
                ∙ rooted
                ∙ get_root_id-root comments ids c.rid
                    (ground (arith, is_root_gen_id-near c.rid, near))
                ∙ sym rid in
              elim (Bool-cases (s.rid == 0)) [
                | inl top ↦ rw top same
                | inr reply ↦ rw reply (ap real same)
              ];
        }

    final_rows-IsCopy :
        {B : Backend} (d : Dao B) (i : ℕ) (cs : List Artran) (news saved : List Comment)
        → Beside (IsMade F T p ids roots) cs news
        → Beside (λ c (x : Comment). IsOwner T c d x.user_id) cs news
        → Beside IsStamped news saved
        → IsDated F T p ids roots i cs dates
        → All (λ (c : Artran). roots c.rid ≡ or_zero (get_root_id comments ids c.rid)) cs
        → Beside (IsCopy F T p d comments rows) cs (final_rows dates real i saved)
    unfolding final_rows
    final_rows-IsCopy d i [] [] [] m ow st da ro = tt
    final_rows-IsCopy d i [] [] (s ∷ saved) m ow st da ro = absurd st
    final_rows-IsCopy d i [] (x ∷ news) saved m ow st da ro = absurd m
    final_rows-IsCopy d i (c ∷ cs) [] saved m ow st da ro = absurd m
    final_rows-IsCopy d i (c ∷ cs) (x ∷ news) [] m ow st da ro = absurd st
    final_rows-IsCopy d i (c ∷ cs) (x ∷ news) (s ∷ saved) m ow st da ro = (
      restored-IsCopy d i c x s m.0 ow.0 st.0 da.0 ro.0,
      final_rows-IsCopy d (suc i) cs news saved m.1 ow.1 st.1 da.1 ro.1,
    )

module _ (F : Formats) (T : Texts) (p : ImportParams) {B : Backend} where
  -- If an import of a file succeeds in which no two comments have one id and each has a site
  -- and a page, exactly one row for each comment comes to the table of comments, and all other
  -- rows stay. The row has the comment's content, user agent and address, its marks, its counts
  -- of votes and its date of creation. Its site has the comment's name or the one given for
  -- all; its page has the key that the import's rule for keys gives, if that is not empty; and
  -- its author is a user of the table with the comment's name and e-mail address, or those of
  -- nobody where they are missing or no address. Its parent is the row of the comment's parent
  -- in the file or none, and its root is its parent where that is none or a root.
  pub import_artrans-Copied :
      (comments : List Artran) (d : Dao B)
      → DistinctIds comments
      → All (λ c. is_kept p c ≡ true) comments
      → (import_artrans F T p comments d).0 ≡ ok tt
      → let d' = (import_artrans F T p comments d).1 in
        (rows : List Comment) × (all_comments d' ≡ all_comments d ++ rows)
        × Beside (IsCopy F T p d' comments rows) comments rows
  import_artrans-Copied [] d distinct kept e = absurd (unfold import_artrans in cc (e))
  import_artrans-Copied (c ∷ rest) d distinct kept e =
      let ids = build_gen_id_map (c ∷ rest) in
      let roots = build_rid2root_gen_id_map (c ∷ rest) ids in
      let d₁ = (prepare_all F T p ids roots 0 (c ∷ rest) d).1 in
      let d' = (import_artrans F T p (c ∷ rest) d).1 in
      let (prepared, saved, ready, stamped, stored, users) = import_artrans-rows F T p c rest d e in
      let (made, dated, same) =
        prepare_all-IsMade F T p ids roots 0 (c ∷ rest) d prepared kept ready in
      let (owned, _) = prepare_all-Owned F T p ids roots 0 (c ∷ rest) d prepared kept ready in
      let owners : Beside (λ a (x : Comment). IsOwner T a d' x.user_id) (c ∷ rest) prepared.0 =
        Beside-map (λ a (x : Comment). IsOwner T a d₁ x.user_id)
          (λ a (x : Comment). IsOwner T a d' x.user_id)
          (λ a x h. IsOwner-AllKept T a d₁ d' x.user_id (AllKept-same d₁ d' users) h) (c ∷ rest)
          prepared.0 owned in
      let real = real_id_map 0 saved in
      let rows = final_rows prepared.1 real 0 saved in
      (
        rows,
        stored ∙ ap (λ l. B.comments.select l ++ rows) same,
        final_rows-IsCopy F T p (c ∷ rest) distinct rows prepared.1 real
            (λ k. real-build_gen_id_map prepared.1 (c ∷ rest) saved k distinct)
            (real_id_map-zero saved) d' 0 (c ∷ rest) prepared.0 saved made owners stamped dated
            (build_rid2root-All (c ∷ rest) ids),
      )
