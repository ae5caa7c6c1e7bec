-- ===== src/Server/CommentsGet/Shown.antt =====
-- What the lists show, and whom.
use artalk.Prelude.{
  ℕ, zero, suc, ◌==◌, Bool, true, false, not, ◌&&◌, ◌||◌, List, [], ◌∷◌, map, filter, String,
  str_eq, take, drop, length, if◌then◌else◌, ◌≡◌, ◌≢◌, refl, sym, ap, ◌∙◌, arith, All, All-map,
  All-filter, All-zip, All-append, filter-All, any-false-All,
}
use artalk.Entity.{User, Comment}
use artalk.Backend.{Backend}
use artalk.Dao.{Dao, all_comments}
use artalk.Dao.Cache.{contains}
use artalk.Server.CommentGet.{can_read}
use artalk.Server.CommentsGet.{
  Condition, Query, meets, only_root, common_scope, site_scope_query, no_rows, scope_of,
  search_scope, Scope, site_scope, QueryOptions, Sql, get_query_scopes,
}
use artalk.Server.CommentsGet.Visible.{get_query_scopes-Narrows, common_scope-can_read, meets-where}
use artalk.Server.CommentsGet.Find.{
  Cooked, cook, insert_sorted, sort, sorts_before, FindOptions, find_nested_children,
  find_flat_linked_comments, find_by_query, find_comments,
}

module _ (P : Comment → Type 0) where
  All-take : (n : ℕ) (l : List Comment) → All P l → All P (take n l)
  All-take zero l h = tt
  All-take (suc n) [] h = tt
  All-take (suc n) (x ∷ l) h = (h.0, All-take n l h.1)

  All-drop : (n : ℕ) (l : List Comment) → All P l → All P (drop n l)
  All-drop zero l h = h
  All-drop (suc n) [] h = tt
  All-drop (suc n) (x ∷ l) h = All-drop n l h.1

  All-insert :
      (before : Comment → Comment → Bool) (c : Comment) (l : List Comment)
      → P c
      → All P l
      → All P (insert_sorted before c l)
  unfolding insert_sorted
  All-insert before c [] p h = (p, tt)
  All-insert before c (x ∷ l) p h =
      elim (before x c) as (λ b. All P (if b then x ∷ insert_sorted before c l else c ∷ x ∷ l)) [
        | true ↦ (h.0, All-insert before c l p h.1)
        | false ↦ (p, h)
      ]

  All-sort :
      (before : Comment → Comment → Bool) (l : List Comment) → All P l → All P (sort before l)
  unfolding sort
  All-sort before [] h = tt
  All-sort before (x ∷ l) h = All-insert before x (sort before l) h.0 (All-sort before l h.1)

  -- The comments of a list of cooked ones.
  All-cook :
      (v : Bool) (l : List Comment)
      → All P l
      → All (λ (x : Cooked). P x.comment) (map (λ c. record { comment = c; visible = v }) l)
  All-cook v [] h = tt
  All-cook v (c ∷ l) h = (h.0, All-cook v l h.1)

-- A stored row that a query lets through.
abbrev pub Passes : Query → Comment → Type 0
Passes q c = (meets q c ≡ true) × (c.id ≢ 0)

nothing-passes :
    (q : Query) (p : Condition) (l : List Comment)
    → ((c : Comment) → p c ≡ true → meets q c ≡ true)
    → ((c : Comment) → meets q c ≡ false)
    → filter p l ≡ []
unfolding filter
nothing-passes q p [] f g = refl
nothing-passes q p (c ∷ l) f g = ground (arith, f c, g c, nothing-passes q p l f g)

sort-nothing : (before : Comment → Comment → Bool) (l : List Comment) → l ≡ [] → sort before l ≡ []
unfolding sort
sort-nothing before l h = rw h refl

take-drop-nothing : (m n : ℕ) (l : List Comment) → l ≡ [] → take m (drop n l) ≡ []
take-drop-nothing zero n l h = refl
take-drop-nothing (suc m) zero l h = rw h refl
take-drop-nothing (suc m) (suc n) l h = rw h refl

no_site :
    (type name : String) (u : User) (q : Query) (c : Comment)
    → u.is_admin ≡ false
    → meets (site_scope_query type name u q) c ≡ false
unfolding site_scope_query
no_site type name u q c h = rw h (ground (arith, meets-where no_rows q c))

module _ {B : Backend} where
  rows-Passes :
      (p : Condition) (q : Query) (d : Dao B)
      → ((c : Comment) → p c ≡ true → meets q c ≡ true)
      → All (Passes q) (filter p (all_comments d))
  rows-Passes p q d f =
      All-map (λ (c : Comment). (p c ≡ true) × (c.id == 0 ≡ false)) (Passes q)
        (λ c h. (f c h.0, ground (arith, h.1))) (filter p (all_comments d))
        (All-zip (λ (c : Comment). p c ≡ true) (λ (c : Comment). c.id == 0 ≡ false)
          (filter p (all_comments d)) (All-filter p (all_comments d))
          (filter-All (λ (c : Comment). c.id == 0 ≡ false) p (all_comments d)
            (any-false-All (λ (c : Comment). c.id == 0) (all_comments d)
              (B.comments.select_keys d.comments))))

  find_by_query-Passes :
      (q : Query) (s : Scope) (rule : String) (pg : FindOptions) (d : Dao B)
      → All (λ (x : Cooked). Passes q x.comment) (find_by_query q s rule pg d).0
  unfolding find_by_query find_nested_children find_flat_linked_comments
  find_by_query-Passes q s rule pg d =
      let p : Condition = λ c. meets q c && (not pg.nested || only_root c) in
      let page =
        take pg.limit (drop pg.offset (sort (sorts_before s rule) (filter p (all_comments d)))) in
      let listed = All-cook (Passes q) true page (
        All-take (Passes q) pg.limit _ (
          All-drop (Passes q) pg.offset _ (
            All-sort (Passes q) (sorts_before s rule) _
              (rows-Passes p q d (λ c h. ground (arith, h)))))) in
      elim pg.nested
        as (λ nested.
          All (λ (x : Cooked). Passes q x.comment)
            (if nested
              then find_nested_children q (map cook page) d
              else find_flat_linked_comments q (map cook page) d)) [
                | true ↦
                    All-append (λ (x : Cooked). Passes q x.comment) (map cook page) _ listed
                      (All-cook (Passes q) true _ (rows-Passes _ q d (λ c h. ground (arith, h))))
                | false ↦
                    All-append (λ (x : Cooked). Passes q x.comment) (map cook page) _ listed
                      (All-cook (Passes q) false _ (rows-Passes _ q d (λ c h. ground (arith, h))))
              ]

  -- Every comment that FindComments returns, in any scope, sort order and mode, as a member of
  -- the list, as a child or as the target of a reply, is one that CommentGet lets the same
  -- reader read, if a reader who is logged in has no guest credential.
  pub find_comments-can_read :
      (L : Sql) (opts : QueryOptions) (pg : FindOptions) (d : Dao B)
      → (opts.user.id ≢ 0 → str_eq opts.guest_token_hash "" ≡ true)
      → All
          (λ (x : Cooked). can_read opts.user opts.guest_token_hash x.comment ≡ true)
          (find_comments L opts pg d).0
  unfolding find_comments
  find_comments-can_read L opts pg d login =
      All-map (λ (x : Cooked). Passes (get_query_scopes L opts d) x.comment)
        (λ (x : Cooked). can_read opts.user opts.guest_token_hash x.comment ≡ true)
        (λ x h.
          sym (common_scope-can_read opts.user opts.guest_token_hash x.comment h.1 login)
          ∙ get_query_scopes-Narrows L opts d x.comment h.0)
        (find_comments L opts pg d).0
        (find_by_query-Passes (get_query_scopes L opts d) opts.scope opts.sort_by pg d)

  empty-query :
      (q : Query) (s : Scope) (rule : String) (pg : FindOptions) (d : Dao B)
      → ((c : Comment) → meets q c ≡ false)
      → find_by_query q s rule pg d ≡ ([], 0, 0)
  unfolding find_by_query find_nested_children find_flat_linked_comments
  empty-query q s rule pg d none_meets =
      let rows = all_comments d in
      let p : Condition = λ c. meets q c && (not pg.nested || only_root c) in
      let found : filter p rows ≡ [] =
        nothing-passes q p rows (λ c h. ground (arith, h)) none_meets in
      let no_page : take pg.limit (drop pg.offset (sort (sorts_before s rule) (filter p rows)))
          ≡ [] =
        take-drop-nothing pg.limit pg.offset _ (sort-nothing _ _ found) in
      let shown : (find_by_query q s rule pg d).0 ≡ [] =
        ap
          (λ (page : List Comment).
            if pg.nested
            then find_nested_children q (map cook page) d
            else find_flat_linked_comments q (map cook page) d)
          no_page
        ∙ elim pg.nested
            as (λ nested.
              (if nested then find_nested_children q [] d else find_flat_linked_comments q [] d)
              ≡ []) [
                | true ↦ ap (map cook) (
                    nothing-passes q (λ c. meets q c && contains [] c.root_id && not (c.rid == 0))
                      rows (λ c h. ground (arith, h)) none_meets)
                | false ↦ ap (map (λ c. record { comment = c; visible = false })) (
                    nothing-passes q (λ c. contains [] c.id && meets q c) rows
                      (λ c h. ground (arith, h)) none_meets)
              ] in
      let all_of : (find_by_query q s rule pg d).1 ≡ 0 =
        ap length (nothing-passes q (meets q) rows (λ c h. h) none_meets) in
      let roots : (find_by_query q s rule pg d).2 ≡ 0 = ap length (
        nothing-passes q (λ c. meets q c && only_root c) rows (λ c h. ground (arith, h))
          none_meets) in
      cc (shown, all_of, roots)

  -- In the scope of a site, FindComments returns no comment and counts none for a reader who is
  -- no administrator, whatever the other options are.
  pub find_comments-site_scope :
      (L : Sql) (opts : QueryOptions) (pg : FindOptions) (d : Dao B)
      → opts.scope ≡ site_scope
      → opts.user.is_admin ≡ false
      → find_comments L opts pg d ≡ ([], 0, 0)
  unfolding find_comments get_query_scopes scope_of site_scope_query search_scope
  find_comments-site_scope L opts pg d site not_admin =
      let common = common_scope opts.user opts.guest_token_hash [] in
      let q = if not (str_eq opts.search "") then search_scope L opts.search d common else common in
      empty-query (get_query_scopes L opts d) opts.scope opts.sort_by pg d (λ c.
        ap (λ s. meets (scope_of L s opts d q) c) site
        ∙ no_site opts.type opts.site_name opts.user q c not_admin)
