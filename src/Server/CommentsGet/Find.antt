-- ===== src/Server/CommentsGet/Find.antt =====
-- server/handler/comments_get/expose.go, sort.go and utils_list.go: finding the comments of a query.
-- A cooked comment is the comment with its `Visible` flag. Rows that a rule does not tell apart keep
-- the order of their keys.
use artalk.Prelude.{
  ℕ, ◌==◌, Bool, true, false, not, ◌&&◌, ◌||◌, List, [], ◌∷◌, ◌++◌, map, filter, any, String,
  str_eq, if◌then◌else◌, ltb, length, take, drop,
}
use artalk.Entity.{Comment}
use artalk.Backend.{Backend}
use artalk.Dao.{Dao, all_comments}
use artalk.Dao.Cache.{contains}
use artalk.Server.CommentsGet.{
  Scope, page_scope, Query, meets, only_root, QueryOptions, Sql, get_query_scopes,
}

pub record Cooked : Type 0 where
  pub comment : Comment
  pub visible : Bool

abbrev pub cook : Comment → Cooked
cook c = record { comment = c; visible = true }

abbrev pub newer : Comment → Comment → Bool
newer a b = ltb b.created_at a.created_at

-- Whether the first comes strictly before the second.
unfoldable pub sorts_before : Scope → String → Comment → Comment → Bool
sorts_before scope sort_by a b =
    if str_eq sort_by "date_desc"
    then newer a b
    else if str_eq sort_by "date_asc"
    then newer b a
    else if str_eq sort_by "vote"
    then ltb b.vote_up a.vote_up || (a.vote_up == b.vote_up && newer a b)
    else (elim scope [
      | page_scope ↦
          if a.is_pinned && not b.is_pinned
          then true
          else if not a.is_pinned && b.is_pinned
          then false
          else newer a b
      | _ ↦ newer a b
    ])

unfoldable pub insert_sorted : (Comment → Comment → Bool) → Comment → List Comment → List Comment
insert_sorted before c [] = c ∷ []
insert_sorted before c (x ∷ xs) =
    let rest = insert_sorted before c xs in if before x c then x ∷ rest else c ∷ x ∷ xs

unfoldable pub sort : (Comment → Comment → Bool) → List Comment → List Comment
unfolding insert_sorted
sort before [] = []
sort before (x ∷ xs) = insert_sorted before x (sort before xs)

pub record FindOptions : Type 0 where
  pub offset : ℕ
  pub limit : ℕ
  pub nested : Bool

abbrev pub is_listed : List Cooked → ℕ → Bool
is_listed comments id = any (λ x. x.comment.id == id) comments

-- What is replied to, where it is not in the list.
abbrev pub miss_comment_ids : List Cooked → List ℕ
miss_comment_ids comments =
    map (λ x. x.comment.rid)
      (filter (λ x. not (x.comment.rid == 0) && not (is_listed comments x.comment.rid)) comments)

module _ {B : Backend} where
  unfoldable pub find_nested_children : Query → List Cooked → Dao B → List Cooked
  unfolding filter contains meets
  find_nested_children q comments d =
      let all_root_ids = map (λ x. x.comment.id) comments in
      let children =
        filter (λ c. meets q c && contains all_root_ids c.root_id && not (c.rid == 0))
          (all_comments d) in
      comments ++ map cook children

  unfoldable pub find_flat_linked_comments : Query → List Cooked → Dao B → List Cooked
  unfolding filter contains meets any
  find_flat_linked_comments q comments d =
      comments
      ++ map (λ c. record { comment = c; visible = false })
          (filter (λ c. contains (miss_comment_ids comments) c.id && meets q c) (all_comments d))

  -- The list, the number of comments and the number of roots.
  unfoldable pub find_by_query : Query → Scope → String → FindOptions → Dao B → List Cooked × ℕ × ℕ
  unfolding sort sorts_before find_nested_children find_flat_linked_comments filter meets
  find_by_query q scope sort_by pg d =
      let found = filter (λ c. meets q c && (not pg.nested || only_root c)) (all_comments d) in
      let page = take pg.limit (drop pg.offset (sort (sorts_before scope sort_by) found)) in
      let cooked = map cook page in
      (
        (if pg.nested
            then find_nested_children q cooked d
            else find_flat_linked_comments q cooked d),
        length (filter (meets q) (all_comments d)),
        length (filter (λ c. meets q c && only_root c) (all_comments d)),
      )

  unfoldable pub find_comments : Sql → QueryOptions → FindOptions → Dao B → List Cooked × ℕ × ℕ
  unfolding find_by_query get_query_scopes
  find_comments L opts pg d = find_by_query (get_query_scopes L opts d) opts.scope opts.sort_by pg d
