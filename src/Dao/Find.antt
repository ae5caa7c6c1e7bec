-- ===== src/Dao/Find.antt =====
-- internal/dao/query_find.go: the cached queries of comments, pages, sites and users.
use artalk.Prelude.{
  ℕ, zero, suc, ◌==◌, Bool, ◌&&◌, ◌||◌, Option, none, some, List, [], ◌∷◌, ◌++◌, map, filter,
  if◌then◌else◌, String, str_eq, length,
}
use artalk.Entity.{
  User, Comment, Page, Site, empty_user, empty_comment, empty_page, empty_site, comment_is_empty,
}
use artalk.Backend.{Backend, Key, Value}
use artalk.Dao.{Dao, Find, all_comments, all_pages, all_sites, all_users, first_or}
use artalk.Dao.Cache.{
  contains, decode_ids, decode_comment, decode_user, decode_page, decode_site, store_cache,
  page_by_key_site_name_key,
}

-- A struct condition of GORM leaves out the fields that have their zero value.
abbrev pub struct_eq : String → String → Bool
struct_eq wanted value = str_eq wanted "" || str_eq value wanted

abbrev pub page_matches : String → String → Page → Bool
page_matches key site_name p = struct_eq key p.key && struct_eq site_name p.site_name

abbrev pub child_matches : ℕ → Comment → Bool
child_matches parent_id c = parent_id == 0 || c.rid == parent_id

-- The ids of the replies to a comment, and the cached query of them.
abbrev pub child_ids_of : ℕ → List Comment → List ℕ
child_ids_of parent_id l = map (λ c. c.id) (filter (child_matches parent_id) l)

module _ {B : Backend} where
  -- The query runs only on a miss, and what it found is stored.
  unfoldable pub query_db_with_cache :
      {A : Type 0} → Key → (Option Value → Option A) → (A → Value) → (Dao B → A) → Find B A
  unfolding store_cache
  query_db_with_cache k decode encode query d = elim d.cache [
    | none ↦ (query d, d)
    | some s ↦ elim (decode (B.store.get k s)) [
      | some v ↦ (v, d)
      | none ↦
          (query d, record d { cache = some (store_cache B.store (encode (query d)) (k ∷ []) s) })
    ]
  ]

  unfoldable pub find_comment : ℕ → Find B Comment
  unfolding query_db_with_cache first_or
  find_comment id =
      query_db_with_cache (Key.comment_by_id id) decode_comment Value.comment
        (λ d. first_or empty_comment (λ c. c.id == id) (all_comments d))

  unfoldable pub find_page : String → String → Find B Page
  unfolding query_db_with_cache first_or
  find_page key site_name =
      query_db_with_cache (page_by_key_site_name_key key site_name) decode_page Value.page
        (λ d. first_or empty_page (page_matches key site_name) (all_pages d))

  unfoldable pub find_page_by_id : ℕ → Find B Page
  unfolding query_db_with_cache first_or
  find_page_by_id id =
      query_db_with_cache (Key.page_by_id id) decode_page Value.page
        (λ d. first_or empty_page (λ p. p.id == id) (all_pages d))

  unfoldable pub find_site : String → Find B Site
  unfolding query_db_with_cache first_or
  find_site name =
      query_db_with_cache (Key.site_by_name name) decode_site Value.site
        (λ d. first_or empty_site (λ s. str_eq s.name name) (all_sites d))

  unfoldable pub find_user_by_id : ℕ → Find B User
  unfolding query_db_with_cache first_or
  find_user_by_id id =
      query_db_with_cache (Key.user_by_id id) decode_user Value.user
        (λ d. first_or empty_user (λ u. u.id == id) (all_users d))

  unfoldable pub find_child_ids : ℕ → Find B (List ℕ)
  unfolding query_db_with_cache filter
  find_child_ids parent_id =
      query_db_with_cache (Key.comment_child_ids_by_id parent_id) decode_ids Value.ids
        (λ d. child_ids_of parent_id (all_comments d))

  -- The loop of `FindCommentChildrenShallow`: what is not found is left out.
  unfoldable pub find_each : List ℕ → Find B (List Comment)
  find_each [] d = ([], d)
  find_each (id ∷ rest) d =
      let (child, d₁) = find_comment id d in
      let (children, d₂) = find_each rest d₁ in
      (if comment_is_empty child then children else child ∷ children, d₂)

  unfoldable pub find_comment_children_shallow : ℕ → Find B (List Comment)
  unfolding find_child_ids find_each
  find_comment_children_shallow parent_id d =
      let (child_ids, d') = find_child_ids parent_id d in find_each child_ids d'

  -- `_findCommentChildrenOnce` and its loop, with fuel for the depth; `none` is fuel run out.
  unfoldable pub find_under :
      (ℕ → Dao B → Option (List Comment × Dao B))
      → List Comment
      → Dao B
      → Option (List Comment × Dao B)
  find_under again [] d = some ([], d)
  find_under again (child ∷ rest) d = elim (again child.id d) [
    | none ↦ none
    | some (below, d₁) ↦ elim (find_under again rest d₁) [
      | none ↦ none
      | some (others, d₂) ↦ some (child ∷ below ++ others, d₂)
    ]
  ]

  unfoldable pub find_comment_children : ℕ → ℕ → Dao B → Option (List Comment × Dao B)
  unfolding find_under
  find_comment_children zero parent_id d = none
  find_comment_children (suc fuel) parent_id d =
      let (children, d') = find_comment_children_shallow parent_id d in
      find_under (find_comment_children fuel) children d'

-- `FindCommentRootID`: `visited` holds the ids met so far. The fuel bounds the rounds.
unfoldable pub find_root_from : ℕ → List ℕ → ℕ → List Comment → Option ℕ
unfolding first_or contains
find_root_from zero visited root_id l = none
find_root_from (suc fuel) visited root_id l =
    let next = (first_or empty_comment (λ c. c.id == root_id) l).rid in
    let again = find_root_from fuel (root_id ∷ visited) next l in
    if root_id == 0 || contains visited root_id
    then some root_id
    else if next == 0
    then some root_id
    else again

unfoldable pub find_comment_root_id : ℕ → List Comment → Option ℕ
unfolding find_root_from
find_comment_root_id rid l = find_root_from (suc (suc (length l))) [] rid l
