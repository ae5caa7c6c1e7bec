-- ===== src/Artransfer/Ids.antt =====
-- The numbers that internal/artransfer/importer.go gives to the comments of a file: a comment has
-- its index and one, and zero is no comment.
use artalk.Prelude.{
  ℕ, zero, suc, ◌==◌, Bool, true, ◌||◌, Option, none, some, List, [], ◌∷◌, if◌then◌else◌, String,
  str_eq, length,
}
use artalk.Artransfer.{Artran}
use artalk.Dao.Cache.{contains}

-- A Go map, which gives zero for a key that it does not have.
abbrev pub GenIdMap : Type 0
GenIdMap = String → ℕ

abbrev pub put : String → ℕ → GenIdMap → GenIdMap
put k n m j = if str_eq k j then n else m j

-- The loop over the comments from the index `i` on.
unfoldable pub put_gen_ids : ℕ → List Artran → GenIdMap → GenIdMap
put_gen_ids i [] m = m
put_gen_ids i (c ∷ rest) m = put_gen_ids (suc i) rest (put c.id (suc i) m)

unfoldable pub build_gen_id_map : List Artran → GenIdMap
unfolding put_gen_ids
build_gen_id_map comments = put_gen_ids 0 comments (λ _. 0)

abbrev pub nth_rid : List Artran → ℕ → Option String
nth_rid [] n = none
nth_rid (c ∷ rest) zero = some c.rid
nth_rid (c ∷ rest) (suc n) = nth_rid rest n

-- `getCommentByGenId(comments, genId).Rid`
unfoldable pub rid_by_gen_id : List Artran → ℕ → Option String
rid_by_gen_id comments zero = none
rid_by_gen_id comments (suc n) = nth_rid comments n

-- Whether the comment with a number is a root: it is none of the file, or replies to nothing.
unfoldable pub is_root_gen_id : List Artran → ℕ → Bool
unfolding rid_by_gen_id
is_root_gen_id comments gen_id = elim (rid_by_gen_id comments gen_id) [
  | none ↦ true
  | some rid ↦ str_eq rid "0" || str_eq rid ""
]

abbrev pub parent_gen_id : List Artran → GenIdMap → ℕ → ℕ
parent_gen_id comments ids gen_id = elim (rid_by_gen_id comments gen_id) [
  | none ↦ 0
  | some rid ↦ ids rid
]

-- The loop to the root of a comment. `none` is fuel that ran out.
unfoldable pub root_gen_id_from : ℕ → List ℕ → ℕ → List Artran → GenIdMap → Option ℕ
unfolding is_root_gen_id rid_by_gen_id contains
root_gen_id_from zero visited root_id comments ids = none
root_gen_id_from (suc fuel) visited root_id comments ids =
    let again =
      root_gen_id_from fuel (root_id ∷ visited) (parent_gen_id comments ids root_id) comments ids in
    if root_id == 0 || contains visited root_id
    then some root_id
    else if is_root_gen_id comments root_id
    then some root_id
    else again

-- `getRooID`, with a round for each comment and two more.
unfoldable pub get_root_id : List Artran → GenIdMap → String → Option ℕ
unfolding root_gen_id_from
get_root_id comments ids rid =
    root_gen_id_from (suc (suc (length comments))) [] (ids rid) comments ids

abbrev pub or_zero : Option ℕ → ℕ
or_zero none = 0
or_zero (some n) = n

unfoldable pub put_root_ids : List Artran → GenIdMap → List Artran → GenIdMap → GenIdMap
unfolding get_root_id
put_root_ids comments ids [] m = m
put_root_ids comments ids (c ∷ rest) m =
    put_root_ids comments ids rest (put c.rid (or_zero (get_root_id comments ids c.rid)) m)

unfoldable pub build_rid2root_gen_id_map : List Artran → GenIdMap → GenIdMap
unfolding put_root_ids
build_rid2root_gen_id_map comments ids = put_root_ids comments ids comments (λ _. 0)
