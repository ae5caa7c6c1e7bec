-- ===== src/Artransfer/Numbers.antt =====
-- The numbers of an import lead back to the rows: through the map of numbers and the map of stored
-- keys, the id of a comment in the file leads to the row that stands beside it.
use artalk.Prelude.{
  ℕ, zero, suc, ◌+◌, ◌||◌, eq_refl, ◌==◌, ◌<◌, ◌≤◌, ◌⊎◌, true, false, Option, none, some, List, [],
  ◌∷◌, any, All, if◌then◌else◌, ◌≡◌, refl, sym, ap, ◌∙◌, subst, arith, Bool-cases, inl, inr, String,
  str_eq, eq_iff,
}
use artalk.Entity.{Comment}
use artalk.Artransfer.{Artran}
use artalk.Artransfer.Ids.{
  GenIdMap, put, put_gen_ids, build_gen_id_map, nth_rid, rid_by_gen_id, or_zero, get_root_id,
  put_root_ids, build_rid2root_gen_id_map, is_root_gen_id, root_gen_id_from,
}
use artalk.Dao.Cache.{contains}
use artalk.Artransfer.Import.{Dates, restored, real_id_map}
use artalk.Artransfer.Rows.{final_rows}

-- No two comments of the file have the same id.
abbrev pub DistinctIds : List Artran → Type 0
DistinctIds [] = Unit
DistinctIds (c ∷ rest) = (any (λ x. str_eq x.id c.id) rest ≡ false) × DistinctIds rest

module _ {X Y : Type 0} (none_ : X) (f : Y → X) where
  -- What stands beside the comment with an id.
  abbrev pub beside : List Artran → List Y → String → X
  beside [] ys k = none_
  beside (c ∷ rest) [] k = none_
  beside (c ∷ rest) (y ∷ ys) k = if str_eq c.id k then f y else beside rest ys k

  -- What stands at a number, in a list whose first number is above the index.
  unfoldable pub at_number : ℕ → List Y → ℕ → X
  at_number i [] n = none_
  at_number i (y ∷ ys) n = if n == suc i then f y else at_number (suc i) ys n

  at_number-low : (i : ℕ) (ys : List Y) (n : ℕ) → n ≤ i → at_number i ys n ≡ none_
  unfolding at_number
  at_number-low i [] n h = refl
  at_number-low i (y ∷ ys) n h = ground (arith, at_number-low (suc i) ys n)

-- A number is the one from before, or one above the index.
put_gen_ids-cases :
    (i : ℕ) (comments : List Artran) (m : GenIdMap) (k : String)
    → (put_gen_ids i comments m k ≡ m k) ⊎ (i < put_gen_ids i comments m k)
unfolding put_gen_ids
put_gen_ids-cases i [] m k = inl refl
put_gen_ids-cases i (c ∷ rest) m k = elim (put_gen_ids-cases (suc i) rest (put c.id (suc i) m) k) [
  | inr above ↦ inr (omega arith)
  | inl same ↦ elim (Bool-cases (str_eq c.id k)) [
    | inl here ↦ inr (ground (arith, same, here))
    | inr there ↦ inl (ground (arith, same, there))
  ]
]

put_gen_ids-other :
    (i : ℕ) (comments : List Artran) (m : GenIdMap) (k : String)
    → any (λ (x : Artran). str_eq x.id k) comments ≡ false
    → put_gen_ids i comments m k ≡ m k
unfolding put_gen_ids any
put_gen_ids-other i [] m k h = refl
put_gen_ids-other i (c ∷ rest) m k h =
    ground (arith, h, put_gen_ids-other (suc i) rest (put c.id (suc i) m) k)

module _ {X Y : Type 0} (none_ : X) (f : Y → X) where
  at_number-put_gen_ids :
      (i : ℕ) (comments : List Artran) (ys : List Y) (m : GenIdMap) (k : String)
      → DistinctIds comments
      → m k ≤ i
      → at_number none_ f i ys (put_gen_ids i comments m k) ≡ beside none_ f comments ys k
  unfolding put_gen_ids at_number
  at_number-put_gen_ids i [] ys m k h low = at_number-low none_ f i ys (m k) low
  at_number-put_gen_ids i (c ∷ rest) [] m k h low = refl
  at_number-put_gen_ids i (c ∷ rest) (y ∷ ys) m k h low =
      let m' = put c.id (suc i) m in
      elim (Bool-cases (str_eq c.id k)) [
        | inl here ↦
            let same : c.id ≡ k = ground (arith, here, eq_iff c.id k) in
            let new : any (λ (x : Artran). str_eq x.id k) rest ≡ false =
              subst (λ j. any (λ (x : Artran). str_eq x.id j) rest ≡ false) same h.0 in
            let n : put_gen_ids (suc i) rest m' k ≡ suc i =
              put_gen_ids-other (suc i) rest m' k new ∙ rw here refl in
            ground (arith, here, n)
        | inr there ↦
            let ih = at_number-put_gen_ids (suc i) rest ys m' k h.1 (ground (arith, there, low)) in
            let ne : (put_gen_ids (suc i) rest m' k == suc i) ≡ false =
              elim (put_gen_ids-cases (suc i) rest m' k) [
                | inl e ↦ ground (arith, e, there, low)
                | inr above ↦ ground (arith, above)
              ] in
            ground (arith, there, ne, ih)
      ]

  -- The number of an id leads to what stands beside the comment with this id.
  pub at_number-build_gen_id_map :
      (comments : List Artran) (ys : List Y) (k : String)
      → DistinctIds comments
      → at_number none_ f 0 ys (build_gen_id_map comments k) ≡ beside none_ f comments ys k
  unfolding build_gen_id_map
  at_number-build_gen_id_map comments ys k h =
      at_number-put_gen_ids 0 comments ys (λ _. 0) k h (omega arith)

-- The key of the row that stands beside the comment with an id, or zero.
abbrev pub id_beside : List Artran → List Comment → String → ℕ
id_beside = beside 0 (λ (r : Comment). r.id)

-- The id of what the comment with an id replies to.
abbrev pub rid_of : List Artran → String → Option String
rid_of comments = beside none (λ (c : Artran). some c.rid) comments comments

real_id_map-at_number :
    (i : ℕ) (saved : List Comment) (n : ℕ)
    → real_id_map i saved n ≡ at_number 0 (λ (r : Comment). r.id) i saved n
unfolding real_id_map at_number
real_id_map-at_number i [] n = refl
real_id_map-at_number i (s ∷ rest) n = ground (arith, real_id_map-at_number (suc i) rest n)

nth_rid-at_number :
    (i : ℕ) (comments : List Artran) (n : ℕ)
    → nth_rid comments n ≡ at_number none (λ (c : Artran). some c.rid) i comments (suc (i + n))
unfolding at_number
nth_rid-at_number i [] n = refl
nth_rid-at_number i (c ∷ rest) zero =
    let here : (suc (i + 0) == suc i) ≡ true = ground arith in rw here refl
nth_rid-at_number i (c ∷ rest) (suc n) =
    let there : (suc (i + suc n) == suc i) ≡ false = ground arith in
    let same : suc (suc i + n) ≡ suc (i + suc n) = omega arith in
    rw there (
      nth_rid-at_number (suc i) rest n
      ∙ ap (at_number none (λ (c : Artran). some c.rid) (suc i) rest) same)

rid_by_gen_id-at_number :
    (comments : List Artran) (n : ℕ)
    → rid_by_gen_id comments n ≡ at_number none (λ (c : Artran). some c.rid) 0 comments n
unfolding rid_by_gen_id
rid_by_gen_id-at_number comments zero =
    sym (at_number-low none (λ (c : Artran). some c.rid) 0 comments 0 (omega arith))
rid_by_gen_id-at_number comments (suc n) =
    let same : suc (0 + n) ≡ suc n = omega arith in
    nth_rid-at_number 0 comments n
    ∙ ap (at_number none (λ (c : Artran). some c.rid) 0 comments) same

pub rid_by_gen_id-build_gen_id_map :
    (comments : List Artran) (k : String)
    → DistinctIds comments
    → rid_by_gen_id comments (build_gen_id_map comments k) ≡ rid_of comments k
rid_by_gen_id-build_gen_id_map comments k h =
    rid_by_gen_id-at_number comments (build_gen_id_map comments k)
    ∙ at_number-build_gen_id_map none (λ (c : Artran). some c.rid) comments comments k h

id_beside-final_rows :
    (dates : Dates) (real : ℕ → ℕ) (i : ℕ) (comments : List Artran) (saved : List Comment)
    (k : String)
    → id_beside comments (final_rows dates real i saved) k ≡ id_beside comments saved k
unfolding final_rows restored
id_beside-final_rows dates real i [] saved k = refl
id_beside-final_rows dates real i (c ∷ rest) [] k = refl
id_beside-final_rows dates real i (c ∷ rest) (s ∷ saved) k =
    ground (arith, id_beside-final_rows dates real (suc i) rest saved k)

pub real-build_gen_id_map :
    (dates : Dates) (comments : List Artran) (saved : List Comment) (k : String)
    → DistinctIds comments
    → real_id_map 0 saved (build_gen_id_map comments k)
      ≡ id_beside comments (final_rows dates (real_id_map 0 saved) 0 saved) k
real-build_gen_id_map dates comments saved k h =
    real_id_map-at_number 0 saved (build_gen_id_map comments k)
    ∙ at_number-build_gen_id_map 0 (λ (r : Comment). r.id) comments saved k h
    ∙ sym (id_beside-final_rows dates (real_id_map 0 saved) 0 comments saved k)

-- `real` sends no number to no row.
pub real_id_map-zero : (saved : List Comment) → real_id_map 0 saved 0 ≡ 0
real_id_map-zero saved =
    real_id_map-at_number 0 saved 0
    ∙ at_number-low 0 (λ (r : Comment). r.id) 0 saved 0 (omega arith)

-- The map of roots holds, for the parent of each comment, what the search for a root gives.
put_root_ids-keeps :
    (comments : List Artran) (ids : GenIdMap) (xs : List Artran) (m : GenIdMap) (k : String)
    → m k ≡ or_zero (get_root_id comments ids k)
    → put_root_ids comments ids xs m k ≡ or_zero (get_root_id comments ids k)
unfolding put_root_ids
put_root_ids-keeps comments ids [] m k h = h
put_root_ids-keeps comments ids (c ∷ rest) m k h =
    put_root_ids-keeps comments ids rest (put c.rid (or_zero (get_root_id comments ids c.rid)) m) k
      (elim (Bool-cases (str_eq c.rid k)) [
        | inl here ↦
            let same : c.rid ≡ k = ground (arith, here, eq_iff c.rid k) in
            rw here (ap (λ j. or_zero (get_root_id comments ids j)) same)
        | inr there ↦ rw there h
      ])

put_root_ids-All :
    (comments : List Artran) (ids : GenIdMap) (xs : List Artran) (m : GenIdMap)
    → All
        (λ (c : Artran).
          put_root_ids comments ids xs m c.rid ≡ or_zero (get_root_id comments ids c.rid))
        xs
unfolding put_root_ids
put_root_ids-All comments ids [] m = tt
put_root_ids-All comments ids (c ∷ rest) m =
    let m' = put c.rid (or_zero (get_root_id comments ids c.rid)) m in
    (
      put_root_ids-keeps comments ids rest m' c.rid (rw (eq_refl c.rid) refl),
      put_root_ids-All comments ids rest m',
    )

pub build_rid2root-All :
    (comments : List Artran) (ids : GenIdMap)
    → All
        (λ (c : Artran).
          build_rid2root_gen_id_map comments ids c.rid ≡ or_zero (get_root_id comments ids c.rid))
        comments
unfolding build_rid2root_gen_id_map
build_rid2root-All comments ids = put_root_ids-All comments ids comments (λ _. 0)

-- Of no comment, and of a root, the root is found at once.
pub get_root_id-root :
    (comments : List Artran) (ids : GenIdMap) (k : String)
    → (ids k == 0 || is_root_gen_id comments (ids k)) ≡ true
    → or_zero (get_root_id comments ids k) ≡ ids k
unfolding get_root_id root_gen_id_from contains any
get_root_id-root comments ids k h = ground (arith, h)
