-- ===== src/Dao/Children.antt =====
-- `FindCommentChildrenShallow` and `FindCommentChildren` over a coherent cache: the rows they give.
use artalk.Prelude.{
  ◌⊎◌, ℕ, zero, suc, Bool, Option, none, some, List, [], ◌∷◌, ◌++◌, map, filter, any, if◌then◌else◌,
  ◌≡◌, ◌≢◌, refl, ap, ap₂, ◌∙◌, arith, inl, inr, All, filter-All,
}
use artalk.Entity.{Comment, comment_is_empty}
use artalk.Backend.{Backend}
use artalk.Dao.{Dao, all_comments}
use artalk.Dao.Find.{
  find_comment, find_child_ids, find_each, find_comment_children_shallow, find_under,
  find_comment_children, child_matches,
}
use artalk.Dao.Rows.{children_of, row_of_self, NonzeroIds}
use artalk.Dao.Coherence.{
  SameTables, SameTables-trans, row_of, IsCoherent, find_comment-IsCoherent,
  find_child_ids-IsCoherent,
}

-- The rows that a list of ids finds.
abbrev found : List ℕ → List Comment → List Comment
found [] l = []
found (i ∷ is) l = let c = row_of i l in if comment_is_empty c then found is l else c ∷ found is l

module _ {B : Backend} where
  find_each-IsCoherent :
      (is : List ℕ) (d : Dao B)
      → IsCoherent d
      → ((find_each is d).0 ≡ found is (all_comments d))
        × SameTables d (find_each is d).1
        × IsCoherent (find_each is d).1
  unfolding find_each
  find_each-IsCoherent [] d h = (refl, refl, h)
  find_each-IsCoherent (i ∷ is) d h =
      let (c, same, h₁) = find_comment-IsCoherent i d h in
      let (cs, same₂, h₂) = find_each-IsCoherent is (find_comment i d).1 h₁ in
      (
        ground (arith, c, cs, ap (λ (x : Dao B). x.comments) same),
        SameTables-trans d _ _ same same₂,
        h₂,
      )

-- In rows with keys of their own, the ids of some rows find these rows.
found-ids :
    (l rows : List Comment)
    → All (λ c. row_of c.id rows ≡ c) l
    → NonzeroIds l
    → found (map (λ (c : Comment). c.id) l) rows ≡ l
unfolding any
found-ids [] rows h z = refl
found-ids (c ∷ l) rows h z = ground (arith, h.0, found-ids l rows h.1 (ground arith))

filter-NonzeroIds : (p : Comment → Bool) (l : List Comment) → NonzeroIds l → NonzeroIds (filter p l)
unfolding filter any
filter-NonzeroIds p [] z = refl
filter-NonzeroIds p (c ∷ l) z = ground (arith, z, filter-NonzeroIds p l (ground (arith, z)))

module _ {B : Backend} where
  -- With a cache that agrees with the table, FindCommentChildrenShallow returns the rows that
  -- reply to a comment in the order of the table, changes no table, and leaves cache and table
  -- in agreement.
  pub find_comment_children_shallow-IsCoherent :
      (p : ℕ) (d : Dao B)
      → p ≢ 0
      → IsCoherent d
      → ((find_comment_children_shallow p d).0 ≡ children_of p (all_comments d))
        × SameTables d (find_comment_children_shallow p d).1
        × IsCoherent (find_comment_children_shallow p d).1
  unfolding find_comment_children_shallow children_of
  find_comment_children_shallow-IsCoherent p d z h =
      let (ids, same, h₁) = find_child_ids-IsCoherent p d z h in
      let (cs, same₂, h₂) = find_each-IsCoherent (find_child_ids p d).0 (find_child_ids p d).1 h₁ in
      let rows = all_comments d in
      (
        cs
            ∙ ap₂ found ids (ap (λ (x : Dao B). all_comments x) same)
            ∙ found-ids (filter (child_matches p) rows) rows
                (filter-All (λ c. row_of c.id rows ≡ c) (child_matches p) rows
                  (row_of_self rows (B.comments.select_distinct d.comments)))
                (filter-NonzeroIds (child_matches p) rows (B.comments.select_keys d.comments)),
        SameTables-trans d _ _ same same₂,
        h₂,
      )

-- The search over plain rows: what `FindCommentChildren` gathers.
unfoldable pub descend_under : (ℕ → Option (List Comment)) → List Comment → Option (List Comment)
descend_under again [] = some []
descend_under again (c ∷ cs) = elim (again c.id) [
  | none ↦ none
  | some below ↦ elim (descend_under again cs) [
    | none ↦ none
    | some others ↦ some (c ∷ below ++ others)
  ]
]

unfoldable pub descend : ℕ → ℕ → List Comment → Option (List Comment)
unfolding descend_under children_of
descend zero p rows = none
descend (suc fuel) p rows = descend_under (λ q. descend fuel q rows) (children_of p rows)

-- `r` is the outcome of the plain search `o`, in a coherent state with the same comments as `d`.
pub data Gathers {B : Backend} (d : Dao B)
    : Option (List Comment) → Option (List Comment × Dao B) → Type 0 where
  out_of_fuel : Gathers d none none
  gathered :
      (l : List Comment) (d' : Dao B)
      → SameTables d d'
      → IsCoherent d'
      → Gathers d (some l) (some (l, d'))

pub children_of-NonzeroIds :
    (p : ℕ) (l : List Comment) → NonzeroIds l → NonzeroIds (children_of p l)
unfolding children_of
children_of-NonzeroIds p l = filter-NonzeroIds (child_matches p) l

module _ {B : Backend} where
  find_under-Gathers :
      (again : ℕ → Dao B → Option (List Comment × Dao B)) (plain : ℕ → Option (List Comment))
      (d : Dao B)
      → ((q : ℕ) (d' : Dao B)
          → q ≢ 0
          → SameTables d d'
          → IsCoherent d'
          → Gathers d (plain q) (again q d'))
      → (cs : List Comment) → NonzeroIds cs
      → (d' : Dao B) → SameTables d d'
      → IsCoherent d'
      → Gathers d (descend_under plain cs) (find_under again cs d')
  unfolding find_under descend_under any
  find_under-Gathers again plain d ih [] z d' same h = gathered [] d' same h
  find_under-Gathers again plain d ih (c ∷ cs) z d' same h =
      let z' : NonzeroIds cs = ground (arith, z) in
      go (find_under-Gathers again plain d ih cs z') (plain c.id) (again c.id d')
        (ih c.id d' (ground (arith, z)) same h)
    where
      join :
          (below : List Comment) (o : Option (List Comment)) (r : Option (List Comment × Dao B))
          → Gathers d o r
          → Gathers d
              (elim o [ none ↦ none | some others ↦ some (c ∷ below ++ others) ])
              (elim r [ none ↦ none | some (others, d₂) ↦ some (c ∷ below ++ others, d₂) ])
      join below o r out_of_fuel = out_of_fuel
      join below o r (gathered l d₂ e k) = gathered (c ∷ below ++ l) d₂ e k

      go :
          ((d₁ : Dao B)
            → SameTables d d₁
            → IsCoherent d₁
            → Gathers d (descend_under plain cs) (find_under again cs d₁))
          → (o : Option (List Comment)) (r : Option (List Comment × Dao B)) → Gathers d o r
          → Gathers d
              (elim o [
                | none ↦ none
                | some below ↦ elim (descend_under plain cs) [
                  | none ↦ none
                  | some others ↦ some (c ∷ below ++ others)
                ]
              ])
              (elim r [
                | none ↦ none
                | some (below, d₁) ↦ elim (find_under again cs d₁) [
                  | none ↦ none
                  | some (others, d₂) ↦ some (c ∷ below ++ others, d₂)
                ]
              ])
      go rest o r out_of_fuel = out_of_fuel
      go rest o r (gathered below d₁ e k) =
          join below (descend_under plain cs) (find_under again cs d₁) (rest d₁ e k)

  -- With a cache that agrees with the table, the recursive cached search FindCommentChildren
  -- gives what a search over the rows alone gives with the same fuel, result or not, and leaves
  -- the tables as they were and the cache in agreement.
  pub find_comment_children-Gathers :
      (fuel p : ℕ) (d d' : Dao B)
      → p ≢ 0
      → SameTables d d'
      → IsCoherent d'
      → Gathers d (descend fuel p (all_comments d)) (find_comment_children fuel p d')
  unfolding find_comment_children descend
  find_comment_children-Gathers zero p d d' z same h = out_of_fuel
  find_comment_children-Gathers (suc fuel) p d d' z same h =
      let (cs, same₁, h₁) = find_comment_children_shallow-IsCoherent p d' z h in
      let rows = all_comments d in
      rw (cs ∙ ap (λ (x : Dao B). children_of p (all_comments x)) same) (
        find_under-Gathers (find_comment_children fuel) (λ q. descend fuel q rows) d
          (λ q d₂ nz e k. find_comment_children-Gathers fuel q d d₂ nz e k) (children_of p rows)
          (children_of-NonzeroIds p rows (B.comments.select_keys d.comments))
          (find_comment_children_shallow p d').1 (SameTables-trans d d' _ same same₁) h₁)

  -- What `Gathers` says of a search that did not run out of fuel.
  pub Gathers-cases :
      {d : Dao B} {o : Option (List Comment)} {r : Option (List Comment × Dao B)}
      → Gathers d o r
      → ((r ≡ none) × (o ≡ none))
        ⊎ ((l : List Comment) × (d' : Dao B) × (o ≡ some l)
            × (r ≡ some (l, d'))
            × SameTables d d'
            × IsCoherent d')
  Gathers-cases out_of_fuel = inl (refl, refl)
  Gathers-cases (gathered l d' same h) = inr (l, d', refl, refl, same, h)
