-- ===== src/Dao/RootId.antt =====
-- FindCommentRootID of internal/dao/query_find.go ends, also where comments reply to each other in a
-- circle.
use artalk.Prelude.{
  ℕ, zero, suc, ◌==◌, ◌≤◌, ◌<◌, Bool, true, false, not, ◌||◌, none, some, List, [], ◌∷◌, any,
  count_p, length, ◌≡◌, ◌≢◌, refl, ap, ◌∙◌, arith, Bool-cases, inl, inr, count_p-le-length,
  find_first, filter,
}
use artalk.Entity.{Comment, empty_comment}
use artalk.Backend.{Backend}
use artalk.Dao.{Dao, all_comments, first_or}
use artalk.Dao.Cache.{contains}
use artalk.Dao.Children.{descend, descend_under, find_comment_children-Gathers, Gathers-cases}
use artalk.Dao.Rows.{children_of}
use artalk.Dao.Coherence.{IsCoherent}
use artalk.Dao.Find.{find_comment_children, find_root_from, find_comment_root_id}

abbrev unseen : List ℕ → Comment → Bool
unseen visited c = not (contains visited c.id)

-- A row that replies to something is a row.
found_row :
    (n : ℕ) (l : List Comment)
    → (first_or empty_comment (λ c. c.id == n) l).rid ≢ 0
    → any (λ (c : Comment). c.id == n) l ≡ true
unfolding first_or find_first any
found_row n [] h = absurd (h refl)
found_row n (c ∷ l) h = ground (arith, h, found_row n l)

unseen-le :
    (n : ℕ) (visited : List ℕ) (l : List Comment)
    → count_p (unseen (n ∷ visited)) l ≤ count_p (unseen visited) l
unfolding count_p contains any
unseen-le n visited [] = omega arith
unseen-le n visited (c ∷ l) = ground (arith, unseen-le n visited l)

-- Visiting a row leaves fewer to visit.
visit :
    (n : ℕ) (visited : List ℕ) (l : List Comment)
    → contains visited n ≡ false
    → any (λ (c : Comment). c.id == n) l ≡ true
    → count_p (unseen (n ∷ visited)) l < count_p (unseen visited) l
unfolding count_p contains any
visit n visited [] new h = absurd (ground arith)
visit n visited (c ∷ l) new h = elim (Bool-cases (c.id == n)) [
  | inl here ↦
      let same : c.id ≡ n = ground arith in
      let now : contains visited c.id ≡ false = rw same new in
      ground (arith, unseen-le n visited l, here, now)
  | inr there ↦ ground (arith, visit n visited l new, h, there)
]

find_root_from-total :
    (fuel : ℕ) (visited : List ℕ) (n : ℕ) (l : List Comment)
    → count_p (unseen visited) l ≤ fuel
    → (r : ℕ) × (find_root_from (suc fuel) visited n l ≡ some r)
unfolding find_root_from
find_root_from-total zero visited n l le =
    let next = (first_or empty_comment (λ (c : Comment). c.id == n) l).rid in
    elim (Bool-cases (n == 0 || contains visited n)) [
      | inl stops ↦ (n, rw stops refl)
      | inr goes ↦ elim (Bool-cases (next == 0)) [
        | inl root ↦ (n, rw goes (rw root refl))
        | inr reply ↦
            let less =
              visit n visited l (ground (arith, goes)) (found_row n l (ground (arith, reply))) in
            absurd (omega (arith, less, le))
      ]
    ]
find_root_from-total (suc fuel) visited n l le =
    let next = (first_or empty_comment (λ (c : Comment). c.id == n) l).rid in
    elim (Bool-cases (n == 0 || contains visited n)) [
      | inl stops ↦ (n, rw stops refl)
      | inr goes ↦ elim (Bool-cases (next == 0)) [
        | inl root ↦ (n, rw goes (rw root refl))
        | inr reply ↦
            let less =
              visit n visited l (ground (arith, goes)) (found_row n l (ground (arith, reply))) in
            let (r, e) = find_root_from-total fuel (n ∷ visited) next l (omega (arith, less, le)) in
            (r, ground (arith, goes, reply, e))
      ]
    ]

-- FindCommentRootID returns after at most two rounds more than there are comments, also where
-- comments reply to each other in a circle.
pub find_comment_root_id-total :
    (rid : ℕ) (l : List Comment) → (r : ℕ) × (find_comment_root_id rid l ≡ some r)
unfolding find_comment_root_id
find_comment_root_id-total rid l =
    find_root_from-total (suc (length l)) [] rid l (omega (arith, count_p-le-length (unseen []) l))

-- A comment that replies to itself is below itself without end.
module _ (c : Comment) (rest : List Comment) (self : c.rid ≡ c.id) (z : c.id ≢ 0) where
  pub descend_self : (fuel : ℕ) → descend fuel c.id (c ∷ rest) ≡ none
  unfolding descend descend_under children_of filter
  descend_self zero = refl
  descend_self (suc fuel) =
      let first : children_of c.id (c ∷ rest) ≡ c ∷ children_of c.id rest =
        ground (arith, self, z) in
      ap (descend_under (λ q. descend fuel q (c ∷ rest))) first ∙ ground (arith, descend_self fuel)

  -- If the first comment of the table replies to itself and the cache agrees with the table,
  -- FindCommentChildren of that comment ends with no amount of fuel.
  pub find_comment_children_self :
      {B : Backend} (d : Dao B)
      → IsCoherent d
      → all_comments d ≡ c ∷ rest
      → (fuel : ℕ) → find_comment_children fuel c.id d ≡ none
  find_comment_children_self d h rows fuel =
      elim (Gathers-cases (find_comment_children-Gathers fuel c.id d d z refl h)) [
        | inl (out, _) ↦ out
        | inr (l, d', plain, _, _, _) ↦
            let never : descend fuel c.id (all_comments d) ≡ none = rw rows (descend_self fuel) in
            absurd (ground (arith, plain, never))
      ]
