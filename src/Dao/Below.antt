-- ===== src/Dao/Below.antt =====
-- The comments that stand below a comment, at any depth, and the search through replies
-- (internal/dao/query_find.go, FindCommentChildren).
use artalk.Prelude.{
  ℕ, zero, suc, ◌==◌, Bool, true, false, ◌&&◌, ◌||◌, Option, some, List, [], ◌∷◌, ◌++◌, filter, any,
  ◌≡◌, ◌≢◌, ◌↔◌, refl, sym, ap, ◌∙◌, arith, Bool-cases, Option-cases, inl, inr, All, All-zip,
  All-map, All-filter, filter-All, All-append, any-false-All, subst,
}
use artalk.Entity.{Comment}
use artalk.Backend.{Backend}
use artalk.Dao.{Dao, all_comments}
use artalk.Dao.Find.{child_matches, find_comment_children}
use artalk.Dao.Rows.{children_of, NonzeroIds}
use artalk.Dao.Coherence.{IsCoherent}
use artalk.Dao.Children.{
  descend, descend_under, children_of-NonzeroIds, find_comment_children-Gathers, Gathers-cases,
}
use artalk.Dao.Descend.{has_id, descend-closed}

-- A row has the key `n` and is a reply to `q`.
abbrev pub replies_to : ℕ → ℕ → List Comment → Bool
replies_to n q rows = any (λ (c : Comment). c.id == n && c.rid == q) rows

-- The comment `n` is a reply to `p`, or to a comment below `p`.
pub data IsBelow (rows : List Comment) (p : ℕ) : ℕ → Type 0 where
  direct : (n : ℕ) → replies_to n p rows ≡ true → IsBelow rows p n
  deeper : (n q : ℕ) → replies_to n q rows ≡ true → IsBelow rows p q → IsBelow rows p n

IsBelow-trans :
    (rows : List Comment) (p q n : ℕ) → IsBelow rows p q → IsBelow rows q n → IsBelow rows p n
IsBelow-trans rows p q n h (IsBelow.direct _ r) = IsBelow.deeper n q r h
IsBelow-trans rows p q n h (IsBelow.deeper _ m r k) =
    IsBelow.deeper n m r (IsBelow-trans rows p q m h k)

replies_to-filter :
    (f : Comment → Bool) (n q : ℕ) (rows : List Comment)
    → replies_to n q (filter f rows) ≡ true
    → replies_to n q rows ≡ true
unfolding any filter
replies_to-filter f n q [] h = h
replies_to-filter f n q (x ∷ rows) h = elim (Bool-cases (f x)) [
  | inl kept ↦ ground (arith, h, kept, replies_to-filter f n q rows)
  | inr dropped ↦ ground (arith, h, dropped, replies_to-filter f n q rows)
]

-- Fewer rows have no more below a comment.
pub IsBelow-filter :
    (f : Comment → Bool) (rows : List Comment) (p n : ℕ)
    → IsBelow (filter f rows) p n
    → IsBelow rows p n
IsBelow-filter f rows p n (IsBelow.direct _ r) = IsBelow.direct n (replies_to-filter f n p rows r)
IsBelow-filter f rows p n (IsBelow.deeper _ q r k) =
    IsBelow.deeper n q (replies_to-filter f n q rows r) (IsBelow-filter f rows p q k)

-- What holds of each row by its key and its parent holds wherever there is a reply.
pub replies_to-All :
    (f : ℕ → Bool) (g : ℕ → ℕ → Bool) (n q : ℕ) (rows : List Comment)
    → All (λ (x : Comment). f x.id ≡ g x.id x.rid) rows
    → replies_to n q rows ≡ true
    → f n ≡ g n q
unfolding any
replies_to-All f g n q [] h r = absurd (cc r)
replies_to-All f g n q (x ∷ rows) h r = elim (Bool-cases (x.id == n && x.rid == q)) [
  | inl here ↦
      let key : x.id ≡ n = ground (arith, here) in
      let above : x.rid ≡ q = ground (arith, here) in cc (h.0, key, above)
  | inr there ↦ replies_to-All f g n q rows h.1 (ground (arith, r, there))
]

replies_to_self :
    (rows : List Comment) → All (λ (c : Comment). replies_to c.id c.rid rows ≡ true) rows
unfolding any
replies_to_self [] = tt
replies_to_self (x ∷ rows) = (
  ground arith,
  All-map (λ (c : Comment). replies_to c.id c.rid rows ≡ true)
      (λ (c : Comment). replies_to c.id c.rid (x ∷ rows) ≡ true) (λ c k. ground (arith, k)) rows
      (replies_to_self rows),
)

children_of-IsBelow :
    (p : ℕ) (rows : List Comment)
    → p ≢ 0
    → All (λ (c : Comment). replies_to c.id p rows ≡ true) (children_of p rows)
unfolding children_of
children_of-IsBelow p rows z =
    All-map (λ (c : Comment). (child_matches p c ≡ true) × (replies_to c.id c.rid rows ≡ true))
      (λ (c : Comment). replies_to c.id p rows ≡ true)
      (λ c (child, own).
        let above : c.rid ≡ p = ground (arith, child, z) in
        ap (λ q. replies_to c.id q rows) (sym above) ∙ own)
      (filter (child_matches p) rows)
      (All-zip (λ (c : Comment). child_matches p c ≡ true)
        (λ (c : Comment). replies_to c.id c.rid rows ≡ true) (filter (child_matches p) rows)
        (All-filter (child_matches p) rows)
        (filter-All (λ (c : Comment). replies_to c.id c.rid rows ≡ true) (child_matches p) rows
          (replies_to_self rows)))

descend_under-All :
    (P : Comment → Type 0) (again : ℕ → Option (List Comment)) (cs l : List Comment)
    → All P cs
    → All (λ (c : Comment). (b : List Comment) → again c.id ≡ some b → All P b) cs
    → descend_under again cs ≡ some l
    → All P l
unfolding descend_under
descend_under-All P again [] [] h k e = tt
descend_under-All P again [] (x ∷ l) h k e = absurd (cc (e))
descend_under-All P again (c ∷ cs) l h k e = elim (Option-cases (again c.id)) [
  | inl out ↦ absurd (ground (arith, e, out))
  | inr (b, now) ↦ elim (Option-cases (descend_under again cs)) [
    | inl out ↦ absurd (ground (arith, e, now, out))
    | inr (o, rest) ↦
        let whole : l ≡ c ∷ b ++ o = ground (arith, e, now, rest) in
        rw whole (h.0, All-append P b o (k.0 b now) (descend_under-All P again cs o h.1 k.1 rest))
  ]
]

module _ (rows : List Comment) (keys : NonzeroIds rows) where
  -- What is gathered below a comment stands below it.
  pub descend-IsBelow :
      (fuel p : ℕ) (l : List Comment)
      → p ≢ 0
      → descend fuel p rows ≡ some l
      → All (λ (c : Comment). IsBelow rows p c.id) l
  unfolding descend
  descend-IsBelow zero p l z e = absurd (cc (e))
  descend-IsBelow (suc fuel) p l z e =
      let replies = children_of p rows in
      let first = children_of-IsBelow p rows z in
      descend_under-All (λ (c : Comment). IsBelow rows p c.id) (λ q. descend fuel q rows) replies l
        (All-map (λ (c : Comment). replies_to c.id p rows ≡ true)
          (λ (c : Comment). IsBelow rows p c.id) (λ c r. IsBelow.direct c.id r) replies first)
        (All-map (λ (c : Comment). (replies_to c.id p rows ≡ true) × ((c.id == 0) ≡ false))
          (λ (c : Comment).
            (b : List Comment)
            → descend fuel c.id rows ≡ some b
            → All (λ (x : Comment). IsBelow rows p x.id) b)
          (λ c (r, key) b below.
            All-map (λ (x : Comment). IsBelow rows c.id x.id) (λ (x : Comment). IsBelow rows p x.id)
              (λ x k. IsBelow-trans rows p c.id x.id (IsBelow.direct c.id r) k) b
              (descend-IsBelow fuel c.id b (ground (arith, key)) below))
          replies
          (All-zip (λ (c : Comment). replies_to c.id p rows ≡ true)
            (λ (c : Comment). (c.id == 0) ≡ false) replies first
            (any-false-All (λ (c : Comment). c.id == 0) replies
              (children_of-NonzeroIds p rows keys))))
        e

pub has_id-IsBelow :
    (rows : List Comment) (p n : ℕ) (l : List Comment)
    → All (λ (c : Comment). IsBelow rows p c.id) l
    → has_id n l ≡ true
    → IsBelow rows p n
unfolding has_id any
has_id-IsBelow rows p n [] h e = absurd (cc e)
has_id-IsBelow rows p n (c ∷ l) h e = elim (Bool-cases (c.id == n)) [
  | inl here ↦ let key : c.id ≡ n = ground (arith, here) in subst (IsBelow rows p) key h.0
  | inr there ↦ has_id-IsBelow rows p n l h.1 (ground (arith, e, there))
]

-- Whatever holds the replies to `p` and to its members holds all that is below `p`.
pub IsBelow-has_id :
    (rows : List Comment) (p n : ℕ) (l : List Comment)
    → All (λ (x : Comment). has_id x.id l ≡ (x.rid == p || has_id x.rid l)) rows
    → IsBelow rows p n
    → has_id n l ≡ true
IsBelow-has_id rows p n l h (IsBelow.direct _ r) =
    let step = replies_to-All (λ i. has_id i l) (λ i q. q == p || has_id q l) n p rows h r in
    ground (arith, step)
IsBelow-has_id rows p n l h (IsBelow.deeper _ q r k) =
    let step = replies_to-All (λ i. has_id i l) (λ i j. j == p || has_id j l) n q rows h r in
    let above = IsBelow-has_id rows p q l h k in ground (arith, step, above)

module _ {B : Backend} where
  -- With a cache that agrees with the table, a comment is among those that FindCommentChildren
  -- returns exactly if it stands below the comment that is asked for: if it replies to it, or
  -- to a comment below it, at any depth.
  pub find_comment_children-IsBelow :
      (fuel p : ℕ) (d d' : Dao B) (l : List Comment)
      → p ≢ 0
      → IsCoherent d
      → find_comment_children fuel p d ≡ some (l, d')
      → (n : ℕ) → (has_id n l ≡ true) ↔ IsBelow (all_comments d) p n
  find_comment_children-IsBelow fuel p d d' l z h e n =
      let rows = all_comments d in
      let keys = B.comments.select_keys d.comments in
      elim (Gathers-cases (find_comment_children-Gathers fuel p d d z refl h)) [
        | inl (out, _) ↦ absurd (cc (e, out))
        | inr (l', d₁, plain, full, _, _) ↦
            let same : l' ≡ l = cc (e, full) in
            let found : descend fuel p rows ≡ some l = plain ∙ ap some same in
            (
              has_id-IsBelow rows p n l (descend-IsBelow rows keys fuel p l z found),
              IsBelow-has_id rows p n l (
                  descend-closed fuel p rows l z (B.comments.select_distinct d.comments) keys
                    found),
            )
      ]
