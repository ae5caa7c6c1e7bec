-- ===== src/Server/CommentDelete/Tree.antt =====
-- Deleting a comment deletes the tree below it, and nothing else.
use artalk.Prelude.{
  ℕ, ◌+◌, ◌==◌, ◌≤◌, ◌<◌, true, not, ◌&&◌, ◌||◌, Option, none, some, List, ◌∷◌, filter, ◌≡◌, ◌≢◌,
  ◌↔◌, ◌⊎◌, refl, sym, ap, subst₂, ◌∙◌, arith, inl, inr, All, All-map, All-of-filter, Bool-cases,
}
use artalk.Prelude.Result.{Result, ok, err, Result-cases}
use artalk.Entity.{Comment, Vote, Notify}
use artalk.Backend.{Backend}
use artalk.Dao.{Dao, DbError, all_comments, all_votes, all_notifies}
use artalk.Dao.Find.{find_comment}
use artalk.Dao.Write.{del_comment, del_comment_children, del_each, is_comment_vote}
use artalk.Dao.Coherence.{IsCoherent, SameTables, row_of, find_comment-IsCoherent}
use artalk.Dao.Children.{descend, find_comment_children-Gathers, Gathers-cases}
use artalk.Dao.Rows.{row_of-own}
use artalk.Dao.Below.{IsBelow, IsBelow-filter, has_id-IsBelow, replies_to-All, descend-IsBelow}
use artalk.Dao.Descend.{
  IsForward, has_id, has_id-cons, descend-total, descend-closed, filter-IsForward,
}
use artalk.Dao.Deletion.{RemovedAll, del_comment-Removed, del_each-RemovedAll, Removed-RemovedAll}
use artalk.Dao.DeletionCache.{del_comment-IsCoherent}
use artalk.Server.{Response, success, error}
use artalk.Server.CommentDelete.{children_response, delete_found, comment_delete}

-- From `d` to `d'` the comments of `gone` were removed: the comment `id` and those that stand below
-- it in the table, at any depth, and no others.
pub record TreeGone {B : Backend} (id : ℕ) (d d' : Dao B) : Type 0 where
  pub gone : List Comment
  pub exactly : (n : ℕ) → (has_id n gone ≡ true) ↔ ((n ≡ id) ⊎ IsBelow (all_comments d) id n)
  pub removed : RemovedAll gone d d'

-- The rows that stay after the comment, with the replies below it: the whole tree.
closed_with :
    (c : Comment) (l rows : List Comment)
    → All
        (λ (x : Comment). has_id x.id l ≡ (x.rid == c.id || has_id x.rid l))
        (filter (λ (x : Comment). not (x.id == c.id)) rows)
    → All (λ (x : Comment). has_id x.id (c ∷ l) ≡ (x.id == c.id || has_id x.rid (c ∷ l))) rows
closed_with c l rows h =
    All-map
      (λ (x : Comment).
        not (x.id == c.id) ≡ true → has_id x.id l ≡ (x.rid == c.id || has_id x.rid l))
      (λ (x : Comment). has_id x.id (c ∷ l) ≡ (x.id == c.id || has_id x.rid (c ∷ l)))
      (λ x k. ground (arith, k, has_id-cons c l x.id, has_id-cons c l x.rid)) rows
      (All-of-filter (λ (x : Comment). has_id x.id l ≡ (x.rid == c.id || has_id x.rid l))
        (λ (x : Comment). not (x.id == c.id)) rows h)

IsBelow-gone :
    (id : ℕ) (rows gone : List Comment) (n : ℕ)
    → All (λ (x : Comment). has_id x.id gone ≡ (x.id == id || has_id x.rid gone)) rows
    → has_id id gone ≡ true
    → IsBelow rows id n
    → has_id n gone ≡ true
IsBelow-gone id rows gone n h top (IsBelow.direct _ r) =
    let step =
      replies_to-All (λ i. has_id i gone) (λ i q. i == id || has_id q gone) n id rows h r in
    ground (arith, step, top)
IsBelow-gone id rows gone n h top (IsBelow.deeper _ q r k) =
    let step = replies_to-All (λ i. has_id i gone) (λ i j. i == id || has_id j gone) n q rows h r in
    let above = IsBelow-gone id rows gone q h top k in ground (arith, step, above)

-- The comment with what was gathered below it among the other rows is the tree.
gone_exactly :
    (c : Comment) (l rows : List Comment)
    → (let others = filter (λ (x : Comment). not (x.id == c.id)) rows in
        All (λ (x : Comment). IsBelow others c.id x.id) l
        × All (λ (x : Comment). has_id x.id l ≡ (x.rid == c.id || has_id x.rid l)) others)
    → (n : ℕ) → (has_id n (c ∷ l) ≡ true) ↔ ((n ≡ c.id) ⊎ IsBelow rows c.id n)
gone_exactly c l rows (sound, closed) n = (
  (λ e. elim (Bool-cases (c.id == n)) [
    | inl here ↦ inl (ground (arith, here))
    | inr there ↦ inr (
        IsBelow-filter (λ (x : Comment). not (x.id == c.id)) rows c.id n
          (has_id-IsBelow _ c.id n l sound (ground (arith, e, there, has_id-cons c l n))))
  ]),
  (λ e. elim e [
    | inl same ↦ ground (arith, same, has_id-cons c l n)
    | inr below ↦
        IsBelow-gone c.id rows (c ∷ l) n (closed_with c l rows closed)
          (ground (arith, has_id-cons c l c.id)) below
  ]),
)

children_ok :
    (q : Result DbError (Unit {0})) (u : Unit {0}) → children_response q ≡ success u → q ≡ ok tt
unfolding children_response
children_ok (ok v) u e = refl
children_ok (err x) u e = absurd (cc)

module _ {B : Backend} where
  RemovedAll-SameTables :
      (l : List Comment) (d₁ d₂ d₃ : Dao B)
      → SameTables d₁ d₂
      → RemovedAll l d₂ d₃
      → RemovedAll l d₁ d₃
  RemovedAll-SameTables l d₁ d₂ d₃ same r = record {
    comments =
        r.comments ∙ ap (λ x. filter (λ (c : Comment). not (has_id c.id l)) (all_comments x)) same;
    votes =
        r.votes
        ∙ ap
            (λ x.
              filter (λ (v : Vote). not (has_id v.target_id l && is_comment_vote v.type))
                (all_votes x))
            same;
    notifies =
        r.notifies
        ∙ ap (λ x. filter (λ (n : Notify). not (has_id n.comment_id l)) (all_notifies x)) same;
    users = r.users ∙ ap (λ (x : Dao B). x.users) same;
    pages = r.pages ∙ ap (λ (x : Dao B). x.pages) same;
    sites = r.sites ∙ ap (λ (x : Dao B). x.sites) same;
  }

  -- The replies, once the comment itself is gone.
  children_gone :
      (fuel p : ℕ) (d d' : Dao B) (u : Unit {0})
      → p ≢ 0
      → IsCoherent d
      → (elim (del_comment_children fuel p d) as (λ _. Option (Response (Unit {0}) × Dao B)) [
        | none ↦ none
        | some (r, x) ↦ some (children_response r, x)
      ])
        ≡ some (success u, d')
      → (l : List Comment) × (descend fuel p (all_comments d) ≡ some l) × RemovedAll l d d'
  unfolding del_comment_children
  children_gone fuel p d d' u z h e =
      elim (Gathers-cases (find_comment_children-Gathers fuel p d d z refl h)) [
        | inl (out, _) ↦ absurd (ground arith)
        | inr (l, d₃, plain, full, same, _) ↦
            let done : (del_each (ok tt) l d₃).0 ≡ ok tt = children_ok _ u (ground arith) in
            let last : d' ≡ (del_each (ok tt) l d₃).1 = ground arith in
            (
              l,
              plain,
              RemovedAll-SameTables l d d₃ d' same (rw last (del_each-RemovedAll l d₃ done)),
            )
      ]

  delete_found-TreeGone :
      (fuel : ℕ) (c : Comment) (d d' : Dao B) (u : Unit {0})
      → c.id ≢ 0
      → IsCoherent d
      → c ≡ row_of c.id (all_comments d)
      → delete_found fuel c d ≡ some (success u, d')
      → TreeGone c.id d d'
  unfolding delete_found
  delete_found-TreeGone fuel c d d' u z h row e = elim (Result-cases (del_comment c d).0) [
    | inr (x, failed) ↦ absurd (ground arith)
    | inl (v, deleted) ↦
        let d₂ = (del_comment c d).1 in
        let one = del_comment-Removed c d deleted in
        let (l, plain, rest) =
          children_gone fuel c.id d₂ d' u z (del_comment-IsCoherent c d h row deleted)
            (ground arith) in
        let rows = all_comments d₂ in
        let keys = B.comments.select_keys d₂.comments in
        record {
          gone = c ∷ l;
          exactly = gone_exactly c l (all_comments d) (
              rw (← one.comments) (
                descend-IsBelow rows keys fuel c.id l z plain,
                descend-closed fuel c.id rows l z (B.comments.select_distinct d₂.comments) keys
                    plain,
              ));
          removed = Removed-RemovedAll c l d d₂ d' one rest;
        }
  ]

  -- If the cache agrees with the table of comments and CommentDelete answers with success, the
  -- rows that were removed are exactly the comment and the comments below it (its replies, and
  -- the replies to a comment below it), with their comment votes and notifications; every other
  -- row of every table is kept.
  pub comment_delete-TreeGone :
      (fuel id : ℕ) (d d' : Dao B) (u : Unit {0})
      → IsCoherent d
      → comment_delete fuel id d ≡ some (success u, d')
      → TreeGone id d d'
  unfolding comment_delete
  comment_delete-TreeGone fuel id d d' u h e =
      let (found, same, h₁) = find_comment-IsCoherent id d h in
      let c = (find_comment id d).0 in
      let d₁ = (find_comment id d).1 in
      elim (Bool-cases (c.id == 0)) [
        | inl missing ↦ absurd (ground arith)
        | inr there ↦
            let (key, row) = row_of-own c id (all_comments d) found there in
            let rows : all_comments d₁ ≡ all_comments d = ap (λ (x : Dao B). all_comments x) same in
            let tree =
              delete_found-TreeGone fuel c d₁ d' u (ground arith) h₁
                (row ∙ ap (row_of c.id) (sym rows)) (ground arith) in
            record {
              gone = tree.gone;
              exactly =
                  subst₂
                    (λ (i : ℕ) (l : List Comment).
                      (n : ℕ) → (has_id n tree.gone ≡ true) ↔ ((n ≡ i) ⊎ IsBelow l i n))
                    key rows tree.exactly;
              removed = RemovedAll-SameTables tree.gone d d₁ d' same tree.removed;
            }
      ]

  children-total :
      (fuel p bound : ℕ) (d : Dao B)
      → p ≢ 0
      → IsCoherent d
      → IsForward bound (all_comments d)
      → p ≤ bound
      → bound < p + fuel
      → (r : Result DbError (Unit {0}) × Dao B) × (del_comment_children fuel p d ≡ some r)
  unfolding del_comment_children
  children-total fuel p bound d z h fwd le lt =
      let (l, plain) = descend-total fuel p bound (all_comments d) z fwd le lt in
      elim (Gathers-cases (find_comment_children-Gathers fuel p d d z refl h)) [
        | inl (_, out) ↦ absurd (cc)
        | inr (l', d₃, _, full, _, _) ↦ (del_each (ok tt) l' d₃, ground arith)
      ]

  delete_found-total :
      (fuel bound : ℕ) (c : Comment) (d : Dao B)
      → c.id ≢ 0
      → IsCoherent d
      → c ≡ row_of c.id (all_comments d)
      → IsForward bound (all_comments d)
      → c.id ≤ bound
      → bound < c.id + fuel
      → (r : Response (Unit {0}) × Dao B) × (delete_found fuel c d ≡ some r)
  unfolding delete_found
  delete_found-total fuel bound c d z h row fwd le lt = elim (Result-cases (del_comment c d).0) [
    | inr (x, failed) ↦ ((error 500, (del_comment c d).1), ground arith)
    | inl (v, deleted) ↦
        let gone = del_comment-Removed c d deleted in
        let ((q, d₃), e) =
          children-total fuel c.id bound (del_comment c d).1 z
            (del_comment-IsCoherent c d h row deleted)
            (rw gone.comments
              (filter-IsForward bound (λ x. not (x.id == c.id)) (all_comments d) fwd))
            le lt in
        ((children_response q, d₃), ground arith)
  ]

  -- If the cache agrees with the table and every reply has a larger key than what it replies
  -- to, CommentDelete returns, whatever fails on the way, with as much fuel as there are keys
  -- from the comment up to the bound.
  pub comment_delete-total :
      (fuel id bound : ℕ) (d : Dao B)
      → IsCoherent d
      → IsForward bound (all_comments d)
      → id ≤ bound
      → bound < id + fuel
      → (r : Response (Unit {0}) × Dao B) × (comment_delete fuel id d ≡ some r)
  unfolding comment_delete
  comment_delete-total fuel id bound d h fwd le lt =
      let (found, same, h₁) = find_comment-IsCoherent id d h in
      let c = (find_comment id d).0 in
      let d₁ = (find_comment id d).1 in
      elim (Bool-cases (c.id == 0)) [
        | inl missing ↦ ((error 404, d₁), ground arith)
        | inr there ↦
            let (key, row) = row_of-own c id (all_comments d) found there in
            let rows : all_comments d₁ ≡ all_comments d = ap (λ (x : Dao B). all_comments x) same in
            let (r, e) =
              delete_found-total fuel bound c d₁ (ground arith) h₁
                (row ∙ ap (row_of c.id) (sym rows)) (rw rows fwd) (omega arith) (omega arith) in
            (r, ground arith)
      ]
