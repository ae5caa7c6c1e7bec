-- ===== src/Dao/Deletion.antt =====
-- `DelComment` and the loop over replies: what is gone and what is kept.
use artalk.Prelude.{
  ◌==◌, Bool, true, false, not, ◌&&◌, some, List, [], ◌∷◌, filter, any, ◌≡◌, refl, sym, ap, ◌∙◌,
  arith, Bool-cases, Option-cases, inl, inr, filter-filter, filter-congr, All-of,
}
use mathlib.Core.Option
use artalk.Prelude.Result.{Result, ok, err}
use artalk.Entity.{Comment, Vote, Notify}
use artalk.Backend.{Backend}
use artalk.Dao.{Dao, DbError, all_comments, all_votes, all_notifies}
use artalk.Dao.Cache.{comment_cache_del}
use artalk.Dao.Write.{del_comment, del_each, is_comment_vote}
use artalk.Dao.Descend.{has_id}

-- What a successful `DelComment` does: the comment, its votes and its notifications are gone, its
-- entries of the cache are deleted, and nothing else changes.
pub record Removed {B : Backend} (c : Comment) (d d' : Dao B) : Type 0 where
  pub comments : all_comments d' ≡ filter (λ x. not (x.id == c.id)) (all_comments d)
  pub votes :
      all_votes d' ≡ filter (λ v. not (v.target_id == c.id && is_comment_vote v.type)) (all_votes d)
  pub notifies : all_notifies d' ≡ filter (λ n. not (n.comment_id == c.id)) (all_notifies d)
  pub users : d'.users ≡ d.users
  pub pages : d'.pages ≡ d.pages
  pub sites : d'.sites ≡ d.sites
  pub cache : d'.cache ≡ Option.map (comment_cache_del B.store c) d.cache

module _ {B : Backend} where
  del_comment-run :
      (c : Comment) (d : Dao B) (rn : B.notifies.Rows) (rv : B.votes.Rows) (rc : B.comments.Rows)
      → B.notifies.delete (λ n. n.comment_id == c.id) d.notifies ≡ some rn
      → B.votes.delete (λ v. v.target_id == c.id && is_comment_vote v.type) d.votes ≡ some rv
      → B.comments.delete (λ x. x.id == c.id) d.comments ≡ some rc
      → (c.id == 0) ≡ false
      → del_comment c d ≡ (
        ok tt,
        record d {
          comments = rc;
          votes = rv;
          notifies = rn;
          cache = Option.map (comment_cache_del B.store c) d.cache;
        },
      )
  unfolding del_comment
  del_comment-run c d rn rv rc en ev ec key = ground arith

  pub del_comment-Removed :
      (c : Comment) (d : Dao B) → (del_comment c d).0 ≡ ok tt → Removed c d (del_comment c d).1
  unfolding del_comment
  del_comment-Removed c d e =
      elim (Option-cases (B.notifies.delete (λ n. n.comment_id == c.id) d.notifies)) [
        | inl no_n ↦ absurd (ground arith)
        | inr (rn, en) ↦
            elim (Option-cases
              (B.votes.delete (λ v. v.target_id == c.id && is_comment_vote v.type) d.votes)) [
                | inl no_v ↦ absurd (ground arith)
                | inr (rv, ev) ↦
                    elim (Option-cases (B.comments.delete (λ x. x.id == c.id) d.comments)) [
                      | inl no_c ↦ absurd (ground arith)
                      | inr (rc, ec) ↦ elim (Bool-cases (c.id == 0)) [
                        | inl zero_id ↦ absurd (ground arith)
                        | inr has_key ↦ rw (del_comment-run c d rn rv rc en ev ec has_key) (record {
                          comments = B.comments.delete_select _ d.comments rc ec;
                          votes = B.votes.delete_select _ d.votes rv ev;
                          notifies = B.notifies.delete_select _ d.notifies rn en;
                          users = refl;
                          pages = refl;
                          sites = refl;
                          cache = refl;
                        })
                      ]
                    ]
              ]
      ]

-- The same of a list of comments, deleted one after the other.
pub record RemovedAll {B : Backend} (l : List Comment) (d d' : Dao B) : Type 0 where
  pub comments : all_comments d' ≡ filter (λ x. not (has_id x.id l)) (all_comments d)
  pub votes :
      all_votes d'
      ≡ filter (λ v. not (has_id v.target_id l && is_comment_vote v.type)) (all_votes d)
  pub notifies : all_notifies d' ≡ filter (λ n. not (has_id n.comment_id l)) (all_notifies d)
  pub users : d'.users ≡ d.users
  pub pages : d'.pages ≡ d.pages
  pub sites : d'.sites ≡ d.sites

filter-true : {A : Type 0} (l : List A) → filter (λ x. true) l ≡ l
unfolding filter
filter-true [] = refl
filter-true (x ∷ l) = ap (◌∷◌ x) (filter-true l)

-- Two filters in turn, as one.
filter_twice :
    {A : Type 0} (p q r : A → Bool) (l : List A)
    → ((x : A) → (q x && p x) ≡ r x)
    → filter p (filter q l) ≡ filter r l
filter_twice p q r l same =
    filter-filter p q l
    ∙ filter-congr (λ x. q x && p x) r l (All-of (λ x. (q x && p x) ≡ r x) same l)

first-ok :
    (q : Result DbError (Unit {0}))
    → (elim q as (λ _. Result DbError (Unit {0})) [ ok _ ↦ ok tt | err y ↦ err y ]) ≡ ok tt
    → q ≡ ok tt
first-ok (ok u) e = refl
first-ok (err x) e = cc

module _ {B : Backend} where
  del_each-start :
      (r : Result DbError (Unit {0})) (cs : List Comment) (d : Dao B)
      → (del_each r cs d).0 ≡ ok tt
      → r ≡ ok tt
  unfolding del_each
  del_each-start r [] d e = e
  del_each-start (ok u) (c ∷ cs) d e = refl
  del_each-start (err x) (c ∷ cs) d e =
      elim (del_comment c d).0
          as (λ q.
            (del_each (elim q [ ok _ ↦ err x | err y ↦ err y ]) cs (del_comment c d).1).0 ≡ ok tt
            → err x ≡ ok tt) [
              | ok _ ↦ λ k. del_each-start (err x) cs (del_comment c d).1 k
              | err y ↦ λ k. absurd (cc (del_each-start (err y) cs (del_comment c d).1 k))
            ]
        e

  pub Removed-RemovedAll :
      (c : Comment) (cs : List Comment) (d d₁ d₂ : Dao B)
      → Removed c d d₁
      → RemovedAll cs d₁ d₂
      → RemovedAll (c ∷ cs) d d₂
  unfolding has_id any
  Removed-RemovedAll c cs d d₁ d₂ one rest = record {
    comments =
        rest.comments
        ∙ ap (filter (λ (x : Comment). not (has_id x.id cs))) one.comments
        ∙ filter_twice _ _ _ (all_comments d) (λ (x : Comment). ground arith);
    votes =
        rest.votes
        ∙ ap (filter (λ (v : Vote). not (has_id v.target_id cs && is_comment_vote v.type)))
            one.votes
        ∙ filter_twice _ _ _ (all_votes d) (λ (v : Vote). ground arith);
    notifies =
        rest.notifies
        ∙ ap (filter (λ (n : Notify). not (has_id n.comment_id cs))) one.notifies
        ∙ filter_twice _ _ _ (all_notifies d) (λ (n : Notify). ground arith);
    users = rest.users ∙ one.users;
    pages = rest.pages ∙ one.pages;
    sites = rest.sites ∙ one.sites;
  }

  -- If the loop of DelCommentChildren reports no error, exactly the comments of its list were
  -- removed, with their comment votes and notifications, and users, pages and sites are
  -- unchanged.
  pub del_each-RemovedAll :
      (cs : List Comment) (d : Dao B)
      → (del_each (ok tt) cs d).0 ≡ ok tt
      → RemovedAll cs d (del_each (ok tt) cs d).1
  unfolding del_each has_id any
  del_each-RemovedAll [] d e = record {
    comments = sym (filter-true (all_comments d));
    votes = sym (filter-true (all_votes d));
    notifies = sym (filter-true (all_notifies d));
    users = refl;
    pages = refl;
    sites = refl;
  }
  del_each-RemovedAll (c ∷ cs) d e =
      let d₁ = (del_comment c d).1 in
      let q = first-ok (del_comment c d).0 (del_each-start _ cs d₁ e) in
      let whole : del_each (ok tt) (c ∷ cs) d ≡ del_each (ok tt) cs d₁ = rw q in
      let e' : (del_each (ok tt) cs d₁).0 ≡ ok tt = ap (λ r. r.0) (sym whole) ∙ e in
      rw whole (
        Removed-RemovedAll c cs d d₁ (del_each (ok tt) cs d₁).1 (del_comment-Removed c d q)
          (del_each-RemovedAll cs d₁ e'))
