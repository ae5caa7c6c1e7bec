-- ===== src/Dao/Write.antt =====
-- internal/dao/query_new.go, query_update.go, query_del.go: creating, saving and deleting rows.
use artalk.Prelude.{
  ℕ, ◌+◌, ◌==◌, Bool, true, false, ◌&&◌, Option, none, some, List, [], ◌∷◌, filter, any, str_eq,
}
use artalk.Prelude.Result.{Result, ok, err}
use artalk.Entity.{Comment, Page, Notify, Vote, VoteType, empty_page}
use artalk.Backend.{Backend}
use artalk.Dao.{
  Dao, Act, DbError, write_failed, missing_where_clause, record_not_found, ◌>>=◌, ◌>>◌, pure,
  cache_action, first_or, all_comments, all_pages,
}
use artalk.Dao.Cache.{comment_cache_save, comment_cache_del, page_cache_save, page_cache_del}
use artalk.Dao.Find.{find_comment_children}

-- The votes of a comment, whichever way they go.
abbrev pub is_comment_vote : VoteType → Bool
is_comment_vote VoteType.comment_up = true
is_comment_vote VoteType.comment_down = true
is_comment_vote _ = false

abbrev pub is_page_vote : VoteType → Bool
is_page_vote VoteType.page_up = true
is_page_vote VoteType.page_down = true
is_page_vote _ = false

module _ {B : Backend} where
  -- The writes of one table, which fail as the database says.
  unfoldable pub insert_comment : Comment → Act B Comment
  insert_comment c d = elim (B.comments.insert c d.comments) [
    | none ↦ (err write_failed, d)
    | some (c', rows) ↦ (ok c', record d { comments = rows })
  ]

  unfoldable pub save_comment : Comment → Act B (Unit {0})
  save_comment c d = elim (B.comments.save c d.comments) [
    | none ↦ (err write_failed, d)
    | some rows ↦ (ok tt, record d { comments = rows })
  ]

  -- `Delete` of a struct: GORM refuses it without a primary key.
  unfoldable pub delete_comment_row : Comment → Act B (Unit {0})
  delete_comment_row c d = elim (c.id == 0) [
    | true ↦ (err missing_where_clause, d)
    | false ↦ elim (B.comments.delete (λ x. x.id == c.id) d.comments) [
      | none ↦ (err write_failed, d)
      | some rows ↦ (ok tt, record d { comments = rows })
    ]
  ]

  unfoldable pub delete_notifies : (Notify → Bool) → Act B (Unit {0})
  delete_notifies p d = elim (B.notifies.delete p d.notifies) [
    | none ↦ (err write_failed, d)
    | some rows ↦ (ok tt, record d { notifies = rows })
  ]

  unfoldable pub delete_votes : (Vote → Bool) → Act B (Unit {0})
  delete_votes p d = elim (B.votes.delete p d.votes) [
    | none ↦ (err write_failed, d)
    | some rows ↦ (ok tt, record d { votes = rows })
  ]

  unfoldable pub delete_page_row : Page → Act B (Unit {0})
  delete_page_row p d = elim (p.id == 0) [
    | true ↦ (err missing_where_clause, d)
    | false ↦ elim (B.pages.delete (λ x. x.id == p.id) d.pages) [
      | none ↦ (err write_failed, d)
      | some rows ↦ (ok tt, record d { pages = rows })
    ]
  ]

  unfoldable pub create_comment : Comment → Act B Comment
  unfolding insert_comment comment_cache_save
  create_comment comment = do
    created ← insert_comment comment
    cache_action (comment_cache_save B.store created)
    pure created

  -- The cache is written whether the save failed or not.
  unfoldable pub update_comment : Comment → Act B (Unit {0})
  unfolding save_comment comment_cache_save
  update_comment comment d =
      let (saved, d₁) = save_comment comment d in
      (saved, (cache_action (comment_cache_save B.store comment) d₁).1)

  unfoldable pub del_comment : Comment → Act B (Unit {0})
  unfolding delete_notifies delete_votes delete_comment_row comment_cache_del
  del_comment comment = do
    delete_notifies (λ n. n.comment_id == comment.id)
    delete_votes (λ v. v.target_id == comment.id && is_comment_vote v.type)
    delete_comment_row comment
    cache_action (comment_cache_del B.store comment)

  -- The loop of `DelCommentChildren`: it goes on after an error and returns the last one.
  unfoldable pub del_each : Result DbError (Unit {0}) → List Comment → Act B (Unit {0})
  del_each r [] d = (r, d)
  del_each r (c ∷ rest) d =
      let (e, d') = del_comment c d in del_each (elim e [ ok _ ↦ r | err x ↦ err x ]) rest d'

  unfoldable pub del_comment_children : ℕ → ℕ → Dao B → Option (Result DbError (Unit {0}) × Dao B)
  unfolding del_each
  del_comment_children fuel parent_id d = elim (find_comment_children fuel parent_id d) [
    | none ↦ none
    | some (children, d') ↦ some (del_each (ok tt) children d')
  ]

  -- The loops that drop the errors of `DelComment`.
  unfoldable pub del_all : List Comment → Dao B → Dao B
  del_all [] d = d
  del_all (c ∷ rest) d = del_all rest (del_comment c d).1

  -- What a deleted page leaves: its comments, found by key and site, and its votes.
  unfoldable pub del_page_contents : Page → Act B (Unit {0})
  unfolding del_all delete_votes filter
  del_page_contents page d =
      let comments =
        filter (λ c. str_eq c.page_key page.key && str_eq c.site_name page.site_name)
          (all_comments d) in
      (
        ok tt,
        (delete_votes (λ v. v.target_id == page.id && is_page_vote v.type) (del_all comments d)).1,
      )

  unfoldable pub del_page : Page → Act B (Unit {0})
  unfolding delete_page_row del_page_contents page_cache_del
  del_page page = do
    delete_page_row page
    del_page_contents page
    cache_action (page_cache_del B.store page)

  unfoldable pub create_page : Page → Act B Page
  unfolding page_cache_save
  create_page page d = elim (B.pages.insert page d.pages) [
    | none ↦ (err write_failed, d)
    | some (created, rows) ↦
        (ok created, (cache_action (page_cache_save B.store created) (record d { pages = rows })).1)
  ]

  unfoldable pub update_page : Page → Act B (Unit {0})
  unfolding page_cache_save
  update_page page d = elim (B.pages.save page d.pages) [
    | none ↦ (err write_failed, (cache_action (page_cache_save B.store page) d).1)
    | some rows ↦
        (ok tt, (cache_action (page_cache_save B.store page) (record d { pages = rows })).1)
  ]

  -- `pv` grows by one where the row still is, and the page is read again.
  unfoldable pub increment_page_pv : Page → Act B Page
  unfolding page_cache_del any first_or
  increment_page_pv page d =
      elim (B.pages.update (λ p. p.id == page.id) (λ p. record p { pv = p.pv + 1 }) d.pages) [
        | none ↦ (err write_failed, (cache_action (page_cache_del B.store page) d).1)
        | some rows ↦
            let d₁ = record d { pages = rows } in
            let d₂ = (cache_action (page_cache_del B.store page) d₁).1 in
            elim (any (λ p. p.id == page.id) (all_pages d)) [
              | false ↦ (err record_not_found, d₂)
              | true ↦ (ok (first_or empty_page (λ p. p.id == page.id) (all_pages d₂)), d₂)
            ]
      ]
