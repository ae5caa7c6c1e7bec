-- ===== src/Dao/VoteSync.antt =====
-- internal/dao/query_find.go and service.go: the counts of the votes.
use artalk.Prelude.{ℕ, ◌==◌, Bool, true, false, ◌&&◌, List, [], ◌∷◌, count_p}
use artalk.Entity.{Comment, Page, Vote, VoteType}
use artalk.Backend.{Backend}
use artalk.Dao.{Dao, all_comments, all_pages, all_votes}
use artalk.Dao.Write.{update_comment, update_page}

abbrev pub type_eq : VoteType → VoteType → Bool
type_eq VoteType.comment_up VoteType.comment_up = true
type_eq VoteType.comment_down VoteType.comment_down = true
type_eq VoteType.page_up VoteType.page_up = true
type_eq VoteType.page_down VoteType.page_down = true
type_eq _ _ = false

abbrev pub is_vote : ℕ → VoteType → Vote → Bool
is_vote target_id type v = v.target_id == target_id && type_eq v.type type

module _ {B : Backend} where
  unfoldable pub get_vote_num : ℕ → VoteType → Dao B → ℕ
  unfolding count_p
  get_vote_num target_id type d = count_p (is_vote target_id type) (all_votes d)

  -- The errors of the updates are dropped.
  unfoldable pub sync_comments : List Comment → Dao B → Dao B
  unfolding update_comment get_vote_num
  sync_comments [] d = d
  sync_comments (c ∷ rest) d =
      let up = get_vote_num c.id VoteType.comment_up d in
      let down = get_vote_num c.id VoteType.comment_down d in
      sync_comments rest (update_comment (record c { vote_up = up; vote_down = down }) d).1

  unfoldable pub sync_pages : List Page → Dao B → Dao B
  unfolding update_page get_vote_num
  sync_pages [] d = d
  sync_pages (p ∷ rest) d =
      let up = get_vote_num p.id VoteType.page_up d in
      let down = get_vote_num p.id VoteType.page_down d in
      sync_pages rest (update_page (record p { vote_up = up; vote_down = down }) d).1

  unfoldable pub vote_sync : Dao B → Dao B
  unfolding sync_comments sync_pages
  vote_sync d = let d' = sync_comments (all_comments d) d in sync_pages (all_pages d') d'
