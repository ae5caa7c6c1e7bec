-- ===== src/Tests/HandlerWitnesses.antt =====
-- The theorems on the handlers, at a thread of comments.
use artalk.Prelude.{◌≡◌, ◌⊎◌, true, false, refl, arith, [], some, All, filter, trim_prefix}
use artalk.Entity.{User, empty_user}
use artalk.Backend.Memory.{memory, next_key}
use artalk.Dao.{Dao, all_votes}
use artalk.Dao.Find.{
  find_user_by_id, find_comment, find_comment_children, find_comment_children_shallow,
}
use artalk.Dao.Write.{del_comment, del_comment_children}
use artalk.Server.{Response, success, error}
use artalk.Server.Auth.{get_user_by_req, admin_guard}
use artalk.Server.Auth.Access.{IsLogin, admin_guard-cases, get_user_by_req-eq-ok}
use artalk.Server.CommentDelete.{comment_delete}
use artalk.Server.CommentDelete.Tree.{TreeGone, comment_delete-TreeGone, comment_delete-total}
use artalk.Server.CommentGet.{can_read}
use artalk.Server.CommentsGet.{meets, common_scope, site_scope}
use artalk.Server.CommentsGet.Find.{Cooked, find_comments}
use artalk.Server.CommentsGet.Shown.{find_comments-can_read, find_comments-site_scope}
use artalk.Server.CommentsGet.Visible.{common_scope-can_read}
use artalk.Server.Vote.{ResponseVote, VoteParams, update_vote, get_exists_votes_by_ip}
use artalk.Server.Vote.Once.{update_vote-twice}
use artalk.Server.Vote.Toggle.{Voted, update_vote-Voted}
use artalk.Tests.Fixtures.{
  site, site-IsCoherent, hidden, admin, left_by, small_site, small_site-IsCoherent, crypto, request,
  sql, page_options, thumbs_up,
}

comment_delete-TreeGone_example : TreeGone 1 small_site (left_by (comment_delete 3 1 small_site))
unfolding small_site memory comment_delete find_comment del_comment del_comment_children
    find_comment_children find_comment_children_shallow
comment_delete-TreeGone_example =
    comment_delete-TreeGone 3 1 small_site (left_by (comment_delete 3 1 small_site)) tt
      small_site-IsCoherent refl

comment_delete-total_example :
    (r : Response (Unit {0}) × Dao memory) × (comment_delete 9 1 site ≡ some r)
unfolding site memory
comment_delete-total_example =
    comment_delete-total 9 1 6 site site-IsCoherent
      (
        (omega arith, omega arith),
        (
          (omega arith, omega arith),
          (
            (omega arith, omega arith),
            ((omega arith, omega arith), ((omega arith, omega arith), tt)),
          ),
        ),
      )
      (omega arith) (omega arith)

admin_guard-cases_example :
    ((user : User) × IsLogin crypto request site user
      × (user.is_admin ≡ true)
      × (admin_guard crypto (λ _ d. (success tt, d)) request site
          ≡ (success (tt {0}), (get_user_by_req crypto request site).1)))
    ⊎ (admin_guard crypto (λ _ d. (success tt, d)) request site
        ≡ (error 403, (get_user_by_req crypto request site).1))
admin_guard-cases_example = admin_guard-cases crypto request site (λ _ d. (success tt, d))

get_user_by_req-eq-ok_example : IsLogin crypto request site admin
unfolding site memory get_user_by_req trim_prefix find_user_by_id
get_user_by_req-eq-ok_example = get_user_by_req-eq-ok crypto request site admin refl

-- The pending comment is hidden from those who are not logged in.
find_comments-can_read_example :
    All
      (λ (x : Cooked). can_read empty_user "" x.comment ≡ true)
      (find_comments sql page_options (record { offset = 0; limit = 20; nested = true }) site).0
find_comments-can_read_example =
    find_comments-can_read sql page_options (record { offset = 0; limit = 20; nested = true }) site
      (λ z. absurd (z refl))

find_comments-site_scope_example :
    find_comments sql
      (record page_options { scope = site_scope })
      (record { offset = 0; limit = 20; nested = false })
      site
    ≡ ([], 0, 0)
find_comments-site_scope_example =
    find_comments-site_scope sql (record page_options { scope = site_scope })
      (record { offset = 0; limit = 20; nested = false }) site refl refl

common_scope-can_read_example :
    meets (common_scope empty_user "h" []) hidden ≡ can_read empty_user "h" hidden
common_scope-can_read_example =
    common_scope-can_read empty_user "h" hidden (omega arith) (λ z. absurd (z refl))

-- The vote that the address had for the pending comment is taken back.
abbrev taken_back : ResponseVote
taken_back = record { up = 0; down = 0; is_up = false; is_down = false }

update_vote-Voted_example : Voted thumbs_up site taken_back (update_vote thumbs_up site).1
unfolding site memory update_vote
update_vote-Voted_example =
    update_vote-Voted thumbs_up site (update_vote thumbs_up site).1 taken_back refl

-- The same address for the second comment, twice.
abbrev new_thumb : VoteParams
new_thumb = record thumbs_up { target_id = 2 }

update_vote-twice_example :
    all_votes (update_vote new_thumb (update_vote new_thumb site).1).1 ≡ all_votes site
unfolding site memory update_vote get_exists_votes_by_ip filter next_key
update_vote-twice_example =
    update_vote-twice new_thumb site (update_vote new_thumb site).1
      (update_vote new_thumb (update_vote new_thumb site).1).1
      (record { up = 1; down = 0; is_up = true; is_down = false }) taken_back refl refl refl
