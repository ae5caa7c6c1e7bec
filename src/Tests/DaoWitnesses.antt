-- ===== src/Tests/DaoWitnesses.antt =====
-- The theorems on the data access objects, at a thread of comments.
use artalk.Prelude.{ℕ, ◌≡◌, ◌≢◌, ◌↔◌, true, refl, arith, [], ◌∷◌, some, All, none}
use artalk.Backend.Memory.{memory}
use artalk.Dao.{all_comments, first_or, write_failed}
use artalk.Dao.Coherence.{IsCoherent, SameTables, row_of, find_comment-IsCoherent}
use artalk.Dao.Cache.{contains}
use artalk.Dao.Children.{
  Gathers, descend, find_comment_children-Gathers, find_comment_children_shallow-IsCoherent,
}
use artalk.Dao.DeletionCache.{del_comment-IsCoherent}
use artalk.Dao.Below.{IsBelow, find_comment_children-IsBelow}
use artalk.Dao.Descend.{has_id}
use artalk.Dao.Find.{
  find_comment, find_comment_children, find_comment_children_shallow, find_comment_root_id,
  find_child_ids, child_ids_of,
}
use artalk.Dao.RootId.{find_comment_root_id-total, find_comment_children_self}
use artalk.Dao.Rows.{children_of}
use artalk.Dao.Write.{del_comment, update_comment}
use artalk.Prelude.Result.{err}
use artalk.Dao.Saving.{update_comment-forgets_siblings, update_comment-keeps_unsaved}
use artalk.Dao.SavingCache.{update_comment-IsCoherent}
use artalk.Entity.{Comment}
use artalk.Prelude.{All}
use artalk.Entity.{Comment}
use artalk.Dao.Coherence.{cached_comment}
use artalk.Dao.WarmUp.{cache_warm_up}
use artalk.Dao.WarmUp.Warm.{cache_warm_up-IsCoherent}
use artalk.Tests.Fixtures.{
  site, site-IsCoherent, seeded, thread, second, third, fourth, refusing, refused_site, circle,
  circle_site, circle_site-IsCoherent, left_by,
}

find_comment-IsCoherent_example :
    ((find_comment 2 site).0 ≡ row_of 2 (all_comments site))
    × SameTables site (find_comment 2 site).1
    × IsCoherent (find_comment 2 site).1
find_comment-IsCoherent_example = find_comment-IsCoherent 2 site site-IsCoherent

find_comment_children_shallow-IsCoherent_example :
    ((find_comment_children_shallow 1 site).0 ≡ children_of 1 (all_comments site))
    × SameTables site (find_comment_children_shallow 1 site).1
    × IsCoherent (find_comment_children_shallow 1 site).1
find_comment_children_shallow-IsCoherent_example =
    find_comment_children_shallow-IsCoherent 1 site (omega arith) site-IsCoherent

find_comment_children-Gathers_example :
    Gathers site (descend 5 1 (all_comments site)) (find_comment_children 5 1 site)
find_comment_children-Gathers_example =
    find_comment_children-Gathers 5 1 site site (omega arith) refl site-IsCoherent

del_comment-IsCoherent_example : IsCoherent (del_comment fourth site).1
unfolding site memory del_comment first_or
del_comment-IsCoherent_example = del_comment-IsCoherent fourth site site-IsCoherent refl refl

find_comment_children-IsBelow_example :
    (has_id 4 (second ∷ third ∷ fourth ∷ []) ≡ true) ↔ IsBelow (all_comments site) 1 4
unfolding site memory find_comment_children find_comment_children_shallow find_comment
find_comment_children-IsBelow_example =
    find_comment_children-IsBelow 5 1 site (left_by (find_comment_children 5 1 site))
      (second ∷ third ∷ fourth ∷ []) (omega arith) site-IsCoherent refl 4

update_comment-IsCoherent_example :
    IsCoherent (update_comment (record second { is_pinned = true }) site).1
unfolding site memory
update_comment-IsCoherent_example =
    update_comment-IsCoherent (record second { is_pinned = true }) site seeded refl (_) _
      site-IsCoherent (omega arith) refl
      (
        (λ e. absurd (cc e)),
        ((λ _. refl), ((λ e. absurd (cc e)), ((λ e. absurd (cc e)), ((λ e. absurd (cc e)), tt)))),
      )
      refl refl

find_comment_root_id-total_example : (r : ℕ) × (find_comment_root_id 3 thread ≡ some r)
find_comment_root_id-total_example = find_comment_root_id-total 3 thread

find_comment_children_self_example : find_comment_children 1000 9 circle_site ≡ none
unfolding circle_site memory
find_comment_children_self_example =
    find_comment_children_self circle [] refl (omega arith) circle_site circle_site-IsCoherent refl
      1000

update_comment-forgets_siblings_example :
    ((find_child_ids 2 (update_comment third site).1).0 ≡ 3 ∷ [])
    × ((n : ℕ)
        → n ≢ 3
        → contains (child_ids_of 2 (all_comments (update_comment third site).1)) n ≡ true
        → ¬ IsCoherent (update_comment third site).1)
unfolding site memory seeded
update_comment-forgets_siblings_example =
    update_comment-forgets_siblings third site seeded refl (omega arith) refl

update_comment-keeps_unsaved_example :
    ((update_comment second refused_site).0 ≡ err write_failed)
    × ((update_comment second refused_site).1
        ≡ record refused_site { cache = (update_comment second refused_site).1.cache })
    × ((find_comment 2 (update_comment second refused_site).1).0 ≡ second)
unfolding refused_site refusing
update_comment-keeps_unsaved_example =
    update_comment-keeps_unsaved second refused_site (λ _. none) refl refl

cache_warm_up-IsCoherent_example :
    IsCoherent (cache_warm_up (λ s. s) site)
    × (cache_warm_up (λ s. s) site ≡ record site { cache = (cache_warm_up (λ s. s) site).cache })
    × All
        (λ (c : Comment).
          cached_comment memory.store (cache_warm_up (λ s. s) site).cache c.id
          ≡ some (row_of c.id (all_comments site)))
        (all_comments site)
unfolding site
cache_warm_up-IsCoherent_example =
    cache_warm_up-IsCoherent (λ s. s) site seeded refl site-IsCoherent
