-- ===== src/Server/Vote/Once.antt =====
-- An address has one vote for a target at most, and takes it back by giving it again.
use artalk.Prelude.{
  ℕ, ◌≤◌, Bool, true, not, ◌&&◌, Option, none, some, List, [], ◌∷◌, ◌++◌, filter, count_p, ◌≡◌,
  refl, sym, ap, ◌∙◌, arith, count_p-append, count_p-filter, filter-append, eq_refl, ==_refl,
}
use artalk.Prelude.Result.{ok}
use artalk.Entity.{Vote}
use artalk.Backend.{Backend, stamp_vote}
use artalk.Dao.{Dao, all_votes}
use artalk.Server.Vote.{
  ResponseVote, VoteParams, Target, comment, page, Choice, up_vote, down_vote, vote_type, is_for,
  select_choice, new_vote, update_vote, get_exists_votes_by_ip, choice_eq, get_vote_choice,
}
use artalk.Server.Vote.Table.{mine, added, append_nothing}
use artalk.Server.Vote.Toggle.{update_vote-Voted}

is_for-vote_type : (x : Target) (c : Choice) → is_for x (vote_type x c) ≡ true
is_for-vote_type comment up_vote = refl
is_for-vote_type comment down_vote = refl
is_for-vote_type page up_vote = refl
is_for-vote_type page down_vote = refl

same_choice : (x : Target) (c : Choice) → choice_eq c (get_vote_choice (vote_type x c)) ≡ true
same_choice comment up_vote = refl
same_choice comment down_vote = refl
same_choice page up_vote = refl
same_choice page down_vote = refl

mine-new :
    (opts : VoteParams) (k t : ℕ) (c : Choice) → mine opts (stamp_vote k t (new_vote opts c)) ≡ true
mine-new opts k t c =
    ground (arith, is_for-vote_type opts.target c, ==_refl opts.target_id, eq_refl opts.ip)

count-never : (q : Vote → Bool) (l : List Vote) → count_p (λ v. q v && not (q v)) l ≡ 0
unfolding count_p
count-never q [] = refl
count-never q (v ∷ l) = ground (arith, count-never q l)

count-added :
    (opts : VoteParams) (k t : ℕ) (s : Option Choice) → count_p (mine opts) (added opts k t s) ≤ 1
unfolding count_p added
count-added opts k t none = omega arith
count-added opts k t (some c) = ground arith

module _ {B : Backend} (opts : VoteParams) where
  -- After a vote that succeeds the address has at most one vote for the target.
  pub update_vote-once :
      (d d' : Dao B) (result : ResponseVote)
      → update_vote opts d ≡ (ok result, d')
      → count_p (mine opts) (all_votes d') ≤ 1
  update_vote-once d d' result e =
      let w = update_vote-Voted opts d d' result e in
      let rest = filter (λ v. not (mine opts v)) (all_votes d) in
      let left : count_p (mine opts) rest ≡ 0 =
        count_p-filter (mine opts) (λ v. not (mine opts v)) (all_votes d)
        ∙ count-never (mine opts) (all_votes d) in
      rw w.votes (
        rw (count_p-append (mine opts) rest (added opts w.key w.time w.selected))
          (omega (arith, left, count-added opts w.key w.time w.selected)))

not_mine : (q : Vote → Bool) (l : List Vote) → filter (λ v. not (q v) && q v) l ≡ []
unfolding filter
not_mine q [] = refl
not_mine q (v ∷ l) = ground (arith, not_mine q l)

never_mine : (q : Vote → Bool) (l : List Vote) → filter q l ≡ [] → filter (λ v. not (q v)) l ≡ l
unfolding filter
never_mine q [] h = refl
never_mine q (v ∷ l) h = ground (arith, h, never_mine q l)

module _ {B : Backend} (opts : VoteParams) where
  -- If an address without a vote for the target gives the same vote twice and both calls
  -- succeed, the table of votes is as it was before.
  pub update_vote-twice :
      (d d₁ d₂ : Dao B) (first second : ResponseVote)
      → get_exists_votes_by_ip opts.ip opts.target opts.target_id d ≡ []
      → update_vote opts d ≡ (ok first, d₁)
      → update_vote opts d₁ ≡ (ok second, d₂)
      → all_votes d₂ ≡ all_votes d
  unfolding get_exists_votes_by_ip added filter
  update_vote-twice d d₁ d₂ first second none_yet e₁ e₂ =
      let w₁ = update_vote-Voted opts d d₁ first e₁ in
      let w₂ = update_vote-Voted opts d₁ d₂ second e₂ in
      let q = mine opts in
      let other : Vote → Bool = λ v. not (q v) in
      let given : w₁.selected ≡ some opts.choice =
        w₁.toggled ∙ ap (λ l. select_choice l opts.choice) none_yet in
      let v = stamp_vote w₁.key w₁.time (new_vote opts opts.choice) in
      let own = mine-new opts w₁.key w₁.time opts.choice in
      let now : all_votes d₁ ≡ all_votes d ++ v ∷ [] =
        w₁.votes
        ∙ ap (λ s. filter other (all_votes d) ++ added opts w₁.key w₁.time s) given
        ∙ ap (λ l. l ++ v ∷ []) (never_mine q (all_votes d) none_yet) in
      let found : filter q (all_votes d₁) ≡ v ∷ [] =
        ap (filter q) now ∙ filter-append q (all_votes d) (v ∷ []) ∙ rw (none_yet, own) refl in
      let taken : w₂.selected ≡ none =
        w₂.toggled
        ∙ ap (λ l. select_choice l opts.choice) found
        ∙ rw (same_choice opts.target opts.choice) refl in
      w₂.votes
      ∙ ap (λ s. filter other (all_votes d₁) ++ added opts w₂.key w₂.time s) taken
      ∙ sym (append_nothing (filter other (all_votes d₁)))
      ∙ ap (filter other) now
      ∙ filter-append other (all_votes d) (v ∷ [])
      ∙ rw own (ap (λ l. l ++ []) (never_mine q (all_votes d) none_yet))
      ∙ sym (append_nothing (all_votes d))
