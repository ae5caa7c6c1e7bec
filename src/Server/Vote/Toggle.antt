-- ===== src/Server/Vote/Toggle.antt =====
-- What a vote does to the table of votes and to the counts.
use artalk.Prelude.{
  ℕ, ◌==◌, not, Option, ◌++◌, map, filter, if◌then◌else◌, ◌≡◌, refl, sym, ap, ◌∙◌, arith, count_p,
  Bool-cases, inl, inr, subst, subst₂,
}
use artalk.Prelude.Result.{ok, err, Result-cases}
use artalk.Entity.{Comment, Page}
use artalk.Backend.{Backend}
use artalk.Dao.{Dao, DbError, all_votes}
use artalk.Dao.VoteSync.{get_vote_num, is_vote}
use artalk.Server.Vote.{
  ResponseVote, Target, comment, page, Choice, up_vote, down_vote, VoteParams, select_choice,
  counted, vote_type, get_exists_votes_by_ip, target_exists, delete_existing, create_selected,
  count_and_write, vote_transaction, update_vote, write_counts, cache_target,
}
use artalk.Server.Vote.Table.{
  mine, added, delete-Votes, create-Votes, Written, write_counts-Written,
}

module _ {B : Backend} (opts : VoteParams) where
  -- What a vote that succeeded did: the votes of the address for the target were replaced by the
  -- chosen one, and the row of the target has the counts of the votes that there are then.
  pub record Voted (d : Dao B) (result : ResponseVote) (d' : Dao B) : Type 0 where
    pub selected : Option Choice
    pub toggled :
        selected
        ≡ select_choice (get_exists_votes_by_ip opts.ip opts.target opts.target_id d) opts.choice
    pub key : ℕ
    pub time : ℕ
    pub votes :
        all_votes d' ≡ filter (λ v. not (mine opts v)) (all_votes d) ++ added opts key time selected
    pub result_counts :
        result
        ≡ counted
            (get_vote_num opts.target_id (vote_type opts.target up_vote) d')
            (get_vote_num opts.target_id (vote_type opts.target down_vote) d')
            selected
    pub written : Written opts opts.target result d d'

  abbrev tally : Option Choice → Dao B → ResponseVote
  tally selected d =
      counted (get_vote_num opts.target_id (vote_type opts.target up_vote) d)
        (get_vote_num opts.target_id (vote_type opts.target down_vote) d) selected

  count-Written :
      (d d' : Dao B) (result : ResponseVote) (selected : Option Choice)
      → count_and_write opts selected d ≡ (ok result, d')
      → (result ≡ tally selected d) × (d'.votes ≡ d.votes) × Written opts opts.target result d d'
  unfolding count_and_write
  count-Written d d' result selected e =
      let r = tally selected d in
      let w = write_counts opts.target opts.target_id r.up r.down d in
      elim (Result-cases w.0) [
        | inr (x, failed) ↦ absurd (ground arith)
        | inl (u, done) ↦
            let answer : result ≡ r = ground (arith, e, done) in
            let last : d' ≡ w.1 = ground (arith, e, done) in
            let (kept, row) = write_counts-Written opts opts.target r d u done in
            (
              answer,
              ap (λ (x : Dao B). x.votes) last ∙ kept,
              subst₂ (λ (q : ResponseVote) (x : Dao B). Written opts opts.target q d x) (sym answer)
                  (sym last) row,
            )
      ]

  Written-frame :
      (x : Target) (r : ResponseVote) (d d₂ d' : Dao B)
      → d₂.comments ≡ d.comments
      → d₂.pages ≡ d.pages
      → Written opts x r d₂ d'
      → Written opts x r d d'
  Written-frame comment r d d₂ d' c p w = (
    w.0
        ∙ ap
            (λ rows.
              map
                (λ (c : Comment).
                  if c.id == opts.target_id
                  then record c { vote_up = r.up; vote_down = r.down }
                  else c)
                (B.comments.select rows))
            c,
    w.1 ∙ p,
  )
  Written-frame page r d d₂ d' c p w = (
    w.0
        ∙ ap
            (λ rows.
              map
                (λ (p : Page).
                  if p.id == opts.target_id
                  then record p { vote_up = r.up; vote_down = r.down }
                  else p)
                (B.pages.select rows))
            p,
    w.1 ∙ c,
  )

  transaction-Voted :
      (d d' : Dao B) (result : ResponseVote)
      → vote_transaction opts d ≡ (ok result, d')
      → Voted d result d'
  unfolding vote_transaction get_exists_votes_by_ip get_vote_num
  transaction-Voted d d' result e =
      let existing = get_exists_votes_by_ip opts.ip opts.target opts.target_id d in
      let selected = select_choice existing opts.choice in
      let d₁ = (delete_existing existing d).1 in
      let d₂ = (create_selected opts selected d₁).1 in
      elim (Bool-cases (target_exists opts.target opts.target_id d)) [
        | inr missing ↦ absurd (ground arith)
        | inl there ↦ elim (Result-cases (delete_existing existing d).0) [
          | inr (x, failed) ↦ absurd (ground arith)
          | inl (u, deleted) ↦ elim (Result-cases (create_selected opts selected d₁).0) [
            | inr (x, failed) ↦ absurd (ground arith)
            | inl (v, created) ↦
                let (v₁, frame₁) =
                  delete-Votes opts d d₁ u existing refl (ap (λ r. (r, d₁)) deleted) in
                let (k, t, (v₂, frame₂)) =
                  create-Votes opts d₁ d₂ v selected (ap (λ r. (r, d₂)) created) in
                let last : count_and_write opts selected d₂ ≡ (ok result, d') =
                  ground (arith, e, there, deleted, created) in
                let (answer, kept, row) = count-Written d₂ d' result selected last in
                record {
                  selected = selected;
                  toggled = refl;
                  key = k;
                  time = t;
                  votes =
                      ap (λ rows. B.votes.select rows) kept
                      ∙ v₂
                      ∙ ap (λ l. l ++ added opts k t selected) v₁;
                  result_counts =
                      answer
                      ∙ ap
                          (λ rows.
                            counted
                              (count_p (is_vote opts.target_id (vote_type opts.target up_vote))
                                (B.votes.select rows))
                              (count_p (is_vote opts.target_id (vote_type opts.target down_vote))
                                (B.votes.select rows))
                              selected)
                          (sym kept);
                  written =
                      Written-frame opts.target result d d₂ d'
                        (ap (λ (x : Dao B). x.comments) frame₂
                          ∙ ap (λ (x : Dao B). x.comments) frame₁)
                        (ap (λ (x : Dao B). x.pages) frame₂ ∙ ap (λ (x : Dao B). x.pages) frame₁)
                        row;
                }
          ]
        ]
      ]

  Written-cache :
      (x : Target) (r : ResponseVote) (d d' : Dao B) (c : Option B.store.Store)
      → Written opts x r d d'
      → Written opts x r d (record d' { cache = c })
  Written-cache comment r d d' c w = w
  Written-cache page r d d' c w = w

  -- Only the cache is written.
  cache_target-frame :
      (d d₁ : Dao B) (result : ResponseVote)
      → record d₁ { cache = (cache_target opts result d d₁).cache } ≡ cache_target opts result d d₁
  unfolding cache_target
  cache_target-frame d d₁ result = ground arith

  cache-Voted :
      (d d₁ : Dao B) (result : ResponseVote)
      → Voted d result d₁
      → Voted d result (cache_target opts result d d₁)
  unfolding cache_target get_vote_num
  cache-Voted d d₁ result w =
      subst (λ x. Voted d result x) (cache_target-frame d d₁ result)
        (record {
          selected = w.selected;
          toggled = w.toggled;
          key = w.key;
          time = w.time;
          votes = w.votes;
          result_counts = w.result_counts;
          written =
              Written-cache opts.target result d d₁ (cache_target opts result d d₁).cache w.written;
        })

  -- If updateVote succeeds, the votes of the address for the target are replaced by the chosen
  -- vote, or by none where the first of them was the same choice; all other votes are kept, the
  -- answer counts the votes that there are then, and exactly the row of the target gets these
  -- counts.
  pub update_vote-Voted :
      (d d' : Dao B) (result : ResponseVote)
      → update_vote opts d ≡ (ok result, d')
      → Voted d result d'
  unfolding update_vote
  update_vote-Voted d d' result e = elim (Result-cases (vote_transaction opts d).0) [
    | inr (x, failed) ↦ absurd (ground arith)
    | inl (r, done) ↦
        let d₁ = (vote_transaction opts d).1 in
        let answer : r ≡ result = ground (arith, e, done) in
        let last : cache_target opts result d d₁ ≡ d' = ground (arith, e, done) in
        subst (λ x. Voted d result x) last
          (cache-Voted d d₁ result
            (transaction-Voted d d₁ result (ap (λ q. (q, d₁)) (done ∙ ap ok answer))))
  ]

  -- A vote that fails leaves everything as it was.
  pub update_vote-rollback :
      (d d' : Dao B) (x : DbError) → update_vote opts d ≡ (err x, d') → d' ≡ d
  unfolding update_vote
  update_vote-rollback d d' x e = ground (arith, e)
