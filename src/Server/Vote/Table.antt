-- ===== src/Server/Vote/Table.antt =====
-- What the steps of a vote do to the tables.
use artalk.Prelude.{
  ℕ, ◌==◌, Bool, false, not, Option, none, some, List, [], ◌∷◌, ◌++◌, map, filter, if◌then◌else◌,
  ◌≡◌, refl, sym, ap, ◌∙◌, arith, any, All, All-map, All-zip, any-false-All, Option-cases, inl, inr,
  filter-congr,
}
use artalk.Prelude.Result.{Result, ok}
use artalk.Entity.{Vote}
use artalk.Backend.{Backend, Distinct, stamp_vote}
use artalk.Dao.{Dao, DbError, all_votes, all_comments, all_pages}
use artalk.Dao.Cache.{contains}
use artalk.Server.Vote.{
  ResponseVote, Target, comment, page, Choice, VoteParams, by_ip, new_vote, delete_existing,
  create_selected, write_counts,
}

keys_fresh :
    (q : Vote → Bool) (l : List Vote) (n : ℕ)
    → any (λ (v : Vote). v.id == n) l ≡ false
    → contains (map (λ y. y.id) (filter q l)) n ≡ false
unfolding contains any filter
keys_fresh q [] n h = refl
keys_fresh q (v ∷ l) n h = ground (arith, h, keys_fresh q l n)

-- The keys of the rows that pass a test tell those rows apart.
keys_of_filter :
    (q : Vote → Bool) (l : List Vote)
    → Distinct (λ (v : Vote). v.id) l
    → All (λ (x : Vote). contains (map (λ y. y.id) (filter q l)) x.id ≡ q x) l
unfolding contains any filter
keys_of_filter q [] h = tt
keys_of_filter q (v ∷ l) h = (
  ground (arith, keys_fresh q l v.id h.0),
  All-map
      (λ (x : Vote). (x.id == v.id ≡ false) × (contains (map (λ y. y.id) (filter q l)) x.id ≡ q x))
      (λ (x : Vote). contains (map (λ y. y.id) (filter q (v ∷ l))) x.id ≡ q x)
      (λ x k. ground (arith, k.0, k.1)) l
      (All-zip (λ (x : Vote). x.id == v.id ≡ false)
        (λ (x : Vote). contains (map (λ y. y.id) (filter q l)) x.id ≡ q x) l
        (any-false-All (λ (x : Vote). x.id == v.id) l h.0) (keys_of_filter q l h.1)),
)

abbrev pub mine : VoteParams → Vote → Bool
mine opts = by_ip opts.ip opts.target opts.target_id

-- The row of the chosen vote, with the key and the time it was stored under.
unfoldable pub added : VoteParams → ℕ → ℕ → Option Choice → List Vote
added opts k t none = []
added opts k t (some c) = stamp_vote k t (new_vote opts c) ∷ []

-- Nothing passes, so nothing is dropped.
pub filter-none :
    (q : Vote → Bool) (l : List Vote) → filter q l ≡ [] → l ≡ filter (λ v. not (q v)) l
unfolding filter
filter-none q [] h = refl
filter-none q (v ∷ l) h = ground (arith, h, filter-none q l)

pub append_nothing : (l : List Vote) → l ≡ l ++ []
append_nothing [] = refl
append_nothing (v ∷ l) = ap (λ x. v ∷ x) (append_nothing l)

module _ {B : Backend} (opts : VoteParams) where
  -- Only the votes were written, and they are `l` now.
  abbrev pub Votes : Dao B → List Vote → Dao B → Type 0
  Votes d l d' = (all_votes d' ≡ l) × (d' ≡ record d { votes = d'.votes })

  pub delete-Votes :
      (d d' : Dao B) (u : Unit {0}) (l : List Vote)
      → filter (mine opts) (all_votes d) ≡ l
      → delete_existing l d ≡ (ok u, d')
      → Votes d (filter (λ v. not (mine opts v)) (all_votes d)) d'
  unfolding delete_existing
  delete-Votes d d' u [] same k =
      let unmoved : d ≡ d' = ap (λ (x : Result DbError (Unit {0}) × Dao B). x.1) k in
      (
        ap (λ (x : Dao B). all_votes x) (sym unmoved) ∙ filter-none (mine opts) (all_votes d) same,
        sym unmoved ∙ ap (λ (x : Dao B). record d { votes = x.votes }) unmoved,
      )
  delete-Votes d d' u (v ∷ l) same k =
      let gone : Vote → Bool = λ x. contains (map (λ y. y.id) (v ∷ l)) x.id in
      elim (Option-cases (B.votes.delete gone d.votes)) [
        | inl failed ↦ absurd (ground arith)
        | inr (rows, e) ↦
            let d₁ : Dao B = record d { votes = rows } in
            let last : d' ≡ d₁ = ground (arith, k, e) in
            let agree : All (λ (x : Vote). not (gone x) ≡ not (mine opts x)) (all_votes d) =
              All-map
                (λ (x : Vote).
                  contains (map (λ y. y.id) (filter (mine opts) (all_votes d))) x.id ≡ mine opts x)
                (λ (x : Vote). not (gone x) ≡ not (mine opts x))
                (λ x h. ap not (ap (λ i. contains (map (λ y. y.id) i) x.id) (sym same) ∙ h))
                (all_votes d)
                (keys_of_filter (mine opts) (all_votes d) (B.votes.select_distinct d.votes)) in
            (
              ap (λ (x : Dao B). all_votes x) last
                  ∙ B.votes.delete_select gone d.votes rows e
                  ∙ filter-congr (λ x. not (gone x)) (λ x. not (mine opts x)) (all_votes d) agree,
              last ∙ ap (λ (x : Dao B). record d { votes = x.votes }) (sym last),
            )
      ]

  -- The votes that the chosen one adds.
  pub create-Votes :
      (d d' : Dao B) (u : Unit {0}) (selected : Option Choice)
      → create_selected opts selected d ≡ (ok u, d')
      → (k : ℕ) × (t : ℕ) × Votes d (all_votes d ++ added opts k t selected) d'
  unfolding create_selected added
  create-Votes d d' u none e =
      let unmoved : d ≡ d' = ap (λ (x : Result DbError (Unit {0}) × Dao B). x.1) e in
      (
        0,
        0,
        (
          ap (λ (x : Dao B). all_votes x) (sym unmoved) ∙ append_nothing (all_votes d),
          sym unmoved ∙ ap (λ (x : Dao B). record d { votes = x.votes }) unmoved,
        ),
      )
  create-Votes d d' u (some c) e = elim (Option-cases (B.votes.insert (new_vote opts c) d.votes)) [
    | inl failed ↦ absurd (ground arith)
    | inr ((row, rows), put) ↦
        let (k, t, stamped, _) = B.votes.insert_row (new_vote opts c) row d.votes rows put in
        let last : d' ≡ record d { votes = rows } = ground (arith, e, put) in
        (
          k,
          t,
          (
            ap (λ (x : Dao B). all_votes x) last
                ∙ B.votes.insert_select (new_vote opts c) row d.votes rows put
                ∙ ap (λ x. all_votes d ++ x ∷ []) stamped,
            last ∙ ap (λ (x : Dao B). record d { votes = x.votes }) (sym last),
          ),
        )
  ]

  -- The row of the target has the new counts, and no other row changed.
  abbrev pub Written : Target → ResponseVote → Dao B → Dao B → Type 0
  Written comment r d d' =
      (all_comments d'
        ≡ map
            (λ c.
              if c.id == opts.target_id then record c { vote_up = r.up; vote_down = r.down } else c)
            (all_comments d))
      × (d'.pages ≡ d.pages)
  Written page r d d' =
      (all_pages d'
        ≡ map
            (λ p.
              if p.id == opts.target_id then record p { vote_up = r.up; vote_down = r.down } else p)
            (all_pages d))
      × (d'.comments ≡ d.comments)

  pub write_counts-Written :
      (x : Target) (r : ResponseVote) (d : Dao B) (u : Unit {0})
      → (write_counts x opts.target_id r.up r.down d).0 ≡ ok u
      → ((write_counts x opts.target_id r.up r.down d).1.votes ≡ d.votes)
        × Written x r d (write_counts x opts.target_id r.up r.down d).1
  unfolding write_counts
  write_counts-Written comment r d u e =
      elim (Option-cases (
        B.comments.update (λ c. c.id == opts.target_id)
          (λ c. record c { vote_up = r.up; vote_down = r.down }) d.comments)) [
            | inl failed ↦ absurd (ground arith)
            | inr (rows, put) ↦
                let s =
                  B.comments.update_select (λ c. c.id == opts.target_id)
                    (λ c. record c { vote_up = r.up; vote_down = r.down }) d.comments rows
                    (λ _. refl) put in
                let step : (write_counts comment opts.target_id r.up r.down d).1
                    ≡ record d { comments = rows } =
                  ground (arith, put) in
                (
                  ap (λ (x : Dao B). x.votes) step,
                  (ap (λ (x : Dao B). all_comments x) step ∙ s, ap (λ (x : Dao B). x.pages) step),
                )
          ]
  write_counts-Written page r d u e =
      elim (Option-cases (
        B.pages.update (λ p. p.id == opts.target_id)
          (λ p. record p { vote_up = r.up; vote_down = r.down }) d.pages)) [
            | inl failed ↦ absurd (ground arith)
            | inr (rows, put) ↦
                let s =
                  B.pages.update_select (λ p. p.id == opts.target_id)
                    (λ p. record p { vote_up = r.up; vote_down = r.down }) d.pages rows (λ _. refl)
                    put in
                let step : (write_counts page opts.target_id r.up r.down d).1
                    ≡ record d { pages = rows } =
                  ground (arith, put) in
                (
                  ap (λ (x : Dao B). x.votes) step,
                  (ap (λ (x : Dao B). all_pages x) step ∙ s, ap (λ (x : Dao B). x.comments) step),
                )
          ]
