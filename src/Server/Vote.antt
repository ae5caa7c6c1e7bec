-- ===== src/Server/Vote.antt =====
-- server/handler/vote.go: votes for comments and pages.
pub mod Table
pub mod Toggle
pub mod Once
use artalk.Prelude.{
  ℕ, ◌==◌, Bool, true, false, not, ◌&&◌, ◌||◌, Option, none, some, List, [], ◌∷◌, map, filter,
  String, str_eq, if◌then◌else◌, ◌≡◌, find_first,
}
use artalk.Prelude.Result.{Result, ok, err}
use artalk.Entity.{Comment, Page, Vote, VoteType, comment_is_empty, page_is_empty, empty_user}
use artalk.Backend.{Backend}
use artalk.Dao.{
  Dao, Act, DbError, write_failed, record_not_found, cache_action, all_votes, all_comments,
  all_pages,
}
use artalk.Dao.Cache.{contains, comment_cache_save, page_cache_save}
use artalk.Dao.Create.{Texts, find_create_user}
use artalk.Dao.Find.{find_comment, find_page_by_id}
use artalk.Dao.VoteSync.{get_vote_num}
use artalk.Server.{Request, Response, success, error}

pub record ResponseVote : Type 0 where
  pub up : ℕ
  pub down : ℕ
  pub is_up : Bool
  pub is_down : Bool

-- The two targets that the handlers let through, and the two choices.
pub data Target : Type 0 where
  comment page : Target

pub data Choice : Type 0 where
  up_vote down_vote : Choice

unfoldable pub read_target : String → Option Target
read_target name =
    if str_eq name "comment" then some comment else if str_eq name "page" then some page else none

unfoldable pub read_choice : String → Option Choice
read_choice name =
    if str_eq name "up" then some up_vote else if str_eq name "down" then some down_vote else none

-- `targetName + "_" + choice`
abbrev pub vote_type : Target → Choice → VoteType
vote_type comment up_vote = VoteType.comment_up
vote_type comment down_vote = VoteType.comment_down
vote_type page up_vote = VoteType.page_up
vote_type page down_vote = VoteType.page_down

abbrev pub get_vote_choice : VoteType → Choice
get_vote_choice VoteType.comment_up = up_vote
get_vote_choice VoteType.comment_down = down_vote
get_vote_choice VoteType.page_up = up_vote
get_vote_choice VoteType.page_down = down_vote

abbrev pub get_vote_target_name : VoteType → Target
get_vote_target_name VoteType.comment_up = comment
get_vote_target_name VoteType.comment_down = comment
get_vote_target_name VoteType.page_up = page
get_vote_target_name VoteType.page_down = page

abbrev pub is_for : Target → VoteType → Bool
is_for comment VoteType.comment_up = true
is_for comment VoteType.comment_down = true
is_for page VoteType.page_up = true
is_for page VoteType.page_down = true
is_for _ _ = false

abbrev pub choice_eq : Choice → Choice → Bool
choice_eq up_vote up_vote = true
choice_eq down_vote down_vote = true
choice_eq _ _ = false

-- The choice that is left: none where the vote is taken back.
abbrev pub chosen : Choice → Option Choice → Bool
chosen c none = false
chosen c (some s) = choice_eq c s

pub record VoteParams : Type 0 where
  pub ip : String
  pub ua : String
  pub user_id : ℕ
  pub target : Target
  pub target_id : ℕ
  pub choice : Choice

-- The votes that an address has given to a target.
abbrev pub by_ip : String → Target → ℕ → Vote → Bool
by_ip ip target target_id v = is_for target v.type && v.target_id == target_id && str_eq v.ip ip

abbrev pub select_choice : List Vote → Choice → Option Choice
select_choice [] c = some c
select_choice (v ∷ _) c = if choice_eq c (get_vote_choice v.type) then none else some c

abbrev pub new_vote : VoteParams → Choice → Vote
new_vote opts c = record {
  id = 0;
  created_at = 0;
  target_id = opts.target_id;
  type = vote_type opts.target c;
  user_id = opts.user_id;
  ua = opts.ua;
  ip = opts.ip;
}

abbrev pub counted : ℕ → ℕ → Option Choice → ResponseVote
counted up down selected = record {
  up = up;
  down = down;
  is_up = chosen up_vote selected;
  is_down = chosen down_vote selected;
}

abbrev pub first_choice : List Vote → Option Choice
first_choice [] = none
first_choice (v ∷ _) = some (get_vote_choice v.type)

abbrev pub vote_response : Result DbError ResponseVote → Response ResponseVote
vote_response (ok result) = success result
vote_response (err record_not_found) = error 404
vote_response (err _) = error 500

module _ {B : Backend} where
  unfoldable pub get_exists_votes_by_ip : String → Target → ℕ → Dao B → List Vote
  unfolding filter
  get_exists_votes_by_ip ip target target_id d = filter (by_ip ip target target_id) (all_votes d)

  -- The row that is locked for the update, which must exist.
  unfoldable pub target_exists : Target → ℕ → Dao B → Bool
  unfolding find_first
  target_exists comment id d = elim (find_first (λ (c : Comment). c.id == id) (all_comments d)) [
    | none ↦ false
    | some _ ↦ true
  ]
  target_exists page id d = elim (find_first (λ (p : Page). p.id == id) (all_pages d)) [
    | none ↦ false
    | some _ ↦ true
  ]

  -- `Delete` of a slice: the rows with its keys, if there are any.
  unfoldable pub delete_existing : List Vote → Act B (Unit {0})
  unfolding contains
  delete_existing [] d = (ok tt, d)
  delete_existing (v ∷ rest) d =
      elim (B.votes.delete (λ x. contains (map (λ y. y.id) (v ∷ rest)) x.id) d.votes) [
        | none ↦ (err write_failed, d)
        | some rows ↦ (ok tt, record d { votes = rows })
      ]

  unfoldable pub create_selected : VoteParams → Option Choice → Act B (Unit {0})
  create_selected opts none d = (ok tt, d)
  create_selected opts (some c) d = elim (B.votes.insert (new_vote opts c) d.votes) [
    | none ↦ (err write_failed, d)
    | some (_, rows) ↦ (ok tt, record d { votes = rows })
  ]

  -- The counts, in the row of the target.
  unfoldable pub write_counts : Target → ℕ → ℕ → ℕ → Act B (Unit {0})
  write_counts comment id up down d =
      elim (B.comments.update (λ c. c.id == id) (λ c. record c { vote_up = up; vote_down = down })
        d.comments) [
          | none ↦ (err write_failed, d)
          | some rows ↦ (ok tt, record d { comments = rows })
        ]
  write_counts page id up down d =
      elim (B.pages.update (λ p. p.id == id) (λ p. record p { vote_up = up; vote_down = down })
        d.pages) [ none ↦ (err write_failed, d) | some rows ↦ (ok tt, record d { pages = rows }) ]

  -- The rest of the transaction, once the choice is known.
  unfoldable pub count_and_write : VoteParams → Option Choice → Act B ResponseVote
  unfolding get_vote_num write_counts
  count_and_write opts selected d =
      let up = get_vote_num opts.target_id (vote_type opts.target up_vote) d in
      let down = get_vote_num opts.target_id (vote_type opts.target down_vote) d in
      let (r, d') = write_counts opts.target opts.target_id up down d in
      elim r [ err e ↦ (err e, d') | ok _ ↦ (ok (counted up down selected), d') ]

  unfoldable pub vote_transaction : VoteParams → Act B ResponseVote
  unfolding get_exists_votes_by_ip target_exists delete_existing create_selected count_and_write
  vote_transaction opts d =
      if not (target_exists opts.target opts.target_id d)
      then (err record_not_found, d)
      else (let existing = get_exists_votes_by_ip opts.ip opts.target opts.target_id d in
          let selected = select_choice existing opts.choice in
          let (r₁, d₁) = delete_existing existing d in
          elim r₁ [
            | err e ↦ (err e, d₁)
            | ok _ ↦
                let (r₂, d₂) = create_selected opts selected d₁ in
                elim r₂ [ err e ↦ (err e, d₂) | ok _ ↦ count_and_write opts selected d₂ ]
          ])

  -- What the cache gets: the locked row with the new counts.
  unfoldable pub cache_target : VoteParams → ResponseVote → Dao B → Dao B → Dao B
  unfolding find_first comment_cache_save page_cache_save
  cache_target opts result before d = elim opts.target [
    | comment ↦ elim (find_first (λ (c : Comment). c.id == opts.target_id) (all_comments before)) [
      | none ↦ d
      | some c ↦
          (cache_action
            (comment_cache_save B.store (record c { vote_up = result.up; vote_down = result.down }))
            d).1
    ]
    | page ↦ elim (find_first (λ (p : Page). p.id == opts.target_id) (all_pages before)) [
      | none ↦ d
      | some p ↦
          (cache_action
            (page_cache_save B.store (record p { vote_up = result.up; vote_down = result.down }))
            d).1
    ]
  ]

  -- A transaction that fails leaves nothing behind.
  unfoldable pub update_vote : VoteParams → Act B ResponseVote
  unfolding vote_transaction cache_target
  update_vote opts d =
      let (r, d') = vote_transaction opts d in
      elim r [ err e ↦ (err e, d) | ok result ↦ (ok result, cache_target opts result d d') ]

  -- `FindComment` or `FindPageByID`, and whether it is empty.
  unfoldable pub find_target : Target → ℕ → Dao B → Bool × Dao B
  unfolding find_comment find_page_by_id
  find_target comment id d = let (c, d') = find_comment id d in (not (comment_is_empty c), d')
  find_target page id d = let (p, d') = find_page_by_id id d in (not (page_is_empty p), d')

  -- A target id that is no positive number is `none`.
  unfoldable pub vote_get : String → Option ℕ → Request → Dao B → Response ResponseVote × Dao B
  unfolding read_target find_target get_vote_num get_exists_votes_by_ip
  vote_get target_name target_id r d = elim target_id [
    | none ↦ (error 400, d)
    | some id ↦ elim (read_target target_name) [
      | none ↦ (error 404, d)
      | some target ↦
          let (exists, d') = find_target target id d in
          if not exists then (error 404, d') else (
            success (
                counted (get_vote_num id (vote_type target up_vote) d')
                  (get_vote_num id (vote_type target down_vote) d')
                  (first_choice (get_exists_votes_by_ip r.ip target id d'))),
            d',
          )
    ]
  ]

  module _ (T : Texts) where
    -- A name and an e-mail make a user, who is not told apart from no one if they are missing.
    unfoldable pub vote_user : String → String → Act B ℕ
    unfolding find_create_user
    vote_user name email d =
        let (r, d') = find_create_user T name email "" d in
        if not (str_eq name "") && not (str_eq email "")
        then (elim r [ err e ↦ (err e, d') | ok user ↦ (ok user.id, d') ])
        else (ok 0, d)

    -- Behind the limiter, from the decoded parameters on.
    unfoldable pub vote_create :
        String → ℕ → String → String → String → Request → Dao B → Response ResponseVote × Dao B
    unfolding read_target read_choice find_target vote_user update_vote
    vote_create target_name target_id choice_name name email r d = elim (read_choice choice_name) [
      | none ↦ (error 404, d)
      | some choice ↦ elim (read_target target_name) [
        | none ↦ (error 404, d)
        | some target ↦
            let (exists, d₁) = find_target target target_id d in
            if not exists
            then (error 404, d₁)
            else (let (q, d₂) = vote_user name email d₁ in
                elim q [
                  | err e ↦ (error 500, d₂)
                  | ok user_id ↦
                      let opts : VoteParams = record {
                        ip = r.ip;
                        ua = r.user_agent;
                        user_id = user_id;
                        target = target;
                        target_id = target_id;
                        choice = choice;
                      } in
                      let (result, d₃) = update_vote opts d₂ in (vote_response result, d₃)
                ])
      ]
    ]
