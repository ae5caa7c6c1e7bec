-- ===== src/Artransfer/Import.antt =====
-- internal/artransfer/importer.go and base.go: the import of a file of comments, in a transaction.
-- The user has confirmed it. A negative count of votes is read as zero.
use artalk.Prelude.{
  ℕ, zero, suc, ◌==◌, not, ◌&&◌, Option, none, some, List, [], ◌∷◌, if◌then◌else◌, str_eq,
}
use artalk.Prelude.Result.{ok, err}
use artalk.Entity.{Comment, Vote, VoteType}
use artalk.Backend.{Backend}
use artalk.Dao.{Act, write_failed, invalid_argument, ◌>>=◌, ◌>>◌, pure}
use artalk.Dao.Create.{Texts, validate_url}
use artalk.Dao.Write.{insert_comment}
use artalk.Artransfer.{Artran, ImportParams, Formats}
use artalk.Artransfer.Ids.{GenIdMap, build_gen_id_map, build_rid2root_gen_id_map}
use artalk.Artransfer.Prepare.{prepare_comment}

-- `createdDates`, by the index in the file.
abbrev pub Dates : Type 0
Dates = ℕ → ℕ

abbrev pub keep : {A : Type 0} → Option A → List A → List A
keep none xs = xs
keep (some x) xs = x ∷ xs

abbrev pub put_date : {A : Type 0} → Option A → ℕ → ℕ → Dates → Dates
put_date none i t dates j = dates j
put_date (some _) i t dates j = if j == i then t else dates j

-- `genId2DBRealIdMap`, of the comments stored from the index `i` on.
unfoldable pub real_id_map : ℕ → List Comment → ℕ → ℕ
real_id_map i [] n = 0
real_id_map i (saved ∷ rest) n = if n == suc i then saved.id else real_id_map (suc i) rest n

-- What the update of a stored comment writes.
unfoldable pub restored : Dates → (ℕ → ℕ) → ℕ → Comment → Comment → Comment
restored dates real i saved x = record x {
  created_at = dates i;
  rid = if saved.rid == 0 then x.rid else real saved.rid;
  root_id = if saved.rid == 0 then x.root_id else real saved.root_id;
}

module _ {B : Backend} where
  -- `CreateInBatches`: the rows as they were stored.
  unfoldable pub insert_all : List Comment → Act B (List Comment)
  unfolding insert_comment
  insert_all [] = pure []
  insert_all (c ∷ rest) = do
    saved ← insert_comment c
    others ← insert_all rest
    pure (saved ∷ others)

  unfoldable pub update_comment_row : (ℕ) → (Comment → Comment) → Act B (Unit {0})
  update_comment_row id f d = elim (B.comments.update (λ x. x.id == id) f d.comments) [
    | none ↦ (err write_failed, d)
    | some rows ↦ (ok tt, record d { comments = rows })
  ]

  unfoldable pub insert_vote : Vote → Act B (Unit {0})
  insert_vote vote d = elim (B.votes.insert vote d.votes) [
    | none ↦ (err write_failed, d)
    | some (_, rows) ↦ (ok tt, record d { votes = rows })
  ]

  -- `createMockVote`
  unfoldable pub create_mock_vote : ℕ → ℕ → VoteType → Act B (Unit {0})
  unfolding insert_vote
  create_mock_vote zero target_id type = pure tt
  create_mock_vote (suc count) target_id type =
      insert_vote (record {
        id = 0;
        created_at = 0;
        target_id = target_id;
        type = type;
        user_id = 0;
        ua = "";
        ip = "";
      })
      >> create_mock_vote count target_id type

  -- The loop over the stored comments, from the index `i` on.
  unfoldable pub restore_all : Dates → (ℕ → ℕ) → ℕ → List Comment → Act B (Unit {0})
  unfolding restored update_comment_row create_mock_vote
  restore_all dates real i [] = pure tt
  restore_all dates real i (saved ∷ rest) = do
    update_comment_row saved.id (restored dates real i saved)
    create_mock_vote saved.vote_up saved.id VoteType.comment_up
    create_mock_vote saved.vote_down saved.id VoteType.comment_down
    restore_all dates real (suc i) rest

  -- The second half of the import: the rows are stored, and then given their dates and parents.
  unfoldable pub store_prepared : List Comment × Dates → Act B (Unit {0})
  unfolding insert_all real_id_map restore_all
  store_prepared prepared = do
    saved ← insert_all prepared.0
    restore_all prepared.1 (real_id_map 0 saved) 0 saved

module _ (F : Formats) (T : Texts) (p : ImportParams) where
  module _ (ids roots : GenIdMap) {B : Backend} where
    -- The loop over the comments of the file, from the index `i` on.
    unfoldable pub prepare_all : ℕ → List Artran → Act B (List Comment × Dates)
    unfolding prepare_comment
    prepare_all i [] = pure ([], λ _. 0)
    prepare_all i (c ∷ rest) = do
      made ← prepare_comment F T p ids roots c
      others ← prepare_all (suc i) rest
      pure (keep made others.0, put_date made i (F.parse_date c.created_at) others.1)

  module _ {B : Backend} where
    unfoldable pub import_artrans : List Artran → Act B (Unit {0})
    unfolding validate_url build_gen_id_map build_rid2root_gen_id_map prepare_all store_prepared
    import_artrans [] d = (err invalid_argument, d)
    import_artrans (c ∷ rest) d =
        let ids = build_gen_id_map (c ∷ rest) in
        let roots = build_rid2root_gen_id_map (c ∷ rest) ids in
        if not (str_eq p.target_site_url "") && not (validate_url T p.target_site_url)
        then (err invalid_argument, d)
        else (prepare_all ids roots 0 (c ∷ rest) >>= store_prepared) d

    -- The transaction takes everything back if the import fails. `none` is a file that could not
    -- be read.
    unfoldable pub run_import_artrans : Option (List Artran) → Act B (Unit {0})
    unfolding import_artrans
    run_import_artrans none d = (err invalid_argument, d)
    run_import_artrans (some comments) d =
        let (r, d') = import_artrans comments d in
        elim r [ ok done ↦ (ok done, d') | err e ↦ (err e, d) ]
