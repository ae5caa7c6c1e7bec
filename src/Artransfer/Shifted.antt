-- ===== src/Artransfer/Shifted.antt =====
-- An import that skips a comment: the numbers of the comments behind it no longer fit the rows.
use artalk.Prelude.{◌≡◌, sym, ap, ◌∙◌, subst, true, false, List, ◌∷◌, ◌++◌, All, Option}
use artalk.Prelude.Result.{Result, ok}
use artalk.Entity.{Comment}
use artalk.Backend.{Backend}
use artalk.Dao.{Dao, all_comments}
use artalk.Dao.Steps.{>>=-eq-ok}
use artalk.Dao.Create.{Texts}
use artalk.Artransfer.{Artran, ImportParams, Formats}
use artalk.Artransfer.Ids.{GenIdMap, build_gen_id_map, build_rid2root_gen_id_map}
use artalk.Artransfer.Import.{Dates, keep, put_date, real_id_map, prepare_all, import_artrans}
use artalk.Artransfer.Prepare.{prepare_comment}
use artalk.Artransfer.Rows.{Beside, final_rows}
use artalk.Artransfer.Numbers.{DistinctIds, id_beside, real-build_gen_id_map, real_id_map-zero}
use artalk.Artransfer.Prepared.{is_kept, IsMade, prepare_comment-skipped, prepare_all-IsMade}
use artalk.Artransfer.Copied.{final_rows-rid}
use artalk.Artransfer.Stored.{import_artrans-rows}

module _ (F : Formats) (T : Texts) (p : ImportParams) {B : Backend} where
  -- The entities are those of the comments behind the one that is skipped.
  prepared_behind :
      (c : Artran) (rest : List Artran) (d : Dao B) (ids roots : GenIdMap)
      (prepared : List Comment × Dates)
      → is_kept p c ≡ false
      → All (λ x. is_kept p x ≡ true) rest
      → (prepare_all F T p ids roots 0 (c ∷ rest) d).0 ≡ ok prepared
      → (others : List Comment × Dates) × Beside (IsMade F T p ids roots) rest prepared.0
        × ((prepare_all F T p ids roots 0 (c ∷ rest) d).1.comments ≡ d.comments)
  unfolding prepare_all
  prepared_behind c rest d ids roots prepared out kept ready =
      let (made, e₀, e₁, is₁) = >>=-eq-ok (prepare_comment F T p ids roots c) _ d prepared ready in
      let d₁ = (prepare_comment F T p ids roots c d).1 in
      let (others, e₂, e₃, is₂) = >>=-eq-ok (prepare_all F T p ids roots 1 rest) _ d₁ prepared e₁ in
      let (none_, same) = prepare_comment-skipped F T p ids roots c d made out e₀ in
      let (below, _, same') = prepare_all-IsMade F T p ids roots 1 rest d₁ others kept e₂ in
      let whole : (keep made others.0, put_date made 0 (F.parse_date c.created_at) others.1)
          ≡ prepared =
        cc (e₃) in
      let rows : others.0 ≡ prepared.0 =
        ap (λ (o : Option Comment). keep o others.0) (sym none_)
        ∙ ap (λ (q : List Comment × Dates). q.0) whole in
      (
        others,
        subst (Beside (IsMade F T p ids roots) rest) rows below,
        ap (λ (y : Result _ (List Comment × Dates) × Dao B). y.1.comments) (is₁ ∙ is₂)
            ∙ same'
            ∙ same,
      )

  -- If an import succeeds that skips the first comment of its file, for want of a site or a
  -- page, and no other, then replies go to wrong rows: the row of a comment has as its parent
  -- the row that stands beside the parent in the list with the skipped comment, one place
  -- behind the right row.
  pub import_artrans-shifts :
      (skipped : Artran) (rest : List Artran) (d : Dao B)
      → DistinctIds (skipped ∷ rest)
      → is_kept p skipped ≡ false
      → All (λ c. is_kept p c ≡ true) rest
      → (import_artrans F T p (skipped ∷ rest) d).0 ≡ ok tt
      → (rows : List Comment) × (all_comments (import_artrans F T p (skipped ∷ rest) d).1
          ≡ all_comments d ++ rows)
        × Beside (λ c r. r.rid ≡ id_beside (skipped ∷ rest) rows c.rid) rest rows
  import_artrans-shifts c rest d distinct out kept e =
      let ids = build_gen_id_map (c ∷ rest) in
      let roots = build_rid2root_gen_id_map (c ∷ rest) ids in
      let (prepared, saved, ready, stamped, stored, _) = import_artrans-rows F T p c rest d e in
      let (others, made, same) = prepared_behind c rest d ids roots prepared out kept ready in
      let real = real_id_map 0 saved in
      let rows = final_rows prepared.1 real 0 saved in
      (
        rows,
        stored ∙ ap (λ l. B.comments.select l ++ rows) same,
        final_rows-rid F T p (c ∷ rest) distinct rows prepared.1 real
            (λ k. real-build_gen_id_map prepared.1 (c ∷ rest) saved k distinct)
            (real_id_map-zero saved) 0 rest prepared.0 saved made stamped,
      )
