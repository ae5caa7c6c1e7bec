-- ===== src/Artransfer/Stored.antt =====
-- What the second half of an import (internal/artransfer/importer.go) does to the tables.
use artalk.Prelude.{
  ℕ, suc, List, [], ◌∷◌, ◌++◌, Bool-cases, ◌≡◌, refl, sym, ap, subst, map, not, ◌&&◌, ◌∙◌, arith,
  inl, inr, str_eq, zero,
}
use artalk.Prelude.Result.{Result, ok}
use artalk.Entity.{Comment, Vote, VoteType}
use artalk.Backend.{Backend, Distinct}
use artalk.Dao.{Dao, Act, all_comments, ◌>>=◌}
use artalk.Dao.Steps.{>>=-eq-ok}
use artalk.Dao.Create.{Texts, validate_url}
use artalk.Artransfer.{Artran, ImportParams, Formats}
use artalk.Artransfer.Ids.{build_gen_id_map, build_rid2root_gen_id_map}
use artalk.Artransfer.Import.{
  Dates, restored, real_id_map, insert_all, prepare_all, import_artrans, store_prepared,
  insert_vote, create_mock_vote, update_comment_row, restore_all,
}
use artalk.Artransfer.Rows.{
  Beside, IsStamped, insert_all-rows, restore_all-rows, final_rows, map-restore_row, restore_row,
}
use artalk.Dao.Write.{insert_comment}

-- The second half of the import does not touch users.
module _ {B : Backend} where
  insert_all-users :
      (news : List Comment) (d : Dao B) (saved : List Comment)
      → (insert_all news d).0 ≡ ok saved
      → (insert_all news d).1.users ≡ d.users
  unfolding insert_all
  insert_all-users [] d saved e = refl
  insert_all-users (x ∷ news) d saved e =
      let (c, put, more, is₁) = >>=-eq-ok (insert_comment x) _ d saved e in
      let d₁ = (insert_comment x d).1 in
      let (others, puts, _, is₂) = >>=-eq-ok (insert_all news) _ d₁ saved more in
      let one : d₁.users ≡ d.users = (unfold insert_comment in ground arith) in
      ap (λ (y : Result _ _ × Dao B). y.1.users) (is₁ ∙ is₂)
      ∙ insert_all-users news d₁ others puts
      ∙ one

  create_mock_vote-users :
      (n target : ℕ) (type : VoteType) (d : Dao B)
      → (create_mock_vote n target type d).0 ≡ ok tt
      → (create_mock_vote n target type d).1.users ≡ d.users
  unfolding create_mock_vote insert_vote
  create_mock_vote-users zero target type d e = refl
  create_mock_vote-users (suc n) target type d e =
      let vote : Vote = record {
        id = 0;
        created_at = 0;
        target_id = target;
        type = type;
        user_id = 0;
        ua = "";
        ip = "";
      } in
      let (_, put, more, is₁) = >>=-eq-ok (insert_vote vote) _ d tt e in
      let d₁ = (insert_vote vote d).1 in
      let same : d₁.users ≡ d.users = ground arith in
      ap (λ (y : Result _ _ × Dao B). y.1.users) is₁
      ∙ create_mock_vote-users n target type d₁ more
      ∙ same

  restore_all-users :
      (dates : Dates) (real : ℕ → ℕ) (i : ℕ) (saved : List Comment) (d : Dao B)
      → (restore_all dates real i saved d).0 ≡ ok tt
      → (restore_all dates real i saved d).1.users ≡ d.users
  unfolding restore_all
  restore_all-users dates real i [] d e = refl
  restore_all-users dates real i (s ∷ rest) d e =
      let (_, put, e₁, is₁) =
        >>=-eq-ok (update_comment_row s.id (restored dates real i s)) _ d tt e in
      let d₁ = (update_comment_row s.id (restored dates real i s) d).1 in
      let (_, up, e₂, is₂) =
        >>=-eq-ok (create_mock_vote s.vote_up s.id VoteType.comment_up) _ d₁ tt e₁ in
      let d₂ = (create_mock_vote s.vote_up s.id VoteType.comment_up d₁).1 in
      let (_, down, e₃, is₃) =
        >>=-eq-ok (create_mock_vote s.vote_down s.id VoteType.comment_down) _ d₂ tt e₂ in
      let d₃ = (create_mock_vote s.vote_down s.id VoteType.comment_down d₂).1 in
      let one : d₁.users ≡ d.users = (unfold update_comment_row in ground arith) in
      ap (λ (y : Result _ _ × Dao B). y.1.users) (is₁ ∙ is₂ ∙ is₃)
      ∙ restore_all-users dates real (suc i) rest d₃ e₃
      ∙ create_mock_vote-users s.vote_down s.id VoteType.comment_down d₂ down
      ∙ create_mock_vote-users s.vote_up s.id VoteType.comment_up d₁ up
      ∙ one

  pub store_prepared-users :
      (prepared : List Comment × Dates) (d : Dao B)
      → (store_prepared prepared d).0 ≡ ok tt
      → (store_prepared prepared d).1.users ≡ d.users
  unfolding store_prepared
  store_prepared-users (news, dates) d e =
      let (saved, put, rest, is) = >>=-eq-ok (insert_all news) _ d tt e in
      let d₁ = (insert_all news d).1 in
      ap (λ (y : Result _ _ × Dao B). y.1.users) is
      ∙ restore_all-users dates (real_id_map 0 saved) 0 saved d₁ rest
      ∙ insert_all-users news d saved put

module _ (F : Formats) (T : Texts) (p : ImportParams) {B : Backend} where
  pub store_prepared-rows :
      (prepared : List Comment × Dates) (d : Dao B)
      → (store_prepared prepared d).0 ≡ ok tt
      → (saved : List Comment) × Beside IsStamped prepared.0 saved
        × (all_comments (store_prepared prepared d).1
            ≡ all_comments d ++ final_rows prepared.1 (real_id_map 0 saved) 0 saved)
  unfolding store_prepared
  store_prepared-rows (news, dates) d e =
      let (saved, put, rest, is) = >>=-eq-ok (insert_all news) _ d tt e in
      let d₁ = (insert_all news d).1 in
      let real = real_id_map 0 saved in
      let (rows, stamped) = insert_all-rows news d saved put in
      let differ : Distinct (λ (c : Comment). c.id) (all_comments d ++ saved) =
        subst (Distinct (λ (c : Comment). c.id)) rows (B.comments.select_distinct d₁.comments) in
      (
        saved,
        stamped,
        ap (λ (y : Result _ _ × Dao B). all_comments y.1) is
            ∙ restore_all-rows dates real 0 saved d₁ rest
            ∙ ap (map (restore_row dates real 0 saved)) rows
            ∙ map-restore_row dates real (all_comments d) saved differ,
      )

  -- An import that succeeds has prepared its comments, and its rows are the restored ones.
  pub import_artrans-rows :
      (c : Artran) (rest : List Artran) (d : Dao B)
      → (import_artrans F T p (c ∷ rest) d).0 ≡ ok tt
      → let ids = build_gen_id_map (c ∷ rest) in
        let ready =
          prepare_all F T p ids (build_rid2root_gen_id_map (c ∷ rest) ids) 0 (c ∷ rest) d in
        (prepared : List Comment × Dates) × (saved : List Comment) × (ready.0 ≡ ok prepared)
        × Beside IsStamped prepared.0 saved
        × (all_comments (import_artrans F T p (c ∷ rest) d).1
            ≡ all_comments ready.1 ++ final_rows prepared.1 (real_id_map 0 saved) 0 saved)
        × ((import_artrans F T p (c ∷ rest) d).1.users ≡ ready.1.users)
  import_artrans-rows c rest d e =
      let ids = build_gen_id_map (c ∷ rest) in
      let roots = build_rid2root_gen_id_map (c ∷ rest) ids in
      let chain : Act B _ = prepare_all F T p ids roots 0 (c ∷ rest) >>= store_prepared in
      elim (Bool-cases
        (not (str_eq p.target_site_url "") && not (validate_url T p.target_site_url))) [
          | inl bad ↦ absurd (unfold import_artrans in ground (arith, e, bad))
          | inr fine ↦
              let is : import_artrans F T p (c ∷ rest) d ≡ chain d =
                (unfold import_artrans in rw fine refl) in
              let (prepared, e₁, e₂, is₁) =
                >>=-eq-ok (prepare_all F T p ids roots 0 (c ∷ rest)) store_prepared d tt
                  (ap (λ (y : Result _ _ × Dao B). y.0) (sym is) ∙ e) in
              let d₁ = (prepare_all F T p ids roots 0 (c ∷ rest) d).1 in
              let (saved, stamped, stored) = store_prepared-rows prepared d₁ e₂ in
              (
                prepared,
                saved,
                e₁,
                stamped,
                ap (λ (y : Result _ _ × Dao B). all_comments y.1) (is ∙ is₁) ∙ stored,
                ap (λ (y : Result _ _ × Dao B). y.1.users) (is ∙ is₁)
                    ∙ store_prepared-users prepared d₁ e₂,
              )
        ]
