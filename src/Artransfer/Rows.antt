-- ===== src/Artransfer/Rows.antt =====
-- What the storing and the restoring of an import do to the table of comments.
use artalk.Prelude.{
  ℕ, zero, suc, ◌==◌, false, List, [], ◌∷◌, ◌++◌, map, any, All, if◌then◌else◌, ◌≡◌, refl, sym, ap,
  ◌∙◌, arith, subst, Option-cases, inl, inr, any-append, ap₂, ==_refl,
}
use artalk.Prelude.Result.{Result, ok}
use artalk.Entity.{Comment, Vote, VoteType}
use artalk.Backend.{Backend, Distinct, stamp_comment}
use artalk.Dao.{Dao, all_comments}
use artalk.Dao.Steps.{>>=-eq-ok}
use mathlib.Core.List.{append-nil, append_assoc, map-id, map-append}
use artalk.Dao.Write.{insert_comment}
use artalk.Artransfer.Import.{
  Dates, restored, insert_all, update_comment_row, create_mock_vote, restore_all, insert_vote,
}

-- Two lists of one length whose elements belong together.
abbrev pub Beside : {A C : Type 0} → (A → C → Type 0) → List A → List C → Type 0
Beside P [] [] = Unit
Beside P (x ∷ xs) (y ∷ ys) = P x y × Beside P xs ys
Beside P [] (y ∷ ys) = ⊥
Beside P (x ∷ xs) [] = ⊥

pub Beside-map :
    {A C : Type 0} (P Q : A → C → Type 0)
    → ((x : A) (y : C) → P x y → Q x y)
    → (xs : List A) (ys : List C) → Beside P xs ys
    → Beside Q xs ys
Beside-map P Q f [] [] h = tt
Beside-map P Q f [] (y ∷ ys) h = absurd h
Beside-map P Q f (x ∷ xs) [] h = absurd h
Beside-map P Q f (x ∷ xs) (y ∷ ys) h = (f x y h.0, Beside-map P Q f xs ys h.1)

-- The row is the entity with a key and a time of its own.
abbrev pub IsStamped : Comment → Comment → Type 0
IsStamped x y = (t : ℕ) × (y ≡ stamp_comment y.id t x)

module _ {B : Backend} where
  insert_comment-rows :
      (x : Comment) (d : Dao B) (c : Comment)
      → (insert_comment x d).0 ≡ ok c
      → (all_comments (insert_comment x d).1 ≡ all_comments d ++ c ∷ []) × IsStamped x c
  unfolding insert_comment
  insert_comment-rows x d c e = elim (Option-cases (B.comments.insert x d.comments)) [
    | inl failed ↦ absurd (ground (arith, e, failed))
    | inr ((row, rows), put) ↦
        let same : row ≡ c = ground (arith, e, put) in
        let (k, t, stamped, keyed) = B.comments.insert_row x row d.comments rows put in
        let last : (insert_comment x d).1.comments ≡ rows = ground (arith, put) in
        (
          ap (λ y. B.comments.select y) last
              ∙ B.comments.insert_select x row d.comments rows put
              ∙ ap (λ y. all_comments d ++ y ∷ []) same,
          (
            t,
            sym same
                ∙ stamped
                ∙ ap (λ n. stamp_comment n t x) (sym keyed ∙ ap (λ (y : Comment). y.id) same),
          ),
        )
  ]

  -- What `CreateInBatches` adds to the table.
  pub insert_all-rows :
      (news : List Comment) (d : Dao B) (saved : List Comment)
      → (insert_all news d).0 ≡ ok saved
      → (all_comments (insert_all news d).1 ≡ all_comments d ++ saved) × Beside IsStamped news saved
  unfolding insert_all
  insert_all-rows [] d [] e = (sym (append-nil _), tt)
  insert_all-rows [] d (y ∷ saved) e = absurd (ground (arith, e))
  insert_all-rows (x ∷ news) d saved e =
      let (c, put, more, then_) = >>=-eq-ok (insert_comment x) _ d saved e in
      let (others, puts, last, end_) =
        >>=-eq-ok (insert_all news) _ (insert_comment x d).1 saved more in
      let one = insert_comment-rows x d c put in
      let rest = insert_all-rows news (insert_comment x d).1 others puts in
      let all : c ∷ others ≡ saved = ground (arith, last) in
      subst
        (λ (l : List Comment).
          (all_comments (insert_all (x ∷ news) d).1 ≡ all_comments d ++ l)
          × Beside IsStamped (x ∷ news) l)
        all
        (
          ap (λ (y : Result _ _ × Dao B). all_comments y.1) (then_ ∙ end_)
              ∙ rest.0
              ∙ ap (λ l. l ++ others) one.0
              ∙ append_assoc (all_comments d) (c ∷ []) others,
          (one.1, rest.1),
        )

  update_comment_row-rows :
      (id : ℕ) (f : Comment → Comment) (d : Dao B)
      → ((x : Comment) → (f x).id ≡ x.id)
      → (update_comment_row id f d).0 ≡ ok tt
      → all_comments (update_comment_row id f d).1
        ≡ map (λ x. if x.id == id then f x else x) (all_comments d)
  unfolding update_comment_row
  update_comment_row-rows id f d keeps e =
      elim (Option-cases (B.comments.update (λ x. x.id == id) f d.comments)) [
        | inl failed ↦ absurd (ground (arith, e, failed))
        | inr (rows, put) ↦
            let last : (update_comment_row id f d).1.comments ≡ rows = ground (arith, put) in
            ap (λ y. B.comments.select y) last
            ∙ B.comments.update_select (λ x. x.id == id) f d.comments rows keeps put
      ]

  -- Votes are kept in a table of their own.
  create_mock_vote-comments :
      (n target : ℕ) (type : VoteType) (d : Dao B)
      → (create_mock_vote n target type d).0 ≡ ok tt
      → (create_mock_vote n target type d).1.comments ≡ d.comments
  unfolding create_mock_vote insert_vote
  create_mock_vote-comments zero target type d e = refl
  create_mock_vote-comments (suc n) target type d e =
      let vote : Vote = record {
        id = 0;
        created_at = 0;
        target_id = target;
        type = type;
        user_id = 0;
        ua = "";
        ip = "";
      } in
      let (_, put, more, then_) = >>=-eq-ok (insert_vote vote) _ d tt e in
      let d₁ = (insert_vote vote d).1 in
      let same : d₁.comments ≡ d.comments = ground arith in
      ap (λ (y : Result _ _ × Dao B). y.1.comments) then_
      ∙ create_mock_vote-comments n target type d₁ more
      ∙ same

-- What all updates of the stored comments from the index `i` on make of a row.
unfoldable pub restore_row : Dates → (ℕ → ℕ) → ℕ → List Comment → Comment → Comment
restore_row dates real i [] x = x
restore_row dates real i (saved ∷ rest) x =
    restore_row dates real (suc i) rest
      (if x.id == saved.id then restored dates real i saved x else x)

pub restored-id :
    (dates : Dates) (real : ℕ → ℕ) (i : ℕ) (s x : Comment) → (restored dates real i s x).id ≡ x.id
unfolding restored
restored-id dates real i s x = refl

map-map : {E : Type 0} (f g : E → E) (xs : List E) → map g (map f xs) ≡ map (λ x. g (f x)) xs
map-map f g [] = refl
map-map f g (x ∷ xs) = cc (map-map f g xs)

module _ {B : Backend} (dates : Dates) (real : ℕ → ℕ) where
  pub restore_all-rows :
      (i : ℕ) (saved : List Comment) (d : Dao B)
      → (restore_all dates real i saved d).0 ≡ ok tt
      → all_comments (restore_all dates real i saved d).1
        ≡ map (restore_row dates real i saved) (all_comments d)
  unfolding restore_all restore_row
  restore_all-rows i [] d e = sym (map-id (all_comments d))
  restore_all-rows i (s ∷ rest) d e =
      let (_, put, e₁, is₁) =
        >>=-eq-ok (update_comment_row s.id (restored dates real i s)) _ d tt e in
      let d₁ = (update_comment_row s.id (restored dates real i s) d).1 in
      let (_, up, e₂, is₂) =
        >>=-eq-ok (create_mock_vote s.vote_up s.id VoteType.comment_up) _ d₁ tt e₁ in
      let d₂ = (create_mock_vote s.vote_up s.id VoteType.comment_up d₁).1 in
      let (_, down, e₃, is₃) =
        >>=-eq-ok (create_mock_vote s.vote_down s.id VoteType.comment_down) _ d₂ tt e₂ in
      let d₃ = (create_mock_vote s.vote_down s.id VoteType.comment_down d₂).1 in
      let before : all_comments d₃ ≡ all_comments d₁ =
        ap (λ y. B.comments.select y)
          (create_mock_vote-comments s.vote_down s.id VoteType.comment_down d₂ down
            ∙ create_mock_vote-comments s.vote_up s.id VoteType.comment_up d₁ up) in
      ap (λ (y : Result _ _ × Dao B). all_comments y.1) (is₁ ∙ is₂ ∙ is₃)
      ∙ restore_all-rows (suc i) rest d₃ e₃
      ∙ ap (map (restore_row dates real (suc i) rest)) (
          before
          ∙ update_comment_row-rows s.id (restored dates real i s) d (restored-id dates real i s)
              put)
      ∙ map-map _ (restore_row dates real (suc i) rest) (all_comments d)

module _ (dates : Dates) (real : ℕ → ℕ) where
  -- The rows that the import leaves for the comments stored from the index `i` on.
  unfoldable pub final_rows : ℕ → List Comment → List Comment
  final_rows i [] = []
  final_rows i (s ∷ rest) = restored dates real i s s ∷ final_rows (suc i) rest

  -- A row with a key of its own is left as it is.
  restore_row-other :
      (i : ℕ) (saved : List Comment) (x : Comment)
      → any (λ (s : Comment). s.id == x.id) saved ≡ false
      → restore_row dates real i saved x ≡ x
  unfolding restore_row any
  restore_row-other i [] x h = refl
  restore_row-other i (s ∷ rest) x h =
      let ne : (x.id == s.id) ≡ false = ground (arith, h) in
      rw ne (restore_row-other (suc i) rest x (ground (arith, h)))

  map-other :
      (i : ℕ) (saved xs : List Comment)
      → All (λ (x : Comment). any (λ (s : Comment). s.id == x.id) saved ≡ false) xs
      → map (restore_row dates real i saved) xs ≡ xs
  map-other i saved [] h = refl
  map-other i saved (x ∷ xs) h = cc (restore_row-other i saved x h.0, map-other i saved xs h.1)

  -- A row that is not the first of the list passes its update by.
  map-step :
      (i : ℕ) (s : Comment) (rest xs : List Comment)
      → any (λ (x : Comment). x.id == s.id) xs ≡ false
      → map (restore_row dates real i (s ∷ rest)) xs ≡ map (restore_row dates real (suc i) rest) xs
  unfolding restore_row any
  map-step i s rest [] h = refl
  map-step i s rest (x ∷ xs) h =
      let ne : (x.id == s.id) ≡ false = ground (arith, h) in
      let here : restore_row dates real i (s ∷ rest) x ≡ restore_row dates real (suc i) rest x =
        rw ne refl in
      cc (here, map-step i s rest xs (ground (arith, h)))

  -- What the updates make of the stored rows themselves.
  map-saved :
      (i : ℕ) (saved : List Comment)
      → Distinct (λ (c : Comment). c.id) saved
      → map (restore_row dates real i saved) saved ≡ final_rows i saved
  unfolding final_rows
  map-saved i [] h = refl
  map-saved i (s ∷ rest) h =
      let first : restore_row dates real i (s ∷ rest) s ≡ restored dates real i s s =
        (unfold restore_row in
          rw (==_refl s.id) (
            restore_row-other (suc i) rest (restored dates real i s s)
              (rw (restored-id dates real i s s) h.0))) in
      let others = map-step i s rest rest h.0 ∙ map-saved (suc i) rest h.1 in cc (first, others)

  Distinct-append :
      (xs ys : List Comment)
      → Distinct (λ (c : Comment). c.id) (xs ++ ys)
      → All (λ (x : Comment). any (λ (y : Comment). y.id == x.id) ys ≡ false) xs
        × Distinct (λ (c : Comment). c.id) ys
  Distinct-append [] ys h = (tt, h)
  Distinct-append (x ∷ xs) ys h =
      let rest = Distinct-append xs ys h.1 in
      let both = any-append (λ (y : Comment). y.id == x.id) xs ys in
      ((ground (arith, h.0, both), rest.0), rest.1)

  -- The updates change the stored rows alone.
  pub map-restore_row :
      (old saved : List Comment)
      → Distinct (λ (c : Comment). c.id) (old ++ saved)
      → map (restore_row dates real 0 saved) (old ++ saved) ≡ old ++ final_rows 0 saved
  map-restore_row old saved h =
      let (apart, distinct) = Distinct-append old saved h in
      map-append (restore_row dates real 0 saved) old saved
      ∙ ap₂ (λ a b. a ++ b) (map-other 0 saved old apart) (map-saved 0 saved distinct)
