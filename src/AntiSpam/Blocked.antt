-- ===== src/AntiSpam/Blocked.antt =====
-- What the spam checks do to the comment that is checked.
use artalk.Prelude.{
  ℕ, Bool, true, false, not, ◌&&◌, ◌||◌, Option, none, some, List, [], ◌∷◌, if◌then◌else◌, ◌≡◌,
  refl, sym, ap, ◌∙◌, subst, subst₂, Bool-cases, inl, inr, String,
}
use artalk.Entity.{Comment}
use artalk.Backend.{Backend}
use artalk.Dao.{Dao, all_comments}
use artalk.Dao.Coherence.{row_of}
use artalk.Dao.Find.{find_comment}
use artalk.Dao.Write.{update_comment}
use artalk.Dao.Editing.{Holds, Accepts, OthersSame, find_comment-Holds, find_update-Edits}
use artalk.AntiSpam.{
  Outside, ModeratorConf, Checker, CheckerParams, check, passes, on_block_comment,
  on_update_comment, checker_trigger, run_checkers, check_and_block, get_enabled_checkers,
}

-- The row of the checked comment afterwards: as before, but for its content and for being pending.
pub record Moderated {B : Backend} (k : ℕ) (x : Comment) (refused : Bool) (d d' : Dao B)
    : Type 0 where
  pub content : String
  pub holds : Holds k (record x { content = content; is_pending = x.is_pending || refused }) d'
  pub others : OthersSame k d d'

or-false : (b : Bool) → (b || false) ≡ b
or-false true = refl
or-false false = refl

pub or-true : (b : Bool) → (b || true) ≡ true
or-true true = refl
or-true false = refl

or_assoc : (a b c : Bool) → ((a || b) || c) ≡ (a || (b || c))
or_assoc true b c = refl
or_assoc false b c = refl

module _ {B : Backend} where
  Moderated-refl : (k : ℕ) (x : Comment) (d : Dao B) → Holds k x d → Moderated k x false d d
  Moderated-refl k x d h = record {
    content = x.content;
    holds = subst (λ b. Holds k (record x { is_pending = b }) d) (sym (or-false x.is_pending)) h;
    others = λ j ne. refl;
  }

  -- One step of moderation after another.
  Moderated-trans :
      (k : ℕ) (x : Comment) (r r' : Bool) (d d₁ d₂ : Dao B) (m : Moderated k x r d d₁)
      → Moderated k (record x { content = m.content; is_pending = x.is_pending || r }) r' d₁ d₂
      → Moderated k x (r || r') d d₂
  Moderated-trans k x r r' d d₁ d₂ m n = record {
    content = n.content;
    holds =
        subst (λ b. Holds k (record x { content = n.content; is_pending = b }) d₂)
          (or_assoc x.is_pending r r') n.holds;
    others = λ j ne. n.others j ne ∙ m.others j ne;
  }

  module _ (accepts : Accepts B) where
    on_update_comment-Moderated :
        (o : Option String) (k : ℕ) (x : Comment) (d : Dao B)
        → Holds k x d
        → Moderated k x false d (on_update_comment o k d)
    unfolding on_update_comment
    on_update_comment-Moderated none k x d h = Moderated-refl k x d h
    on_update_comment-Moderated (some content) k x d h =
        let (holds, others) =
          find_update-Edits (λ c. record c { content = content }) k x d accepts (λ c. refl) h in
        record {
          content = content;
          holds =
              subst
                (λ b.
                  Holds k (record x { content = content; is_pending = b })
                    (on_update_comment (some content) k d))
                (sym (or-false x.is_pending)) holds;
          others = others;
        }

    on_block_comment-Moderated :
        (k : ℕ) (x : Comment) (d : Dao B)
        → Holds k x d
        → Moderated k x true d (on_block_comment k d)
    on_block_comment-Moderated k x d h =
        let (found, only_cache, h₁) = find_comment-Holds k x d h in
        let d₁ = (find_comment k d).1 in
        let pending : (find_comment k d).0.is_pending ≡ x.is_pending =
          ap (λ (c : Comment). c.is_pending) found in
        elim (Bool-cases x.is_pending) [
          | inl already ↦
              let is : on_block_comment k d ≡ d₁ =
                (unfold on_block_comment in rw (pending ∙ already) refl) in
              subst (Moderated k x true d) (sym is) (record {
                content = x.content;
                holds =
                    subst (λ b. Holds k (record x { is_pending = b }) d₁)
                      (already ∙ sym (or-true x.is_pending)) h₁;
                others = λ j ne. ap (λ (y : Dao B). row_of j (all_comments y)) only_cache;
              })
          | inr shown ↦
              let f : Comment → Comment = λ c. record c { is_pending = true } in
              let is : on_block_comment k d
                  ≡ (update_comment (f (find_comment k d).0) (find_comment k d).1).1 =
                (unfold on_block_comment in rw (pending ∙ shown) refl) in
              let (holds, others) = find_update-Edits f k x d accepts (λ c. refl) h in
              subst (Moderated k x true d) (sym is) (record {
                content = x.content;
                holds =
                    subst
                      (λ b.
                        Holds k (record x { is_pending = b })
                          (update_comment (f (find_comment k d).0) (find_comment k d).1).1)
                      (sym (or-true x.is_pending)) holds;
                others = others;
              })
        ]

module _ (O : Outside) (conf : ModeratorConf) where
  -- Whether none of the checkers refuses the comment.
  abbrev pub all_pass : List Checker → CheckerParams → Bool
  all_pass [] p = true
  all_pass (c ∷ rest) p = passes O conf (check O conf c p).pass && all_pass rest p

  module _ {B : Backend} (accepts : Accepts B) where
    checker_trigger-Moderated :
        (c : Checker) (p : CheckerParams) (x : Comment) (d : Dao B)
        → Holds p.comment_id x d
        → let ok = passes O conf (check O conf c p).pass in
          ((checker_trigger O conf c p d).0 ≡ ok)
          × Moderated p.comment_id x (not ok) d (checker_trigger O conf c p d).1
    unfolding checker_trigger
    checker_trigger-Moderated c p x d h =
        let k = p.comment_id in
        let verdict = check O conf c p in
        let d₁ = on_update_comment verdict.replaced k d in
        let m = on_update_comment-Moderated accepts verdict.replaced k x d h in
        elim (Bool-cases (passes O conf verdict.pass)) [
          | inl yes_ ↦ rw yes_ (refl, m)
          | inr no_ ↦ rw no_ (
            refl,
            Moderated-trans k x false true d d₁ (on_block_comment k d₁) m
                (on_block_comment-Moderated accepts k _ d₁ m.holds),
          )
        ]

    run_checkers-Moderated :
        (cs : List Checker) (p : CheckerParams) (x : Comment) (d : Dao B)
        → Holds p.comment_id x d
        → ((run_checkers O conf cs p d).0 ≡ all_pass cs p)
          × Moderated p.comment_id x (not (all_pass cs p)) d (run_checkers O conf cs p d).1
    unfolding run_checkers
    run_checkers-Moderated [] p x d h = (refl, Moderated-refl p.comment_id x d h)
    run_checkers-Moderated (c ∷ rest) p x d h =
        let k = p.comment_id in
        let (same, m) = checker_trigger-Moderated c p x d h in
        let step = checker_trigger O conf c p d in
        let later = run_checkers O conf rest p step.1 in
        let run : Bool → Bool × Dao B = λ b. if b then later else (false, step.1) in
        let Result_ : Bool → Bool × Dao B → Type 0 =
          λ b r. (r.0 ≡ b) × Moderated k x (not b) d r.1 in
        elim (Bool-cases (passes O conf (check O conf c p).pass)) [
          | inr no_ ↦
              subst₂ Result_ (ap (λ b. b && all_pass rest p) (sym no_)) (ap run (sym (same ∙ no_)))
                (refl, subst (λ b. Moderated k x (not b) d step.1) no_ m)
          | inl yes_ ↦
              let m' : Moderated k x false d step.1 =
                subst (λ b. Moderated k x (not b) d step.1) yes_ m in
              let (all, n) =
                run_checkers-Moderated rest p
                  (record x { content = m'.content; is_pending = x.is_pending || false }) step.1
                  m'.holds in
              subst₂ Result_ (ap (λ b. b && all_pass rest p) (sym yes_))
                (ap run (sym (same ∙ yes_)))
                (all, Moderated-trans k x false (not (all_pass rest p)) d step.1 later.1 m' n)
        ]

    -- Where the database accepts every save and the cache has nothing else for the comment that
    -- is checked, CheckAndBlock leaves its row pending exactly if it was or an enabled checker
    -- refuses it; nothing else of the row but its content changes, and no other comment does.
    pub check_and_block-Moderated :
        (p : CheckerParams) (x : Comment) (d : Dao B)
        → Holds p.comment_id x d
        → Moderated p.comment_id x
            (not (all_pass (get_enabled_checkers conf) p))
            d
            (check_and_block O conf p d).1
    unfolding check_and_block
    check_and_block-Moderated p x d h =
        (run_checkers-Moderated (get_enabled_checkers conf) p x d h).1
