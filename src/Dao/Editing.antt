-- ===== src/Dao/Editing.antt =====
-- One comment in the table and in the cache: reading it, changing it and saving it.
use artalk.Prelude.{
  ℕ, ◌==◌, ◌≢◌, true, false, none, some, List, [], ◌∷◌, any, find_first, ◌≡◌, refl, sym, ap, subst,
  ◌∙◌, arith, Option-cases, inl, inr,
}
use artalk.Entity.{Comment}
use artalk.Backend.{Backend, Key, Value}
use artalk.Dao.{Dao, first_or, all_comments}
use artalk.Dao.Cache.{comment_cache_save}
use artalk.Dao.Coherence.{IsCoherent, row_of, cached_comment, query_off, query_hit, query_miss}
use artalk.Dao.Find.{find_comment}
use artalk.Dao.Saving.{get_comment-comment_cache_save, cache-update_comment}
use artalk.Dao.SavingCache.{replaced, row_of-replaced_self, row_of-replaced_ne}
use artalk.Dao.Write.{update_comment, save_comment}

-- The row with the key `k` is `x`, and the cache has nothing else for it.
pub record Holds {B : Backend} (k : ℕ) (x : Comment) (d : Dao B) : Type 0 where
  pub row : row_of k (all_comments d) ≡ x
  pub held : any (λ (c : Comment). c.id == k) (all_comments d) ≡ true
  pub cached : (c : Comment) → cached_comment B.store d.cache k ≡ some c → c ≡ x

-- The database stores every row that it is given.
abbrev pub Accepts : Backend → Type 0
Accepts B =
    (c : Comment) (r : B.comments.Rows) → (r' : B.comments.Rows) × (B.comments.save c r ≡ some r')

row_of-id :
    (k : ℕ) (l : List Comment) → any (λ (c : Comment). c.id == k) l ≡ true → (row_of k l).id ≡ k
unfolding first_or find_first any
row_of-id k [] h = absurd (cc h)
row_of-id k (c ∷ l) h = ground (arith, h, row_of-id k l)

any-replaced :
    (c : Comment) (k : ℕ) (l : List Comment)
    → any (λ (y : Comment). y.id == k) (replaced c l) ≡ any (λ (y : Comment). y.id == k) l
unfolding any
any-replaced c k [] = refl
any-replaced c k (x ∷ l) = ground (arith, any-replaced c k l)

-- A row that is found and not empty is a row.
pub held_row :
    (k : ℕ) (l : List Comment) → (row_of k l).id ≢ 0 → any (λ (c : Comment). c.id == k) l ≡ true
unfolding first_or find_first any
held_row k [] h = absurd (h refl)
held_row k (c ∷ l) h = ground (arith, h, held_row k l)

module _ {B : Backend} where
  -- In a state whose cache agrees with the table, every stored comment is held.
  pub IsCoherent-Holds :
      (k : ℕ) (d : Dao B)
      → IsCoherent d
      → any (λ (c : Comment). c.id == k) (all_comments d) ≡ true
      → Holds k (row_of k (all_comments d)) d
  IsCoherent-Holds k d h held = record {
    row = refl;
    held = held;
    cached = λ c e. h.comment_at k c e;
  }

  pub Holds-id : (k : ℕ) (x : Comment) (d : Dao B) → Holds k x d → x.id ≡ k
  Holds-id k x d h = ap (λ (c : Comment). c.id) (sym h.row) ∙ row_of-id k (all_comments d) h.held

  pub find_comment-Holds :
      (k : ℕ) (x : Comment) (d : Dao B)
      → Holds k x d
      → ((find_comment k d).0 ≡ x)
        × ((find_comment k d).1 ≡ record d { cache = (find_comment k d).1.cache })
        × Holds k x (find_comment k d).1
  unfolding find_comment
  find_comment-Holds k x d h = elim (Option-cases d.cache) [
    | inl off ↦
        rw (query_off, off)
          (h.row, refl, record { row = h.row; held = h.held; cached = λ c e. absurd (cc e) })
    | inr (s, on) ↦ elim (Option-cases (cached_comment B.store (some s) k)) [
      | inl miss ↦
          rw (query_miss, on, miss)
            (
              h.row,
              refl,
              record {
                row = h.row;
                held = h.held;
                cached = λ c e. ground (
                  arith,
                  B.store.get-set (Key.comment_by_id k) (Key.comment_by_id k)
                      (Value.comment (row_of k (all_comments d))) s,
                  h.row,
                );
              },
            )
      | inr (c, hit) ↦
          rw (query_hit, on, hit)
            (h.cached c (ap (λ o. cached_comment B.store o k) on ∙ hit), refl, h)
    ]
  ]

  cached-update_comment :
      (c y : Comment) (d : Dao B)
      → cached_comment B.store (update_comment c d).1.cache c.id ≡ some y
      → y ≡ c
  cached-update_comment c y d e = elim (Option-cases d.cache) [
    | inl off ↦
        let none_ : (update_comment c d).1.cache ≡ none =
          (unfold update_comment save_comment in ground (arith, off)) in
        absurd (cc (e, ap (λ o. cached_comment B.store o c.id) none_))
    | inr (s, on) ↦
        let now = cache-update_comment c d s on in
        let stored : cached_comment B.store (some (comment_cache_save B.store c s)) c.id ≡ some c =
          ground (arith, get_comment-comment_cache_save B.store c s c.id) in
        cc (e, ap (λ o. cached_comment B.store o c.id) now, stored)
  ]

  pub update_comment-Holds :
      (k : ℕ) (x c : Comment) (d : Dao B) (rows : B.comments.Rows)
      → B.comments.save c d.comments ≡ some rows
      → Holds k x d
      → c.id ≡ k
      → Holds k c (update_comment c d).1
        × (all_comments (update_comment c d).1 ≡ replaced c (all_comments d))
  update_comment-Holds k x c d rows saved h same =
      let held : any (λ (y : Comment). y.id == c.id) (all_comments d) ≡ true = rw same h.held in
      let after : all_comments (update_comment c d).1 ≡ replaced c (all_comments d) =
        (unfold update_comment save_comment in
          ground (arith, B.comments.save_select c d.comments rows held saved)) in
      (
        record {
          row =
              ap (row_of k) after
              ∙ ap (λ i. row_of i (replaced c (all_comments d))) (sym same)
              ∙ row_of-replaced_self c (all_comments d) held;
          held =
              ap (any (λ (y : Comment). y.id == k)) after
              ∙ any-replaced c k (all_comments d)
              ∙ h.held;
          cached = λ y e.
              cached-update_comment c y d
                (ap (cached_comment B.store (update_comment c d).1.cache) same ∙ e);
        },
        after,
      )

  -- The other rows are what they were.
  abbrev pub OthersSame : ℕ → Dao B → Dao B → Type 0
  OthersSame k d d' =
      (j : ℕ) → (k == j) ≡ false → row_of j (all_comments d') ≡ row_of j (all_comments d)

  -- Saving a changed comment, in one statement.
  pub update_comment-Edits :
      (k : ℕ) (x c : Comment) (d : Dao B) (rows : B.comments.Rows)
      → B.comments.save c d.comments ≡ some rows
      → Holds k x d
      → c.id ≡ k
      → Holds k c (update_comment c d).1 × OthersSame k d (update_comment c d).1
  update_comment-Edits k x c d rows saved h same =
      let (holds, after) = update_comment-Holds k x c d rows saved h same in
      (holds, λ j ne. ap (row_of j) after ∙ row_of-replaced_ne c j (all_comments d) (rw same ne))

  -- Finding a comment, changing it and saving it.
  pub find_update-Edits :
      (f : Comment → Comment) (k : ℕ) (x : Comment) (d : Dao B)
      → Accepts B
      → ((c : Comment) → (f c).id ≡ c.id)
      → Holds k x d
      → let (c, d₁) = find_comment k d in
        Holds k (f x) (update_comment (f c) d₁).1 × OthersSame k d (update_comment (f c) d₁).1
  find_update-Edits f k x d accepts keeps h =
      let (found, only_cache, h₁) = find_comment-Holds k x d h in
      let d₁ = (find_comment k d).1 in
      let same : all_comments d₁ ≡ all_comments d = ap (λ (y : Dao B). all_comments y) only_cache in
      let (holds, others) =
        update_comment-Edits k x (f x) d₁ (accepts (f x) d₁.comments).0
          (accepts (f x) d₁.comments).1 h₁ (keeps x ∙ Holds-id k x d h) in
      subst
        (λ (c : Comment).
          Holds k (f x) (update_comment (f c) d₁).1 × OthersSame k d (update_comment (f c) d₁).1)
        (sym found) (holds, λ j ne. others j ne ∙ ap (row_of j) same)
