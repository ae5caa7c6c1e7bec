-- ===== src/Dao/Rows.antt =====
-- Rows of comments with distinct keys: looking a row up by its key, and the rows below a comment.
use artalk.Prelude.{
  ℕ, ◌==◌, false, List, [], ◌∷◌, filter, any, if◌then◌else◌, ◌≡◌, sym, ap, ◌∙◌, arith, Bool-cases,
  inl, inr, All, All-zip, any-false-All, All-map, find_first,
}
use artalk.Entity.{Comment}
use artalk.Backend.{Distinct}
use artalk.Dao.{first_or}
use artalk.Dao.Find.{child_matches}
use artalk.Dao.Coherence.{row_of}

abbrev pub DistinctIds : List Comment → Type 0
DistinctIds l = Distinct (λ c. c.id) l

-- The rows whose key is not 0, as the primary keys of a table.
abbrev pub NonzeroIds : List Comment → Type 0
NonzeroIds l = any (λ (c : Comment). c.id == 0) l ≡ false

row_of-cons :
    (x : Comment) (l : List Comment)
    → any (λ (y : Comment). y.id == x.id) l ≡ false
    → All (λ (c : Comment). row_of c.id l ≡ c) l
    → All (λ (c : Comment). row_of c.id (x ∷ l) ≡ c) l
unfolding first_or find_first
row_of-cons x l f h =
    All-map (λ (c : Comment). ((c.id == x.id) ≡ false) × (row_of c.id l ≡ c))
      (λ (c : Comment). row_of c.id (x ∷ l) ≡ c) (λ c (ne, same). ground arith) l
      (All-zip (λ (c : Comment). (c.id == x.id) ≡ false) (λ (c : Comment). row_of c.id l ≡ c) l
        (any-false-All (λ (y : Comment). y.id == x.id) l f) h)

-- Each row is the row that its key finds.
pub row_of_self : (l : List Comment) → DistinctIds l → All (λ c. row_of c.id l ≡ c) l
unfolding first_or find_first
row_of_self [] h = tt
row_of_self (x ∷ l) h = (ground arith, row_of-cons x l h.0 (row_of_self l h.1))

-- The direct replies to a comment.
unfoldable pub children_of : ℕ → List Comment → List Comment
unfolding filter
children_of p l = filter (child_matches p) l

row_of-step :
    (x : Comment) (i : ℕ) (l : List Comment)
    → row_of i (x ∷ l) ≡ (if x.id == i then x else row_of i l)
unfolding first_or find_first
row_of-step x i l = ground arith

-- A row that was found has the key that it was found by.
pub row_of-id : (i : ℕ) (l : List Comment) → ((row_of i l).id == 0) ≡ false → (row_of i l).id ≡ i
unfolding first_or find_first
row_of-id i [] h = absurd (cc)
row_of-id i (x ∷ l) h = elim (Bool-cases (x.id == i)) [
  | inl here ↦ ground (arith, row_of-step x i l)
  | inr there ↦
      let step : row_of i (x ∷ l) ≡ row_of i l = ground (arith, row_of-step x i l) in
      ap (λ (c : Comment). c.id) step
      ∙ row_of-id i l (ap (λ (c : Comment). c.id == 0) (sym step) ∙ h)
]

-- So it is the row of its own key.
pub row_of-own :
    (c : Comment) (i : ℕ) (l : List Comment)
    → c ≡ row_of i l
    → (c.id == 0) ≡ false
    → (c.id ≡ i) × (c ≡ row_of c.id l)
row_of-own c i l e h =
    let key : c.id ≡ i = ap (λ (x : Comment). x.id) e ∙ row_of-id i l (rw e at h) in
    (key, e ∙ ap (λ j. row_of j l) (sym key))
