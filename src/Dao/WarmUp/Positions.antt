-- ===== src/Dao/WarmUp/Positions.antt =====
-- A comment in the middle of a table.
use artalk.Prelude.{
  ℕ, ◌==◌, true, false, List, [], ◌∷◌, ◌++◌, any, filter, find_first, if◌then◌else◌, ◌≡◌, refl, ap,
  ◌∙◌, arith, Bool-cases, inl, inr, ==_refl,
}
use artalk.Entity.{Comment}
use artalk.Backend.{Distinct}
use artalk.Dao.{first_or}
use artalk.Dao.Cache.{contains}
use artalk.Dao.Coherence.{row_of}
use artalk.Dao.Find.{child_ids_of, child_matches}

any-middle :
    (pre rest : List Comment) (c : Comment)
    → any (λ (x : Comment). x.id == c.id) (pre ++ c ∷ rest) ≡ true
unfolding any
any-middle [] rest c = ground (arith, ==_refl c.id)
any-middle (x ∷ pre) rest c = ground (arith, any-middle pre rest c)

id_differs :
    (x : Comment) (pre rest : List Comment) (c : Comment)
    → any (λ (y : Comment). y.id == x.id) (pre ++ c ∷ rest) ≡ false
    → (x.id == c.id) ≡ false
id_differs x pre rest c h = elim (Bool-cases (x.id == c.id)) [
  | inr other ↦ other
  | inl same ↦
      let it : x.id ≡ c.id = ground (arith, same) in
      absurd (
        cc (
          h,
          ap (λ k. any (λ (y : Comment). y.id == k) (pre ++ c ∷ rest)) it ∙ any-middle pre rest c,
        ))
]

pub row_of-middle :
    (pre rest : List Comment) (c : Comment)
    → Distinct (λ (x : Comment). x.id) (pre ++ c ∷ rest)
    → row_of c.id (pre ++ c ∷ rest) ≡ c
unfolding first_or find_first
row_of-middle [] rest c h = ground (arith, ==_refl c.id)
row_of-middle (x ∷ pre) rest c h =
    ground (arith, id_differs x pre rest c h.0, row_of-middle pre rest c h.1)

pub contains-middle :
    (pre rest : List Comment) (c : Comment)
    → contains (child_ids_of c.rid (pre ++ c ∷ rest)) c.id ≡ true
unfolding filter contains any
contains-middle [] rest c = ground (arith, ==_refl c.id, ==_refl c.rid)
contains-middle (x ∷ pre) rest c = ground (arith, contains-middle pre rest c)

pub absent-before :
    (p : ℕ) (pre rest : List Comment) (c : Comment)
    → Distinct (λ (x : Comment). x.id) (pre ++ c ∷ rest)
    → contains (child_ids_of p pre) c.id ≡ false
unfolding filter contains any
absent-before p [] rest c h = refl
absent-before p (x ∷ pre) rest c h =
    ground (arith, id_differs x pre rest c h.0, absent-before p pre rest c h.1)

pub append_nil : (l : List Comment) → l ++ [] ≡ l
append_nil [] = refl
append_nil (x ∷ l) = ap (λ r. x ∷ r) (append_nil l)

pub append_one :
    (pre : List Comment) (c : Comment) (rest : List Comment)
    → pre ++ c ∷ rest ≡ (pre ++ c ∷ []) ++ rest
append_one [] c rest = refl
append_one (x ∷ pre) c rest = ap (λ r. x ∷ r) (append_one pre c rest)

pub child_ids_of-append :
    (p : ℕ) (pre : List Comment) (c : Comment)
    → child_ids_of p (pre ++ c ∷ [])
      ≡ (if child_matches p c then child_ids_of p pre ++ c.id ∷ [] else child_ids_of p pre)
unfolding filter
child_ids_of-append p [] c = ground arith
child_ids_of-append p (x ∷ pre) c = ground (arith, child_ids_of-append p pre c)
