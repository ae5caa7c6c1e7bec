-- ===== src/Dao/Descend.antt =====
-- The plain search for the replies below a comment: it ends, and it finds exactly them.
use artalk.Prelude.{
  ℕ, zero, suc, ◌+◌, ◌==◌, ◌≤◌, ◌<◌, Bool, true, false, ◌&&◌, ◌||◌, Option, some, List, [], ◌∷◌,
  ◌++◌, map, filter, any, ◌≡◌, ◌≢◌, refl, ap, ◌∙◌, arith, Option-cases, inl, inr, All, All-zip,
  All-map, filter-All, All-filter, any-filter, any-append, any-false-All,
}
use artalk.Entity.{Comment}
use artalk.Dao.Find.{child_matches}
use artalk.Dao.Rows.{children_of, DistinctIds, NonzeroIds}
use artalk.Dao.Children.{descend, descend_under, children_of-NonzeroIds}

-- Every reply has a smaller key than its replies have, as keys that grow give it, and all keys lie
-- below a bound.
abbrev pub IsForward : ℕ → List Comment → Type 0
IsForward bound l = All (λ (c : Comment). (c.rid < c.id) × (c.id < bound)) l

abbrev pub ids : List Comment → List ℕ
ids l = map (λ (c : Comment). c.id) l

-- All of the list's members were reached with enough fuel.
descend_under-total :
    (again : ℕ → Option (List Comment)) (cs : List Comment)
    → All (λ (c : Comment). (l : List Comment) × (again c.id ≡ some l)) cs
    → (l : List Comment) × (descend_under again cs ≡ some l)
unfolding descend_under
descend_under-total again [] h = ([], refl)
descend_under-total again (c ∷ cs) (this, rest) =
    let (others, e) = descend_under-total again cs rest in
    (c ∷ this.0 ++ others, rw (this.1, e, descend_under))

children_of-IsForward :
    (p bound : ℕ) (rows : List Comment)
    → p ≢ 0
    → IsForward bound rows
    → All (λ (c : Comment). (p < c.id) × (c.id < bound)) (children_of p rows)
unfolding children_of
children_of-IsForward p bound rows z h =
    All-map (λ (c : Comment). (child_matches p c ≡ true) × ((c.rid < c.id) × (c.id < bound)))
      (λ (c : Comment). (p < c.id) × (c.id < bound)) (λ c k. ground (arith, k.0, k.1.0, k.1.1))
      (filter (child_matches p) rows)
      (All-zip (λ (c : Comment). child_matches p c ≡ true)
        (λ (c : Comment). (c.rid < c.id) × (c.id < bound)) (filter (child_matches p) rows)
        (All-filter (child_matches p) rows)
        (filter-All (λ (c : Comment). (c.rid < c.id) × (c.id < bound)) (child_matches p) rows h))

-- As many rounds as there are keys above the comment are enough.
pub descend-total :
    (fuel p bound : ℕ) (rows : List Comment)
    → p ≢ 0
    → IsForward bound rows
    → p ≤ bound
    → bound < p + fuel
    → (l : List Comment) × (descend fuel p rows ≡ some l)
unfolding descend
descend-total zero p bound rows z h le lt = absurd (omega arith)
descend-total (suc fuel) p bound rows z h le lt =
    descend_under-total (λ q. descend fuel q rows) (children_of p rows)
      (All-map (λ (c : Comment). (p < c.id) × (c.id < bound))
        (λ (c : Comment). (l : List Comment) × (descend fuel c.id rows ≡ some l))
        (λ c (above, below).
          descend-total fuel c.id bound rows (omega arith) h (omega arith) (omega arith))
        (children_of p rows) (children_of-IsForward p bound rows z h))

-- Whether one of the comments has an id.
unfoldable pub has_id : ℕ → List Comment → Bool
unfolding any
has_id n l = any (λ (c : Comment). c.id == n) l

pub has_id-cons :
    (c : Comment) (l : List Comment) (n : ℕ) → has_id n (c ∷ l) ≡ (c.id == n || has_id n l)
unfolding has_id
has_id-cons c l n = refl

has_id-append : (l m : List Comment) (n : ℕ) → has_id n (l ++ m) ≡ (has_id n l || has_id n m)
unfolding has_id
has_id-append l m n = any-append (λ (c : Comment). c.id == n) l m

descend_under-has_id :
    (x : Comment) (again : ℕ → Option (List Comment)) (cs l : List Comment)
    → All
        (λ (c : Comment).
          (b : List Comment)
          → again c.id ≡ some b
          → has_id x.id b ≡ (x.rid == c.id || has_id x.rid b))
        cs
    → descend_under again cs ≡ some l
    → has_id x.id l ≡ (has_id x.id cs || has_id x.rid l)
unfolding descend_under has_id
descend_under-has_id x again [] l h e = ground arith
descend_under-has_id x again (c ∷ cs) l h e = elim (Option-cases (again c.id)) [
  | inl out ↦ absurd (ground arith)
  | inr (b, now) ↦ elim (Option-cases (descend_under again cs)) [
    | inl out ↦ absurd (ground arith)
    | inr (o, rest) ↦
        let whole : l ≡ c ∷ b ++ o = ground arith in
        rw whole (
          ground (
            arith,
            h.0 b now,
            descend_under-has_id x again cs o h.1 rest,
            has_id-append b o x.id,
            has_id-append b o x.rid,
          ))
  ]
]

any-and-false :
    (p q : Comment → Bool) (l : List Comment) → any q l ≡ false → any (λ c. p c && q c) l ≡ false
unfolding any
any-and-false p q [] h = refl
any-and-false p q (c ∷ l) h = ground (arith, h, any-and-false p q l (ground (arith, h)))

-- Among rows with keys of their own, a key stands for the test of its row.
any-own-key :
    (m : Comment → Bool) (rows : List Comment)
    → DistinctIds rows
    → All (λ (x : Comment). any (λ (c : Comment). m c && c.id == x.id) rows ≡ m x) rows
unfolding any
any-own-key m [] h = tt
any-own-key m (y ∷ rows) h = (
  ground (arith, any-and-false m (λ (c : Comment). c.id == y.id) rows h.0),
  All-map
      (λ (x : Comment).
        ((x.id == y.id) ≡ false) × (any (λ (c : Comment). m c && c.id == x.id) rows ≡ m x))
      (λ (x : Comment). any (λ (c : Comment). m c && c.id == x.id) (y ∷ rows) ≡ m x)
      (λ x (ne, own). ground arith) rows
      (All-zip (λ (x : Comment). (x.id == y.id) ≡ false)
        (λ (x : Comment). any (λ (c : Comment). m c && c.id == x.id) rows ≡ m x) rows
        (any-false-All (λ (x : Comment). x.id == y.id) rows h.0) (any-own-key m rows h.1)),
)

-- A row is among the replies to `p` exactly if `p` is its parent.
has_id-children_of :
    (p : ℕ) (rows : List Comment)
    → p ≢ 0
    → DistinctIds rows
    → All (λ (x : Comment). has_id x.id (children_of p rows) ≡ (x.rid == p)) rows
unfolding has_id children_of
has_id-children_of p rows z h =
    All-map
      (λ (x : Comment).
        any (λ (c : Comment). child_matches p c && c.id == x.id) rows ≡ child_matches p x)
      (λ (x : Comment).
        any (λ (c : Comment). c.id == x.id) (filter (child_matches p) rows) ≡ (x.rid == p))
      (λ x own.
        ground (arith, own, any-filter (λ (c : Comment). c.id == x.id) (child_matches p) rows))
      rows (any-own-key (child_matches p) rows h)

-- What is gathered below `p`: the rows whose parent is `p` or was gathered.
descend-has_id :
    (x : Comment) (fuel p : ℕ) (rows l : List Comment)
    → ((q : ℕ) → q ≢ 0 → has_id x.id (children_of q rows) ≡ (x.rid == q))
    → NonzeroIds rows
    → p ≢ 0
    → descend fuel p rows ≡ some l
    → has_id x.id l ≡ (x.rid == p || has_id x.rid l)
unfolding descend
descend-has_id x zero p rows l own nz z e = cc
descend-has_id x (suc fuel) p rows l own nz z e =
    let step =
      descend_under-has_id x (λ q. descend fuel q rows) (children_of p rows) l
        (All-map (λ (c : Comment). (c.id == 0) ≡ false)
          (λ (c : Comment).
            (b : List Comment)
            → descend fuel c.id rows ≡ some b
            → has_id x.id b ≡ (x.rid == c.id || has_id x.rid b))
          (λ c cz b below. descend-has_id x fuel c.id rows b own nz (ground arith) below)
          (children_of p rows)
          (any-false-All (λ (c : Comment). c.id == 0) (children_of p rows)
            (children_of-NonzeroIds p rows nz)))
        e in
    step ∙ ap (λ b. b || has_id x.rid l) (own p z)

All-under :
    (Q : ℕ → Type 0) (P : ℕ → Comment → Type 0) (l : List Comment)
    → ((q : ℕ) → Q q → All (P q) l)
    → All (λ x. (q : ℕ) → Q q → P q x) l
All-under Q P [] h = tt
All-under Q P (x ∷ l) h = ((λ q z. (h q z).0), All-under Q P l (λ q z. (h q z).1))

-- In a table whose keys differ and are not zero, the rows that the search below a comment
-- gathers are exactly those that reply to the comment or to a row that was gathered.
pub descend-closed :
    (fuel p : ℕ) (rows l : List Comment)
    → p ≢ 0
    → DistinctIds rows
    → NonzeroIds rows
    → descend fuel p rows ≡ some l
    → All (λ (x : Comment). has_id x.id l ≡ (x.rid == p || has_id x.rid l)) rows
descend-closed fuel p rows l z di nz e =
    All-map (λ (x : Comment). (q : ℕ) → q ≢ 0 → has_id x.id (children_of q rows) ≡ (x.rid == q))
      (λ (x : Comment). has_id x.id l ≡ (x.rid == p || has_id x.rid l))
      (λ x own. descend-has_id x fuel p rows l own nz z e) rows
      (All-under (λ q. q ≢ 0) (λ q (x : Comment). has_id x.id (children_of q rows) ≡ (x.rid == q))
        rows (λ q nz'. has_id-children_of q rows nz' di))

pub filter-IsForward :
    (bound : ℕ) (p : Comment → Bool) (l : List Comment)
    → IsForward bound l
    → IsForward bound (filter p l)
filter-IsForward bound p l = filter-All (λ (c : Comment). (c.rid < c.id) × (c.id < bound)) p l
