-- ===== src/Artransfer/Roots.antt =====
-- The rounds of the loop to the root of an imported comment
-- (internal/artransfer/importer.go, getRooID in buildRid2RootGenIdMap).
use artalk.Prelude.{
  ℕ, zero, suc, ◌+◌, ◌==◌, ◌≤◌, ◌<◌, Bool, true, false, not, ◌||◌, some, List, [], ◌∷◌, any, String,
  count_p, length, ◌≡◌, refl, ap, arith, Bool-cases, Option-cases, inl, inr, count_p-le-length,
  subst,
}
use artalk.Artransfer.{Artran}
use artalk.Artransfer.Ids.{
  GenIdMap, nth_rid, rid_by_gen_id, is_root_gen_id, parent_gen_id, root_gen_id_from, get_root_id,
}
use artalk.Dao.Cache.{contains}

abbrev numbers : ℕ → List Artran → List ℕ
numbers i [] = []
numbers i (c ∷ rest) = suc i ∷ numbers (suc i) rest

abbrev unmet : List ℕ → ℕ → Bool
unmet visited n = not (contains visited n)

length-numbers : (i : ℕ) (cs : List Artran) → length (numbers i cs) ≡ length cs
length-numbers i [] = refl
length-numbers i (c ∷ cs) = ap suc (length-numbers (suc i) cs)

unmet-le :
    (n : ℕ) (visited l : List ℕ) → count_p (unmet (n ∷ visited)) l ≤ count_p (unmet visited) l
unfolding count_p contains any
unmet-le n visited [] = omega arith
unmet-le n visited (k ∷ l) = ground (arith, unmet-le n visited l)

-- Visiting a number leaves fewer to visit.
visit_number :
    (n : ℕ) (visited l : List ℕ)
    → contains visited n ≡ false
    → contains l n ≡ true
    → count_p (unmet (n ∷ visited)) l < count_p (unmet visited) l
unfolding count_p contains any
visit_number n visited [] new h = absurd (ground arith)
visit_number n visited (k ∷ l) new h = elim (Bool-cases (k == n)) [
  | inl here ↦
      let same : k ≡ n = ground arith in
      let now : contains visited k ≡ false = rw same new in
      ground (arith, unmet-le n visited l, here, now)
  | inr there ↦
      let later : contains l n ≡ true = ground (arith, h, there) in
      ground (arith, visit_number n visited l new later, there)
]

nth_rid-number :
    (i m : ℕ) (cs : List Artran) (rid : String)
    → nth_rid cs m ≡ some rid
    → contains (numbers i cs) (suc (i + m)) ≡ true
unfolding contains any
nth_rid-number i m [] rid e = absurd (cc e)
nth_rid-number i zero (c ∷ cs) rid e = ground arith
nth_rid-number i (suc m) (c ∷ cs) rid e = ground (arith, nth_rid-number (suc i) m cs rid e)

-- A comment that is not a root has a number of the file.
number-of_reply :
    (cs : List Artran) (n : ℕ) → is_root_gen_id cs n ≡ false → contains (numbers 0 cs) n ≡ true
unfolding is_root_gen_id rid_by_gen_id
number-of_reply cs zero h = absurd (cc h)
number-of_reply cs (suc n) h = elim (Option-cases (nth_rid cs n)) [
  | inl out ↦ absurd (ground (arith, h, out))
  | inr (rid, e) ↦
      let start : 0 + n ≡ n = omega arith in
      subst (λ k. contains (numbers 0 cs) (suc k) ≡ true) start (nth_rid-number 0 n cs rid e)
]

module _ (cs : List Artran) (ids : GenIdMap) where
  root_gen_id_from-total :
      (fuel : ℕ) (visited : List ℕ) (n : ℕ)
      → count_p (unmet visited) (numbers 0 cs) ≤ fuel
      → (r : ℕ) × (root_gen_id_from (suc fuel) visited n cs ids ≡ some r)
  unfolding root_gen_id_from
  root_gen_id_from-total zero visited n le = elim (Bool-cases (n == 0 || contains visited n)) [
    | inl stops ↦ (n, rw stops refl)
    | inr goes ↦ elim (Bool-cases (is_root_gen_id cs n)) [
      | inl root ↦ (n, rw goes (rw root refl))
      | inr reply ↦
          let less =
            visit_number n visited (numbers 0 cs) (ground (arith, goes))
              (number-of_reply cs n reply) in
          absurd (omega (arith, less, le))
    ]
  ]
  root_gen_id_from-total (suc fuel) visited n le =
      elim (Bool-cases (n == 0 || contains visited n)) [
        | inl stops ↦ (n, rw stops refl)
        | inr goes ↦ elim (Bool-cases (is_root_gen_id cs n)) [
          | inl root ↦ (n, rw goes (rw root refl))
          | inr reply ↦
              let less =
                visit_number n visited (numbers 0 cs) (ground (arith, goes))
                  (number-of_reply cs n reply) in
              let (r, e) =
                root_gen_id_from-total fuel (n ∷ visited) (parent_gen_id cs ids n)
                  (omega (arith, less, le)) in
              (r, ground (arith, goes, reply, e))
        ]
      ]

  -- The rounds are enough: no root is `none`.
  get_root_id-total : (rid : String) → (r : ℕ) × (get_root_id cs ids rid ≡ some r)
  unfolding get_root_id
  get_root_id-total rid =
      let few = count_p-le-length (unmet []) (numbers 0 cs) in
      let same = length-numbers 0 cs in
      root_gen_id_from-total (suc (length cs)) [] (ids rid) (omega (arith, few, same))
