-- ===== src/Dao/WarmUp/Warming.antt =====
-- The loop over the comments, from a cache that agrees with the table.
use artalk.Prelude.{
  ℕ, ◌==◌, true, some, List, [], ◌∷◌, ◌++◌, filter, All, All-map, All-append, ◌≡◌, ◌≢◌, ◌⊎◌, sym,
  ap, subst, ◌∙◌, arith, Bool-cases, Option-cases, inl, inr, ==_refl,
}
use artalk.Entity.{Comment}
use artalk.Backend.{CacheStore, Distinct}
use artalk.Dao.Cache.{contains, append_new, or_no_ids, comment_cache_save}
use artalk.Dao.Coherence.{Agrees, cached_comment, cached_ids, row_of}
use artalk.Dao.Find.{child_ids_of}
use artalk.Dao.Saving.{get_comment-comment_cache_save, ids_in-comment_cache_save}
use artalk.Dao.WarmUp.Positions.{
  row_of-middle, contains-middle, absent-before, append_nil, append_one, child_ids_of-append,
}

module _ (S : CacheStore) (rows : List Comment) where
  abbrev pub Has : S.Store → Comment → Type 0
  Has s x = (y : Comment) × (cached_comment S (some s) x.id ≡ some y)

  -- After the comments `pre`: the lists of replies are whole, or go as far as that.
  pub record Warming (pre : List Comment) (s : S.Store) : Type 0 where
    pub comment_at :
        (i : ℕ) (c : Comment) → cached_comment S (some s) i ≡ some c → c ≡ row_of i rows
    pub ids_at :
        (p : ℕ)
        → p ≢ 0
        → (cached_ids S (some s) p ≡ some (child_ids_of p rows))
          ⊎ (or_no_ids (cached_ids S (some s) p) ≡ child_ids_of p pre)
    pub has : All (Has s) pre

  Has-save : (c x : Comment) (s : S.Store) → Has s x → Has (comment_cache_save S c s) x
  Has-save c x s (y, e) = elim (Bool-cases (c.id == x.id)) [
    | inl same ↦ (c, ground (arith, get_comment-comment_cache_save S c s x.id, same))
    | inr other ↦ (y, ground (arith, get_comment-comment_cache_save S c s x.id, other, e))
  ]

  Warming-save :
      (pre rest : List Comment) (c : Comment) (s : S.Store)
      → rows ≡ pre ++ c ∷ rest
      → Distinct (λ (x : Comment). x.id) rows
      → Warming pre s
      → Warming (pre ++ c ∷ []) (comment_cache_save S c s)
  Warming-save pre rest c s is distinct h =
      let apart = subst (Distinct (λ (x : Comment). x.id)) is distinct in
      let own : row_of c.id rows ≡ c = ap (row_of c.id) is ∙ row_of-middle pre rest c apart in
      let listed : contains (child_ids_of c.rid rows) c.id ≡ true =
        ap (λ l. contains (child_ids_of c.rid l) c.id) is ∙ contains-middle pre rest c in
      record {
        comment_at = λ i x e. elim (Bool-cases (c.id == i)) [
          | inl here ↦
              let it : c.id ≡ i = ground (arith, here) in
              let is_c : x ≡ c = ground (arith, e, get_comment-comment_cache_save S c s i, here) in
              is_c ∙ sym own ∙ ap (λ k. row_of k rows) it
          | inr there ↦
              h.comment_at i x (ground (arith, e, get_comment-comment_cache_save S c s i, there))
        ];
        ids_at = λ p z.
            let before = absent-before p pre rest c apart in
            let grown = child_ids_of-append p pre c in
            let at = ids_in-comment_cache_save S c s p in
            let ids = cached_ids S (some s) p in
            let ids' = cached_ids S (some (comment_cache_save S c s)) p in
            elim (Bool-cases (c.rid == p)) [
              | inl mine ↦
                  let it : c.rid ≡ p = ground (arith, mine) in
                  let now : ids' ≡ some (append_new (or_no_ids ids) c.id) =
                    ground (arith, at, mine, z, it) in
                  let has : contains (child_ids_of p rows) c.id ≡ true =
                    ap (λ k. contains (child_ids_of k rows) c.id) (sym it) ∙ listed in
                  elim (h.ids_at p z) [
                    | inl whole ↦
                        let same : append_new (or_no_ids ids) c.id ≡ child_ids_of p rows =
                          (unfold append_new in ground (arith, whole, has)) in
                        inl (now ∙ ap (λ l. some l) same)
                    | inr part ↦
                        let more : append_new (or_no_ids ids) c.id
                            ≡ child_ids_of p pre ++ c.id ∷ [] =
                          (unfold append_new in ground (arith, part, before)) in
                        inr (ap or_no_ids now ∙ more ∙ sym (ground (arith, grown, mine)))
                  ]
              | inr other ↦
                  let stays : child_ids_of p (pre ++ c ∷ []) ≡ child_ids_of p pre =
                    ground (arith, grown, other, z) in
                  let now : (ids' ≡ ids) ⊎ (ids' ≡ some (or_no_ids ids)) =
                    elim (Bool-cases (c.rid == 0)) [
                      | inr reply ↦ inl (ground (arith, at, reply, other))
                      | inl root ↦ elim (Bool-cases (c.id == p)) [
                        | inr away ↦ inl (ground (arith, at, root, away))
                        | inl self ↦
                            let it : c.id ≡ p = ground (arith, self) in
                            inr (ground (arith, at, root, self, it))
                      ]
                    ] in
                  elim now [
                    | inl same ↦ elim (h.ids_at p z) [
                      | inl whole ↦ inl (same ∙ whole)
                      | inr part ↦ inr (ap or_no_ids same ∙ part ∙ sym stays)
                    ]
                    | inr made ↦ elim (h.ids_at p z) [
                      | inl whole ↦ inl (made ∙ ap (λ o. some (or_no_ids o)) whole)
                      | inr part ↦ inr (ap or_no_ids made ∙ part ∙ sym stays)
                    ]
                  ]
            ];
        has =
            All-append (Has (comment_cache_save S c s)) pre (c ∷ [])
              (All-map (Has s) (Has (comment_cache_save S c s)) (λ x e. Has-save c x s e) pre h.has)
              ((c, ground (arith, get_comment-comment_cache_save S c s c.id, ==_refl c.id)), tt);
      }

  abbrev pub stored_each : {A : Type 0} → (A → S.Store → S.Store) → List A → S.Store → S.Store
  stored_each f [] s = s
  stored_each f (x ∷ rest) s = stored_each f rest (f x s)

  pub Warming-all :
      (pre l : List Comment) (s : S.Store)
      → rows ≡ pre ++ l
      → Distinct (λ (x : Comment). x.id) rows
      → Warming pre s
      → Warming rows (stored_each (comment_cache_save S) l s)
  Warming-all pre [] s is distinct h = subst (λ l. Warming l s) (sym (is ∙ append_nil pre)) h
  Warming-all pre (c ∷ rest) s is distinct h =
      Warming-all (pre ++ c ∷ []) rest (comment_cache_save S c s) (is ∙ append_one pre c rest)
        distinct (Warming-save pre rest c s is distinct h)

  pub Agrees-Warming : (s : S.Store) → Agrees S (some s) rows → Warming [] s
  unfolding filter
  Agrees-Warming s h = record {
    comment_at = h.comment_at;
    ids_at = λ p z. elim (Option-cases (cached_ids S (some s) p)) [
      | inl nothing ↦ inr (ap or_no_ids nothing)
      | inr (l, e) ↦ inl (e ∙ ap (λ x. some x) (h.ids_at p l z e))
    ];
    has = tt;
  }

  pub Warming-Agrees : (s : S.Store) → Warming rows s → Agrees S (some s) rows
  Warming-Agrees s h = record {
    comment_at = h.comment_at;
    ids_at = λ p l z e. elim (h.ids_at p z) [
      | inl whole ↦ cc (e, whole)
      | inr part ↦ sym (ap or_no_ids e) ∙ part
    ];
  }
