-- ===== src/SimpleCache/View.antt =====
-- What can be read from the cache: the entries that have not expired. Collecting garbage does not
-- show in it.
use artalk.Prelude.{
  ℕ, ◌≤◌, ◌&&◌, Bool, true, false, not, Option, none, some, List, [], ◌∷◌, if◌then◌else◌, All,
  All-map, ◌≡◌, refl, ◌∙◌, sym, ap, subst, arith, Bool-cases, Option-cases, inl, inr,
}
use artalk.SimpleCache.{
  Keys, Entry, Cache, is_expired, load, remove, delete, sweep, gc, set, get, below_thold, add_one,
  expiry,
}

module _ {K V : Type 0} (E : Keys K) where
  abbrev pub live : ℕ → Option (Entry V) → Option V
  live t none = none
  live t (some e) = if is_expired t e then none else some e.value

  -- The value that a reader finds at the time `t`.
  unfoldable pub view : ℕ → K → Cache K V → Option V
  unfolding load
  view t k c = live t (load E k c.data_map)

  expired_later :
      (now t : ℕ) (e : Entry V) → now ≤ t → is_expired now e ≡ true → is_expired t e ≡ true
  expired_later now t e le h = elim (Option-cases e.expiration) [
    | inl a ↦ absurd (ground arith)
    | inr (x, a) ↦ ground arith
  ]

  load-remove :
      (k j : K) (l : List (K × Entry V))
      → load E j (remove E k l) ≡ (if E.eqb k j then none else load E j l)
  unfolding load remove
  load-remove k j [] = ground arith
  load-remove k j ((i, e) ∷ rest) = elim (Bool-cases (E.eqb i k)) [
    | inl same ↦
        let eq = E.eqb-eq i k same in rw same (rw eq (ground (arith, load-remove k j rest)))
    | inr other ↦ rw other (elim (Bool-cases (E.eqb k j)) [
      | inl here ↦
          let eq = E.eqb-eq k j here in
          rw (← eq) (ground (arith, load-remove k j rest, other, E.eqb_refl k))
      | inr there ↦ ground (arith, load-remove k j rest, there)
    ])
  ]

  pub view-delete :
      (t : ℕ) (k j : K) (c : Cache K V)
      → view t j (delete E k c) ≡ (if E.eqb k j then none else view t j c)
  unfolding view delete
  view-delete t k j c = ground (arith, load-remove k j c.data_map)

  -- Each key is stored once.
  abbrev pub IsMap : List (K × Entry V) → Type 0
  IsMap [] = Unit
  IsMap ((k, e) ∷ rest) = (load E k rest ≡ none) × IsMap rest

  remove-IsMap : (k : K) (l : List (K × Entry V)) → IsMap l → IsMap (remove E k l)
  unfolding remove
  remove-IsMap k [] h = tt
  remove-IsMap k ((j, e) ∷ rest) h = elim (Bool-cases (E.eqb j k)) [
    | inl same ↦ rw same (remove-IsMap k rest h.1)
    | inr other ↦ rw other (ground (arith, load-remove k j rest, h.0), remove-IsMap k rest h.1)
  ]

  pub delete-IsMap : (k : K) (c : Cache K V) → IsMap c.data_map → IsMap (delete E k c).data_map
  unfolding delete
  delete-IsMap k c h = remove-IsMap k c.data_map h

  IsMap-All :
      (l : List (K × Entry V)) → IsMap l → All (λ (x : K × Entry V). load E x.0 l ≡ some x.1) l
  unfolding load
  IsMap-All [] h = tt
  IsMap-All ((k, e) ∷ rest) h = (
    ground (arith, E.eqb_refl k),
    All-map (λ (x : K × Entry V). load E x.0 rest ≡ some x.1)
        (λ (x : K × Entry V). load E x.0 ((k, e) ∷ rest) ≡ some x.1)
        (λ x found. elim (Bool-cases (E.eqb k x.0)) [
          | inl same ↦
              let eq = E.eqb-eq k x.0 same in
              absurd (let gone : load E x.0 rest ≡ none = rw (← eq) h.0 in ground arith)
          | inr other ↦ rw other found
        ])
        rest (IsMap-All rest h.1),
  )

  sweep-IsMap :
      (now : ℕ) (l : List (K × Entry V)) (c : Cache K V)
      → IsMap c.data_map
      → IsMap (sweep E now l c).data_map
  unfolding sweep delete
  sweep-IsMap now [] c h = h
  sweep-IsMap now ((k, e) ∷ rest) c h =
      elim (is_expired now e)
        as (λ out. IsMap (sweep E now rest (if out then delete E k c else c)).data_map) [
          | true ↦ sweep-IsMap now rest (delete E k c) (remove-IsMap k c.data_map h)
          | false ↦ sweep-IsMap now rest c h
        ]

  -- What is swept cannot be read any more.
  view-sweep :
      (now t : ℕ) (l : List (K × Entry V)) (c : Cache K V)
      → All (λ (x : K × Entry V). is_expired now x.1 ≡ true → view t x.0 c ≡ none) l
      → (j : K) → view t j (sweep E now l c) ≡ view t j c
  unfolding sweep
  view-sweep now t [] c h j = refl
  view-sweep now t ((k, e) ∷ rest) c h j = elim (Bool-cases (is_expired now e)) [
    | inl out ↦
        let unseen : (i : K) → view t i (delete E k c) ≡ view t i c = λ i.
          elim (Bool-cases (E.eqb k i)) [
            | inl same ↦
                let eq = E.eqb-eq k i same in
                view-delete t k i c ∙ rw same (rw (← eq) (sym (h.0 out)))
            | inr other ↦ view-delete t k i c ∙ rw other refl
          ] in
        rw out (
          view-sweep now t rest (delete E k c)
            (All-map (λ (x : K × Entry V). is_expired now x.1 ≡ true → view t x.0 c ≡ none)
              (λ (x : K × Entry V). is_expired now x.1 ≡ true → view t x.0 (delete E k c) ≡ none)
              (λ x f gone. unseen x.0 ∙ f gone) rest h.1)
            j
          ∙ unseen j)
    | inr kept ↦ rw kept (view-sweep now t rest c h.1 j)
  ]

  -- In a cache that stores each key once, collecting garbage, forced or not, changes nothing of
  -- what can be read at that time or later, and each key is still stored once.
  pub view-gc :
      (now t : ℕ) (force : Bool) (j : K) (c : Cache K V)
      → now ≤ t
      → IsMap c.data_map
      → (view t j (gc E now force c) ≡ view t j c) × IsMap (gc E now force c).data_map
  unfolding gc view
  view-gc now t force j c le h = elim (Bool-cases (below_thold c.len c.gc_thold && not force)) [
    | inl skip ↦ rw skip (refl, h)
    | inr run ↦ rw run (
      view-sweep now t c.data_map c
          (All-map (λ (x : K × Entry V). load E x.0 c.data_map ≡ some x.1)
            (λ (x : K × Entry V). is_expired now x.1 ≡ true → view t x.0 c ≡ none)
            (λ x found gone. ground (arith, found, expired_later now t x.1 le gone)) c.data_map
            (IsMap-All c.data_map h))
          j,
      sweep-IsMap now c.data_map c h,
    )
  ]

  shown :
      (t : ℕ) (k j : K) (e : Entry V) (c : Cache K V)
      → live t (if E.eqb k j then some e else load E j (remove E k c.data_map))
        ≡ (if E.eqb k j then live t (some e) else view t j c)
  unfolding view
  shown t k j e c = elim (Bool-cases (E.eqb k j)) [
    | inl same ↦ rw same refl
    | inr other ↦ rw other (ap (live t) (load-remove k j c.data_map ∙ rw other refl))
  ]

  -- In a cache that stores each key once, after a write every later reader of the key finds the
  -- value until its time is up, and every other key is read as before; each key is still stored
  -- once.
  pub view-set :
      (now t : ℕ) (k j : K) (v : V) (ttl : Option ℕ) (c : Cache K V)
      → now ≤ t
      → IsMap c.data_map
      → (view t j (set E now k v ttl c) ≡ (
          if E.eqb k j
          then live t (some (record { value = v; expiration = expiry now ttl }))
          else view t j c))
        × IsMap (set E now k v ttl c).data_map
  unfolding set view load
  view-set now t k j v ttl c le h =
      let entry : Entry V = record { value = v; expiration = expiry now ttl } in
      let c' : Cache K V = record c {
        data_map = (k, entry) ∷ remove E k c.data_map;
        len = add_one c.len;
      } in
      let fresh : IsMap c'.data_map =
        (ground (arith, load-remove k k c.data_map, E.eqb_refl k), remove-IsMap k c.data_map h) in
      let (seen, map') = view-gc now t false j c' le fresh in (seen ∙ shown t k j entry c, map')

  -- What a read gives at a later time, from the pair it returns.
  abbrev Reads : ℕ → ℕ → K → K → Cache K V → Option V × Cache K V → Type 0
  Reads now t k j c q = (q.0 ≡ view now k c) × (view t j q.1 ≡ view t j c) × IsMap q.1.data_map

  -- In a cache that stores each key once, a read finds the value that has not expired, and
  -- changes nothing of what can be read at that time or later.
  pub get-view :
      (now t : ℕ) (k j : K) (c : Cache K V)
      → now ≤ t
      → IsMap c.data_map
      → ((get E now k c).0 ≡ view now k c)
        × (view t j (get E now k c).1 ≡ view t j c)
        × IsMap (get E now k c).1.data_map
  unfolding get view
  get-view now t k j c le h = elim (Option-cases (load E k c.data_map)) [
    | inl missing ↦
        let (seen, map') = view-gc now t false j c le h in
        let step : get E now k c ≡ (none, gc E now false c) = ground (arith, missing) in
        subst (Reads now t k j c) (sym step) (ground (arith, missing), seen, map')
    | inr (e, found) ↦ elim (Bool-cases (is_expired now e)) [
      | inl out ↦
          let c' : Cache K V = record c { data_map = remove E k c.data_map } in
          let (seen, map') = view-gc now t false j c' le (remove-IsMap k c.data_map h) in
          let step : get E now k c ≡ (none, gc E now false c') = ground (arith, found, out) in
          let gone : view t k c ≡ none = ground (arith, found, expired_later now t e le out) in
          let dropped : view t j c' ≡ view t j c =
            view-delete t k j c ∙ elim (Bool-cases (E.eqb k j)) [
              | inl same ↦ let eq = E.eqb-eq k j same in rw same (rw (← eq) (sym gone))
              | inr other ↦ rw other refl
            ] in
          subst (Reads now t k j c) (sym step) (ground (arith, found, out), (seen ∙ dropped), map')
      | inr kept ↦
          let (seen, map') = view-gc now t false j c le h in
          let step : get E now k c ≡ (some e.value, gc E now false c) =
            ground (arith, found, kept) in
          subst (Reads now t k j c) (sym step) (ground (arith, found, kept), seen, map')
    ]
  ]
