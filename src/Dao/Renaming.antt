-- ===== src/Dao/Renaming.antt =====
-- Loops that save every row of a table that fits a condition, changed.
use artalk.Prelude.{
  ℕ, ◌==◌, Bool, true, false, none, some, List, [], ◌∷◌, map, filter, any, All, filter-All, All-map,
  ==_refl, if◌then◌else◌, ◌≡◌, refl, ap, ◌∙◌, arith, Bool-cases, Option-cases, inl, inr,
}
use artalk.Entity.{Comment, Page}
use artalk.Backend.{Backend, Table, Distinct}
use artalk.Dao.{cache_action, Dao}
use artalk.Dao.Coherence.{SameTables}
use artalk.Dao.Sites.{update_comments, update_pages}
use artalk.Dao.Write.{update_comment, save_comment, update_page}

module _ {E : Type 0} (key : E → ℕ) where
  -- A row is put over the row with its key.
  abbrev over : E → List E → List E
  over e l = map (λ x. if key x == key e then e else x) l

  abbrev over_each : (E → E) → List E → List E → List E
  over_each f [] rows = rows
  over_each f (x ∷ rest) rows = over_each f rest (over (f x) rows)

  abbrev has : List E → ℕ → Bool
  has l k = any (λ x. key x == k) l

  over_absent : (e : E) (l : List E) → has l (key e) ≡ false → over e l ≡ l
  unfolding any
  over_absent e [] h = refl
  over_absent e (x ∷ l) h = ground (arith, h, over_absent e l)

  has-over : (e : E) (l : List E) (k : ℕ) → has (over e l) k ≡ has l k
  unfolding any
  has-over e [] k = refl
  has-over e (x ∷ l) k = ground (arith, has-over e l k)

  module _ (f : E → E) (keeps : (x : E) → key (f x) ≡ key x) where
    -- A row that none of the others has the key of stays at the head.
    over_each-head :
        (x : E) (l rows : List E)
        → has l (key x) ≡ false
        → over_each f l (x ∷ rows) ≡ x ∷ over_each f l rows
    unfolding any
    over_each-head x [] rows h = refl
    over_each-head x (y ∷ l) rows h =
        let other : (key x == key (f y)) ≡ false = ground (arith, h, keeps y) in
        rw other (over_each-head x l (over (f y) rows) (ground (arith, h)))

    has-filter : (p : E → Bool) (l : List E) (k : ℕ) → has l k ≡ false → has (filter p l) k ≡ false
    unfolding any filter
    has-filter p [] k h = refl
    has-filter p (x ∷ l) k h = ground (arith, h, has-filter p l k)

    pub over_each-filter :
        (p : E → Bool) (rows : List E)
        → Distinct key rows
        → over_each f (filter p rows) rows ≡ map (λ x. if p x then f x else x) rows
    unfolding filter
    over_each-filter p [] h = refl
    over_each-filter p (x ∷ rows) h = elim (Bool-cases (p x)) [
      | inl yes_ ↦
          let absent : over (f x) rows ≡ rows = over_absent (f x) rows (rw (keeps x) h.0) in
          let same : (key x == key (f x)) ≡ true = ground (arith, keeps x) in
          let head : over (f x) (x ∷ rows) ≡ f x ∷ rows =
            ap (λ b. (if b then f x else x) ∷ over (f x) rows) same ∙ ap (λ l. f x ∷ l) absent in
          rw yes_ (
            ap (over_each f (filter p rows)) head
            ∙ over_each-head (f x) (filter p rows) rows
                (rw (keeps x) (has-filter p rows (key x) h.0))
            ∙ ap (λ l. f x ∷ l) (over_each-filter p rows h.1))
      | inr no_ ↦ rw no_ (
          over_each-head x (filter p rows) rows (has-filter p rows (key x) h.0)
          ∙ ap (λ l. x ∷ l) (over_each-filter p rows h.1))
    ]

module _ {E : Type 0} {key : E → ℕ} {stamp : ℕ → ℕ → E → E} (T : Table E key stamp) where
  -- The table stores every row that it is given.
  abbrev pub Stores : Type 0
  Stores = (e : E) (r : T.Rows) → (r' : T.Rows) × (T.save e r ≡ some r')

  abbrev pub saved : E → T.Rows → T.Rows
  saved e r = elim (T.save e r) [ none ↦ r | some r' ↦ r' ]

  abbrev pub saved_each : (E → E) → List E → T.Rows → T.Rows
  saved_each f [] r = r
  saved_each f (x ∷ rest) r = saved_each f rest (saved (f x) r)

  saved-select :
      (e : E) (r : T.Rows)
      → Stores
      → has key (T.select r) (key e) ≡ true
      → T.select (saved e r) ≡ over key e (T.select r)
  saved-select e r stores h =
      let (r', put) = stores e r in rw (saved, put) (T.save_select e r r' h put)

  has_self : (l : List E) → All (λ x. has key l (key x) ≡ true) l
  unfolding any
  has_self [] = tt
  has_self (x ∷ l) = (
    ground (arith, ==_refl (key x)),
    All-map (λ y. has key l (key y) ≡ true) (λ y. has key (x ∷ l) (key y) ≡ true)
        (λ y h. ground (arith, h)) l (has_self l),
  )

  module _ (f : E → E) (keeps : (x : E) → key (f x) ≡ key x) (stores : Stores) where
    saved_each-select :
        (l : List E) (r : T.Rows)
        → All (λ x. has key (T.select r) (key x) ≡ true) l
        → T.select (saved_each f l r) ≡ over_each key f l (T.select r)
    saved_each-select [] r h = refl
    saved_each-select (x ∷ l) r h =
        let one = saved-select (f x) r stores (rw (keeps x) h.0) in
        saved_each-select l (saved (f x) r) (
          All-map (λ y. has key (T.select r) (key y) ≡ true)
            (λ y. has key (T.select (saved (f x) r)) (key y) ≡ true)
            (λ y k.
              ap (λ rows. has key rows (key y)) one ∙ has-over key (f x) (T.select r) (key y) ∙ k)
            l h.1)
        ∙ ap (over_each key f l) one

    -- Saving what fits, changed, changes exactly what fits.
    pub saved_each-filter :
        (p : E → Bool) (r : T.Rows)
        → T.select (saved_each f (filter p (T.select r)) r)
          ≡ map (λ x. if p x then f x else x) (T.select r)
    saved_each-filter p r =
        saved_each-select (filter p (T.select r)) r
          (filter-All _ p (T.select r) (has_self (T.select r)))
        ∙ over_each-filter key f keeps p (T.select r) (T.select_distinct r)

module _ {B : Backend} where
  update_comment-rows :
      (x : Comment) (d : Dao B)
      → (update_comment x d).1 ≡ record d {
        comments = saved B.comments x d.comments;
        cache = (update_comment x d).1.cache;
      }
  unfolding update_comment save_comment
  update_comment-rows x d = elim (Option-cases (B.comments.save x d.comments)) [
    | inl failed ↦ ground (arith, failed)
    | inr (rows, put) ↦ ground (arith, put)
  ]

  pub update_comments-rows :
      (f : Comment → Comment) (l : List Comment) (d : Dao B)
      → (update_comments f l d ≡ record d {
        comments = (update_comments f l d).comments;
        cache = (update_comments f l d).cache;
      })
        × ((update_comments f l d).comments ≡ saved_each B.comments f l d.comments)
  unfolding update_comments
  update_comments-rows f [] d = (refl, refl)
  update_comments-rows f (c ∷ rest) d =
      let d₁ = (update_comment (f c) d).1 in
      let one = update_comment-rows (f c) d in
      let (only, rows) = update_comments-rows f rest d₁ in
      (
        only
            ∙ ap
                (λ (z : Dao B). record z {
                  comments = (update_comments f rest d₁).comments;
                  cache = (update_comments f rest d₁).cache;
                })
                one,
        rows ∙ ap (λ (z : Dao B). saved_each B.comments f rest z.comments) one,
      )

  update_page-rows :
      (x : Page) (d : Dao B)
      → (update_page x d).1
        ≡ record d { pages = saved B.pages x d.pages; cache = (update_page x d).1.cache }
  unfolding update_page save_comment
  update_page-rows x d = elim (Option-cases (B.pages.save x d.pages)) [
    | inl failed ↦ ground (arith, failed)
    | inr (rows, put) ↦ ground (arith, put)
  ]

  pub update_pages-rows :
      (f : Page → Page) (l : List Page) (d : Dao B)
      → (update_pages f l d
          ≡ record d { pages = (update_pages f l d).pages; cache = (update_pages f l d).cache })
        × ((update_pages f l d).pages ≡ saved_each B.pages f l d.pages)
  unfolding update_pages
  update_pages-rows f [] d = (refl, refl)
  update_pages-rows f (p ∷ rest) d =
      let d₁ = (update_page (f p) d).1 in
      let one = update_page-rows (f p) d in
      let (only, rows) = update_pages-rows f rest d₁ in
      (
        only
            ∙ ap
                (λ (z : Dao B). record z {
                  pages = (update_pages f rest d₁).pages;
                  cache = (update_pages f rest d₁).cache;
                })
                one,
        rows ∙ ap (λ (z : Dao B). saved_each B.pages f rest z.pages) one,
      )

-- A write to the cache alone.
pub cache_action-SameTables :
    {B : Backend} (f : B.store.Store → B.store.Store) (d : Dao B)
    → SameTables d (cache_action f d).1
cache_action-SameTables f d = elim (Option-cases d.cache) [
  | inl off ↦ ground (arith, off)
  | inr (s, on) ↦ ground (arith, on)
]
