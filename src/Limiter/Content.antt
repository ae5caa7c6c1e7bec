-- ===== src/Limiter/Content.antt =====
-- The store of the limiter, as a map without times: its entries do not expire.
use artalk.Prelude.{ℕ, ◌≤◌, Option, none, some, if◌then◌else◌, ◌≡◌, ap, ◌∙◌, arith}
use artalk.SimpleCache.{get, set, delete}
use artalk.SimpleCache.View.{view, view-set, view-delete, get-view, delete-IsMap, IsMap}
use artalk.Limiter.{Key, Stored, key_eqb, keys, Store}

-- From the time `now` on, the store holds what `f` says.
pub record Holds (now : ℕ) (f : Key → Option Stored) (s : Store) : Type 0 where
  pub is_map : IsMap keys s.data_map
  pub shows : (t : ℕ) (j : Key) → now ≤ t → view keys t j s ≡ f j

abbrev pub put : Key → Option Stored → (Key → Option Stored) → Key → Option Stored
put k v f j = if key_eqb k j then v else f j

module _ {now t : ℕ} {f : Key → Option Stored} {s : Store} (le : now ≤ t) (h : Holds now f s) where
  pub set-Holds : (k : Key) (v : Stored) → Holds t (put k (some v) f) (set keys t k v none s)
  set-Holds k v = record {
    is_map = (view-set keys t t k k v none s (omega arith) h.is_map).1;
    shows = λ u j later.
        (view-set keys t u k j v none s later h.is_map).0
        ∙ ap (λ x. if key_eqb k j then some v else x) (h.shows u j (omega arith));
  }

  pub get-Holds : (k : Key) → ((get keys t k s).0 ≡ f k) × Holds t f (get keys t k s).1
  get-Holds k =
      let (found, _, map') = get-view keys t t k k s (omega arith) h.is_map in
      (
        found ∙ h.shows t k le,
        record {
          is_map = map';
          shows = λ u j later.
              let (_, seen, _) = get-view keys t u k j s later h.is_map in
              seen ∙ h.shows u j (omega arith);
        },
      )

  pub delete-Holds : (k : Key) → Holds t (put k none f) (delete keys k s)
  delete-Holds k = record {
    is_map = delete-IsMap keys k s h.is_map;
    shows = λ u j later.
        view-delete keys u k j s
        ∙ ap (λ x. if key_eqb k j then none else x) (h.shows u j (omega arith));
  }

  pub wait-Holds : Holds t f s
  wait-Holds = record { is_map = h.is_map; shows = λ u j later. h.shows u j (omega arith) }
