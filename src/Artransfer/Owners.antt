-- ===== src/Artransfer/Owners.antt =====
-- The users that an import finds or makes for the comments (internal/artransfer/importer.go).
use artalk.Prelude.{
  ℕ, ◌==◌, Bool, true, false, ◌&&◌, List, [], ◌∷◌, ◌++◌, map, any, find_first, if◌then◌else◌,
  String, str_eq, trim_space, ◌≡◌, ◌≢◌, refl, ap₂, ◌∙◌, arith, Bool-cases, inl, inr, any-append,
}
use artalk.Entity.{User, empty_user}
use artalk.Backend.{Backend, Distinct}
use artalk.Dao.{Dao, first_or, all_users}
use artalk.Dao.Create.{Texts, is_named}
use artalk.Artransfer.{Artran}

-- The user with an id.
abbrev pub user_of : ℕ → List User → User
user_of i l = first_or empty_user (λ (u : User). u.id == i) l

-- The name and the address of a comment's author, those of nobody in place of none.
abbrev pub nick_of : Artran → String
nick_of c = if str_eq (trim_space c.nick) "" then "Anonymous" else c.nick

abbrev pub email_of : Texts → Artran → String
email_of T c =
    if str_eq (trim_space c.email) ""
    then "anonymous@example.org"
    else if T.is_email c.email
    then c.email
    else "anonymous@example.org"

-- The table has a user with this id who is named as the author of the comment.
pub record IsOwner {B : Backend} (T : Texts) (c : Artran) (d : Dao B) (i : ℕ) : Type 0 where
  pub stored : i ≢ 0
  pub keyed : (user_of i (all_users d)).id ≡ i
  pub named : is_named T (nick_of c) (email_of T c) (user_of i (all_users d)) ≡ true

-- The users of the table stay, under their names and addresses.
pub record Keeps (l l' : List User) (i : ℕ) : Type 0 where
  pub keyed : (user_of i l').id ≡ i
  pub name : (user_of i l').name ≡ (user_of i l).name
  pub email : (user_of i l').email ≡ (user_of i l).email

abbrev pub AllKept : List User → List User → Type 0
AllKept l l' = (i : ℕ) → i ≢ 0 → (user_of i l).id ≡ i → Keeps l l' i

pub AllKept-refl : (l : List User) → AllKept l l
AllKept-refl l i z k = record { keyed = k; name = refl; email = refl }

pub AllKept-trans : (l₁ l₂ l₃ : List User) → AllKept l₁ l₂ → AllKept l₂ l₃ → AllKept l₁ l₃
AllKept-trans l₁ l₂ l₃ p q i z k =
    let first = p i z k in
    let second = q i z first.keyed in
    record {
      keyed = second.keyed;
      name = second.name ∙ first.name;
      email = second.email ∙ first.email;
    }

pub IsOwner-AllKept :
    {B : Backend} (T : Texts) (c : Artran) (d d' : Dao B) (i : ℕ)
    → AllKept (all_users d) (all_users d')
    → IsOwner T c d i
    → IsOwner T c d' i
IsOwner-AllKept T c d d' i kept h =
    let k = kept i h.stored h.keyed in
    record {
      stored = h.stored;
      keyed = k.keyed;
      named =
          ap₂
            (λ n e.
              str_eq (T.sql_lower n) (T.sql_lower (nick_of c))
              && str_eq (T.sql_lower e) (T.sql_lower (email_of T c)))
            k.name k.email
          ∙ h.named;
    }

user_of-step :
    (x : User) (i : ℕ) (l : List User) → user_of i (x ∷ l) ≡ (if x.id == i then x else user_of i l)
unfolding first_or find_first
user_of-step x i l = ground arith

-- A new row leaves the others where they are.
pub append-user_of :
    (i : ℕ) (l : List User) (new : User)
    → i ≢ 0
    → (user_of i l).id ≡ i
    → user_of i (l ++ new ∷ []) ≡ user_of i l
unfolding first_or find_first
append-user_of i [] new z k = absurd (ground (arith, z, k))
append-user_of i (x ∷ l) new z k = elim (Bool-cases (x.id == i)) [
  | inl here ↦ ground (arith, here)
  | inr there ↦
      let below : (user_of i l).id ≡ i = ground (arith, k, there, user_of-step x i l) in
      ground (arith, there, append-user_of i l new z below)
]

pub append-own :
    (l : List User) (new : User)
    → Distinct (λ (u : User). u.id) (l ++ new ∷ [])
    → user_of new.id (l ++ new ∷ []) ≡ new
unfolding first_or find_first any
append-own [] new h = ground arith
append-own (x ∷ l) new h =
    let both = any-append (λ (y : User). y.id == x.id) l (new ∷ []) in
    let apart : (x.id == new.id) ≡ false = ground (arith, h.0, both) in
    ground (arith, apart, append-own l new h.1)

-- Saving a row changes what its key finds, and nothing else.
pub map-user_of :
    (i : ℕ) (new : User) (l : List User)
    → (user_of i l).id ≡ i
    → i ≢ 0
    → user_of i (map (λ (x : User). if x.id == new.id then new else x) l)
      ≡ (if i == new.id then new else user_of i l)
unfolding first_or find_first
map-user_of i new [] k z = absurd (ground (arith, z, k))
map-user_of i new (x ∷ l) k z = elim (Bool-cases (x.id == i)) [
  | inl here ↦ let same : x.id ≡ i = ground (arith, here) in ground (arith, here, same)
  | inr there ↦
      let below : (user_of i l).id ≡ i = ground (arith, k, there, user_of-step x i l) in
      let rest = map-user_of i new l below z in
      elim (Bool-cases (x.id == new.id)) [
        | inl saved ↦ ground (arith, there, saved, rest)
        | inr other ↦ ground (arith, there, other, rest)
      ]
]

none-found :
    (t : User → Bool) (k : ℕ) (l : List User)
    → any (λ (y : User). y.id == k) l ≡ false
    → k ≢ 0
    → (first_or empty_user t l).id ≢ k
unfolding first_or find_first any
none-found t k [] h z e = z (ground (arith, e))
none-found t k (x ∷ l) h z e = elim (Bool-cases (t x)) [
  | inl here ↦ absurd (ground (arith, h, here, e))
  | inr there ↦ none-found t k l (ground (arith, h)) z (ground (arith, e, there))
]

-- A row that was found is the row of its key.
pub found-user_of :
    (t : User → Bool) (l : List User)
    → Distinct (λ (u : User). u.id) l
    → (first_or empty_user t l).id ≢ 0
    → user_of (first_or empty_user t l).id l ≡ first_or empty_user t l
unfolding first_or find_first
found-user_of t [] h z = absurd (ground (arith, z))
found-user_of t (x ∷ l) h z = elim (Bool-cases (t x)) [
  | inl here ↦ ground (arith, here)
  | inr there ↦
      let below : (first_or empty_user t l).id ≢ 0 = ground (arith, z, there) in
      let apart : (x.id == (first_or empty_user t l).id) ≡ false =
        elim (Bool-cases (x.id == (first_or empty_user t l).id)) [
          | inr ne ↦ ne
          | inl eq ↦
              let same : (first_or empty_user t l).id ≡ x.id = ground (arith, eq) in
              absurd (none-found t x.id l h.0 (λ k. below (same ∙ k)) same)
        ] in
      ground (arith, there, apart, found-user_of t l h.1 below)
]
