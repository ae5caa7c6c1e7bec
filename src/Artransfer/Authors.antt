-- ===== src/Artransfer/Authors.antt =====
-- What the import of a comment (internal/artransfer/importer.go) does to the table of users.
use artalk.Prelude.{
  ℕ, ◌==◌, true, false, not, ◌&&◌, ◌||◌, some, List, [], ◌∷◌, ◌++◌, any, find_first, if◌then◌else◌,
  String, str_eq, ◌≡◌, ◌≢◌, refl, sym, ap, ap₂, subst, ◌∙◌, arith, Bool-cases, Option-cases, inl,
  inr, eq_refl, any-append,
}
use artalk.Prelude.Result.{Result, ok}
use artalk.Entity.{User, empty_user}
use artalk.Backend.{Backend, Distinct}
use artalk.Dao.{Dao, Act, first_or, all_users, ◌>>=◌, ◌>>◌, pure}
use artalk.Dao.Create.{Texts, is_named}
use artalk.Dao.Steps.{>>=-eq-ok}
use artalk.Artransfer.{Artran}
use artalk.Artransfer.Owners.{
  user_of, nick_of, email_of, IsOwner, AllKept, AllKept-refl, AllKept-trans, append-user_of,
  append-own, map-user_of, found-user_of,
}
use artalk.Artransfer.Placed.{first_or-holds}
use artalk.Artransfer.Prepare.{
  correct_user_basic_info, prepare_user, first_or_create_user, give_badge, save_user_row,
}

-- The user `u` of this name and address has a row afterwards, and the others keep theirs.
record Made {B : Backend} (T : Texts) (name email : String) (d d' : Dao B) (u : User) : Type 0 where
  stored : u.id ≢ 0
  own : user_of u.id (all_users d') ≡ u
  named : is_named T name email u ≡ true
  kept : AllKept (all_users d) (all_users d')

any-user_of :
    (k : ℕ) (l : List User) → (user_of k l).id ≡ k → k ≢ 0 → any (λ (x : User). x.id == k) l ≡ true
unfolding any first_or find_first
any-user_of k [] h z = absurd (ground (arith, h, z))
any-user_of k (x ∷ l) h z = elim (Bool-cases (x.id == k)) [
  | inl here ↦ ground (arith, here)
  | inr there ↦ ground (arith, there, any-user_of k l (ground (arith, h, there)) z)
]

module _ (T : Texts) {B : Backend} where
  insert-Made :
      (name email link : String) (d : Dao B) (row : User) (rows : B.users.Rows)
      → B.users.insert (record empty_user { name = name; email = email; link = link }) d.users
        ≡ some (row, rows)
      → Made T name email d (record d { users = rows }) row
  insert-Made name email link d row rows put =
      let new : User = record empty_user { name = name; email = email; link = link } in
      let old = all_users d in
      let after = B.users.insert_select new row d.users rows put in
      let (k, t, stamped, _) = B.users.insert_row new row d.users rows put in
      let keys : any (λ (x : User). x.id == 0) (old ++ row ∷ []) ≡ false =
        subst (λ l. any (λ (x : User). x.id == 0) l ≡ false) after (B.users.select_keys rows) in
      let both = any-append (λ (x : User). x.id == 0) old (row ∷ []) in
      record {
        stored = (unfold any in ground (arith, keys, both));
        own =
            ap (user_of row.id) after
            ∙ append-own old row
                (subst (Distinct (λ (u : User). u.id)) after (B.users.select_distinct rows));
        named =
            ap (is_named T name email) stamped
            ∙ ground (arith, eq_refl (T.sql_lower name), eq_refl (T.sql_lower email));
        kept = λ i z h.
            let same : user_of i (B.users.select rows) ≡ user_of i old =
              ap (user_of i) after ∙ append-user_of i old row z h in
            record {
              keyed = ap (λ (u : User). u.id) same ∙ h;
              name = ap (λ (u : User). u.name) same;
              email = ap (λ (u : User). u.email) same;
            };
      }

  first_or_create_user-Made :
      (name email link : String) (d : Dao B) (u : User)
      → (first_or_create_user T name email link d).0 ≡ ok u
      → Made T name email d (first_or_create_user T name email link d).1 u
  first_or_create_user-Made name email link d u e =
      let s = first_or empty_user (is_named T name email) (all_users d) in
      let new : User = record empty_user { name = name; email = email; link = link } in
      elim (Bool-cases (s.id == 0)) [
        | inl missing ↦ elim (Option-cases (B.users.insert new d.users)) [
          | inl failed ↦ absurd (unfold first_or_create_user in ground (arith, e, missing, failed))
          | inr ((row, rows), put) ↦
              let same : row ≡ u =
                (unfold first_or_create_user in ground (arith, e, missing, put)) in
              let last : record d { users = rows } ≡ (first_or_create_user T name email link d).1 =
                (unfold first_or_create_user in ground (arith, missing, put)) in
              subst (λ y. Made T name email d y u) last
                (subst (λ x. Made T name email d (record d { users = rows }) x) same
                  (insert-Made name email link d row rows put))
        ]
        | inr there ↦
            let stored : s.id ≢ 0 = ground (arith, there) in
            let same : s ≡ u = (unfold first_or_create_user in ground (arith, e, there)) in
            let last : d ≡ (first_or_create_user T name email link d).1 =
              (unfold first_or_create_user in ground (arith, there)) in
            let fits : is_named T name email s ≡ true =
              elim (first_or-holds empty_user (is_named T name email) (all_users d)) [
                | inl default ↦ absurd (ground (arith, default, there))
                | inr found ↦ found
              ] in
            subst (λ y. Made T name email d y u) last
              (subst (λ x. Made T name email d d x) same
                (record {
                  stored = stored;
                  own =
                      found-user_of (is_named T name email) (all_users d)
                        (B.users.select_distinct d.users) stored;
                  named = fits;
                  kept = AllKept-refl (all_users d);
                }))
      ]

  -- Saving a user's row with another badge.
  save_user_row-AllKept :
      (user changed : User) (d : Dao B)
      → changed.id ≡ user.id
      → changed.name ≡ user.name
      → changed.email ≡ user.email
      → user.id ≢ 0
      → user_of user.id (all_users d) ≡ user
      → (save_user_row changed d).0 ≡ ok tt
      → AllKept (all_users d) (all_users (save_user_row changed d).1)
  save_user_row-AllKept user changed d key name email z own e i nz h =
      elim (Option-cases (B.users.save changed d.users)) [
        | inl failed ↦ absurd (unfold save_user_row in ground (arith, e, failed))
        | inr (rows, put) ↦
            let last : (save_user_row changed d).1.users ≡ rows =
              (unfold save_user_row in ground (arith, put)) in
            let there : any (λ (x : User). x.id == changed.id) (all_users d) ≡ true =
              any-user_of changed.id (all_users d)
                (ap (λ k. (user_of k (all_users d)).id) key ∙ ap (λ (x : User). x.id) own ∙ sym key)
                (λ zero_. z (sym key ∙ zero_)) in
            let after : user_of i (all_users (save_user_row changed d).1)
                ≡ (if i == changed.id then changed else user_of i (all_users d)) =
              ap (λ r. user_of i (B.users.select r)) last
              ∙ ap (user_of i) (B.users.save_select changed d.users rows there put)
              ∙ map-user_of i changed (all_users d) h nz in
            elim (Bool-cases (i == changed.id)) [
              | inl this ↦
                  let is_key : i ≡ user.id = ground (arith, this, key) in
                  let now : user_of i (all_users (save_user_row changed d).1) ≡ changed =
                    ground (arith, after, this) in
                  let before : user_of i (all_users d) ≡ user =
                    ap (λ k. user_of k (all_users d)) is_key ∙ own in
                  record {
                    keyed = ap (λ (x : User). x.id) now ∙ key ∙ sym is_key;
                    name =
                        ap (λ (x : User). x.name) now
                        ∙ name
                        ∙ sym (ap (λ (x : User). x.name) before);
                    email =
                        ap (λ (x : User). x.email) now
                        ∙ email
                        ∙ sym (ap (λ (x : User). x.email) before);
                  }
              | inr other ↦
                  let now : user_of i (all_users (save_user_row changed d).1)
                      ≡ user_of i (all_users d) =
                    ground (arith, after, other) in
                  record {
                    keyed = ap (λ (x : User). x.id) now ∙ h;
                    name = ap (λ (x : User). x.name) now;
                    email = ap (λ (x : User). x.email) now;
                  }
            ]
      ]

  give_badge-AllKept :
      (c : Artran) (user u : User) (d : Dao B)
      → user.id ≢ 0
      → user_of user.id (all_users d) ≡ user
      → (give_badge c user d).0 ≡ ok u
      → (u.id ≡ user.id) × AllKept (all_users d) (all_users (give_badge c user d).1)
  give_badge-AllKept c user u d z own e =
      let named = not (str_eq c.badge_name "") && not (str_eq c.badge_name user.badge_name) in
      let colored = not (str_eq c.badge_color "") && not (str_eq c.badge_color user.badge_color) in
      let changed : User = record user {
        badge_name = if named then c.badge_name else user.badge_name;
        badge_color = if colored then c.badge_color else user.badge_color;
      } in
      let chain : Act B User = save_user_row changed >> pure changed in
      elim (Bool-cases (not user.is_admin && (named || colored))) [
        | inr same ↦
            let is : give_badge c user d ≡ (ok user, d) =
              (unfold give_badge in ground (arith, same)) in
            let got : user ≡ u = cc (e, ap (λ (y : Result _ User × Dao B). y.0) is) in
            (
              ap (λ (x : User). x.id) (sym got),
              subst (λ (y : Dao B). AllKept (all_users d) (all_users y))
                  (sym (ap (λ (y : Result _ User × Dao B). y.1) is)) (AllKept-refl (all_users d)),
            )
        | inl given ↦
            let is : give_badge c user d ≡ chain d = (unfold give_badge in ground (arith, given)) in
            let (_, saved, last, end_) =
              >>=-eq-ok (save_user_row changed) (λ _. pure changed) d u
                (ap (λ (y : Result _ User × Dao B). y.0) (sym is) ∙ e) in
            let got : changed ≡ u = cc (last) in
            (
              ap (λ (x : User). x.id) (sym got),
              subst (λ (y : Dao B). AllKept (all_users d) (all_users y))
                  (sym (ap (λ (y : Result _ User × Dao B). y.1) (is ∙ end_)))
                  (save_user_row-AllKept user changed d refl refl refl z own saved),
            )
      ]

  -- The author of a comment has a row with the comment's name and address, and no user is lost.
  pub prepare_user-IsOwner :
      (c : Artran) (u : User) (d : Dao B)
      → (prepare_user T c d).0 ≡ ok u
      → IsOwner T c (prepare_user T c d).1 u.id
        × AllKept (all_users d) (all_users (prepare_user T c d).1)
  prepare_user-IsOwner c u d e =
      let fixed = correct_user_basic_info T c in
      let found : Act B User = first_or_create_user T fixed.nick fixed.email fixed.link in
      let chain : Act B User = found >>= give_badge fixed in
      let is : prepare_user T c d ≡ chain d = (unfold prepare_user in refl) in
      let (user, e₁, e₂, is₁) =
        >>=-eq-ok found (give_badge fixed) d u
          (ap (λ (y : Result _ User × Dao B). y.0) (sym is) ∙ e) in
      let d₁ = (found d).1 in
      let made = first_or_create_user-Made fixed.nick fixed.email fixed.link d user e₁ in
      let (key, kept) = give_badge-AllKept fixed user u d₁ made.stored made.own e₂ in
      let last : (prepare_user T c d).1 ≡ (give_badge fixed user d₁).1 =
        ap (λ (y : Result _ User × Dao B). y.1) (is ∙ is₁) in
      let k = kept user.id made.stored (ap (λ (x : User). x.id) made.own) in
      let nick : fixed.nick ≡ nick_of c = (unfold correct_user_basic_info in refl) in
      let email : fixed.email ≡ email_of T c = (unfold correct_user_basic_info in ground arith) in
      let there : is_named T (nick_of c) (email_of T c) user ≡ true =
        ap₂ (λ n m. is_named T n m user) (sym nick) (sym email) ∙ made.named in
      let owner : IsOwner T c (give_badge fixed user d₁).1 user.id = record {
        stored = made.stored;
        keyed = k.keyed;
        named =
            ap₂
              (λ n m.
                str_eq (T.sql_lower n) (T.sql_lower (nick_of c))
                && str_eq (T.sql_lower m) (T.sql_lower (email_of T c)))
              (k.name ∙ ap (λ (x : User). x.name) made.own)
              (k.email ∙ ap (λ (x : User). x.email) made.own)
            ∙ there;
      } in
      (
        subst (λ y. IsOwner T c y u.id) (sym last)
            (subst (λ i. IsOwner T c (give_badge fixed user d₁).1 i) (sym key) owner),
        subst (λ (y : Dao B). AllKept (all_users d) (all_users y)) (sym last)
            (AllKept-trans (all_users d) (all_users d₁) _ made.kept kept),
      )
