-- ===== src/Dao/Users.antt =====
-- internal/dao/query_find.go: users by their e-mail address, through a cached list of their keys.
use artalk.Prelude.{ℕ, List, [], ◌∷◌, map, filter, String, str_eq}
use artalk.Entity.{User}
use artalk.Backend.{Backend, Key, Value}
use artalk.Dao.{Find, all_users}
use artalk.Dao.Cache.{decode_ids}
use artalk.Dao.Create.{Texts}
use artalk.Dao.Find.{query_db_with_cache, find_user_by_id}

module _ (T : Texts) {B : Backend} where
  unfoldable pub find_user_ids_by_email : String → Find B (List ℕ)
  unfolding query_db_with_cache filter
  find_user_ids_by_email email =
      query_db_with_cache (Key.user_id_by_email (T.lower email)) decode_ids Value.ids (λ d.
        map (λ (u : User). u.id)
          (filter (λ u. str_eq (T.sql_lower u.email) (T.sql_lower email)) (all_users d)))

  -- The loop over the keys; a user who is not found is an empty one.
  unfoldable pub find_each_user : List ℕ → Find B (List User)
  unfolding find_user_by_id
  find_each_user [] d = ([], d)
  find_each_user (id ∷ rest) d =
      let (user, d₁) = find_user_by_id id d in
      let (others, d₂) = find_each_user rest d₁ in (user ∷ others, d₂)

  unfoldable pub find_users_by_email : String → Find B (List User)
  unfolding find_user_ids_by_email find_each_user
  find_users_by_email email d =
      let (ids, d') = find_user_ids_by_email email d in find_each_user ids d'
