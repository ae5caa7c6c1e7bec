-- ===== src/Tests/UserTests.antt =====
-- Users who are updated, created and logged in.
use artalk.Prelude.{
  false, none, some, [], ◌∷◌, any, map, refl, trim_prefix, trim_space, str_eq, ◌≡◌,
}
use artalk.Entity.{User}
use artalk.Backend.{Key, Value}
use artalk.Backend.Memory.{memory, table, next_key}
use artalk.Dao.{Dao, all_users, first_or}
use artalk.Dao.Create.{new_user}
use artalk.Dao.Find.{find_user_by_id}
use artalk.Dao.Users.{find_users_by_email}
use artalk.Server.{success}
use artalk.Server.Users.{Bcrypt, ParamsUser, user_update, user_login}
use artalk.Tests.Authors.{author, two_authors}
use artalk.Tests.Fixtures.{admin, crypto, request, texts}

-- A hash that is the password.
abbrev bcrypt : Bcrypt
bcrypt = record { generate = λ p. some p; compare = str_eq }

abbrev twin : User
twin = record author { id = 2; name = "eve"; password = "(bcrypt)pw" }

-- Two users with one address.
unfoldable twins : Dao memory
unfolding two_authors memory table any
twins = record (two_authors false) {
  users = (
    author ∷ twin ∷ admin ∷ [],
    record { distinct = (refl, (refl, (refl, tt))); nonzero = refl },
  );
}

abbrev as_author : ParamsUser
as_author = record {
  name = "bob";
  email = "b@x.org";
  password = "";
  link = "";
  is_admin = false;
  receive_email = false;
  badge_name = "";
  badge_color = "";
}

-- The second user gets the name of the first, whose address is the same.
twins_test :
    map
      (λ (u : User). u.name)
      (all_users (user_update texts bcrypt 0 crypto as_author 2 request twins).1)
    ≡ "bob" ∷ "bob" ∷ "ann" ∷ []
unfolding twins two_authors memory any user_update trim_prefix trim_space find_user_by_id
twins_test = refl

login_test :
    (user_login texts bcrypt
      (λ u. some u.name)
      (record { name = "eve"; email = "b@x.org"; password = "pw" })
      twins).0
    ≡ success ("eve", twin)
unfolding twins two_authors memory any user_login trim_space find_user_by_id
login_test = refl

-- A site with a cache in which nobody was found under an address.
unfoldable asked : Dao memory
unfolding twins two_authors memory table any
asked = record twins {
  cache = some (memory.store.set (Key.user_id_by_email "n@x.org") (Value.ids []) (λ _. none));
}

-- A new user with this address is not found under it.
unfound_test :
    (find_users_by_email texts "n@x.org" (new_user texts "new" "n@x.org" "" asked).1).0 ≡ []
unfolding asked twins two_authors memory any next_key find_users_by_email new_user first_or
unfound_test = refl
