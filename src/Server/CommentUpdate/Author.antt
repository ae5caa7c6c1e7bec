-- ===== src/Server/CommentUpdate/Author.antt =====
-- Whose comment it is after CommentUpdate (server/handler/comment_update.go).
use artalk.Prelude.{
  ℕ, ◌==◌, false, not, ◌&&◌, none, some, String, str_eq, if◌then◌else◌, trim_space, ◌≡◌, ◌≢◌, ◌⊎◌,
  ap, arith, Bool-cases, Option-cases, inl, inr, eq_iff,
}
use artalk.Prelude.Result.{ok, err}
use artalk.Entity.{User, Comment, empty_user}
use artalk.Backend.{Backend}
use artalk.Dao.{Dao, invalid_argument, write_failed}
use artalk.Dao.Create.{
  Texts, validate_url, find_user, create_user, new_user, find_create, find_create_user,
}
use artalk.Dao.Find.{find_user_by_id}
use artalk.Dao.Notifying.{fetch_user_for_comment}
use artalk.NotifyPusher.{PusherConf}
use artalk.Server.CommentUpdate.{ParamsCommentUpdate, merge_user, new_user_id}

-- The name and the e-mail address that the request gives the author, or the author's so far.
abbrev pub author_name : ParamsCommentUpdate → User → String
author_name p original = trim_space (if str_eq p.nick "" then original.name else p.nick)

abbrev pub author_email : ParamsCommentUpdate → User → String
author_email p original = trim_space (if str_eq p.email "" then original.email else p.email)

-- The user `found` of a search for this name and address in the state `d`, or a new one, is the
-- author; the author of `x` stays where there can be no such user.
pub data IsUser {B : Backend} (T : Texts) (name email : String) (old : ℕ) (d : Dao B) (user_id : ℕ)
    : Type 0 where
  malformed :
      (name ≡ "") ⊎ ((email ≡ "") ⊎ (T.is_email email ≡ false))
      → user_id ≡ old
      → IsUser T name email old d user_id
  found :
      (find_user T name email d).0.id ≢ 0
      → user_id ≡ (find_user T name email d).0.id
      → IsUser T name email old d user_id
  created :
      (link : String) (u : User) (rows : B.users.Rows)
      → (find_user T name email d).0.id ≡ 0
      → B.users.insert
          (record empty_user { name = name; email = email; link = link })
          (find_user T name email d).1.users
        ≡ some (u, rows)
      → user_id ≡ u.id
      → IsUser T name email old d user_id
  refused :
      (link : String)
      → (find_user T name email d).0.id ≡ 0
      → B.users.insert
          (record empty_user { name = name; email = email; link = link })
          (find_user T name email d).1.users
        ≡ none
      → user_id ≡ old
      → IsUser T name email old d user_id

abbrev pub IsAuthor : {B : Backend} → Texts → ParamsCommentUpdate → Comment → Dao B → ℕ → Type 0
IsAuthor T p x d user_id =
    let original = (find_user_by_id x.user_id d).0 in
    IsUser T (author_name p original) (author_email p original) x.user_id
      (find_user_by_id x.user_id d).1 user_id

module _ (T : Texts) {B : Backend} where
  find_create_user-IsUser :
      (name email link : String) (old : ℕ) (d : Dao B)
      → IsUser T
          (trim_space name)
          (trim_space email)
          old
          d
          (new_user_id (find_create_user T name email link d).0 old)
  find_create_user-IsUser name email link old d =
      let n = trim_space name in
      let e = trim_space email in
      let l = trim_space link in
      let valid : String = if not (str_eq l "") && not (validate_url T l) then "" else l in
      let (u, d₁) = find_user T n e d in
      elim (Bool-cases (str_eq n "")) [
        | inl no_name ↦
            let is : (find_create_user T name email link d).0 ≡ err invalid_argument =
              (unfold find_create_user in ground (arith, no_name)) in
            IsUser.malformed (inl (ground (arith, no_name, eq_iff n "")))
              (ap (λ q. new_user_id q old) is)
        | inr named ↦ elim (Bool-cases (str_eq e "")) [
          | inl no_email ↦
              let is : (find_create_user T name email link d).0 ≡ err invalid_argument =
                (unfold find_create_user in ground (arith, named, no_email)) in
              IsUser.malformed (inr (inl (ground (arith, no_email, eq_iff e ""))))
                (ap (λ q. new_user_id q old) is)
          | inr mailed ↦ elim (Bool-cases (T.is_email e)) [
            | inr bad ↦
                let is : (find_create_user T name email link d).0 ≡ err invalid_argument =
                  (unfold find_create_user in ground (arith, named, mailed, bad)) in
                IsUser.malformed (inr (inr bad)) (ap (λ q. new_user_id q old) is)
            | inl good ↦ elim (Bool-cases (u.id == 0)) [
              | inr there ↦
                  let is : (find_create_user T name email link d).0 ≡ ok u =
                    (unfold find_create_user find_create in
                      ground (arith, named, mailed, good, there)) in
                  IsUser.found (ground (arith, there)) (ap (λ q. new_user_id q old) is)
              | inl missing ↦
                  let new : User = record empty_user { name = n; email = e; link = valid } in
                  let absent : u.id ≡ 0 = ground (arith, missing) in
                  elim (Option-cases (B.users.insert new d₁.users)) [
                    | inl failed ↦
                        let is : (find_create_user T name email link d).0 ≡ err write_failed =
                          (unfold find_create_user find_create new_user create_user in
                            ground (arith, named, mailed, good, missing, failed)) in
                        IsUser.refused valid absent failed (ap (λ q. new_user_id q old) is)
                    | inr ((row, rows), put) ↦
                        let is : (find_create_user T name email link d).0 ≡ ok row =
                          (unfold find_create_user find_create new_user create_user in
                            ground (arith, named, mailed, good, missing, put)) in
                        IsUser.created valid row rows absent put (ap (λ q. new_user_id q old) is)
                  ]
            ]
          ]
        ]
      ]

module _ (T : Texts) (pusher : PusherConf) (key : ℕ → ℕ → String) {B : Backend} where
  pub merge_user-IsAuthor :
      (p : ParamsCommentUpdate) (x : Comment) (d : Dao B)
      → IsAuthor T p x d (merge_user T pusher key p x d).0
  unfolding merge_user fetch_user_for_comment
  merge_user-IsAuthor p x d =
      let (original, d₁) = find_user_by_id x.user_id d in
      find_create_user-IsUser T (if str_eq p.nick "" then original.name else p.nick)
        (if str_eq p.email "" then original.email else p.email) p.link x.user_id d₁
