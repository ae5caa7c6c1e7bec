-- ===== src/Server/CommentGet/MayRead.antt =====
-- Who may read a comment, and what CommentGet (server/handler/comment_get.go) shows to whom.
use artalk.Prelude.{
  ℕ, ◌==◌, Bool, true, false, not, ◌&&◌, Option, none, some, str_eq, ◌≡◌, ◌≢◌, ◌⊎◌, refl, sym, ap,
  ◌∙◌, arith, Bool-cases, Option-cases, ◌≤◌, inl, inr, subst, eq_iff,
}
use artalk.Prelude.Result.{ok, Result-cases}
use artalk.Entity.{User, Comment}
use artalk.Backend.{Backend}
use artalk.Dao.{Dao, all_comments}
use artalk.Dao.Coherence.{IsCoherent, row_of, find_comment-IsCoherent}
use artalk.Dao.Find.{find_comment}
use artalk.Dao.Rows.{row_of-id}
use artalk.Server.{Request, success, error}
use artalk.Server.Auth.{
  Claims, Crypto, issued_time, check_user, get_jwt_data_by_req, get_token_by_req, get_user_by_req,
  guest_token_hash,
}
use artalk.Server.Auth.Access.{IsLogin, get_user_by_req-eq-ok}
use artalk.Server.CommentCreate.Checked.{get_user_by_req-Reads}
use artalk.Server.CommentGet.{can_read, user_or_empty, comment_get, ResponseCommentGet}
use artalk.Server.CommentsGet.Find.{Cooked, cook}

-- Why the sender of a request may read a comment.
pub data MayRead {B : Backend} (K : Crypto) (r : Request) (d : Dao B) (c : Comment) : Type 0 where
  approved : c.is_pending ≡ false → MayRead K r d c
  administrator : (user : User) → IsLogin K r d user → user.is_admin ≡ true → MayRead K r d c
  author : (user : User) → IsLogin K r d user → user.id ≡ c.user_id → MayRead K r d c
  browser : guest_token_hash K r ≢ "" → guest_token_hash K r ≡ c.guest_token_hash → MayRead K r d c

-- The table has a comment with the key, which the sender may read.
abbrev pub Readable : {B : Backend} → Crypto → Request → Dao B → ℕ → Type 0
Readable K r d id = let c = row_of id (all_comments d) in (c.id ≡ id) × (c.id ≢ 0) × MayRead K r d c

-- What is shown beside a comment that replies to `rid`: that comment, if it may be read.
pub data Linked {B : Backend} (K : Crypto) (r : Request) (d : Dao B) (rid : ℕ)
    : Option Cooked → Type 0 where
  root : rid ≡ 0 → Linked K r d rid none
  kept_back : rid ≢ 0 → ¬ Readable K r d rid → Linked K r d rid none
  linked :
      (x : Cooked)
      → rid ≢ 0
      → x.comment ≡ row_of rid (all_comments d)
      → Readable K r d rid
      → Linked K r d rid (some x)

check_user-ok :
    (claims : Claims) (user : User)
    → user.id ≢ 0
    → ((t : ℕ) → user.token_valid_from ≡ some t → t ≤ issued_time claims)
    → check_user claims user ≡ ok user
unfolding check_user
check_user-ok claims user there fresh = elim (Option-cases user.token_valid_from) [
  | inl always ↦ ground (arith, there, always)
  | inr (t, from) ↦ ground (arith, there, from, fresh t from)
]

module _ (K : Crypto) {B : Backend} (r : Request) (d : Dao B) where
  -- A login is found.
  IsLogin-get_user_by_req : (user : User) → IsLogin K r d user → (get_user_by_req K r d).0 ≡ ok user
  IsLogin-get_user_by_req user login =
      let token : str_eq (get_token_by_req r) "" ≡ false =
        ground (arith, login.has_token, eq_iff (get_token_by_req r) "") in
      let jwt : get_jwt_data_by_req K r ≡ ok login.claims =
        (unfold get_jwt_data_by_req in rw token (rw login.signed refl)) in
      let fresh = check_user-ok login.claims user login.exists login.not_revoked in
      let named = login.named in (unfold get_user_by_req in ground (arith, jwt, fresh, named))

  abbrev sees : Comment → Bool
  sees c = can_read (user_or_empty (get_user_by_req K r d).0) (guest_token_hash K r) c

  sees-MayRead : (c : Comment) → sees c ≡ true → (c.id ≢ 0) × MayRead K r d c
  unfolding can_read
  sees-MayRead c e = (
    ground (arith, e),
    elim (Bool-cases c.is_pending) [
      | inr shown ↦ MayRead.approved shown
      | inl held ↦
          elim (Bool-cases (
            not (str_eq (guest_token_hash K r) "")
            && str_eq (guest_token_hash K r) c.guest_token_hash)) [
              | inl same ↦
                  MayRead.browser (ground (arith, same, eq_iff (guest_token_hash K r) ""))
                    (ground (arith, same, eq_iff (guest_token_hash K r) c.guest_token_hash))
              | inr other ↦ elim (Result-cases (get_user_by_req K r d).0) [
                | inr (x, failed) ↦ absurd (ground (arith, e, held, other, failed))
                | inl (user, found) ↦
                    let login = get_user_by_req-eq-ok K r d user found in
                    elim (Bool-cases user.is_admin) [
                      | inl admin ↦ MayRead.administrator user login admin
                      | inr plain ↦
                          MayRead.author user login (ground (arith, e, held, other, found, plain))
                    ]
              ]
            ]
    ],
  )

  MayRead-sees : (c : Comment) → c.id ≢ 0 → MayRead K r d c → sees c ≡ true
  unfolding can_read
  MayRead-sees c z (MayRead.approved shown) = ground (arith, z, shown)
  MayRead-sees c z (MayRead.administrator user login admin) =
      let found = IsLogin-get_user_by_req user login in ground (arith, z, found, admin)
  MayRead-sees c z (MayRead.author user login own) =
      let found = IsLogin-get_user_by_req user login in
      let there = login.exists in ground (arith, z, found, own, there)
  MayRead-sees c z (MayRead.browser has same) = ground (
    arith,
    z,
    has,
    same,
    eq_iff (guest_token_hash K r) "",
    eq_iff (guest_token_hash K r) c.guest_token_hash,
  )

  -- The test on the row that a key finds.
  sees-Readable :
      (id : ℕ) (c : Comment) → c ≡ row_of id (all_comments d) → sees c ≡ true → Readable K r d id
  sees-Readable id c row e =
      let rows = all_comments d in
      let (stored, may) = sees-MayRead (row_of id rows) (ap sees (sym row) ∙ e) in
      (row_of-id id rows (ground (arith, stored)), stored, may)

  not-sees-Readable :
      (id : ℕ) (c : Comment) → c ≡ row_of id (all_comments d) → sees c ≡ false → ¬ Readable K r d id
  not-sees-Readable id c row e (_, stored, may) =
      let yes : sees c ≡ true = ap sees row ∙ MayRead-sees _ stored may in cc (yes, e)

  -- If the cache agrees with the table of comments, CommentGet answers with the row that the
  -- table holds where there is one that the sender of the request may read, and else with 404.
  -- A comment may be read that is approved, and any by an administrator, by its author, both by
  -- a login, and by the browser that it came from. Beside the comment stands the row that it
  -- replies to, exactly where it replies to one that the sender may read.
  pub comment_get-MayRead :
      (id : ℕ)
      → IsCoherent d
      → ((response : ResponseCommentGet) × ((comment_get K id r d).0 ≡ success response)
          × Readable K r d id
          × (response.comment.comment ≡ row_of id (all_comments d))
          × Linked K r d (row_of id (all_comments d)).rid response.reply_comment)
        ⊎ (((comment_get K id r d).0 ≡ error 404) × ¬ Readable K r d id)
  comment_get-MayRead id h =
      let read = get_user_by_req-Reads K r d in
      let d₁ = (get_user_by_req K r d).1 in
      let (row₁, same₁, h₁) = find_comment-IsCoherent id d₁ (read.coherent h) in
      let (c, d₂) = find_comment id d₁ in
      let (row₂, _, _) = find_comment-IsCoherent c.rid d₂ h₁ in
      let (parent, d₃) = find_comment c.rid d₂ in
      let rows₁ : all_comments d₁ ≡ all_comments d = ap (λ (z : Dao B). all_comments z) read.same in
      let rows₂ : all_comments d₂ ≡ all_comments d =
        ap (λ (z : Dao B). all_comments z) same₁ ∙ rows₁ in
      let is_row : c ≡ row_of id (all_comments d) = row₁ ∙ ap (row_of id) rows₁ in
      let is_parent : parent ≡ row_of c.rid (all_comments d) = row₂ ∙ ap (row_of c.rid) rows₂ in
      elim (Bool-cases (sees c)) [
        | inr hidden ↦
            inr
              ((unfold comment_get in ground (arith, hidden)), not-sees-Readable id c is_row hidden)
        | inl seen ↦
            let readable = sees-Readable id c is_row seen in
            let above : c.rid ≡ (row_of id (all_comments d)).rid =
              ap (λ (x : Comment). x.rid) is_row in
            let beside : Option Cooked → ResponseCommentGet =
              λ reply. record { comment = cook c; reply_comment = reply } in
            inl (elim (Bool-cases (c.rid == 0)) [
              | inl top ↦ (
                beside none,
                (unfold comment_get in ground (arith, seen, top)),
                readable,
                is_row,
                Linked.root (sym above ∙ ground (arith, top)),
              )
              | inr below ↦
                  let some_ : c.rid ≢ 0 = ground (arith, below) in
                  elim (Bool-cases (sees parent)) [
                    | inr kept ↦ (
                      beside none,
                      (unfold comment_get in ground (arith, seen, below, kept)),
                      readable,
                      is_row,
                      subst (λ k. Linked K r d k none) above
                          (Linked.kept_back some_ (not-sees-Readable c.rid parent is_parent kept)),
                    )
                    | inl shown ↦
                        let x : Cooked = record { comment = parent; visible = false } in
                        (
                          beside (some x),
                          (unfold comment_get in ground (arith, seen, below, shown)),
                          readable,
                          is_row,
                          subst (λ k. Linked K r d k (some x)) above
                              (Linked.linked x some_ is_parent
                                (sees-Readable c.rid parent is_parent shown)),
                        )
                  ]
            ])
      ]
