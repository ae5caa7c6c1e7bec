-- ===== src/Server/CommentList/Readable.antt =====
-- What CommentList (server/handler/comment_list.go) shows to whom.
use artalk.Prelude.{
  Bool, true, not, str_eq, ◌≡◌, ◌≢◌, ap, arith, Option-cases, inl, inr, All, subst,
}
use artalk.Prelude.Result.{Result-cases}
use artalk.Entity.{Comment}
use artalk.Backend.{Backend}
use artalk.Dao.{Dao}
use artalk.Server.{Request, success}
use artalk.Server.Auth.{Crypto, get_user_by_req, guest_token_hash}
use artalk.Server.Auth.Access.{guest_token_hash-login}
use artalk.Server.CommentGet.{can_read, user_or_empty}
use artalk.Server.CommentList.{
  ParamsCommentList, ResponseCommentList, query_options, list_response, check_page_site, read_scope,
  comment_list,
}
use artalk.Server.CommentsGet.{Sql}
use artalk.Server.CommentsGet.Find.{Cooked, FindOptions, find_comments}
use artalk.Server.CommentsGet.Shown.{find_comments-can_read}

module _ (K : Crypto) {B : Backend} (r : Request) (d : Dao B) where
  -- Who reads, as both handlers find out.
  abbrev pub reads_as : Comment → Bool
  reads_as c = can_read (user_or_empty (get_user_by_req K r d).0) (guest_token_hash K r) c

  reader :
      (user_or_empty (get_user_by_req K r d).0).id ≢ 0 → str_eq (guest_token_hash K r) "" ≡ true
  reader z = elim (Result-cases (get_user_by_req K r d).0) [
    | inl (user, e) ↦ ap (λ s. str_eq s "") (guest_token_hash-login K r d user e)
    | inr (x, e) ↦ absurd (z (ap (λ q. (user_or_empty q).id) e))
  ]

  -- If CommentList answers a request with comments, then whatever its parameters are, each of
  -- them, members of the list, children and targets of replies alike, is one that CommentGet
  -- lets the sender of the same request read.
  pub comment_list-can_read :
      (L : Sql) (p : ParamsCommentList) (d' : Dao B) (response : ResponseCommentList)
      → comment_list L K p r d ≡ (success response, d')
      → All (λ (x : Cooked). reads_as x.comment ≡ true) response.comments
  unfolding comment_list list_response query_options
  comment_list-can_read L p d' response e =
      let d₁ = (get_user_by_req K r d).1 in
      elim (Option-cases (read_scope p.scope)) [
        | inl unknown_scope ↦ absurd (ground (arith, e, unknown_scope))
        | inr (scope, known) ↦
            let site = check_page_site L K scope p.site_name d₁ in
            elim (Option-cases site.0) [
              | inr (status, missing) ↦ absurd (ground (arith, e, known, missing))
              | inl there ↦
                  let opts = query_options L K p r scope d in
                  let pg : FindOptions = record {
                    offset = p.offset;
                    limit = p.limit;
                    nested = not p.flat_mode;
                  } in
                  let listed : (find_comments L opts pg site.1).0 ≡ response.comments =
                    ground (arith, e, known, there) in
                  subst (λ l. All (λ (x : Cooked). reads_as x.comment ≡ true) l) listed
                    (find_comments-can_read L opts pg site.1 reader)
            ]
      ]
