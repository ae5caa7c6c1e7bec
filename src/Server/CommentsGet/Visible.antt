-- ===== src/Server/CommentsGet/Visible.antt =====
-- Who sees which comments.
use artalk.Prelude.{
  ℕ, Bool, true, false, not, ◌&&◌, ◌||◌, List, [], ◌∷◌, String, str_eq, if◌then◌else◌, ◌≡◌, ◌≢◌,
  arith, eq_iff,
}
use artalk.Entity.{User, Comment, user_is_empty}
use artalk.Backend.{Backend}
use artalk.Dao.{Dao}
use artalk.Server.CommentGet.{can_read}
use artalk.Server.CommentsGet.{
  Condition, Query, meets, where_, common_scope, no_pending, search_scope, page_scope_query,
  site_scope_query, user_scope_query, guest_scope_query, scope_of, Scope, page_scope, user_scope,
  site_scope, QueryOptions, Sql, get_query_scopes, PageScopePayload,
}

pub meets-where :
    (p : Condition) (q : Query) (c : Comment) → meets (where_ p q) c ≡ (meets q c && p c)
unfolding meets
meets-where p [] c = ground arith
meets-where p (r ∷ q) c = ground (arith, meets-where p q c)

-- The rows of the second query are among those of the first.
abbrev pub Narrows : Query → Query → Type 0
Narrows q q' = (c : Comment) → meets q' c ≡ true → meets q c ≡ true

pub narrows : (p : Condition) (q : Query) → Narrows q (where_ p q)
narrows p q c h = ground (arith, h, meets-where p q c)

either : (b : Bool) (q x y : Query) → Narrows q x → Narrows q y → Narrows q (if b then x else y)
either true q x y f g = f
either false q x y f g = g

page-Narrows :
    (x : PageScopePayload) (ids : List ℕ) (q : Query) → Narrows q (page_scope_query x ids q)
unfolding page_scope_query
page-Narrows x ids q = either (str_eq x.site_name "" || str_eq x.page_key "") q _ _ (narrows _ q) (
    either x.admin_only q _ _ (λ c h. narrows _ q c (narrows _ _ c (narrows _ _ c h)))
      (λ c h. narrows _ q c (narrows _ _ c h)))

site-Narrows :
    (type name : String) (u : User) (q : Query) → Narrows q (site_scope_query type name u q)
unfolding site_scope_query
site-Narrows type name u q =
    let inner =
      either (not (str_eq name "")) q _ _ (narrows (λ c. str_eq c.site_name name) q) (λ c h. h) in
    either (not u.is_admin) q _ _ (narrows _ q)
      (either (str_eq type "pending") q _ _ (λ c h. inner c (narrows _ _ c h)) inner)

guest-Narrows :
    (type hash : String) (ids : List ℕ) (q : Query) → Narrows q (guest_scope_query type hash ids q)
unfolding guest_scope_query
guest-Narrows type hash ids q = either (str_eq type "mine") q _ _ (narrows _ q) (
    either (str_eq type "pending") q _ _ (narrows _ q)
      (either (str_eq type "mentions") q _ _ (narrows _ q) (narrows _ q)))

user-Narrows :
    (type : String) (u : User) (hash : String) (guests ids : List ℕ) (q : Query)
    → Narrows q (user_scope_query type u hash guests ids q)
unfolding user_scope_query
user-Narrows type u hash guests ids q =
    either (user_is_empty u && not (str_eq hash "")) q _ _ (guest-Narrows type hash guests q) (
      either (user_is_empty u) q _ _ (narrows _ q) (
        either (str_eq type "all") q _ _ (narrows _ q) (
          either (str_eq type "mentions") q _ _ (narrows _ q) (
            either (str_eq type "mine") q _ _ (narrows _ q)
              (either (str_eq type "pending") q _ _ (narrows _ q) (λ c h. h))))))

-- For a stored comment and a reader who has no guest credential if logged in, the condition
-- that all lists share selects the comment exactly if CommentGet lets the reader read it.
pub common_scope-can_read :
    (u : User) (hash : String) (c : Comment)
    → c.id ≢ 0
    → (u.id ≢ 0 → str_eq hash "" ≡ true)
    → meets (common_scope u hash []) c ≡ can_read u hash c
unfolding common_scope no_pending can_read meets
common_scope-can_read u hash c z login =
    ground (arith, z, login, eq_iff hash c.guest_token_hash, eq_iff c.guest_token_hash hash)

module _ {B : Backend} (L : Sql) where
  scope-Narrows :
      (s : Scope) (opts : QueryOptions) (d : Dao B) (q : Query) → Narrows q (scope_of L s opts d q)
  unfolding scope_of
  scope-Narrows page_scope opts d q = page-Narrows opts.page_payload _ q
  scope-Narrows user_scope opts d q = user-Narrows opts.type opts.user opts.guest_token_hash _ _ q
  scope-Narrows site_scope opts d q = site-Narrows opts.type opts.site_name opts.user q

  pub get_query_scopes-Narrows :
      (opts : QueryOptions) (d : Dao B)
      → Narrows (common_scope opts.user opts.guest_token_hash []) (get_query_scopes L opts d)
  unfolding get_query_scopes search_scope
  get_query_scopes-Narrows opts d c h =
      let q = common_scope opts.user opts.guest_token_hash [] in
      either (not (str_eq opts.search "")) q _ _ (narrows _ q) (λ x k. k) c
        (scope-Narrows opts.scope opts d _ c h)
