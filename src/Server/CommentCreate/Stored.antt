-- ===== src/Server/CommentCreate/Stored.antt =====
-- The comment that a successful request stores.
use artalk.Prelude.{Bool, true, false, not, ◌&&◌, [], ◌∷◌, ◌++◌, if◌then◌else◌, ◌≡◌, arith, ◌⊎◌}
use artalk.Entity.{User, Comment}
use artalk.Backend.{Backend}
use artalk.Dao.{Dao, all_comments}
use artalk.Dao.Coherence.{SameTables, row_of}
use artalk.Dao.Create.{Texts}
use artalk.Dao.Find.{query_db_with_cache}
use artalk.Server.{Request}
use artalk.Server.Auth.{Crypto, guest_token_hash}
use artalk.Server.Auth.Access.{IsLogin}
use artalk.Server.CommentCreate.{ParamsCommentCreate, Conf}
use artalk.Server.CommentCreate.Checked.{TakesReply}

module _ (T : Texts) {B : Backend} where
  -- None of these writes a comment.
  query-comments :
      {A : Type 0} (k : _) (decode : _) (encode : A → _) (query : Dao B → A) (d : Dao B)
      → (query_db_with_cache k decode encode query d).1.comments ≡ d.comments
  unfolding query_db_with_cache
  query-comments k decode encode query d = ground arith

module _ (T : Texts) (K : Crypto) (conf : Conf) {B : Backend} where
  -- The row of a comment that was stored: what the request said, after the rows that were there.
  pub record Stored (p : ParamsCommentCreate) (r : Request) (is_admin is_verified : Bool)
      (d : Dao B) (c : Comment) (d' : Dao B) : Type 0 where
    pub rows : all_comments d' ≡ all_comments d ++ c ∷ []
    pub replies_to : c.rid ≡ p.rid
    pub says : c.content ≡ p.content
    pub on_site : c.site_name ≡ p.site_name
    pub is_held : c.is_pending ≡ (not is_admin && conf.pending_default)
    pub verified : c.is_verified ≡ is_verified
    pub guest : c.guest_token_hash ≡ (if is_verified then "" else guest_token_hash K r)

-- What a request that was answered with the comment `c` did to the table of comments, and why.
pub record Created (K : Crypto) (conf : Conf) {B : Backend} (p : ParamsCommentCreate) (r : Request)
    (d : Dao B) (c : Comment) (d' : Dao B) : Type 0 where
  pub rows : all_comments d' ≡ all_comments d ++ c ∷ []
  pub replies_to : c.rid ≡ p.rid
  pub says : c.content ≡ p.content
  pub on_site : c.site_name ≡ p.site_name
  -- it replies to nothing, or to a comment that takes replies
  pub parent : (c.rid ≡ 0) ⊎ TakesReply p.page_key (row_of c.rid (all_comments d))
  -- comments are not held by default, or this one is, or an administrator sent it
  pub approved :
      (conf.pending_default ≡ false)
      ⊎ ((c.is_pending ≡ true)
          ⊎ ((user : User) × (d₀ : Dao B) × SameTables d d₀
              × IsLogin K r d₀ user
              × (user.is_admin ≡ true)))
  pub no_guest : (c.is_verified ≡ false) ⊎ (c.guest_token_hash ≡ "")
