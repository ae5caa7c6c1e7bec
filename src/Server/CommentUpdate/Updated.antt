-- ===== src/Server/CommentUpdate/Updated.antt =====
-- What CommentUpdate leaves behind.
use artalk.Prelude.{true, false, List, [], str_eq, if◌then◌else◌, ◌≡◌, ◌≢◌}
use artalk.Entity.{Comment}
use artalk.Backend.{Backend}
use artalk.Dao.{Dao}
use artalk.Dao.Calm.{Calm}
use artalk.Dao.Coherence.{SameTables}
use artalk.Dao.Create.{Texts}
use artalk.Dao.Editing.{Holds, OthersSame}
use artalk.NotifyPusher.{Outgoing}
use artalk.Server.CommentUpdate.{ParamsCommentUpdate}
use artalk.Server.CommentUpdate.Author.{IsAuthor}

-- The comment `x` was saved as `c`, whose texts are those of the request that are not empty, whose
-- marks are those of the request, and whose author was looked up when nothing but the cache had
-- changed.
pub record Updated {B : Backend} (T : Texts) (p : ParamsCommentUpdate) (x c : Comment)
    (sent : List Outgoing) (d d' : Dao B) : Type 0 where
  pub saved_as : c ≡ record x {
    content = if str_eq p.content "" then x.content else p.content;
    page_key = if str_eq p.page_key "" then x.page_key else p.page_key;
    ua = if str_eq p.ua "" then x.ua else p.ua;
    ip = if str_eq p.ip "" then x.ip else p.ip;
    is_collapsed = p.is_collapsed;
    is_pinned = p.is_pinned;
    is_pending = p.is_pending;
    user_id = c.user_id;
  }
  pub author : (d₀ : Dao B) × SameTables d d₀ × IsAuthor T p x d₀ c.user_id
  pub holds : Holds x.id c d'
  pub others : OthersSame x.id d d'
  pub told : sent ≢ [] → (x.is_pending ≡ true) × (p.is_pending ≡ false)
