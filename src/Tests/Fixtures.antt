-- ===== src/Tests/Fixtures.antt =====
-- A site with five comments: a thread of three, a second reply to its root, and a pending comment.
use artalk.Prelude.{
  ℕ, true, false, Option, none, some, List, [], ◌∷◌, refl, any, String, str_eq, if◌then◌else◌,
}
use artalk.Entity.{
  User, Comment, Vote, VoteType, Notify, empty_user, empty_comment, empty_page, empty_notify,
}
use artalk.Backend.{Backend, Key, Value}
use artalk.Backend.Memory.{memory, table, cache_store}
use artalk.Dao.{Dao}
use artalk.Dao.Coherence.{IsCoherent, row_of, set_ids-Agrees, set_comment-Agrees}
use artalk.Dao.Find.{child_ids_of}
use artalk.Dao.Create.{Texts}
use artalk.Server.{Request, Response, success, error}
use artalk.Server.CommentCreate.{ParamsCommentCreate, Conf}
use artalk.Server.Auth.{Crypto}
use artalk.Server.CommentsGet.{QueryOptions, Sql, page_scope}
use artalk.Server.Vote.{VoteParams, Target, up_vote}

abbrev pub reply : ℕ → ℕ → ℕ → Comment
reply id rid root = record empty_comment {
  id = id;
  rid = rid;
  root_id = root;
  user_id = 1;
  page_key = "/a";
  site_name = "S";
}

abbrev pub first : Comment
first = reply 1 0 1

abbrev pub second : Comment
second = reply 2 1 1

abbrev pub third : Comment
third = reply 3 2 1

abbrev pub fourth : Comment
fourth = reply 4 1 1

abbrev pub hidden : Comment
hidden = record empty_comment {
  id = 5;
  root_id = 5;
  user_id = 2;
  page_key = "/a";
  site_name = "S";
  is_pending = true;
}

abbrev pub thread : List Comment
thread = first ∷ second ∷ third ∷ fourth ∷ hidden ∷ []

abbrev pub admin : User
admin = record empty_user { id = 7; name = "ann"; email = "ann@x.org"; is_admin = true }

abbrev pub up_vote_of : ℕ → ℕ → String → Vote
up_vote_of id target ip = record {
  id = id;
  created_at = 0;
  target_id = target;
  type = VoteType.comment_up;
  user_id = 0;
  ua = "";
  ip = ip;
}

abbrev pub votes : List Vote
votes = up_vote_of 1 1 "10.0.0.1" ∷ up_vote_of 2 5 "10.0.0.1" ∷ []

abbrev pub notify : Notify
notify = record empty_notify { id = 1; user_id = 1; comment_id = 2 }

-- A cache that has the first comment and the replies to it.
unfoldable pub seeded : memory.store.Store
unfolding memory cache_store
seeded =
    memory.store.set (Key.comment_child_ids_by_id 1) (Value.ids (child_ids_of 1 thread))
      (memory.store.set (Key.comment_by_id 1) (Value.comment (row_of 1 thread)) (λ _. none))

unfoldable pub site : Dao memory
unfolding seeded memory table any
site = record {
  users = (admin ∷ [], record { distinct = (refl, tt); nonzero = refl });
  comments =
      (thread, record { distinct = (refl, (refl, (refl, (refl, (refl, tt))))); nonzero = refl });
  pages = ([], record { distinct = tt; nonzero = refl });
  sites = ([], record { distinct = tt; nonzero = refl });
  notifies = (notify ∷ [], record { distinct = (refl, tt); nonzero = refl });
  votes = (votes, record { distinct = (refl, (refl, tt)); nonzero = refl });
  cache = some seeded;
}

pub site-IsCoherent : IsCoherent site
unfolding site seeded memory cache_store
site-IsCoherent = set_ids-Agrees memory.store 1 _ thread (
    set_comment-Agrees memory.store 1 (λ _. none) thread
      (record { comment_at = λ i c e. absurd (cc e); ids_at = λ p l z e. absurd (cc e) }))

-- The first two comments alone, without a cache.
unfoldable pub small_site : Dao memory
unfolding memory table any
small_site = record {
  users = ([], record { distinct = tt; nonzero = refl });
  comments = (first ∷ second ∷ [], record { distinct = (refl, (refl, tt)); nonzero = refl });
  pages = ([], record { distinct = tt; nonzero = refl });
  sites = ([], record { distinct = tt; nonzero = refl });
  notifies = (notify ∷ [], record { distinct = (refl, tt); nonzero = refl });
  votes = ([], record { distinct = tt; nonzero = refl });
  cache = none;
}

pub small_site-IsCoherent : IsCoherent small_site
unfolding small_site memory
small_site-IsCoherent = record {
  comment_at = λ i c e. absurd (cc e);
  ids_at = λ p l z e. absurd (cc e);
}

-- The state that a run leaves.
abbrev pub left_by : {A : Type 0} → Option (A × Dao memory) → Dao memory
left_by none = site
left_by (some (_, d)) = d

-- A comment that replies to itself.
abbrev pub circle : Comment
circle = reply 9 9 9

unfoldable pub circle_site : Dao memory
unfolding memory table any
circle_site = record {
  users = ([], record { distinct = tt; nonzero = refl });
  comments = (circle ∷ [], record { distinct = (refl, tt); nonzero = refl });
  pages = ([], record { distinct = tt; nonzero = refl });
  sites = ([], record { distinct = tt; nonzero = refl });
  notifies = ([], record { distinct = tt; nonzero = refl });
  votes = ([], record { distinct = tt; nonzero = refl });
  cache = none;
}

pub circle_site-IsCoherent : IsCoherent circle_site
unfolding circle_site memory
circle_site-IsCoherent = record {
  comment_at = λ i c e. absurd (cc e);
  ids_at = λ p l z e. absurd (cc e);
}

-- A database that refuses to save comments.
unfoldable pub refusing : Backend
unfolding memory
refusing = record memory {
  comments = record memory.comments {
    save = λ _ _. none;
    save_select = λ _ _ _ _ e. absurd (cc e);
  };
}

unfoldable pub refused_site : Dao refusing
unfolding refusing memory table site cache_store
refused_site = record {
  users = site.users;
  comments = site.comments;
  pages = site.pages;
  sites = site.sites;
  notifies = site.notifies;
  votes = site.votes;
  cache = some (λ _. none);
}

-- A parser of tokens that knows one, of the administrator, and a hash that forgets everything.
abbrev pub crypto : Crypto
crypto = record {
  parse_jwt = λ token.
      if str_eq token "tok" then some (record { user_id = 7; issued_at = some 5 }) else none;
  sha256_hex = λ _. "h";
}

abbrev pub request : Request
request = record {
  query_token = "";
  form_token = "";
  authorization = "Bearer tok";
  guest_header = "";
  ip = "10.0.0.1";
  user_agent = "ua";
  referer = "";
  origin = "";
  is_options = false;
}

-- LIKE by equality, and a lower case that leaves texts as they are.
abbrev pub sql : Sql
sql = record { lower = λ s. s; contains_like = λ a b. str_eq a b }

-- The comments of the page, for a reader who is not logged in.
abbrev pub page_options : QueryOptions
page_options = record {
  user = empty_user;
  guest_token_hash = "";
  scope = page_scope;
  page_payload = record { admin_only = false; site_name = "S"; page_key = "/a" };
  type = "";
  site_name = "S";
  sort_by = "";
  search = "";
}

abbrev pub thumbs_up : VoteParams
thumbs_up = record {
  ip = "10.0.0.1";
  ua = "ua";
  user_id = 0;
  target = Target.comment;
  target_id = 5;
  choice = up_vote;
}

-- A site with one page and one comment, for a reply.
unfoldable pub blog : Dao memory
unfolding memory table any
blog = record {
  users = (
    record empty_user { id = 1; name = "bob"; email = "b@x.org" } ∷ [],
    record { distinct = (refl, tt); nonzero = refl },
  );
  comments = (first ∷ [], record { distinct = (refl, tt); nonzero = refl });
  pages = (
    record empty_page { id = 1; key = "/a"; site_name = "S" } ∷ [],
    record { distinct = (refl, tt); nonzero = refl },
  );
  sites = (
    record { id = 1; created_at = 0; name = "S"; urls = "" } ∷ [],
    record { distinct = (refl, tt); nonzero = refl },
  );
  notifies = ([], record { distinct = tt; nonzero = refl });
  votes = ([], record { distinct = tt; nonzero = refl });
  cache = none;
}

pub blog-IsCoherent : IsCoherent blog
unfolding blog memory
blog-IsCoherent = record { comment_at = λ i c e. absurd (cc e); ids_at = λ p l z e. absurd (cc e) }

abbrev pub texts : Texts
texts = record {
  lower = λ s. s;
  equal_fold = str_eq;
  sql_lower = λ s. s;
  is_email = λ _. true;
  request_uri_scheme = λ _. none;
}

abbrev pub params : ParamsCommentCreate
params = record {
  name = "bob";
  email = "b@x.org";
  link = "";
  content = "hi";
  rid = 1;
  ua = "";
  page_key = "/a";
  page_title = "";
  site_name = "S";
}

abbrev pub moderated : Conf
moderated = record {
  auth_enabled = true;
  auth_anonymous = true;
  pending_default = true;
  banned = [];
}

abbrev pub anonymous : Request
anonymous = record request { authorization = "" }

-- The comment of an answer.
abbrev pub answered : Response Comment → Comment
answered (success c) = c
answered (error status) = empty_comment
