-- ===== src/Entity.antt =====
-- internal/entity: the rows of the database tables. A time is the number of seconds of its Unix
-- time, and a counter is a number, since the code writes only counts and sums of counts to it.
use artalk.Prelude.{ℕ, ◌==◌, Bool, false, true, not, ◌&&◌, Option, none, String}

pub record User : Type 0 where
  pub id : ℕ
  pub created_at : ℕ
  pub name : String
  pub email : String
  pub link : String
  pub password : String
  pub badge_name : String
  pub badge_color : String
  pub last_ip : String
  pub last_ua : String
  pub is_admin : Bool
  pub receive_email : Bool
  pub token_valid_from : Option ℕ
  pub is_in_conf : Bool

pub record Comment : Type 0 where
  pub id : ℕ
  pub created_at : ℕ
  pub content : String
  pub page_key : String
  pub site_name : String
  pub guest_token_hash : String
  pub user_id : ℕ
  pub is_verified : Bool
  pub ua : String
  pub ip : String
  pub rid : ℕ
  pub is_collapsed : Bool
  pub is_pending : Bool
  pub is_pinned : Bool
  pub vote_up : ℕ
  pub vote_down : ℕ
  pub root_id : ℕ

pub record Page : Type 0 where
  pub id : ℕ
  pub created_at : ℕ
  pub key : String
  pub title : String
  pub admin_only : Bool
  pub site_name : String
  pub vote_up : ℕ
  pub vote_down : ℕ
  pub pv : ℕ

pub record Site : Type 0 where
  pub id : ℕ
  pub created_at : ℕ
  pub name : String
  pub urls : String

pub record Notify : Type 0 where
  pub id : ℕ
  pub created_at : ℕ
  pub user_id : ℕ
  pub comment_id : ℕ
  pub is_read : Bool
  pub read_at : Option ℕ
  pub is_emailed : Bool
  pub email_at : Option ℕ
  pub key : String

-- The four strings that the program stores in `Vote.Type`.
pub data VoteType : Type 0 where
  comment_up comment_down page_up page_down : VoteType

pub record Vote : Type 0 where
  pub id : ℕ
  pub created_at : ℕ
  pub target_id : ℕ
  pub type : VoteType
  pub user_id : ℕ
  pub ua : String
  pub ip : String

-- The zero values of the structs.
abbrev pub empty_user : User
empty_user = record {
  id = 0;
  created_at = 0;
  name = "";
  email = "";
  link = "";
  password = "";
  badge_name = "";
  badge_color = "";
  last_ip = "";
  last_ua = "";
  is_admin = false;
  receive_email = false;
  token_valid_from = none;
  is_in_conf = false;
}

abbrev pub empty_comment : Comment
empty_comment = record {
  id = 0;
  created_at = 0;
  content = "";
  page_key = "";
  site_name = "";
  guest_token_hash = "";
  user_id = 0;
  is_verified = false;
  ua = "";
  ip = "";
  rid = 0;
  is_collapsed = false;
  is_pending = false;
  is_pinned = false;
  vote_up = 0;
  vote_down = 0;
  root_id = 0;
}

abbrev pub empty_page : Page
empty_page = record {
  id = 0;
  created_at = 0;
  key = "";
  title = "";
  admin_only = false;
  site_name = "";
  vote_up = 0;
  vote_down = 0;
  pv = 0;
}

abbrev pub empty_site : Site
empty_site = record { id = 0; created_at = 0; name = ""; urls = "" }

abbrev pub empty_notify : Notify
empty_notify = record {
  id = 0;
  created_at = 0;
  user_id = 0;
  comment_id = 0;
  is_read = false;
  read_at = none;
  is_emailed = false;
  email_at = none;
  key = "";
}

-- The methods `IsEmpty`, one for each struct, and `Comment.IsAllowReply`.
abbrev pub user_is_empty : User → Bool
user_is_empty u = u.id == 0

abbrev pub comment_is_empty : Comment → Bool
comment_is_empty c = c.id == 0

abbrev pub page_is_empty : Page → Bool
page_is_empty p = p.id == 0

abbrev pub site_is_empty : Site → Bool
site_is_empty s = s.id == 0

abbrev pub notify_is_empty : Notify → Bool
notify_is_empty n = n.id == 0

abbrev pub is_allow_reply : Comment → Bool
is_allow_reply c = not c.is_collapsed && not c.is_pending

-- `Vote.IsUp`
unfoldable pub is_up : VoteType → Bool
is_up VoteType.comment_up = true
is_up VoteType.page_up = true
is_up _ = false
