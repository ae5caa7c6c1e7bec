-- ===== src/Artransfer.antt =====
-- internal/entity/artran.go and internal/artransfer: comments that are exchanged as rows of texts.
pub mod Ids
pub mod Prepare
pub mod Import
pub mod Rows
pub mod Numbers
pub mod Placed
pub mod Owners
pub mod Authors
pub mod Prepared
pub mod Owned
pub mod Stored
pub mod Copied
pub mod Shifted
pub mod Roots
use artalk.Prelude.{Bool, ◌||◌, String, Option, ℕ, str_eq}

-- One exchanged comment: all of its fields are texts.
pub record Artran : Type 0 where
  pub id : String
  pub rid : String
  pub content : String
  pub ua : String
  pub ip : String
  pub is_collapsed : String
  pub is_pending : String
  pub is_pinned : String
  pub vote_up : String
  pub vote_down : String
  pub created_at : String
  pub updated_at : String
  pub nick : String
  pub email : String
  pub link : String
  pub badge_name : String
  pub badge_color : String
  pub page_key : String
  pub page_title : String
  pub page_admin_only : String
  pub site_name : String
  pub site_urls : String

pub record ImportParams : Type 0 where
  pub target_site_name : String
  pub target_site_url : String
  pub url_resolver : Bool
  pub url_keep_domain : Bool

-- The package net/url, and the parser of dates.
pub record Formats : Type 1 where
  pub Url : Type 0
  pub parse_url : String → Option Url
  -- the address with an empty scheme and host
  pub without_host : Url → Url
  pub resolve_reference : Url → Url → Url
  pub url_string : Url → String
  pub parse_date : String → ℕ

abbrev pub is_true : String → Bool
is_true val = str_eq val "true" || str_eq val "1"
