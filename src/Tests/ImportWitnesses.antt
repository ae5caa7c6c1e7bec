-- ===== src/Tests/ImportWitnesses.antt =====
-- An import of a comment and a reply, and one whose first comment is skipped.
use artalk.Prelude.{true, false, some, List, [], ◌∷◌, ◌++◌, refl, String, ◌≡◌}
use artalk.Entity.{Comment}
use artalk.Backend.Memory.{memory, table, next_key}
use artalk.Dao.{all_comments}
use artalk.Artransfer.{Artran, ImportParams, Formats}
use artalk.Artransfer.Import.{import_artrans}
use artalk.Artransfer.Rows.{Beside}
use artalk.Artransfer.Numbers.{id_beside}
use artalk.Artransfer.Copied.{IsCopy, import_artrans-Copied}
use artalk.Artransfer.Shifted.{import_artrans-shifts}
use artalk.Tests.Fixtures.{blog, texts}

-- Addresses are texts without a scheme, and every date is the start of time.
abbrev formats : Formats
formats = record {
  Url = String;
  parse_url = λ s. some s;
  without_host = λ u. u;
  resolve_reference = λ base u. u;
  url_string = λ u. u;
  parse_date = λ _. 0;
}

abbrev import_params : ImportParams
import_params = record {
  target_site_name = "";
  target_site_url = "";
  url_resolver = false;
  url_keep_domain = true;
}

abbrev root : Artran
root = record {
  id = "a";
  rid = "";
  content = "hi";
  ua = "";
  ip = "";
  is_collapsed = "";
  is_pending = "";
  is_pinned = "true";
  vote_up = "1";
  vote_down = "0";
  created_at = "";
  updated_at = "";
  nick = "eve";
  email = "e@x.org";
  link = "";
  badge_name = "";
  badge_color = "";
  page_key = "/b";
  page_title = "B";
  page_admin_only = "";
  site_name = "Q";
  site_urls = "";
}

abbrev answer : Artran
answer = record root { id = "b"; rid = "a"; content = "yes" }

abbrev stray : Artran
stray = record root { id = "c"; page_key = "" }

import_artrans-Copied_example :
    (rows : List Comment) × (all_comments
        (import_artrans formats texts import_params (root ∷ answer ∷ []) blog).1
      ≡ all_comments blog ++ rows)
    × Beside
        (IsCopy formats texts import_params
          (import_artrans formats texts import_params (root ∷ answer ∷ []) blog).1
          (root ∷ answer ∷ [])
          rows)
        (root ∷ answer ∷ [])
        rows
unfolding import_artrans blog memory table next_key
import_artrans-Copied_example =
    import_artrans-Copied formats texts import_params (root ∷ answer ∷ []) blog (refl, (refl, tt))
      (refl, (refl, tt)) refl

import_artrans-shifts_example :
    (rows : List Comment) × (all_comments
        (import_artrans formats texts import_params (stray ∷ root ∷ answer ∷ []) blog).1
      ≡ all_comments blog ++ rows)
    × Beside
        (λ c r. r.rid ≡ id_beside (stray ∷ root ∷ answer ∷ []) rows c.rid)
        (root ∷ answer ∷ [])
        rows
unfolding import_artrans blog memory table next_key
import_artrans-shifts_example =
    import_artrans-shifts formats texts import_params stray (root ∷ answer ∷ []) blog
      (refl, (refl, (refl, tt))) refl (refl, (refl, tt)) refl
