-- ===== src/Tests/Authors.antt =====
-- A comment and a reply by another user, with an administrator.
use artalk.Prelude.{Bool, true, none, [], ◌∷◌, any, refl}
use artalk.Entity.{empty_page, User, Comment, empty_user}
use artalk.Backend.{stamp_comment}
use artalk.Backend.Memory.{memory, table, mem_save-some}
use artalk.Dao.{Dao}
use artalk.Dao.Coherence.{IsCoherent}
use artalk.Dao.Editing.{Accepts}
use artalk.Tests.Fixtures.{first, second, admin}

abbrev pub author : User
author = record empty_user { id = 1; name = "bob"; email = "b@x.org"; receive_email = true }

abbrev pub writer : User
writer = record empty_user { id = 2; name = "eve"; email = "e@x.org" }

abbrev pub answer : Bool → Comment
answer held = record second { user_id = 2; content = "buy"; is_pending = held }

-- A site with a comment and a reply to it, without a cache.
unfoldable pub two_authors : Bool → Dao memory
unfolding memory table any
two_authors held = record {
  users = (
    author ∷ writer ∷ admin ∷ [],
    record { distinct = (refl, (refl, (refl, tt))); nonzero = refl },
  );
  comments = (first ∷ answer held ∷ [], record { distinct = (refl, (refl, tt)); nonzero = refl });
  pages = (
    record empty_page { id = 1; key = "/a"; site_name = "S" } ∷ [],
    record { distinct = (refl, tt); nonzero = refl },
  );
  sites = (
    record { id = 1; created_at = 0; name = "S"; urls = "" } ∷ [],
    record { distinct = (refl, tt); nonzero = refl },
  );
  notifies = ([], record { distinct = tt; nonzero = refl });
  votes = ([], record { distinct = tt; nonzero = refl });
  cache = none;
}

pub two_authors-IsCoherent : (held : Bool) → IsCoherent (two_authors held)
unfolding two_authors memory
two_authors-IsCoherent held = record {
  comment_at = λ i c e. absurd (cc e);
  ids_at = λ p l z e. absurd (cc e);
}

pub memory-Accepts : Accepts memory
unfolding memory table
memory-Accepts c r = mem_save-some (λ (x : Comment). x.id) stamp_comment (λ k t e. refl) c r
