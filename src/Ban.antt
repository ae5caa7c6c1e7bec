-- ===== src/Ban.antt =====
-- internal/ban/email.go: the list of banned addresses, given by the lines of its file.
use artalk.Prelude.{
  Bool, true, false, not, ◌≡◌, refl, ◌&&◌, ◌||◌, List, String, str_eq, if◌then◌else◌, trim_space,
  any, starts_with,
}

module _ (lower : String → String) where
  unfoldable pub normalize_email : String → String
  unfolding trim_space
  normalize_email email = lower (trim_space email)

  -- A line that is neither empty nor a comment, and names the address.
  unfoldable pub bans : String → String → Bool
  unfolding normalize_email trim_space
  bans norm raw =
      let line = trim_space raw in
      not (str_eq line "" || starts_with line "#") && str_eq (normalize_email line) norm

  -- A missing file has no lines.
  unfoldable pub is_email_banned : List String → String → Bool
  unfolding normalize_email bans any
  is_email_banned lines email =
      if str_eq (normalize_email email) "" then false else any (bans (normalize_email email)) lines

comment_line : bans (λ s. s) "a@x.org" "# a@x.org" ≡ false
unfolding bans
comment_line = refl

banned_line : bans (λ s. s) "a@x.org" " a@x.org" ≡ true
unfolding bans
banned_line = refl
