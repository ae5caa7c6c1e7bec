-- ===== src/AntiSpam.antt =====
-- internal/anti_spam and internal/core/service_anti_spam.go: the checks of a new comment. The remote
-- services and the files of keywords are parameters.
pub mod Blocked
use artalk.Prelude.{
  ℕ, Bool, true, false, not, ◌&&◌, ◌||◌, Option, none, some, List, [], ◌∷◌, ◌++◌, any,
  if◌then◌else◌, String, str_eq, trim_space, split_and_trim_space, contains_text, replace_all,
  repeat, str_length,
}
use artalk.Entity.{Comment}
use artalk.Backend.{Backend}
use artalk.Dao.{Dao}
use artalk.Dao.Find.{find_comment}
use artalk.Dao.Write.{update_comment}

-- The checkers.
pub data Checker : Type 0 where
  akismet tencent aliyun keywords : Checker

pub data KwCheckerMode : Type 0 where
  block replace : KwCheckerMode

-- The parts of `ModeratorConf` that are read.
pub record ModeratorConf : Type 0 where
  pub akismet_key : String
  pub tencent_enabled : Bool
  pub aliyun_enabled : Bool
  pub keywords_enabled : Bool
  pub keywords_pending : Bool
  pub keywords_files : List String
  pub keywords_file_sep : String
  pub keywords_replace_to : String
  pub api_fail_block : Bool

pub record CheckerParams : Type 0 where
  pub blog_url : String
  pub content : String
  pub comment_id : ℕ
  pub user_name : String
  pub user_email : String
  pub user_id : ℕ
  pub user_ip : String
  pub user_agent : String

-- What is outside: the answer of a remote checker, `none` where the call fails, and the content of
-- a file, `none` where it cannot be read.
pub record Outside : Type 0 where
  pub remote : Checker → CheckerParams → Option Bool
  pub read_file : String → Option String

-- What a checker says: whether the comment passes, `none` where it fails, and the content that
-- replaces the comment's, if any.
pub record Verdict : Type 0 where
  pub pass : Option Bool
  pub replaced : Option String

abbrev pub when : Bool → Checker → List Checker
when on c = if on then c ∷ [] else []

unfoldable pub get_enabled_checkers : ModeratorConf → List Checker
unfolding trim_space
get_enabled_checkers conf =
    when (not (str_eq (trim_space conf.akismet_key) "")) akismet
    ++ (when conf.tencent_enabled tencent
        ++ (when conf.aliyun_enabled aliyun ++ when conf.keywords_enabled keywords))

module _ {B : Backend} where
  -- `OnBlockComment` of the service; the error of the update is dropped.
  unfoldable pub on_block_comment : ℕ → Dao B → Dao B
  unfolding find_comment update_comment
  on_block_comment id d =
      let (comment, d₁) = find_comment id d in
      if comment.is_pending
      then d₁
      else (update_comment (record comment { is_pending = true }) d₁).1

  -- `OnUpdateComment`
  unfoldable pub on_update_comment : Option String → ℕ → Dao B → Dao B
  unfolding find_comment update_comment
  on_update_comment none id d = d
  on_update_comment (some content) id d =
      let (comment, d₁) = find_comment id d in
      (update_comment (record comment { content = content }) d₁).1

module _ (O : Outside) (conf : ModeratorConf) where
  abbrev pub mode : KwCheckerMode
  mode = if conf.keywords_pending then block else replace

  -- The loop over the files, which stops at one that cannot be read.
  unfoldable pub load_files : List String → Option (List String)
  unfolding split_and_trim_space
  load_files [] = some []
  load_files (f ∷ rest) = elim (O.read_file f) [
    | none ↦ none
    | some content ↦ elim (load_files rest) [
      | none ↦ none
      | some others ↦ some (split_and_trim_space content conf.keywords_file_sep ++ others)
    ]
  ]

  unfoldable pub load_keywords : Option (List String)
  unfolding load_files
  load_keywords = if str_eq conf.keywords_file_sep "" then none else load_files conf.keywords_files

  -- The loop over the keywords, which looks for them in the original content.
  unfoldable pub replace_keywords : String → List String → String → String
  unfolding contains_text replace_all repeat str_length
  replace_keywords original [] content = content
  replace_keywords original (k ∷ rest) content = replace_keywords original rest (
      if contains_text original k
      then replace_all content k (repeat conf.keywords_replace_to (str_length k))
      else content)

  -- `KeywordsChecker.Check`
  unfoldable pub check_keywords : CheckerParams → Verdict
  unfolding load_keywords replace_keywords any contains_text
  check_keywords p = elim load_keywords [
    | none ↦ record { pass = none; replaced = none }
    | some words ↦
        let is_contains = any (contains_text p.content) words in
        elim mode [
          | block ↦ record { pass = some (not is_contains); replaced = none }
          | replace ↦ record {
            pass = some true;
            replaced =
                if is_contains then some (replace_keywords p.content words p.content) else none;
          }
        ]
  ]

  unfoldable pub check : Checker → CheckerParams → Verdict
  unfolding check_keywords
  check keywords p = check_keywords p
  check akismet p = record { pass = O.remote akismet p; replaced = none }
  check tencent p = record { pass = O.remote tencent p; replaced = none }
  check aliyun p = record { pass = O.remote aliyun p; replaced = none }

  -- A checker that fails blocks if the configuration says so.
  abbrev pub passes : Option Bool → Bool
  passes (some pass) = pass
  passes none = not conf.api_fail_block

  module _ {B : Backend} where
    unfoldable pub checker_trigger : Checker → CheckerParams → Dao B → Bool × Dao B
    unfolding check on_block_comment on_update_comment
    checker_trigger c p d =
        let verdict = check c p in
        let d₁ = on_update_comment verdict.replaced p.comment_id d in
        if passes verdict.pass then (true, d₁) else (false, on_block_comment p.comment_id d₁)

    -- The checkers run until one refuses.
    unfoldable pub run_checkers : List Checker → CheckerParams → Dao B → Bool × Dao B
    unfolding checker_trigger
    run_checkers [] p d = (true, d)
    run_checkers (c ∷ rest) p d =
        let (pass, d₁) = checker_trigger c p d in
        let later = run_checkers rest p d₁ in if pass then later else (false, d₁)

    unfoldable pub check_and_block : CheckerParams → Dao B → Bool × Dao B
    unfolding run_checkers get_enabled_checkers
    check_and_block p d = run_checkers (get_enabled_checkers conf) p d
