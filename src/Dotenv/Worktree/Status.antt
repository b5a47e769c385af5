-- ===== src/Dotenv/Worktree/Status.antt =====
-- `status_for_worktree` of apps/desktop/src/infra/dotenv_render.rs.
use oxyris.Prelude.{
  ℕ, ltb, Text, Bool, true, false, not, ◌&&◌, Option, none, some, [], starts_with, Result, ok,
  ◌>>=◌, if◌then◌else◌,
}
use oxyris.Core.{Environment}
use oxyris.Dotenv.Worktree.{Files, header_marker, template_relative, path_join, output_path}

pub record DotenvStatus : Type 0 where
  pub has_template : Bool
  pub has_local : Bool
  pub stale : Bool
  pub manual_override : Bool
  pub template_path : Option Text
  pub local_path : Option Text
  pub template_modified_secs : Option ℕ
  pub local_modified_secs : Option ℕ

-- What is read of a `FsStatResult`.
pub record Stat : Type 0 where
  pub exists : Bool
  pub modified_secs : Option ℕ

-- Whether the first time is known and later than the second.
abbrev later : Option ℕ → Option ℕ → Bool
later none l = false
later (some t) none = false
later (some t) (some l) = ltb l t

abbrev unwrap_or_default : Option Text → Text
unwrap_or_default none = []
unwrap_or_default (some s) = s

-- `stat` is the operation of that name: the local file system, or the agent of the distribution.
module _ {F E : Type 0} (files : Files F E) (stat : F → Text → Result E Stat)
    (main_separator : ℕ) where
  abbrev read_override : F → Text → Bool → Result E Bool
  read_override fs path false = ok false
  read_override fs path true = files.read_text fs path >>= λ body.
      ok (not (starts_with (unwrap_or_default body) header_marker))

  unfoldable pub status_for_worktree : F → Environment → Text → Result E DotenvStatus
  unfolding output_path path_join
  status_for_worktree fs env worktree_path =
      let template_path = path_join main_separator worktree_path template_relative env in
      let local_path = output_path files main_separator worktree_path env in
      stat fs template_path >>= λ template_stat. stat fs local_path >>= λ local_stat.
      read_override fs local_path local_stat.exists >>= λ manual_override. ok (record {
        has_template = template_stat.exists;
        has_local = local_stat.exists;
        stale =
            template_stat.exists
            && local_stat.exists
            && later template_stat.modified_secs local_stat.modified_secs;
        manual_override = manual_override;
        template_path = if template_stat.exists then some template_path else none;
        local_path = if local_stat.exists then some local_path else none;
        template_modified_secs = template_stat.modified_secs;
        local_modified_secs = local_stat.modified_secs;
      })
