-- ===== src/Tests/Switches.antt =====
-- Runs of the switch, and sequences of operations on the registry.
use oxyris.Prelude.{
  and_then, ◌≡◌, refl, Text, codes, false, none, some, eq_opt_text, ok, err, eq_text, ends_with,
  lacks, byte_length, trim, trim_start, trim_end, is_whitespace, find,
}
use oxyris.Prelude.Int.{pos}
use oxyris.Core.{local, wsl}
use oxyris.Accounts.Docs.{
  parse_object, str_field, scopes_of, i64_field, parse_credentials, parse_identity, target_object,
  swap_subtree, swap_oauth_credentials, swap_oauth_account, same_account, plan, from_parts,
}
use oxyris.Accounts.Machine.{
  ◌>>=◌, agent, verify_failed, temporary, read, remove_path, write_private, create_parent_dir,
  eq_env,
}
use oxyris.Accounts.Paths.{
  DocPaths, wsl_home, live_paths, slot_dir, slot_paths, registry_path, join, trim_slashes,
}
use oxyris.Accounts.Registry.{
  is_record, is_login, require_online, read_registry, read_file, read_some, write_registry,
  put_first,
}
use oxyris.Accounts.Save.{save_live_locked, snapshot_live_into}
use oxyris.Accounts.Save.Stored.{AreSlots}
use oxyris.Accounts.Switch.{
  restoring, restore, verified, preserve, overwrite, switch_from, activate,
}
use oxyris.Accounts.Switch.Rollback.{IsLive}
use oxyris.Accounts.Apart.{AreTwo, wsl-apart}
use oxyris.Tests.Toy.{shift, pieces, lookup, insert, toy_json}
use oxyris.Tests.Machine.{toy_machine-IsLawful}
use oxyris.Tests.Serde.{encode_toy, decode_toy, toy_serde}
use oxyris.Tests.Accounts.{
  host, env, world_here, creds_path, world, stuck, working, new_id, new_creds, creds_doc,
}
use oxyris.Accounts.Scripts.{
  plain, read_word, assigned, login_script, refresh_script, sh_quote, escape_quotes,
  scripts-directory,
}

-- The switch on the two machines: done, and rolled back.
switched : (activate toy_json toy_serde working host new_id (pos 9) env (codes "t") world).0 ≡ ok tt
unfolding activate switch_from preserve overwrite verified restoring restore save_live_locked
    snapshot_live_into require_online read_registry write_registry read_file read_some ◌>>=◌
    write_private remove_path create_parent_dir temporary read eq_env eq_text find is_record
    is_login put_first same_account live_paths slot_dir slot_paths wsl_home join trim_slashes
    registry_path parse_credentials parse_identity parse_object str_field i64_field scopes_of
    target_object swap_subtree swap_oauth_credentials swap_oauth_account plan from_parts ends_with
    insert shift lookup pieces trim trim_start trim_end is_whitespace encode_toy decode_toy
    byte_length eq_opt_text
switched = refl

switched_creds :
    (activate toy_json toy_serde working host new_id (pos 9) env (codes "t") world).1 env creds_path
    ≡ some new_creds
unfolding activate switch_from preserve overwrite verified restoring restore save_live_locked
    snapshot_live_into require_online read_registry write_registry read_file read_some ◌>>=◌
    write_private remove_path create_parent_dir temporary read eq_env eq_text find is_record
    is_login put_first same_account live_paths slot_dir slot_paths wsl_home join trim_slashes
    registry_path parse_credentials parse_identity parse_object str_field i64_field scopes_of
    target_object swap_subtree swap_oauth_credentials swap_oauth_account plan from_parts ends_with
    insert shift lookup pieces trim trim_start trim_end is_whitespace encode_toy decode_toy
    byte_length eq_opt_text
switched_creds = refl

rolled_back :
    (activate toy_json toy_serde stuck host new_id (pos 9) env (codes "t") world).0
    ≡ err (agent false)
unfolding activate switch_from preserve overwrite verified restoring restore save_live_locked
    snapshot_live_into require_online read_registry write_registry read_file read_some ◌>>=◌
    write_private remove_path create_parent_dir temporary read eq_env eq_text find is_record
    is_login put_first same_account live_paths slot_dir slot_paths wsl_home join trim_slashes
    registry_path parse_credentials parse_identity parse_object str_field i64_field scopes_of
    target_object swap_subtree swap_oauth_credentials swap_oauth_account plan from_parts ends_with
    insert shift lookup pieces trim trim_start trim_end is_whitespace encode_toy decode_toy
    byte_length eq_opt_text
rolled_back = refl

rolled_back_creds :
    (activate toy_json toy_serde stuck host new_id (pos 9) env (codes "t") world).1 env creds_path
    ≡ some (creds_doc (codes "a"))
unfolding activate switch_from preserve overwrite verified restoring restore save_live_locked
    snapshot_live_into require_online read_registry write_registry read_file read_some ◌>>=◌
    write_private remove_path create_parent_dir temporary read eq_env eq_text find is_record
    is_login put_first same_account live_paths slot_dir slot_paths wsl_home join trim_slashes
    registry_path parse_credentials parse_identity parse_object str_field i64_field scopes_of
    target_object swap_subtree swap_oauth_credentials swap_oauth_account plan from_parts ends_with
    insert shift lookup pieces trim trim_start trim_end is_whitespace encode_toy decode_toy
    byte_length eq_opt_text
rolled_back_creds = refl

-- The slot's config shows another account, so that both documents are put back.
put_back :
    (activate toy_json toy_serde working host new_id (pos 9) local (codes "t") world_here).0
    ≡ err (verify_failed (codes "B"))
unfolding activate switch_from preserve overwrite verified restoring restore save_live_locked
    snapshot_live_into require_online read_registry write_registry read_file read_some ◌>>=◌
    write_private remove_path create_parent_dir temporary read eq_env eq_text find is_record
    is_login put_first same_account live_paths slot_dir slot_paths wsl_home join trim_slashes
    registry_path parse_credentials parse_identity parse_object str_field i64_field scopes_of
    target_object swap_subtree swap_oauth_credentials swap_oauth_account plan from_parts ends_with
    insert shift lookup pieces trim trim_start trim_end is_whitespace encode_toy decode_toy
    eq_opt_text
put_back = refl

abbrev apart_in :
    (distro : Text)
    → AreSlots toy_json toy_serde working host (wsl distro)
      × AreTwo (Unit {0}) host (wsl distro) (codes "t") (codes "n")
      × ((live : DocPaths)
          → live_paths (Unit {0}) host (wsl distro) ≡ ok live
          → IsLive toy_json toy_serde working host
              (toy_machine-IsLawful (λ path. false))
              (wsl distro)
              live)
unfolding wsl_home registry_path ends_with eq_text lacks
apart_in distro =
    wsl-apart toy_json toy_serde working host distro (codes "/h") refl
      (toy_machine-IsLawful (λ path. false)) (codes "t") (codes "n") refl
      (record { no_slash = refl; filled = refl }) (record { no_slash = refl; filled = refl }) refl

abbrev odd_dir : Text
odd_dir = codes "/d/it's $HOME"

scripts-directory_example :
    (and_then (assigned (login_script odd_dir)) (read_word plain)
      ≡ some (odd_dir, codes "; claude auth login --claudeai"))
    × (and_then (assigned (refresh_script (some odd_dir))) (read_word plain)
        ≡ some (odd_dir, codes "; cd ~ && claude -p . --model haiku --no-session-persistence"))
    × (assigned (refresh_script none) ≡ none)
scripts-directory_example = scripts-directory odd_dir

quoted_text : sh_quote (codes "it's") ≡ codes "'it'\\''s'"
unfolding sh_quote escape_quotes
quoted_text = refl
