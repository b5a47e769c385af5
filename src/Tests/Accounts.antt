-- ===== src/Tests/Accounts.antt =====
-- The account registry on a machine of files in memory.
use oxyris.Prelude.{
  ◌≡◌, ◌⊎◌, refl, Text, codes, Bool, false, none, some, [], ◌∷◌, ◌++◌, ok, err, eq_text, ends_with,
  lacks, byte_length, trim, subst, trim_start, trim_end, is_whitespace,
}
use oxyris.Prelude.Int.{pos}
use oxyris.Core.{Environment, local, wsl}
use oxyris.Accounts.Docs.{
  AccountIdentity, pro, credentials_key, account_key, parse_object, str_field, scopes_of, i64_field,
  parse_credentials, parse_identity,
}
use oxyris.Accounts.Machine.{Machine, read, write_private, eq_env}
use oxyris.Accounts.Machine.Steps.{Ends, OnOk}
use oxyris.Accounts.Machine.Writes.{Written, write_private-Written}
use oxyris.Accounts.Paths.{
  Host, DocPaths, wsl_home, live_paths, slot_paths, slot_dir, registry_path, join, trim_slashes,
}
use oxyris.Accounts.Registry.{AccountRecord}
use oxyris.Accounts.Save.{save_live}
use oxyris.Accounts.Save.Saved.{Login, IsSaved, Saved, save_live-Saved}
use oxyris.Accounts.Save.Stored.{AreSlots}
use oxyris.Accounts.Switch.{activate}
use oxyris.Accounts.Switch.Steps.{Ready}
use oxyris.Accounts.Switch.Rollback.{IsLive}
use oxyris.Accounts.Switch.Outcome.{Outcome, activate-switched}
use oxyris.Accounts.Switch.Preserved.{activate-preserved}
use oxyris.Accounts.Save.Frame.{ok_inj}
use oxyris.Accounts.Machine.Files.{is_file}
use oxyris.Accounts.Apart.{AreTwo, wsl-apart}
use oxyris.Tests.Toy.{shift, pieces, lookup, insert, toy_json, toy_json-IsLawful}
use oxyris.Tests.Machine.{World, put, toy_machine, toy_machine-IsLawful, toy_machine-IsRoomy}
use oxyris.Tests.Serde.{encode_toy, toy_serde, toy_serde-IsFaithful}

abbrev pub creds_doc : Text → Text
creds_doc token =
    insert (insert [] (codes "mcpOAuth") (codes "m")) credentials_key
      (insert [] (codes "accessToken") token)

abbrev pub config_doc : Text → Text
config_doc email =
    insert (insert [] (codes "numStartups") (codes "7")) account_key
      (insert (insert [] (codes "emailAddress") email) (codes "accountUuid") email)

abbrev pub new_creds : Text
new_creds =
    insert (creds_doc (codes "a")) credentials_key (insert [] (codes "accessToken") (codes "b"))

abbrev pub host : Host Bool
host = record {
  data_dir = codes "/d";
  home_dir = some (codes "/h");
  config_dir = none;
  exists = λ path. false;
  join_path = λ dir leaf. dir ++ b'/' ∷ leaf;
  system_home = λ distro. ok (some (codes "/h"));
}

abbrev pub env : Environment
env = wsl (codes "U")

abbrev pub creds_path : Text
creds_path = codes "/h/.claude/.credentials.json"

abbrev pub config_path : Text
config_path = codes "/h/.claude.json"

abbrev pub paths : DocPaths
paths = record { credentials = creds_path; config = config_path }

abbrev pub identity_of : Text → AccountIdentity
identity_of email = record {
  email = email;
  display_name = none;
  account_uuid = email;
  organization_uuid = none;
  organization_name = none;
}

-- "B" is registered with the slot "t".
abbrev pub account_b : AccountRecord
account_b = record {
  id = codes "t";
  environment = env;
  identity = identity_of (codes "B");
  plan = pro;
  added_at_ms = pos 5;
}

abbrev registry_text : Text
registry_text = elim (encode_toy (account_b ∷ [])) [ ok t ↦ t | err e ↦ [] ]

-- "a" is logged in.
abbrev pub world : World
world =
    put
      (put
        (put
          (put (put (λ e p. none) local (codes "/d/claude-accounts.json") (some registry_text)) env
            (codes "/h/.oxyris/claude-accounts/t/.credentials.json") (some (creds_doc (codes "b"))))
          env (codes "/h/.oxyris/claude-accounts/t/.claude.json") (some (config_doc (codes "b"))))
        env creds_path (some (creds_doc (codes "a"))))
      env config_path (some (config_doc (codes "a")))

-- A machine on which the config cannot be replaced, and one on which everything works.
abbrev pub stuck : Machine World Bool
stuck = toy_machine (λ path. eq_text path config_path)

abbrev pub working : Machine World Bool
working = toy_machine (λ path. false)

abbrev pub new_id : Text
new_id = codes "n"

write_private-Written_example :
    Ends
      (Written
        (Unit {0})
        stuck
        (toy_machine-IsLawful (λ path. eq_text path config_path))
        world
        env
        config_path
        (codes "x"))
      (write_private stuck env config_path (codes "x") world)
unfolding byte_length ends_with eq_text
write_private-Written_example =
    write_private-Written (Unit {0}) stuck (toy_machine-IsLawful (λ path. eq_text path config_path))
      world env config_path (codes "x") refl refl

wsl-apart_example :
    AreSlots toy_json toy_serde working host env
    × AreTwo (Unit {0}) host env (codes "t") (codes "n")
    × ((live : DocPaths)
        → live_paths (Unit {0}) host env ≡ ok live
        → IsLive toy_json toy_serde working host (toy_machine-IsLawful (λ path. false)) env live)
unfolding wsl_home registry_path ends_with eq_text lacks
wsl-apart_example =
    wsl-apart toy_json toy_serde working host (codes "U") (codes "/h") refl
      (toy_machine-IsLawful (λ path. false)) (codes "t") (codes "n") refl
      (record { no_slash = refl; filled = refl }) (record { no_slash = refl; filled = refl }) refl

pub wsl-apart_at :
    AreSlots toy_json toy_serde working host env
    × ((live : DocPaths)
        → live_paths (Unit {0}) host env ≡ ok live
        → IsLive toy_json toy_serde working host (toy_machine-IsLawful (λ path. false)) env live)
unfolding wsl_home registry_path ends_with eq_text lacks
wsl-apart_at =
    let all =
      wsl-apart toy_json toy_serde working host (codes "U") (codes "/h") refl
        (toy_machine-IsLawful (λ path. false)) (codes "t") (codes "n") refl
        (record { no_slash = refl; filled = refl }) (record { no_slash = refl; filled = refl })
        refl in
    (all.0, all.2)

-- The local machine, where "B" is registered with a slot whose config shows another account.
abbrev registry_here : Text
registry_here = elim (encode_toy (record account_b { environment = local } ∷ [])) [
  | ok t ↦ t
  | err e ↦ []
]

abbrev pub world_here : World
world_here =
    put
      (put
        (put
          (put (put (λ e p. none) local (codes "/d/claude-accounts.json") (some registry_here))
            local (codes "/d/claude-accounts/t/.credentials.json") (some (creds_doc (codes "b"))))
          local (codes "/d/claude-accounts/t/.claude.json") (some (config_doc (codes "c"))))
        local creds_path (some (creds_doc (codes "a"))))
      local config_path (some (config_doc (codes "a")))

pub local_live :
    (live : DocPaths)
    → live_paths (Unit {0}) host local ≡ ok live
    → IsLive toy_json toy_serde working host (toy_machine-IsLawful (λ path. false)) local live
unfolding live_paths slot_paths slot_dir join registry_path ends_with eq_text eq_env
local_live live h =
    subst (IsLive toy_json toy_serde working host (toy_machine-IsLawful (λ path. false)) local)
      (ok_inj h)
      (record {
        creds_apart = record {
          kept = refl;
          slots = λ id stored k.
              subst
                (λ (d : DocPaths).
                  (is_file local d.credentials local creds_path ≡ false)
                  × (is_file local d.config local creds_path ≡ false))
                (ok_inj k) (refl, refl);
          registry = refl;
        };
        config_apart = record {
          kept = refl;
          slots = λ id stored k.
              subst
                (λ (d : DocPaths).
                  (is_file local d.credentials local config_path ≡ false)
                  × (is_file local d.config local config_path ≡ false))
                (ok_inj k) (refl, refl);
          registry = refl;
        };
        two = refl;
        two' = refl;
      })

activate-switched_example :
    Ends
      (OnOk λ w'.
        (r : Ready toy_json toy_serde working host env (codes "t") world) × Outcome toy_json
          toy_json-IsLawful toy_serde working host
          (toy_machine-IsLawful (λ path. false))
          env
          (codes "t")
          world
          r
          w')
      (activate toy_json toy_serde working host new_id (pos 9) env (codes "t") world)
activate-switched_example =
    activate-switched toy_json toy_json-IsLawful toy_serde working host
      (toy_machine-IsLawful (λ path. false)) new_id (pos 9) env (codes "t") world
      (toy_machine-IsRoomy (λ path. false) env) wsl-apart_at.1

login : Login toy_json toy_serde working host env world
unfolding live_paths wsl_home join trim_slashes read eq_text eq_env parse_credentials parse_identity
    parse_object str_field i64_field scopes_of insert shift lookup pieces trim trim_start trim_end
    is_whitespace
login = record {
  live = paths;
  creds = creds_doc (codes "a");
  config = config_doc (codes "a");
  identity = identity_of (codes "a");
  credentials = record {
    access_token = codes "a";
    has_refresh_token = false;
    expires_at_ms = none;
    scopes = [];
    subscription_type = none;
    rate_limit_tier = none;
  };
  live_at = refl;
  creds_there = refl;
  config_there = refl;
  identity_parsed = refl;
  creds_parsed = refl;
}

activate-preserved_example :
    Ends
      (OnOk λ w'.
        (w' ≡ world)
        ⊎ IsSaved toy_json toy_serde working host env
            (creds_doc (codes "a"))
            (config_doc (codes "a"))
            (identity_of (codes "a"))
            w')
      (activate toy_json toy_serde working host new_id (pos 9) env (codes "t") world)
unfolding login
activate-preserved_example =
    activate-preserved toy_json toy_json-IsLawful toy_serde working host
      (toy_machine-IsLawful (λ path. false)) toy_serde-IsFaithful env
      (toy_machine-IsRoomy (λ path. false) env) wsl-apart_at.0 new_id (pos 9) world login
      (codes "t") (wsl-apart_at.1 login.live login.live_at)

save_live-Saved_example :
    Ends
      (OnOk λ w'.
        (l : Login toy_json toy_serde working host env world) × Saved toy_json toy_serde working
          host toy_json-IsLawful
          (toy_machine-IsLawful (λ path. false))
          toy_serde-IsFaithful
          env
          (toy_machine-IsRoomy (λ path. false) env)
          wsl-apart_at.0
          world
          l
          w')
      (save_live toy_json toy_serde working host new_id (pos 9) env world)
save_live-Saved_example =
    save_live-Saved toy_json toy_serde working host toy_json-IsLawful
      (toy_machine-IsLawful (λ path. false)) toy_serde-IsFaithful env
      (toy_machine-IsRoomy (λ path. false) env) wsl-apart_at.0 new_id (pos 9) world
