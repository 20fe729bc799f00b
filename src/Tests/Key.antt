-- ===== src/Tests/Key.antt =====
-- `ReplaceKeyManagedByEnvd` of pkg/ssh/config/ssh_config.go at concrete inputs.
use envd.Base.{false, none, some, [], ◌∷◌, ◌≡◌, refl, All}
use envd.Base.Text.{has_suffix, Text, codes, text_eq}
use envd.Base.Strings.Decimal.{pos}
use envd.Ssh.{SshConfig}
use envd.Ssh.Find.{find_host, build_hostname}
use envd.Ssh.Entry.{EntryOptions, entry_host, entry_params, port_in}
use envd.Ssh.Key.{
  trim_quotes, trim_right_quotes, replace_key, replace_hosts, replace_host, replace_names,
  replace_params, replace_param,
}
use envd.Ssh.Key.Laws.{port_in-replace_key}
use envd.Ssh.Key.Complete.{IsFreeHost, replace_key-IsFreeHost}

abbrev entry_with : Text → EntryOptions
entry_with key = record {
  name = codes "demo.envd";
  iface = codes "localhost";
  port = pos 2222;
  private_key_path = key;
  enable_host_key_check = false;
  enable_agent_forward = false;
  user = [];
}

abbrev config : SshConfig
config = record { source = []; globals = []; hosts = entry_host (entry_with (codes "/old")) ∷ [] }

abbrev replaced : SshConfig
replaced = elim (replace_key (codes "/old") (codes "/new") config) [ none ↦ config | some c ↦ c ]

replaces : replace_key (codes "/old") (codes "/new") config ≡ some replaced
unfolding replace_key replace_hosts replace_host replace_names replace_params replace_param
    trim_quotes trim_right_quotes has_suffix entry_host entry_params
replaces = refl

differs : text_eq (trim_quotes (codes "/new")) (codes "/old") ≡ false
unfolding trim_quotes trim_right_quotes text_eq
differs = refl

port_in-replace_key_example :
    port_in (find_host (build_hostname (codes "demo")) replaced.hosts)
    ≡ port_in (find_host (build_hostname (codes "demo")) config.hosts)
port_in-replace_key_example =
    port_in-replace_key (codes "demo") (codes "/old") (codes "/new") config replaced replaces

replace_key-IsFreeHost_example : All (IsFreeHost (codes "/old")) replaced.hosts
replace_key-IsFreeHost_example =
    replace_key-IsFreeHost (codes "/old") (codes "/new") config replaced differs refl replaces
