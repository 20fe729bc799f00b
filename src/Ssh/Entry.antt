-- ===== src/Ssh/Entry.antt =====
-- pkg/ssh/config/entry.go, and `remove` and `GetPort` of pkg/ssh/config/ssh_config.go.
use envd.Base.{Bool, true, false, not, Option, none, some, List, [], ◌∷◌, ◌++◌, if◌then◌else◌}
use envd.Base.Text.{Text, codes, text_eq}
use envd.Base.Strings.Decimal.{ℤ, itoa, atoi}
use envd.Ssh.{
  Param, Host, SshConfig, new_host, new_param, forward_agent_keyword,
  pubkey_accepted_key_types_keyword, host_name_keyword, port_keyword,
  strict_host_key_checking_keyword, host_key_algorithms, user_known_hosts_file_keyword,
  identity_file, user_keyword,
}
use envd.Ssh.Find.{get_param, find_host, remove_host, build_hostname}
use envd.Ssh.File.{
  Error, container_not_found, port_not_found, invalid_port, Result, ok, err, OpenIo, SaveIo,
  get_config, save,
}

pub record EntryOptions : Type 0 where
  pub name : Text
  pub iface : Text
  pub port : ℤ
  pub private_key_path : Text
  pub enable_host_key_check : Bool
  pub enable_agent_forward : Bool
  pub user : Text

-- `if test { host.params = append(host.params, p) }`
abbrev pub when : Bool → Param → List Param
when true p = p ∷ []
when false p = []

unfoldable pub entry_params : EntryOptions → List Param
unfolding new_param text_eq
entry_params eo =
    new_param pubkey_accepted_key_types_keyword (codes "+ssh-rsa" ∷ []) []
    ∷ new_param host_key_algorithms (codes "+ssh-rsa" ∷ []) []
    ∷ new_param host_name_keyword (eo.iface ∷ []) []
    ∷ new_param port_keyword (itoa eo.port ∷ []) []
    ∷ new_param user_known_hosts_file_keyword (codes "/dev/null" ∷ []) []
    ∷ new_param identity_file ((b'"' ∷ (eo.private_key_path ++ (b'"' ∷ []))) ∷ []) []
    ∷ (when (not eo.enable_host_key_check)
          (new_param strict_host_key_checking_keyword (codes "no" ∷ []) [])
        ++ (when eo.enable_agent_forward (new_param forward_agent_keyword (codes "yes" ∷ []) [])
            ++ when (not (text_eq eo.user [])) (new_param user_keyword (eo.user ∷ []) [])))

unfoldable pub entry_host : EntryOptions → Host
unfolding new_host entry_params
entry_host eo = record (new_host (eo.name ∷ []) (codes "entry generated by envd" ∷ [])) {
  params = entry_params eo;
}

-- The configuration that `add` saves.
unfoldable pub add_host : EntryOptions → SshConfig → SshConfig
add_host eo cfg =
    let (cfg', removed) = remove_host eo.name cfg in
    record cfg' { hosts = cfg'.hosts ++ (entry_host eo ∷ []) }

abbrev pub add_read :
    SaveIo → EntryOptions → Option Text → Result SshConfig → Option Text × Option Error
add_read io eo f (ok cfg) = save io (add_host eo cfg) f
add_read io eo f (err e) = (f, some e)

-- `add` on the file's text.
unfoldable pub add : OpenIo → SaveIo → EntryOptions → Option Text → Option Text × Option Error
add open_io io eo f = add_read io eo f (get_config open_io f)

abbrev pub remove_read : SaveIo → Text → Option Text → Result SshConfig → Option Text × Option Error
remove_read io name f (err e) = (f, some e)
remove_read io name f (ok cfg) =
    let (cfg', removed) = remove_host name cfg in if removed then save io cfg' f else (f, none)

unfoldable pub remove : OpenIo → SaveIo → Text → Option Text → Option Text × Option Error
remove open_io io name f = remove_read io name f (get_config open_io f)

-- `p.value()`
abbrev pub value : List Text → Text
value [] = []
value (a ∷ _) = a

abbrev pub port_of : Option Param → Result ℤ
port_of none = err port_not_found
port_of (some p) = elim (atoi (value p.args)) [ none ↦ err invalid_port | some n ↦ ok n ]

abbrev pub port_in : Option Host → Result ℤ
port_in none = err container_not_found
port_in (some h) = port_of (get_param port_keyword h.params)

abbrev pub port_read : Text → Result SshConfig → Result ℤ
port_read name (err e) = err e
port_read name (ok cfg) = port_in (find_host (build_hostname name) cfg.hosts)

unfoldable pub get_port : OpenIo → Text → Option Text → Result ℤ
get_port io name f = port_read name (get_config io f)

-- The Windows host's side under WSL: its configuration file, and what the helpers of
-- pkg/util/osutil answer.
pub record Wsl : Type 0 where
  pub config_path : Result (Unit {0})
  pub win_key_path : Result Text
  pub open_io : OpenIo
  pub save_io : SaveIo

pub record Files : Type 0 where
  pub home : Option Text
  pub wsl_host : Option Text

unfoldable pub add_entry_to_wsl_host : Wsl → EntryOptions → Option Text → Option Text × Option Error
add_entry_to_wsl_host w eo f = elim w.config_path [
  | err e ↦ (f, some e)
  | ok _ ↦ elim w.win_key_path [
    | err e ↦ (f, some e)
    | ok key ↦ add w.open_io w.save_io (record eo { private_key_path = key }) f
  ]
]

-- An error on the Windows side is only logged. `none` stands for a system that is not WSL.
abbrev add_entry_wsl :
    Option Wsl → EntryOptions → Files → Option Text × Option Error → Files × Option Error
add_entry_wsl w eo fs (f, some e) = (record fs { home = f }, some e)
add_entry_wsl none eo fs (f, none) = (record fs { home = f }, none)
add_entry_wsl (some w) eo fs (f, none) =
    (record { home = f; wsl_host = (add_entry_to_wsl_host w eo fs.wsl_host).0 }, none)

unfoldable pub add_entry :
    OpenIo → SaveIo → Option Wsl → EntryOptions → Files → Files × Option Error
add_entry open_io io w eo fs =
    let eo' = record eo { name = build_hostname eo.name } in
    add_entry_wsl w eo' fs (add open_io io eo' fs.home)

abbrev remove_entry_wsl :
    Option Wsl → Text → Files → Option Text × Option Error → Files × Option Error
remove_entry_wsl w name fs (f, some e) = (record fs { home = f }, some e)
remove_entry_wsl none name fs (f, none) = (record fs { home = f }, none)
remove_entry_wsl (some w) name fs (f, none) = elim w.config_path [
  | err e ↦ (record fs { home = f }, some e)
  | ok _ ↦
      let (g, e) = remove w.open_io w.save_io name fs.wsl_host in
      (record { home = f; wsl_host = g }, e)
]

unfoldable pub remove_entry : OpenIo → SaveIo → Option Wsl → Text → Files → Files × Option Error
remove_entry open_io io w name fs =
    remove_entry_wsl w (build_hostname name) fs (remove open_io io (build_hostname name) fs.home)
