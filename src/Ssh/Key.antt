-- ===== src/Ssh/Key.antt =====
-- `ReplaceKeyManagedByEnvd` of pkg/ssh/config/ssh_config.go: the private key in envd's entries.
pub mod Laws
pub mod Complete
use envd.Base.{
  Bool, true, false, ◌&&◌, ◌||◌, Option, none, some, List, [], ◌∷◌, ◌==◌, if◌then◌else◌,
}
use envd.Base.Text.{Text, codes, text_eq, has_suffix}
use envd.Ssh.{Param, Host, SshConfig, identity_file}
use envd.Ssh.File.{Error, key_rename_failed, Result, ok, err, OpenIo, SaveIo, get_config, save}
use envd.Ssh.Entry.{Files}

abbrev pub is_nil : Text → Bool
is_nil [] = true
is_nil (c ∷ cs) = false

unfoldable pub trim_right_quotes : Text → Text
trim_right_quotes [] = []
trim_right_quotes (c ∷ cs) =
    let rest = trim_right_quotes cs in if c == b'"' && is_nil rest then [] else c ∷ rest

-- `strings.Trim(s, "\"")`
unfoldable pub trim_quotes : Text → Text
trim_quotes [] = []
trim_quotes (c ∷ cs) =
    let rest = trim_quotes cs in if c == b'"' then rest else trim_right_quotes (c ∷ cs)

abbrev pub with_key : Text → Text → Param → List Text → Option Param
with_key old new p [] = none
with_key old new p (a ∷ args) =
    some (if text_eq (trim_quotes a) old then record p { args = new ∷ args } else p)

-- One round of the innermost loop. `p.args[0]` of a parameter without arguments panics: `none`.
unfoldable pub replace_param : Text → Text → Param → Option Param
unfolding text_eq
replace_param old new p =
    if text_eq p.keyword identity_file then with_key old new p p.args else some p

abbrev pub cons_some {ℓ} : {A : Type ℓ} → Option A → Option (List A) → Option (List A)
cons_some (some x) (some xs) = some (x ∷ xs)
cons_some _ _ = none

unfoldable pub replace_params : Text → Text → List Param → Option (List Param)
replace_params old new [] = some []
replace_params old new (p ∷ ps) = cons_some (replace_param old new p) (replace_params old new ps)

-- The loop over the host's names: a round for each that ends in `.envd`.
unfoldable pub replace_names : Text → Text → List Text → List Param → Option (List Param)
replace_names old new [] ps = some ps
replace_names old new (hn ∷ hns) ps =
    if has_suffix hn (codes ".envd")
    then elim (replace_params old new ps) [ none ↦ none | some qs ↦ replace_names old new hns qs ]
    else replace_names old new hns ps

abbrev pub with_params : Host → Option (List Param) → Option Host
with_params h none = none
with_params h (some ps) = some (record h { params = ps })

unfoldable pub replace_host : Text → Text → Host → Option Host
replace_host old new h = with_params h (replace_names old new h.hostnames h.params)

unfoldable pub replace_hosts : Text → Text → List Host → Option (List Host)
replace_hosts old new [] = some []
replace_hosts old new (h ∷ hs) = cons_some (replace_host old new h) (replace_hosts old new hs)

unfoldable pub replace_key : Text → Text → SshConfig → Option SshConfig
replace_key old new cfg = elim (replace_hosts old new cfg.hosts) [
  | none ↦ none
  | some hs ↦ some (record cfg { hosts = hs })
]

-- The Windows side: its configuration file, and the copies of the two keys.
pub record WslKeys : Type 0 where
  pub config_path : Result (Unit {0})
  pub new_key : Result Text
  pub old_key : Result Text
  pub open_io : OpenIo
  pub save_io : SaveIo

-- What the system answers on this side: the path of the private key, and whether renaming it fails.
pub record KeyIo : Type 0 where
  pub open_io : OpenIo
  pub private_key : Result Text
  pub rename_fails : Bool
  pub save_io : SaveIo

abbrev save_replaced : SaveIo → Option Text → Option SshConfig → Option (Option Text × Option Error)
save_replaced io f none = none
save_replaced io f (some cfg) = some (save io cfg f)

abbrev wsl_read : WslKeys → Option Text → Result SshConfig → Option (Option Text × Option Error)
wsl_read w f (err e) = some (f, some e)
wsl_read w f (ok cfg) = elim w.new_key [
  | err e ↦ some (f, some e)
  | ok new ↦ elim w.old_key [
    | err e ↦ some (f, some e)
    | ok old ↦ save_replaced w.save_io f (replace_key old new cfg)
  ]
]

unfoldable pub replace_wsl_key : WslKeys → Option Text → Option (Option Text × Option Error)
replace_wsl_key w f = elim w.config_path [
  | err e ↦ some (f, some e)
  | ok _ ↦ wsl_read w f (get_config w.open_io f)
]

abbrev on_wsl : Option WslKeys → Files → Option Text × Option Error → Option (Files × Option Error)
on_wsl w fs (f, some e) = some (record fs { home = f }, some e)
on_wsl none fs (f, none) = some (record fs { home = f }, none)
on_wsl (some w) fs (f, none) = elim (replace_wsl_key w fs.wsl_host) [
  | none ↦ none
  | some (g, e) ↦ some (record { home = f; wsl_host = g }, e)
]

abbrev rename_and_save :
    KeyIo → Option WslKeys → Files → Option SshConfig → Option (Files × Option Error)
rename_and_save io w fs none = none
rename_and_save io w fs (some cfg) = elim io.private_key [
  | err e ↦ some (fs, some e)
  | ok path ↦
      if io.rename_fails
      then some (fs, some key_rename_failed)
      else on_wsl w fs (save io.save_io cfg fs.home)
]

abbrev key_read :
    KeyIo → Option WslKeys → Text → Text → Files → Result SshConfig → Option (Files × Option Error)
key_read io w old new fs (err e) = some (fs, some e)
key_read io w old new fs (ok cfg) = rename_and_save io w fs (replace_key old new cfg)

-- `none` is a panic.
unfoldable pub replace_key_managed_by_envd :
    KeyIo → Option WslKeys → Text → Text → Files → Option (Files × Option Error)
replace_key_managed_by_envd io w old new fs =
    key_read io w old new fs (get_config io.open_io fs.home)
