-- ===== src/Ssh/File.antt =====
-- Reading and replacing a configuration file: `getConfig`, `writeToFilepath` and `save` of
-- pkg/ssh/config/ssh_config.go. What the operating system answers is an argument.
use envd.Base.{Bool, Option, none, some, [], if◌then◌else◌}
use envd.Base.Text.{Text}
use envd.Ssh.{SshConfig, write_to}
use envd.Ssh.Parse.{parse}

pub data Error : Type 0 where
  open_failed read_failed : Error
  stat_failed temp_failed write_failed close_failed chmod_failed new_not_valid rename_failed : Error
  container_not_found port_not_found invalid_port : Error
  home_failed copy_failed key_rename_failed : Error

pub data Result {ℓ} (A : Type ℓ) : Type ℓ where
  ok : A → Result A
  err : Error → Result A

pub record OpenIo : Type 0 where
  pub open_fails : Bool
  pub read_fails : Bool

-- A file that is not there is an empty configuration.
unfoldable pub get_config : OpenIo → Option Text → Result SshConfig
get_config io none =
    if io.open_fails then err open_failed else ok (record { source = []; globals = []; hosts = [] })
get_config io (some t) =
    if io.open_fails
    then err open_failed
    else if io.read_fails
    then err read_failed
    else ok (parse t)

-- Making the directory may fail too, and that is only logged.
pub record SaveIo : Type 0 where
  pub stat_fails : Bool
  pub temp_fails : Bool
  pub write_fails : Bool
  pub close_fails : Bool
  pub chmod_fails : Bool
  pub reopen_fails : Bool
  pub rename_fails : Bool

-- The new text goes to a temporary file, which replaces the old one at the end. `parse` accepts
-- every text, so the check of the new file fails only if it cannot be read.
unfoldable pub save : SaveIo → SshConfig → Option Text → Option Text × Option Error
save io cfg f =
    if io.stat_fails
    then (f, some stat_failed)
    else if io.temp_fails
    then (f, some temp_failed)
    else if io.write_fails
    then (f, some write_failed)
    else if io.close_fails
    then (f, some close_failed)
    else if io.chmod_fails
    then (f, some chmod_failed)
    else if io.reopen_fails
    then (f, some new_not_valid)
    else if io.rename_fails
    then (f, some rename_failed)
    else (some (write_to cfg), none)
