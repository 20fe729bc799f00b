-- ===== src/Frontend/Universe.antt =====
-- pkg/lang/frontend/starlark/v1/universe/universe.go and io/io.go. `include` loads a module, so it
-- stands with the interpreter.
use envd.Base.{false, [], ◌∷◌}
use envd.Graph.Rules
use envd.Frontend.{
  text, boolean, list_kind, Args, Host, bad_arguments, Step, ◌>>=◌, or_refuse, ir, stored, text_or,
  flag_or, list_or_nil, to_string_slice,
}

module _ (h : Host) where
  open h use {unpack, unpack_positional, parse_digest}

  unfoldable pub rule_func_base : Args → Step
  rule_func_base args = do
    vs ← or_refuse bad_arguments (
        unpack "base"
          (record { name = "image?"; kind = text } ∷ record { name = "dev?"; kind = boolean } ∷ [])
          args)
    ir (Rules.base (text_or "" (stored 0 vs)) (flag_or false (stored 1 vs)))

  unfoldable pub rule_func_run : Args → Step
  rule_func_run args = do
    vs ← or_refuse bad_arguments (
        unpack "run"
          (record { name = "commands"; kind = list_kind }
            ∷ record { name = "mount_host?"; kind = boolean }
            ∷ [])
          args)
    commands ← to_string_slice (list_or_nil (stored 0 vs))
    ir (Rules.run commands (flag_or false (stored 1 vs)))

  unfoldable pub rule_func_shell : Args → Step
  rule_func_shell args = do
    vs ← or_refuse bad_arguments (unpack_positional "shell" 1 args)
    ir (Rules.shell (text_or "" (stored 0 vs)))

  unfoldable pub rule_func_git_config : Args → Step
  rule_func_git_config args = do
    vs ← or_refuse bad_arguments (
        unpack "git_config"
          (record { name = "name?"; kind = text }
            ∷ record { name = "email?"; kind = text }
            ∷ record { name = "editor?"; kind = text }
            ∷ [])
          args)
    ir (Rules.git (text_or "" (stored 0 vs)) (text_or "" (stored 1 vs)) (text_or "" (stored 2 vs)))

  unfoldable pub rule_func_copy : Args → Step
  rule_func_copy args = do
    vs ← or_refuse bad_arguments (
        unpack "io.copy"
          (record { name = "host_path?"; kind = text }
            ∷ record { name = "envd_path?"; kind = text }
            ∷ [])
          args)
    ir (Rules.copy (text_or "" (stored 0 vs)) (text_or "" (stored 1 vs)))

  unfoldable pub rule_func_http : Args → Step
  rule_func_http args = do
    vs ← or_refuse bad_arguments (
        unpack "io.http"
          (record { name = "url"; kind = text }
            ∷ record { name = "checksum?"; kind = text }
            ∷ record { name = "filename?"; kind = text }
            ∷ [])
          args)
    ir (
        Rules.http parse_digest (text_or "" (stored 0 vs)) (text_or "" (stored 1 vs))
          (text_or "" (stored 2 vs)))
