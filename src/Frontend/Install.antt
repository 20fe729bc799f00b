-- ===== src/Frontend/Install.antt =====
-- pkg/lang/frontend/starlark/v1/install/install.go
use envd.Base.{Bool, true, false, String, List, [], ◌∷◌, map, if◌then◌else◌, str_eq}
use envd.Base.{◌&&◌}
use envd.Base.Text.{codes}
use envd.Graph.Rules
use envd.Graph.Rules.{is_empty}
use envd.Frontend.{
  text, boolean, list_kind, Args, Host, bad_arguments, files_exclude_names, Step, ◌>>=◌, ◌>>◌,
  require, or_refuse, ir, stored, text_or, flag_or, list_or_nil, to_string_slice,
}

abbrev pub python_version_default : String
python_version_default = "3.9"

-- `env_file` is given with no names and no channels, or not at all.
abbrev pub excludes_names : String → List String → List String → Bool
excludes_names file names channels =
    if str_eq file "" then true else is_empty names && is_empty channels

module _ (h : Host) where
  open h use {unpack}

  unfoldable pub rule_func_python : Args → Step
  rule_func_python args = do
    vs ←
        or_refuse bad_arguments
          (unpack "install.python" (record { name = "version?"; kind = text } ∷ []) args)
    ir (Rules.python (text_or python_version_default (stored 0 vs)))

  -- The name that errors carry is that of `install.python`.
  unfoldable pub rule_func_conda : Args → Step
  rule_func_conda args = do
    vs ←
        or_refuse bad_arguments
          (unpack "install.python" (record { name = "use_mamba?"; kind = boolean } ∷ []) args)
    ir (Rules.conda (flag_or false (stored 0 vs)))

  unfoldable pub rule_func_r_lang : Args → Step
  rule_func_r_lang args = ir Rules.r_lang

  unfoldable pub rule_func_julia : Args → Step
  rule_func_julia args = ir Rules.julia

  unfoldable pub rule_func_pypi_package : Args → Step
  rule_func_pypi_package args = do
    vs ← or_refuse bad_arguments (
        unpack "install.python_packages"
          (record { name = "name?"; kind = list_kind }
            ∷ record { name = "requirements?"; kind = text }
            ∷ record { name = "local_wheels?"; kind = list_kind }
            ∷ [])
          args)
    names ← to_string_slice (list_or_nil (stored 0 vs))
    wheels ← to_string_slice (list_or_nil (stored 2 vs))
    ir (Rules.pypi_package names (text_or "" (stored 1 vs)) wheels)

  unfoldable pub rule_func_r_package : Args → Step
  rule_func_r_package args = do
    vs ←
        or_refuse bad_arguments
          (unpack "install.r_packages" (record { name = "name"; kind = list_kind } ∷ []) args)
    names ← to_string_slice (list_or_nil (stored 0 vs))
    ir (Rules.r_package names)

  unfoldable pub rule_func_julia_package : Args → Step
  rule_func_julia_package args = do
    vs ←
        or_refuse bad_arguments
          (unpack "install.julia_packages" (record { name = "name"; kind = list_kind } ∷ []) args)
    names ← to_string_slice (list_or_nil (stored 0 vs))
    ir (Rules.julia_package names)

  unfoldable pub rule_func_system_package : Args → Step
  rule_func_system_package args = do
    vs ←
        or_refuse bad_arguments
          (unpack "install.apt_packages" (record { name = "name?"; kind = list_kind } ∷ []) args)
    names ← to_string_slice (list_or_nil (stored 0 vs))
    ir (Rules.system_package names)

  unfoldable pub rule_func_cuda : Args → Step
  rule_func_cuda args = do
    vs ← or_refuse bad_arguments (
        unpack "install.cuda"
          (record { name = "version"; kind = text } ∷ record { name = "cudnn?"; kind = text } ∷ [])
          args)
    ir (Rules.cuda (text_or "" (stored 0 vs)) (text_or "" (stored 1 vs)))

  unfoldable pub rule_func_vscode : Args → Step
  rule_func_vscode args = do
    vs ←
        or_refuse bad_arguments (
          unpack "install.vscode_extensions" (record { name = "name"; kind = list_kind } ∷ []) args)
    plugins ← to_string_slice (list_or_nil (stored 0 vs))
    ir (Rules.vscode_plugins (map codes plugins))

  unfoldable pub rule_func_conda_package : Args → Step
  rule_func_conda_package args = do
    vs ← or_refuse bad_arguments (
        unpack "install.conda_packages"
          (record { name = "name?"; kind = list_kind }
            ∷ record { name = "channel?"; kind = list_kind }
            ∷ record { name = "env_file?"; kind = text }
            ∷ [])
          args)
    names ← to_string_slice (list_or_nil (stored 0 vs))
    channels ← to_string_slice (list_or_nil (stored 1 vs))
    require (excludes_names (text_or "" (stored 2 vs)) names channels) files_exclude_names
    ir (Rules.conda_package names channels (text_or "" (stored 2 vs)))
