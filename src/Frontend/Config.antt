-- ===== src/Frontend/Config.antt =====
-- pkg/lang/frontend/starlark/v1/config/config.go
use envd.Base.{false, [], ◌∷◌, ◌&&◌, if◌then◌else◌}
use envd.Base.Strings.Decimal.{pos, negsuc}
use envd.Graph.Rules
use envd.Frontend.{
  text, boolean, go_int, big_int, list_kind, Args, Host, bad_arguments, bad_port, bad_owner,
  none_value, Step, ◌>>=◌, ◌>>◌, require, or_refuse, ir, return, stored, text_or, flag_or, int_or,
  list_or_nil, to_string_slice, is_int64, is_between,
}

module _ (h : Host) where
  open h use {unpack}

  -- A count beyond 64 bits is left out without an error.
  unfoldable pub rule_func_gpu : Args → Step
  rule_func_gpu args = do
    vs ←
        or_refuse bad_arguments
          (unpack "config.gpu" (record { name = "count?"; kind = big_int } ∷ []) args)
    let n = int_or (pos 0) (stored 0 vs)
    if is_int64 n then ir (Rules.gpu n) else return none_value

  unfoldable pub rule_func_jupyter : Args → Step
  rule_func_jupyter args = do
    vs ← or_refuse bad_arguments (
        unpack "config.jupyter"
          (record { name = "token?"; kind = text } ∷ record { name = "port?"; kind = big_int } ∷ [])
          args)
    require (is_int64 (int_or (pos 0) (stored 1 vs))) bad_port
    ir (Rules.jupyter (text_or "" (stored 0 vs)) (int_or (pos 0) (stored 1 vs)))

  unfoldable pub rule_func_pypi_index : Args → Step
  rule_func_pypi_index args = do
    vs ← or_refuse bad_arguments (
        unpack "config.pip_index"
          (record { name = "url"; kind = text }
            ∷ record { name = "extra_url?"; kind = text }
            ∷ record { name = "trust?"; kind = boolean }
            ∷ [])
          args)
    ir (
        Rules.pypi_index (text_or "" (stored 0 vs)) (text_or "" (stored 1 vs))
          (flag_or false (stored 2 vs)))

  unfoldable pub rule_func_cran_mirror : Args → Step
  rule_func_cran_mirror args = do
    vs ←
        or_refuse bad_arguments
          (unpack "config.cran_mirror" (record { name = "url?"; kind = text } ∷ []) args)
    ir (Rules.cran_mirror (text_or "" (stored 0 vs)))

  unfoldable pub rule_func_julia_package_server : Args → Step
  rule_func_julia_package_server args = do
    vs ←
        or_refuse bad_arguments
          (unpack "config.julia_pkg_server" (record { name = "url?"; kind = text } ∷ []) args)
    ir (Rules.julia_package_server (text_or "" (stored 0 vs)))

  unfoldable pub rule_func_ubuntu_apt_source : Args → Step
  rule_func_ubuntu_apt_source args = do
    vs ←
        or_refuse bad_arguments
          (unpack "config.apt_source" (record { name = "source?"; kind = text } ∷ []) args)
    ir (Rules.ubuntu_apt (text_or "" (stored 0 vs)))

  unfoldable pub rule_func_rstudio_server : Args → Step
  rule_func_rstudio_server args = ir Rules.rstudio_server

  unfoldable pub rule_func_conda_channel : Args → Step
  rule_func_conda_channel args = do
    vs ←
        or_refuse bad_arguments
          (unpack "config.conda_channel" (record { name = "channel?"; kind = text } ∷ []) args)
    ir (Rules.conda_channel (text_or "" (stored 0 vs)))

  unfoldable pub rule_func_entrypoint : Args → Step
  rule_func_entrypoint args = do
    vs ←
        or_refuse bad_arguments
          (unpack "config.entrypoint" (record { name = "args"; kind = list_kind } ∷ []) args)
    argv ← to_string_slice (list_or_nil (stored 0 vs))
    ir (Rules.entrypoint argv)

  unfoldable pub rule_func_repo : Args → Step
  rule_func_repo args = do
    vs ← or_refuse bad_arguments (
        unpack "config.repo"
          (record { name = "url"; kind = text }
            ∷ record { name = "description?"; kind = text }
            ∷ [])
          args)
    ir (Rules.repo (text_or "" (stored 0 vs)) (text_or "" (stored 1 vs)))

  unfoldable pub rule_func_owner : Args → Step
  rule_func_owner args = do
    vs ← or_refuse bad_arguments (
        unpack "config.owner"
          (record { name = "uid"; kind = go_int } ∷ record { name = "gid"; kind = go_int } ∷ [])
          args)
    let uid = int_or (negsuc 0) (stored 0 vs)
    let gid = int_or (negsuc 0) (stored 1 vs)
    require (is_between 0 uid && is_between 0 gid) bad_owner
    ir (Rules.owner uid gid)
