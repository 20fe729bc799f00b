-- ===== src/Frontend/Builtins.antt =====
-- The functions that the modules of pkg/lang/frontend/starlark/v1 register, by their names there:
-- `Module` of install, config, runtime, io and data, and `RegisterEnvdRules` of universe.
use envd.Frontend.{Args, Host, Step}
use envd.Frontend.Install
use envd.Frontend.Config
use envd.Frontend.Runtime
use envd.Frontend.Universe

pub data Builtin : Type 0 where
  install_python install_conda install_r_lang install_julia install_apt_packages : Builtin
  install_python_packages install_conda_packages install_r_packages : Builtin
  install_julia_packages install_cuda install_vscode_extensions : Builtin
  config_apt_source config_gpu config_jupyter config_cran_mirror config_pip_index : Builtin
  config_conda_channel config_julia_pkg_server config_rstudio_server : Builtin
  config_entrypoint config_repo config_owner : Builtin
  runtime_command runtime_daemon runtime_expose runtime_environ runtime_mount : Builtin
  runtime_init : Builtin
  base shell run git_config : Builtin
  io_copy io_http : Builtin
  data_envd : Builtin

module _ (h : Host) where
  unfoldable pub call : Builtin → Args → Step
  call install_python = Install.rule_func_python h
  call install_conda = Install.rule_func_conda h
  call install_r_lang = Install.rule_func_r_lang h
  call install_julia = Install.rule_func_julia h
  call install_apt_packages = Install.rule_func_system_package h
  call install_python_packages = Install.rule_func_pypi_package h
  call install_conda_packages = Install.rule_func_conda_package h
  call install_r_packages = Install.rule_func_r_package h
  call install_julia_packages = Install.rule_func_julia_package h
  call install_cuda = Install.rule_func_cuda h
  call install_vscode_extensions = Install.rule_func_vscode h
  call config_apt_source = Config.rule_func_ubuntu_apt_source h
  call config_gpu = Config.rule_func_gpu h
  call config_jupyter = Config.rule_func_jupyter h
  call config_cran_mirror = Config.rule_func_cran_mirror h
  call config_pip_index = Config.rule_func_pypi_index h
  call config_conda_channel = Config.rule_func_conda_channel h
  call config_julia_pkg_server = Config.rule_func_julia_package_server h
  call config_rstudio_server = Config.rule_func_rstudio_server h
  call config_entrypoint = Config.rule_func_entrypoint h
  call config_repo = Config.rule_func_repo h
  call config_owner = Config.rule_func_owner h
  call runtime_command = Runtime.rule_func_command h
  call runtime_daemon = Runtime.rule_func_daemon h
  call runtime_expose = Runtime.rule_func_expose h
  call runtime_environ = Runtime.rule_func_environ h
  call runtime_mount = Runtime.rule_func_mount h
  call runtime_init = Runtime.rule_func_init_script h
  call base = Universe.rule_func_base h
  call shell = Universe.rule_func_shell h
  call run = Universe.rule_func_run h
  call git_config = Universe.rule_func_git_config h
  call io_copy = Universe.rule_func_copy h
  call io_http = Universe.rule_func_http h
  call data_envd = Runtime.rule_value_envd_managed_data_source h
