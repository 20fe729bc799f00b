-- ===== src/V0.antt =====
-- pkg/lang/ir/v0: the graph of the default version of the build language.
pub mod Rules
pub mod Labels
pub mod Compile
use envd.Base.{suc, Bool, true, false, String, Option, none, some, List, [], ◌∷◌, if◌then◌else◌}
use envd.Base.Strings.Decimal.{ℤ, pos}
use envd.Plugin.{Plugin}
use envd.Graph.{
  CopyInfo, MountInfo, HttpInfo, Language, CondaConfig, GitConfig, JupyterConfig, RunBuildCommand,
  RuntimeGraph, RepoInfo,
}

-- `generalGraph` of types.go, less the writer of the terminal interface. `NewGraph` sets the
-- configuration of conda, and nothing clears it.
pub record Graph : Type 0 where
  pub uid : ℤ
  pub gid : ℤ
  pub os : String
  pub language : Language
  pub envd_syntax_version : String
  pub image : Option String
  pub shell : String
  pub cuda : Option String
  pub cudnn : String
  pub num_gpus : ℤ
  pub ubuntu_apt_source : Option String
  pub cran_mirror_url : Option String
  pub julia_package_server : Option String
  pub pypi_index_url : Option String
  pub pypi_extra_index_url : Option String
  pub pypi_trust : Bool
  pub public_key_path : String
  pub pypi_packages : List (List String)
  pub requirements_file : Option String
  pub python_wheels : List String
  pub r_packages : List String
  pub julia_packages : List String
  pub system_packages : List String
  pub vscode_plugins : List Plugin
  pub user_directories : List String
  pub exec : List RunBuildCommand
  pub copy : List CopyInfo
  pub mount : List MountInfo
  pub http : List HttpInfo
  pub entrypoint : List String
  pub repo : RepoInfo
  pub jupyter_config : Option JupyterConfig
  pub git_config : Option GitConfig
  pub conda_config : CondaConfig
  pub rstudio_server_config : Bool
  pub environment_name : String
  pub runtime : RuntimeGraph

-- `NewGraph` of compile.go. The default path of the system comes from buildkit.
abbrev pub new_graph : String → Graph
new_graph default_system_path = record {
  uid = pos 0;
  gid = pos 0;
  os = "ubuntu20.04";
  language = record { name = "python"; version = some "3" };
  envd_syntax_version = "v0";
  image = none;
  shell = "bash";
  cuda = none;
  cudnn = "8";
  num_gpus = pos 0;
  ubuntu_apt_source = none;
  cran_mirror_url = none;
  julia_package_server = none;
  pypi_index_url = none;
  pypi_extra_index_url = none;
  pypi_trust = false;
  public_key_path = "";
  pypi_packages = [];
  requirements_file = none;
  python_wheels = [];
  r_packages = [];
  julia_packages = [];
  system_packages = [];
  vscode_plugins = [];
  user_directories = [];
  exec = [];
  copy = [];
  mount = [];
  http = [];
  entrypoint = [];
  repo = record { url = ""; description = "" };
  jupyter_config = none;
  git_config = none;
  conda_config = record {
    conda_packages = [];
    additional_channels = [];
    conda_channel = none;
    conda_env_file_name = "";
    use_micro_mamba = false;
  };
  rstudio_server_config = false;
  environment_name = "";
  runtime = record {
    runtime_commands = [];
    runtime_daemon = [];
    runtime_init_script = [];
    runtime_environ = [];
    runtime_env_paths = default_system_path ∷ [];
    runtime_expose = [];
  };
}
