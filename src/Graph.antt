-- ===== src/Graph.antt =====
-- pkg/lang/ir/v1: the graph that the rules of the build language fill.
pub mod Rules
pub mod Program
pub mod Labels
pub mod Ports
pub mod Owner
pub mod Compile
use envd.Base.{ℕ, Bool, true, false, String, Option, none, some, List, [], ◌∷◌}
use envd.Base.Dict.{Dict}
use envd.Base.Strings.Decimal.{ℤ, pos, negsuc}
use envd.Plugin.{Plugin}

-- pkg/lang/ir/types.go
pub record CopyInfo : Type 0 where
  pub source : String
  pub destination : String

pub record MountInfo : Type 0 where
  pub source : String
  pub destination : String

-- The checksum is a digest in its text, empty if there is none.
pub record HttpInfo : Type 0 where
  pub url : String
  pub checksum : String
  pub filename : String

pub record Language : Type 0 where
  pub name : String
  pub version : Option String

pub record CondaConfig : Type 0 where
  pub conda_packages : List String
  pub additional_channels : List String
  pub conda_channel : Option String
  pub conda_env_file_name : String
  pub use_micro_mamba : Bool

pub record GitConfig : Type 0 where
  pub name : String
  pub email : String
  pub editor : String

pub record ExposeItem : Type 0 where
  pub envd_port : ℤ
  pub host_port : ℤ
  pub service_name : String
  pub listening_addr : String

pub record JupyterConfig : Type 0 where
  pub token : String
  pub port : ℤ

pub record RunBuildCommand : Type 0 where
  pub commands : List String
  pub mount_host : Bool

pub record RuntimeGraph : Type 0 where
  pub runtime_commands : Dict String
  pub runtime_daemon : List (List String)
  pub runtime_init_script : List (List String)
  pub runtime_environ : Dict String
  pub runtime_env_paths : List String
  pub runtime_expose : List ExposeItem

-- pkg/types/envd.go
pub record RepoInfo : Type 0 where
  pub url : String
  pub description : String

-- `generalGraph` of pkg/lang/ir/v1/types.go, less the writer of the terminal interface.
pub record Graph : Type 0 where
  pub uid : ℤ
  pub gid : ℤ
  pub language : Language
  pub envd_syntax_version : String
  pub image : String
  pub user : String
  pub shell : String
  pub dev : Bool
  pub cuda : Option String
  pub cudnn : String
  pub num_gpus : ℤ
  pub ubuntu_apt_source : Option String
  pub cran_mirror_url : Option String
  pub julia_package_server : Option String
  pub pypi_index_url : Option String
  pub pypi_extra_index_url : Option String
  pub pypi_trust : Bool
  pub public_key_path : String
  pub pypi_packages : List (List String)
  pub requirements_file : Option String
  pub python_wheels : List String
  pub r_packages : List (List String)
  pub julia_packages : List (List String)
  pub system_packages : List String
  pub vscode_plugins : List Plugin
  pub user_directories : List String
  pub exec : List RunBuildCommand
  pub copy : List CopyInfo
  pub mount : List MountInfo
  pub http : List HttpInfo
  pub entrypoint : List String
  pub repo : RepoInfo
  pub jupyter_config : Option JupyterConfig
  pub git_config : Option GitConfig
  pub conda_config : Option CondaConfig
  pub rstudio_server_config : Bool
  pub environment_name : String
  pub runtime : RuntimeGraph

-- `NewGraph` of pkg/lang/ir/v1/compile.go. The default path of the system comes from buildkit.
abbrev pub new_graph : String → Graph
new_graph default_system_path = record {
  uid = negsuc 0;
  gid = negsuc 0;
  language = record { name = ""; version = none };
  envd_syntax_version = "v1";
  image = "ubuntu:20.04";
  user = "";
  shell = "bash";
  dev = false;
  cuda = none;
  cudnn = "8";
  num_gpus = pos 0;
  ubuntu_apt_source = none;
  cran_mirror_url = none;
  julia_package_server = none;
  pypi_index_url = none;
  pypi_extra_index_url = none;
  pypi_trust = false;
  public_key_path = "";
  pypi_packages = [];
  requirements_file = none;
  python_wheels = [];
  r_packages = [];
  julia_packages = [];
  system_packages = [];
  vscode_plugins = [];
  user_directories = [];
  exec = [];
  copy = [];
  mount = [];
  http = [];
  entrypoint = [];
  repo = record { url = ""; description = "" };
  jupyter_config = none;
  git_config = none;
  conda_config = none;
  rstudio_server_config = false;
  environment_name = "";
  runtime = record {
    runtime_commands = [];
    runtime_daemon = [];
    runtime_init_script = [];
    runtime_environ = [];
    runtime_env_paths = default_system_path ∷ [];
    runtime_expose = [];
  };
}
