-- ===== src/Home/State.antt =====
-- `generalManager` of pkg/home/manager.go, with the files that it keeps, and the types of
-- pkg/types/envd.go that it holds.
use envd.Base.{String, Bool, Option, none, List, [], ◌∷◌}
use envd.Base.Dict.{Dict}
use envd.Home.File.{File}

pub record Context : Type 0 where
  pub name : String
  pub builder : String
  pub builder_address : String
  pub runner : String
  pub runner_address : Option String

pub record EnvdContext : Type 0 where
  pub current : String
  pub contexts : List Context

pub record AuthConfig : Type 0 where
  pub name : String
  pub jwt_token : String

pub record EnvdAuth : Type 0 where
  pub current : String
  pub auth : List AuthConfig

pub record Manager : Type 0 where
  pub cache_map : Dict Bool
  pub context : EnvdContext
  pub auth : EnvdAuth
  pub context_file : Option (File EnvdContext)
  pub cache_status_file : Option (File (Dict Bool))
  pub auth_file : Option (File EnvdAuth)

-- The value that `Initialize` builds before it reads any file. The builder is `moby-worker` if the
-- version of docker is known and above 22.
abbrev pub default_context : Bool → Context
default_context moby = record {
  name = "default";
  builder = elim moby [ Bool.true ↦ "moby-worker" | Bool.false ↦ "docker-container" ];
  builder_address = "envd_buildkitd";
  runner = "docker";
  runner_address = none;
}

abbrev pub default_manager :
    Bool → Option (File EnvdContext) → Option (File (Dict Bool)) → Option (File EnvdAuth) → Manager
default_manager moby contexts cache auth = record {
  cache_map = [];
  context = record { current = "default"; contexts = default_context moby ∷ [] };
  auth = record { current = ""; auth = [] };
  context_file = contexts;
  cache_status_file = cache;
  auth_file = auth;
}
