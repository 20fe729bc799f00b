-- ===== src/Engine.antt =====
-- pkg/envd: the engine over the docker daemon. Here are the client of the daemon as the engine calls
-- it, and the engine's results.
pub mod Docker
pub mod Wait
pub mod Ports
pub mod Start
pub mod Removed
pub mod Bindings
use envd.Base.{ℕ, String, Bool, true, false, ◌||◌, Option, none, some, List, [], ◌∷◌, if◌then◌else◌}
use envd.Base.Text.{Text, codes}
use envd.Base.Dict.{Dict}
use envd.Base.Strings.Space.{has_prefix}
use envd.Base.Strings.Decimal.{ℤ}

-- An error of the daemon: the text of its cause, and what `client.IsErrNotFound` says of it.
pub record ApiError : Type 0 where
  pub cause : Text
  pub not_found : Bool

pub data Reply {ℓ} (A : Type ℓ) : Type ℓ where
  replied : A → Reply A
  failed : ApiError → Reply A

pub record Container : Type 0 where
  pub name : String
  pub image : String
  pub ip_address : String
  pub running : Bool
  pub labels : Dict String

pub record Info : Type 0 where
  pub nvidia_path : String
  pub kernel_version : Text

pub record Binding : Type 0 where
  pub host_ip : String
  pub host_port : Text

pub record Mount : Type 0 where
  pub source : Text
  pub target : Text

-- `container.Config` and `container.HostConfig`, the fields that the engine sets.
pub record Config : Type 0 where
  pub image : String
  pub working_dir : String
  pub exposed_ports : List Text
  pub labels : Dict Text

pub record HostConfig : Type 0 where
  pub port_bindings : List (Text × Binding)
  pub mounts : List Mount
  pub restart_policy : String
  pub shm_size : ℤ
  pub cpu_quota : Option ℤ
  pub cpuset_cpus : String
  pub memory : Option ℤ
  pub gpus : Option ℤ

-- The daemon, with a free port of the host.
pub record Client : Type 1 where
  pub State : Type 0
  pub container_inspect : String → State → Reply Container × State
  pub container_pause : String → State → Reply (Unit {0}) × State
  pub container_unpause : String → State → Reply (Unit {0}) × State
  pub container_kill : String → State → Reply (Unit {0}) × State
  pub container_remove : String → Bool → State → Reply (Unit {0}) × State
  pub container_create : Config → HostConfig → String → State → Reply String × State
  pub container_start : String → State → Reply (Unit {0}) × State
  pub image_remove : String → State → Reply (Unit {0}) × State
  pub image_list : String → State → Reply (List (Dict String)) × State
  pub info : State → Reply Info × State
  pub free_port : State → Option ℤ × State

pub data Error : Type 0 where
  api : ApiError → Error
  container_not_found image_not_found graph_not_found timed_out gpu_not_installed : Error
  no_free_port no_source invalid_mount port_is_allocated : Error

pub data Result {ℓ} (A : Type ℓ) : Type ℓ where
  ok : A → Result A
  err : Error → Result A

-- `strings.Contains(s, sub)`
unfoldable pub contains : Text → Text → Bool
contains [] sub = has_prefix [] sub
contains (c ∷ s) sub = has_prefix (c ∷ s) sub || contains s sub

-- A method of the engine, on the states `S` of the daemon.
abbrev pub E : Type 0 → Type 0 → Type 0
E S A = S → Result A × S

abbrev pub next : {S A B : Type 0} → (A → E S B) → Result A × S → Result B × S
next k (ok a, s) = k a s
next k (err e, s) = (err e, s)

infixl 5 ◌>>=◌ ◌>>◌
abbrev pub ◌>>=◌ : {S A B : Type 0} → E S A → (A → E S B) → E S B
◌>>=◌ m k s = next k (m s)

abbrev pub ◌>>◌ : {S B : Type 0} → E S (Unit {0}) → E S B → E S B
m >> k = m >>= λ _. k

abbrev pub pure : {S A : Type 0} → A → E S A
pure a s = (ok a, s)

abbrev pub fail : {S A : Type 0} → Error → E S A
fail e s = (err e, s)

abbrev pub settle : {S A B : Type 0} → (A → E S B) → (ApiError → E S B) → Reply A × S → Result B × S
settle k h (replied a, s) = k a s
settle k h (failed e, s) = h e s

-- A call of the daemon, with what follows its answer and what follows its error.
abbrev pub call : {S A B : Type 0} → (S → Reply A × S) → (A → E S B) → (ApiError → E S B) → E S B
call m k h s = settle k h (m s)

-- `errors.Wrap(err, …)`
abbrev pub wrap : {S A : Type 0} → ApiError → E S A
wrap e = fail (api e)
