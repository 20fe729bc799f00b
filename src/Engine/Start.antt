-- ===== src/Engine/Start.antt =====
-- `StartEnvd` of docker.go in pkg/envd: the configuration of a container, and creating and starting it.
use envd.Base.{
  String, Bool, ◌*◌, ◌%◌, ◌^◌, ◌-◌, ltb, Option, none, some, List, [], ◌∷◌, ◌++◌ as append, map,
  if◌then◌else◌, str_eq, snoc,
}
use envd.Base.Text.{Text, codes}
use envd.Base.Int.{int_eq}
use envd.Base.Dict.{Dict, get, put}
use envd.Base.Native.{to_string}
use envd.Base.Strings.Decimal.{ℤ, pos, negsuc, itoa}
use envd.FilePath.{envd_home_dir, base_name}
use envd.Options.{split}
use envd.Graph.{Graph, MountInfo}
use envd.Graph.Ports.{is_set}
use envd.Engine.{
  Container, Mount, Config, HostConfig, Client, graph_not_found, gpu_not_installed, no_source,
  invalid_mount, port_is_allocated, Result, ok, err, contains, E, ◌>>=◌, ◌>>◌, pure, fail, call,
  wrap,
}
use envd.Engine.Docker.{clean_envd_if_exists, gpu_enabled, get_image}
use envd.Engine.Ports.{Ports, take_port, bind_ports}
use envd.Engine.Wait.{Tick, wait_until_running}

-- `StartOptions`, with the fields of its docker source.
pub record StartOptions : Type 0 where
  pub image : String
  pub environment_name : String
  pub build_context : Text
  pub num_gpu : ℤ
  pub num_cpu : String
  pub cpu_set : String
  pub num_mem : String
  pub shm_size : ℤ
  pub forced : Bool
  pub sshd_host : String
  pub graph : Option Graph
  pub mount_options : List Text

pub record StartResult : Type 0 where
  pub ssh_port : ℤ
  pub address : String
  pub name : String

-- The readers of other packages: a graph from its label, by the version of the syntax; the quota of a
-- number of processors on a system that is not Windows; a size of memory. `none` is an error.
pub record Readers : Type 0 where
  pub graph_from_label : String → String → Option Graph
  pub cpu_quota : String → Option ℤ
  pub ram_in_bytes : String → Option ℤ

-- The loop over the mount options, each `source:target`.
unfoldable pub option_mounts : List Text → Result (List Mount)
option_mounts [] = ok []
option_mounts (o ∷ os) = elim (split b':' o) [
  | a ∷ t ∷ [] ↦ elim (option_mounts os) [
    | err e ↦ err e
    | ok ms ↦ ok (record { source = a; target = t } ∷ ms)
  ]
  | _ ↦ err invalid_mount
]

abbrev declared : MountInfo → Mount
declared m = record { source = codes m.source; target = codes m.destination }

abbrev pub base_dir : StartOptions → String
base_dir so = envd_home_dir (to_string (base_name so.build_context) ∷ [])

unfoldable pub mounts_of : StartOptions → Graph → Result (List Mount)
mounts_of so g = elim (option_mounts so.mount_options) [
  | err e ↦ err e
  | ok ms ↦ ok (
      append ms (
        snoc (map declared g.mount)
          (record { source = so.build_context; target = codes (base_dir so) })))
]

-- `int64(n) * 1024 * 1024`, if it is positive.
unfoldable pub shm_bytes : ℤ → ℤ
shm_bytes (negsuc n) = pos 0
shm_bytes (pos n) =
    let r = (n * 1024 * 1024) % 2 ^ 64 in if ltb r (2 ^ 63) then pos r else negsuc (2 ^ 64 - 1 - r)

-- `labels`
unfoldable pub container_labels : Graph → String → ℤ → Ports → Dict Text
container_labels g name ssh m =
    let named = put [] "ai.tensorchord.envd.name" (codes name) in
    let with_ssh = put named "ai.tensorchord.envd.ssh.port" (itoa ssh) in
    let with_jupyter =
      if is_set g.jupyter_config
      then (put with_ssh "ai.tensorchord.envd.jupyter.address"
          (append (codes "http://127.0.0.1:") (itoa m.jupyter)))
      else with_ssh in
    if g.rstudio_server_config
    then (put with_jupyter "ai.tensorchord.envd.rstudio.server.address"
        (append (codes "http://127.0.0.1:") (itoa m.rstudio)))
    else with_jupyter

abbrev pub given : String → (String → Option ℤ) → Option ℤ
given s read = if str_eq s "" then none else read s

unfoldable pub host_config : Readers → StartOptions → List Mount → Ports → HostConfig
host_config w so mounts m = record {
  port_bindings = m.bindings;
  mounts = mounts;
  restart_policy = "always";
  shm_size = shm_bytes so.shm_size;
  cpu_quota = given so.num_cpu w.cpu_quota;
  cpuset_cpus = so.cpu_set;
  memory = given so.num_mem w.ram_in_bytes;
  gpus = if int_eq so.num_gpu (pos 0) then none else some so.num_gpu;
}

-- `getVerFromImageLabel`
abbrev pub version_label : Option String → String
version_label none = "v0"
version_label (some v) = v

module _ (c : Client) (w : Readers) where
  open c use {State, container_inspect, container_create, container_start}

  abbrev pub given_result : {A : Type 0} → Result A → E State A
  given_result r s = (r, s)

  abbrev pub need_gpu : ℤ → E State (Unit {0})
  need_gpu n =
      if int_eq n (pos 0)
      then pure tt
      else gpu_enabled c >>= λ b. if b then pure tt else fail gpu_not_installed

  abbrev label_graph : String → Dict String → Result Graph
  label_graph version labels = elim (get labels "ai.tensorchord.envd.graph.general") [
    | none ↦ err graph_not_found
    | some code ↦ elim (w.graph_from_label version code) [
      | none ↦ err graph_not_found
      | some g ↦ ok g
    ]
  ]

  -- The graph of the build, or that of the labels of the given image.
  unfoldable pub graph_of : StartOptions → E State Graph
  graph_of so =
      if str_eq so.image ""
      then given_result (elim so.graph [ none ↦ err no_source | some g ↦ ok g ])
      else get_image c so.image >>= λ first. get_image c so.image >>= λ labels.
          given_result
            (label_graph (version_label (get first "ai.tensorchord.envd.syntax.version")) labels)

  abbrev config_of : StartOptions → Graph → ℤ → Ports → Config
  config_of so g ssh m = record {
    image = so.image;
    working_dir = base_dir so;
    exposed_ports = m.exposed;
    labels = container_labels g so.environment_name ssh m;
  }

  abbrev start_created : String → E State Container
  start_created id =
      call (container_start id) (λ _. call (container_inspect id) (λ ctr. pure ctr) wrap)
        λ e.
          if contains e.cause (codes "port is already allocated")
          then fail port_is_allocated
          else wrap e

  abbrev create_with : StartOptions → Graph → ℤ → List Mount → E State Container
  create_with so g ssh mounts = bind_ports c so.sshd_host ssh g >>= λ m.
      call (container_create (config_of so g ssh m) (host_config w so mounts m) so.environment_name)
        start_created wrap

  -- `StartEnvd` up to the wait.
  unfoldable pub start_container : StartOptions → E State (ℤ × Container)
  start_container so = need_gpu so.num_gpu >> take_port c >>= λ ssh.
      clean_envd_if_exists c so.environment_name so.forced >> graph_of so >>= λ g.
      given_result (mounts_of so g) >>= λ mounts.
      create_with so g ssh mounts >>= λ ctr. pure (ssh, ctr)

  abbrev started :
      ℤ → Container → Option (Result (Unit {0})) × State → Option (Result StartResult) × State
  started ssh ctr (none, s) = (none, s)
  started ssh ctr (some (err e), s) = (some (err e), s)
  started ssh ctr (some (ok _), s) =
      (some (ok (record { ssh_port = ssh; address = ctr.ip_address; name = ctr.name })), s)

  abbrev wait_for : List Tick → Result (ℤ × Container) × State → Option (Result StartResult) × State
  wait_for ts (err e, s) = (some (err e), s)
  wait_for ts (ok (ssh, ctr), s) = started ssh ctr (wait_until_running c ctr.name ts s)

  -- `StartEnvd`, with what the wait receives.
  unfoldable pub start_envd : List Tick → StartOptions → State → Option (Result StartResult) × State
  start_envd ts so s = wait_for ts (start_container so s)
