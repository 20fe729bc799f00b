-- ===== src/Engine/Docker.antt =====
-- docker.go of pkg/envd: the methods on one container or image. A method that runs one call after the
-- other has a helper for the rest of its body, which is named for what it does.
use envd.Base.{String, Bool, true, false, [], ◌∷◌, if◌then◌else◌, str_eq}
use envd.Base.Text.{Text, codes}
use envd.Base.Dict.{Dict}
use envd.Base.Strings.Decimal.{ℤ}
use envd.Ssh.Entry.{EntryOptions}
use envd.Base.Text.{has_suffix}
use envd.Engine.{
  ApiError, Client, container_not_found, image_not_found, contains, E, ◌>>=◌, pure, fail, call,
  wrap,
}

abbrev says : ApiError → String → Bool
says e t = contains e.cause (codes t)

abbrev pub no_such_container : ApiError → Bool
no_such_container e = says e "No such container"

-- `GenerateSSHConfig`, by the port of the start's result.
unfoldable pub generate_ssh_config : Text → Text → Text → ℤ → EntryOptions
generate_ssh_config name iface private_key_path ssh_port = record {
  name = name;
  iface = iface;
  port = ssh_port;
  private_key_path = private_key_path;
  enable_host_key_check = false;
  enable_agent_forward = true;
  user = [];
}

module _ (c : Client) where
  open c use {
    State, container_inspect, container_pause, container_unpause, container_kill, container_remove,
    image_remove, image_list, info,
  }

  unfoldable pub pause_environment : String → E State String
  pause_environment env =
      call (container_pause env) (λ _. pure env)
        λ e.
          if says e "is already paused"
          then pure ""
          else if no_such_container e
          then fail container_not_found
          else wrap e

  unfoldable pub resume_environment : String → E State String
  resume_environment env =
      call (container_unpause env) (λ _. pure env)
        λ e.
          if says e "is not paused"
          then pure ""
          else if no_such_container e
          then fail container_not_found
          else wrap e

  unfoldable pub exists : String → E State Bool
  exists cname =
      call (container_inspect cname) (λ _. pure true)
        λ e. if e.not_found then pure false else wrap e

  unfoldable pub is_running : String → E State Bool
  is_running cname =
      call (container_inspect cname) (λ ctr. pure ctr.running)
        λ e. if e.not_found then pure false else wrap e

  abbrev remove_if : String → Bool → Bool → E State (Unit {0})
  remove_if name force true = call (container_remove name force) (λ _. pure tt) wrap
  remove_if name force false = pure tt

  unfoldable pub clean_envd_if_exists : String → Bool → E State (Unit {0})
  clean_envd_if_exists name force = exists name >>= remove_if name force

  abbrev pub remove_image : String → String → E State String
  remove_image name image = call (image_remove image) (λ _. pure name) wrap

  abbrev pub remove_both : String → String → E State String
  remove_both name image = call (container_remove name false) (λ _. remove_image name image) wrap

  -- The error of killing decides.
  abbrev pub after_kill : String → String → ApiError → E State String
  after_kill name image e =
      if says e "is not running"
      then remove_both name image
      else if no_such_container e
      then pure ""
      else wrap e

  abbrev pub kill_and_remove : String → String → E State String
  kill_and_remove name image =
      call (container_kill name) (λ _. remove_both name image) (after_kill name image)

  -- `Destroy`
  unfoldable pub destroy : String → E State String
  destroy name =
      call (container_inspect name) (λ ctr. kill_and_remove name ctr.image)
        λ e. if no_such_container e then pure "" else wrap e

  -- `GPUEnabled`
  unfoldable pub gpu_enabled : E State Bool
  gpu_enabled =
      call info
        (λ i.
          pure
            (if str_eq i.nvidia_path "" then has_suffix i.kernel_version (codes "WSL2") else true))
        wrap

  -- `GetImage`, with the labels of the first image of the name. Labels that cannot be read are an error of
  -- the call.
  unfoldable pub get_image : String → E State (Dict String)
  get_image image =
      call (image_list image)
        (λ images. elim images [ [] ↦ fail image_not_found | labels ∷ _ ↦ pure labels ]) wrap
