-- ===== src/Engine/Ports.antt =====
-- The ports that `StartEnvd` of docker.go in pkg/envd binds to ports of the host.
use envd.Base.{String, Bool, true, false, Option, none, some, List, [], ◌∷◌, if◌then◌else◌}
use envd.Base.Text.{Text, text_eq}
use envd.Base.Int.{int_eq}
use envd.Base.Strings.Decimal.{ℤ, pos, itoa}
use envd.Graph.{Graph, ExposeItem, JupyterConfig}
use envd.Graph.Ports.{tcp, insert_port, ssh_port, jupyter_port, rstudio_server_port}
use envd.Engine.{Binding, Client, no_free_port, Result, ok, err, E, ◌>>=◌, pure}

-- The ports of the container, and those of the host that the labels name.
pub record Ports : Type 0 where
  pub bindings : List (Text × Binding)
  pub exposed : List Text
  pub jupyter : ℤ
  pub rstudio : ℤ

-- `hostConfig.PortBindings[natPort] = …`
unfoldable pub bind : List (Text × Binding) → Text → Binding → List (Text × Binding)
bind [] k v = (k, v) ∷ []
bind ((j, u) ∷ m) k v = if text_eq j k then (j, v) ∷ m else (j, u) ∷ bind m k v

abbrev pub bind_port : Text → String → ℤ → Ports → Ports
bind_port k ip port m = record m {
  bindings = bind m.bindings k (record { host_ip = ip; host_port = itoa port });
  exposed = insert_port m.exposed k;
}

abbrev pub localhost : String
localhost = "127.0.0.1"

unfoldable pub ssh_ports : String → ℤ → Ports
ssh_ports host port = record {
  bindings = bind [] (tcp ssh_port) (record { host_ip = host; host_port = itoa port });
  exposed = [];
  jupyter = pos 0;
  rstudio = pos 0;
}

module _ (c : Client) where
  open c use {State, free_port}

  abbrev pub or_no_port : Option ℤ × State → Result ℤ × State
  or_no_port (none, s) = (err no_free_port, s)
  or_no_port (some p, s) = (ok p, s)

  abbrev pub take_port : E State ℤ
  take_port s = or_no_port (free_port s)

  abbrev pub port_or_free : ℤ → E State ℤ
  port_or_free p = if int_eq p (pos 0) then take_port else pure p

  abbrev pub bind_jupyter : Option JupyterConfig → Ports → E State Ports
  bind_jupyter none m = pure m
  bind_jupyter (some jc) m = port_or_free jc.port >>= λ p.
      pure (record (bind_port (tcp jupyter_port) localhost p m) { jupyter = p })

  abbrev pub bind_rstudio : Bool → Ports → E State Ports
  bind_rstudio false m = pure m
  bind_rstudio true m = take_port >>= λ p.
      pure (record (bind_port (tcp rstudio_server_port) localhost p m) { rstudio = p })

  unfoldable pub bind_items : List ExposeItem → Ports → E State Ports
  bind_items [] m = pure m
  bind_items (item ∷ items) m = port_or_free item.host_port >>= λ p.
      bind_items items (bind_port (tcp item.envd_port) item.listening_addr p m)

  -- The ports of `StartEnvd`, in the order of the source.
  unfoldable pub bind_ports : String → ℤ → Graph → E State Ports
  bind_ports host ssh g = bind_jupyter g.jupyter_config (ssh_ports host ssh) >>= λ m.
      bind_rstudio g.rstudio_server_config m >>= λ m'. bind_items g.runtime.runtime_expose m'
