-- ===== src/Tests/Engine.antt =====
-- The engine of pkg/envd at concrete inputs, with a daemon that is a list of containers.
use envd.Base.{
  String, Bool, true, false, ◌||◌, some, List, [], ◌∷◌, ◌≡◌, refl, arith, str_eq, if◌then◌else◌,
  inl, inr, Bool-cases,
}
use envd.Base.Text.{codes}
use envd.Base.Int.{int_eq}
use envd.Base.Strings.Decimal.{pos}
use envd.Graph.{Graph, new_graph}
use envd.Graph.Ports.{exposed_ports}
use envd.Engine.{ApiError, Reply, replied, failed, Container, Client, timed_out, Result, ok, err}
use envd.Engine.Docker.{destroy, is_running}
use envd.Engine.Removed.{IsDaemon, destroy-removes}
use envd.Engine.Wait.{interval, expired, wait_until_running}
use envd.Engine.Ports.{Ports, bind_ports, bind_items}
use envd.Engine.Bindings.{keys, keys-bind_ports}

abbrev has : List String → String → Bool
has [] n = false
has (m ∷ s) n = str_eq m n || has s n

abbrev without : List String → String → List String
without [] n = []
without (m ∷ s) n = if str_eq m n then without s n else m ∷ without s n

abbrev missing : ApiError
missing = record { cause = codes "Error: No such container: demo"; not_found = true }

abbrev running_container : String → Container
running_container n = record {
  name = n;
  image = "demo:dev";
  ip_address = "172.17.0.2";
  running = true;
  labels = [];
}

abbrev if_there : {A : Type 0} → A → String → List String → List String → Reply A × List String
if_there a n s s' = if has s n then (replied a, s') else (failed missing, s)

abbrev daemon : Client
daemon = record {
  State = List String;
  container_inspect = λ n s. if_there (running_container n) n s s;
  container_pause = λ n s. if_there tt n s s;
  container_unpause = λ n s. if_there tt n s s;
  container_kill = λ n s. if_there tt n s s;
  container_remove = λ n force s. if_there tt n s (without s n);
  container_create = λ config host n s. (replied n, n ∷ s);
  container_start = λ n s. if_there tt n s s;
  image_remove = λ image s. (replied tt, s);
  image_list = λ image s. (replied [], s);
  info = λ s. (replied (record { nvidia_path = ""; kernel_version = [] }), s);
  free_port = λ s. (some (pos 40000), s);
}

has-without : (s : List String) (n : String) → has (without s n) n ≡ false
has-without [] n = refl
has-without (m ∷ s) n = ground (arith, has-without s n)

replied_failed : {A : Type 0} {a : A} {e : ApiError} → replied a ≡ failed e → ⊥
replied_failed p = cc

failed_missing :
    {A : Type 0} (a : A) (n : String) (s s' : List String) (e : ApiError)
    → (if_there a n s s').0 ≡ failed e
    → has s n ≡ false
failed_missing a n s s' e p = elim (Bool-cases (has s n)) [
  | inl h ↦ absurd (replied_failed (rw h at p))
  | inr h ↦ h
]

daemon-IsDaemon : IsDaemon daemon has
daemon-IsDaemon = record {
  inspect_keeps = λ n s. ground arith;
  inspect_missing = λ n s e p q. failed_missing (running_container n) n s s e p;
  inspect_not_found = λ n s e p q. failed_missing (running_container n) n s s e p;
  kill_missing = λ n s e p q. ground (arith, failed_missing tt n s s e p);
  remove_removes = λ n force s p. ground (arith, has-without s n, p);
  image_remove_keeps = λ n image s h. h;
}

destroys : destroy daemon "demo" ("other" ∷ "demo" ∷ []) ≡ (ok "demo", "other" ∷ [])
unfolding destroy
destroys = refl

destroy-removes_example : has ("other" ∷ []) "demo" ≡ false
destroy-removes_example =
    destroy-removes daemon has daemon-IsDaemon "demo" "demo" ("other" ∷ "demo" ∷ []) ("other" ∷ [])
      destroys

waits :
    wait_until_running daemon "demo" (interval ∷ expired ∷ []) ("demo" ∷ [])
    ≡ (some (ok tt), "demo" ∷ [])
unfolding wait_until_running is_running
waits = refl

gives_up : (wait_until_running daemon "demo" (interval ∷ expired ∷ []) []).0 ≡ some (err timed_out)
unfolding wait_until_running is_running
gives_up = refl

abbrev dev_graph : Graph
dev_graph = record (new_graph "/bin") {
  dev = true;
  jupyter_config = some (record { token = ""; port = pos 8888 });
  rstudio_server_config = true;
}

abbrev ports_of : Result Ports → Ports
ports_of (ok m) = m
ports_of (err e) = record { bindings = []; exposed = []; jupyter = pos 0; rstudio = pos 0 }

abbrev bound : Ports
bound = ports_of (bind_ports daemon "127.0.0.1" (pos 2022) dev_graph []).0

binds : bind_ports daemon "127.0.0.1" (pos 2022) dev_graph [] ≡ (ok bound, [])
unfolding bind_ports bind_items int_eq
binds = refl

keys-bind_ports_example : keys bound.bindings ≡ exposed_ports dev_graph
keys-bind_ports_example =
    keys-bind_ports daemon "127.0.0.1" (pos 2022) dev_graph bound [] [] refl binds
