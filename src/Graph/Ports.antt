-- ===== src/Graph/Ports.antt =====
-- pkg/lang/ir/v1/compile.go: the ports that an image exposes and the ports its label names.
use envd.Base.{
  Bool, true, false, String, ◌||◌, ◌&&◌, Option, none, some, List, [], ◌∷◌, ◌++◌, ◌≡◌, refl, sym,
  ap, ◌∙◌, arith, if◌then◌else◌, All,
}
use envd.Base.Text.{Text, codes, text_eq, text_eq_iff}
use envd.Base.Int.{to_int32, to_int32_id, FitsInt32}
use envd.Base.Strings.Decimal.{ℤ, pos, itoa}
use envd.Graph.{Graph, ExposeItem}

-- `EnvironmentPort` of the server's types.
pub record EnvironmentPort : Type 0 where
  pub name : String
  pub port : ℤ

-- pkg/config
abbrev pub ssh_port : ℤ
ssh_port = pos 2222

abbrev pub jupyter_port : ℤ
jupyter_port = pos 8888

abbrev pub rstudio_server_port : ℤ
rstudio_server_port = pos 8787

-- `fmt.Sprintf("%d/tcp", p)`
abbrev pub tcp : ℤ → Text
tcp p = itoa p ++ codes "/tcp"

-- A set of keys: `m[k] = struct{}{}`.
abbrev pub has_port : List Text → Text → Bool
has_port [] k = false
has_port (j ∷ js) k = text_eq j k || has_port js k

unfoldable pub insert_port : List Text → Text → List Text
insert_port m k = if has_port m k then m else m ++ (k ∷ [])

unfoldable pub insert_items : List Text → List ExposeItem → List Text
insert_items m [] = m
insert_items m (item ∷ items) = insert_items (insert_port m (tcp item.envd_port)) items

abbrev pub insert_if : Bool → ℤ → List Text → List Text
insert_if b p m = if b then insert_port m (tcp p) else m

abbrev pub is_set {ℓ} : {A : Type ℓ} → Option A → Bool
is_set none = false
is_set (some _) = true

-- `ExposedPorts`
unfoldable pub exposed_ports : Graph → List Text
exposed_ports g =
    if g.dev
    then (insert_items
        (insert_if g.rstudio_server_config rstudio_server_port
          (insert_if (is_set g.jupyter_config) jupyter_port (insert_port [] (tcp ssh_port))))
        g.runtime.runtime_expose)
    else []

abbrev pub port_items : List ExposeItem → List EnvironmentPort
port_items [] = []
port_items (item ∷ items) =
    record { name = item.service_name; port = to_int32 item.envd_port } ∷ port_items items

abbrev pub port_if : Bool → String → ℤ → List EnvironmentPort
port_if b name p = if b then record { name = name; port = p } ∷ [] else []

-- The list `ports` of `Labels`.
unfoldable pub environment_ports : Graph → List EnvironmentPort
environment_ports g =
    (record { name = "ssh"; port = ssh_port } ∷ [])
    ++ port_if (is_set g.jupyter_config) "jupyter" jupyter_port
    ++ port_if g.rstudio_server_config "rstudio-server" rstudio_server_port
    ++ port_items g.runtime.runtime_expose

-- `k` is the key of one of the ports.
abbrev pub names_port : List EnvironmentPort → Text → Bool
names_port [] k = false
names_port (p ∷ ps) k = text_eq (tcp p.port) k || names_port ps k

abbrev pub AllFit : List ExposeItem → Type 0
AllFit items = All (λ item. FitsInt32 item.envd_port) items

has_port-append :
    (m : List Text) (x k : Text) → has_port (m ++ (x ∷ [])) k ≡ (has_port m k || text_eq x k)
has_port-append [] x k = ground arith
has_port-append (j ∷ m) x k = ground (arith, has_port-append m x k)

has_port-equal :
    (m : List Text) (x k : Text) → text_eq x k ≡ true → has_port m x ≡ true → has_port m k ≡ true
has_port-equal m x k e h = ap (has_port m) (sym ((text_eq_iff x k).0 e)) ∙ h

has_port-insert_port :
    (m : List Text) (x k : Text) → has_port (insert_port m x) k ≡ (has_port m k || text_eq x k)
unfolding insert_port
has_port-insert_port m x k = ground (arith, has_port-append m x k, has_port-equal m x k)

names_port-append :
    (ps qs : List EnvironmentPort) (k : Text)
    → names_port (ps ++ qs) k ≡ (names_port ps k || names_port qs k)
names_port-append [] qs k = ground arith
names_port-append (p ∷ ps) qs k = ground (arith, names_port-append ps qs k)

has_port-insert_items :
    (items : List ExposeItem) (m : List Text) (k : Text)
    → AllFit items
    → has_port (insert_items m items) k ≡ (has_port m k || names_port (port_items items) k)
unfolding insert_items
has_port-insert_items [] m k h = ground arith
has_port-insert_items (item ∷ items) m k h =
    let rest = has_port-insert_items items (insert_port m (tcp item.envd_port)) k h.1 in
    let one = has_port-insert_port m (tcp item.envd_port) k in
    let same = ap (λ p. text_eq (tcp p) k) (to_int32_id item.envd_port h.0) in
    ground (arith, rest, one, same)

has_port-insert_if :
    (b : Bool) (p : ℤ) (m : List Text) (k : Text)
    → has_port (insert_if b p m) k ≡ (has_port m k || (b && text_eq (tcp p) k))
has_port-insert_if true p m k = has_port-insert_port m (tcp p) k
has_port-insert_if false p m k = ground arith

names_port-port_if :
    (b : Bool) (name : String) (p : ℤ) (k : Text)
    → names_port (port_if b name p) k ≡ (b && text_eq (tcp p) k)
names_port-port_if true name p k = ground arith
names_port-port_if false name p k = refl

-- A development image exposes port p over TCP exactly if its label names that port, provided the
-- ports of its build file fit in 32 bits, and an image that is not for development exposes none.
pub has_port-exposed_ports :
    (g : Graph) (k : Text)
    → AllFit g.runtime.runtime_expose
    → has_port (exposed_ports g) k ≡ (g.dev && names_port (environment_ports g) k)
unfolding exposed_ports environment_ports
has_port-exposed_ports g k h =
    let jupyter =
      insert_if (is_set g.jupyter_config) jupyter_port (insert_port [] (tcp ssh_port)) in
    let rstudio = insert_if g.rstudio_server_config rstudio_server_port jupyter in
    let labelled_items = port_items g.runtime.runtime_expose in
    let labelled_rstudio = port_if g.rstudio_server_config "rstudio-server" rstudio_server_port in
    let labelled_jupyter = port_if (is_set g.jupyter_config) "jupyter" jupyter_port in
    ground (
      arith,
      has_port-insert_items g.runtime.runtime_expose rstudio k h,
      has_port-insert_if g.rstudio_server_config rstudio_server_port jupyter k,
      has_port-insert_if (is_set g.jupyter_config) jupyter_port (insert_port [] (tcp ssh_port)) k,
      has_port-insert_port [] (tcp ssh_port) k,
      names_port-append labelled_jupyter (labelled_rstudio ++ labelled_items) k,
      names_port-append labelled_rstudio labelled_items k,
      names_port-port_if (is_set g.jupyter_config) "jupyter" jupyter_port k,
      names_port-port_if g.rstudio_server_config "rstudio-server" rstudio_server_port k,
    )
