-- ===== src/Engine/Bindings.antt =====
-- The ports that `StartEnvd` of docker.go in pkg/envd binds, and those that the image exposes
-- (`ExposedPorts` of pkg/lang/ir/v1/compile.go).
use envd.Base.{
  String, Bool, true, false, Option, none, some, List, [], ◌∷◌, ◌≡◌, refl, sym, ap, ◌∙◌, arith, map,
  inl, inr, Bool-cases,
}
use envd.Base.Text.{Text, text_eq}
use envd.Base.Strings.Decimal.{ℤ}
use envd.Graph.{Graph, ExposeItem, JupyterConfig}
use envd.Graph.Ports.{
  tcp, insert_port, insert_items, insert_if, exposed_ports, is_set, ssh_port, jupyter_port,
  rstudio_server_port,
}
use envd.Engine.{Binding, Client, Result, ok, err, E, next, pure}
use envd.Engine.Ports.{
  Ports, bind, ssh_ports, take_port, port_or_free, bind_jupyter, bind_rstudio, bind_items,
  bind_ports,
}
use envd.Engine.Removed.{result_conflict}

ok_inj : {A : Type 0} (a b : A) → ok a ≡ ok b → a ≡ b
ok_inj a b p = cc

abbrev pub keys : List (Text × Binding) → List Text
keys m = map (λ (e : Text × Binding). e.0) m

keys-bind :
    (m : List (Text × Binding)) (k : Text) (v : Binding)
    → keys (bind m k v) ≡ insert_port (keys m) k
unfolding bind insert_port
keys-bind [] k v = refl
keys-bind ((j, u) ∷ m) k v = elim (Bool-cases (text_eq j k)) [
  | inl e ↦ ground (arith, e)
  | inr e ↦ ground (arith, e, keys-bind m k v)
]

next_ok :
    {S A B : Type 0} (k : A → E S B) (r : Result A × S) (x : B) (s' : S)
    → next k r ≡ (ok x, s')
    → (a : A) × (r ≡ (ok a, r.1)) × (k a r.1 ≡ (ok x, s'))
next_ok k (ok a, s) x s' p = (a, refl, p)
next_ok k (err e, s) x s' p = absurd (result_conflict e x (ap (λ (y : Result _ × _). y.0) p))

module _ (c : Client) where
  -- A step that adds the ports `f` adds, where it ends well.
  abbrev Adds : (Ports → E c.State Ports) → (List Text → List Text) → Type 0
  Adds step f =
      (m m' : Ports) (s s' : c.State)
      → step m s ≡ (ok m', s')
      → keys m'.bindings ≡ f (keys m.bindings)

  bindings_kept :
      (m m' : Ports) (s s' : c.State) → pure m s ≡ (ok m', s') → keys m'.bindings ≡ keys m.bindings
  bindings_kept m m' s s' p =
      ap (λ (x : Ports). keys x.bindings)
        (sym (ok_inj m m' (ap (λ (x : Result Ports × c.State). x.0) p)))

  bind_jupyter-Adds :
      (jc : Option JupyterConfig) → Adds (bind_jupyter c jc) (insert_if (is_set jc) jupyter_port)
  bind_jupyter-Adds none m m' s s' p = bindings_kept m m' s s' p
  bind_jupyter-Adds (some jc) m m' s s' p =
      let (port, e, q) = next_ok _ (port_or_free c jc.port s) m' s' p in
      bindings_kept _ m' _ s' q ∙ keys-bind m.bindings (tcp jupyter_port) _

  bind_rstudio-Adds : (b : Bool) → Adds (bind_rstudio c b) (insert_if b rstudio_server_port)
  bind_rstudio-Adds false m m' s s' p = bindings_kept m m' s s' p
  bind_rstudio-Adds true m m' s s' p =
      let (port, e, q) = next_ok _ (take_port c s) m' s' p in
      bindings_kept _ m' _ s' q ∙ keys-bind m.bindings (tcp rstudio_server_port) _

  bind_items-Adds :
      (items : List ExposeItem) → Adds (bind_items c items) (λ ks. insert_items ks items)
  unfolding bind_items insert_items
  bind_items-Adds [] m m' s s' p = bindings_kept m m' s s' p
  bind_items-Adds (item ∷ items) m m' s s' p =
      let (port, e, q) = next_ok _ (port_or_free c item.host_port s) m' s' p in
      bind_items-Adds items _ m' _ s' q
      ∙ ap (λ ks. insert_items ks items) (keys-bind m.bindings (tcp item.envd_port) _)

  -- A start whose ports are bound binds exactly the ports that the development image exposes, each in
  -- the order in which the image names them.
  pub keys-bind_ports :
      (host : String) (ssh : ℤ) (g : Graph) (m : Ports) (s s' : c.State)
      → g.dev ≡ true
      → bind_ports c host ssh g s ≡ (ok m, s')
      → keys m.bindings ≡ exposed_ports g
  unfolding bind_ports ssh_ports exposed_ports
  keys-bind_ports host ssh g m s s' d p =
      let (m₁, e₁, p₁) =
        next_ok _ (bind_jupyter c g.jupyter_config (ssh_ports host ssh) s) m s' p in
      let (m₂, e₂, p₂) = next_ok _ (bind_rstudio c g.rstudio_server_config m₁ _) m s' p₁ in
      bind_items-Adds g.runtime.runtime_expose m₂ m _ s' p₂
      ∙ ap (λ ks. insert_items ks g.runtime.runtime_expose)
          (bind_rstudio-Adds g.rstudio_server_config m₁ m₂ _ _ e₂
            ∙ ap (insert_if g.rstudio_server_config rstudio_server_port) (
                bind_jupyter-Adds g.jupyter_config (ssh_ports host ssh) m₁ s _ e₁
                ∙ ap (insert_if (is_set g.jupyter_config) jupyter_port)
                    (keys-bind [] (tcp ssh_port) _)))
      ∙ simp d
