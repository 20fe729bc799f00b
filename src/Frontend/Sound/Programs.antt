-- ===== src/Frontend/Sound/Programs.antt =====
-- A graph whose owner and exposed ports are checked, and the rules that keep it so.
use envd.Base.{Bool, true, false, Option-cases, if◌then◌else◌, str_eq}
use envd.Base.{◌≡◌, refl, ◌⊎◌, inl, inr, String, List, [], ◌∷◌, true}
use envd.Base.Lists.{All, All-append}
use envd.Base.Text.{Text}
use envd.Base.Strings.Decimal.{negsuc}
use envd.Plugin.{parsed, invalid_publisher, out_of_range, parse_plugin}
use envd.Graph.{Graph, ExposeItem, new_graph}
use envd.Graph.Rules
use envd.Graph.Rules.{Outcome, done, failed, panicked}
use envd.Graph.Program.{Rule, apply, run_program, then_run}
use envd.Frontend.{Host, Within16}
use envd.Frontend.Sound.{IsPort, IsChecked}

-- The owner is not set, or two numbers of 16 bits.
abbrev pub OwnerFits : Graph → Type 0
OwnerFits g = ((g.uid ≡ negsuc 0) × (g.gid ≡ negsuc 0)) ⊎ (Within16 g.uid × Within16 g.gid)

module _ (h : Host) where
  abbrev pub ItemFits : ExposeItem → Type 0
  ItemFits item =
      IsPort item.envd_port × Within16 item.host_port × (h.is_ip item.listening_addr ≡ true)

  -- What the frontend guarantees of the graph that a build file leaves.
  pub record IsSound (g : Graph) : Type 0 where
    pub owner_fits : OwnerFits g
    pub exposed_fit : All ItemFits g.runtime.runtime_expose

  -- The fields that `IsSound` reads are as before.
  abbrev SameChecked : Graph → Graph → Type 0
  SameChecked g g' =
      (g'.uid ≡ g.uid) × (g'.gid ≡ g.gid) × (g'.runtime.runtime_expose ≡ g.runtime.runtime_expose)

  SameChecked-IsSound : (g g' : Graph) → SameChecked g g' → IsSound g → IsSound g'
  SameChecked-IsSound g g' e s = record {
    owner_fits = rw (e.0, e.1) s.owner_fits;
    exposed_fit = rw (e.2) s.exposed_fit;
  }

  if-SameChecked :
      (b : Bool) (g : Graph) (x y : Graph × Outcome)
      → SameChecked g x.0
      → SameChecked g y.0
      → SameChecked g (if b then x else y).0
  if-SameChecked true g x y p q = p
  if-SameChecked false g x y p q = q

  vscode_plugins-SameChecked :
      (ts : List Text) (g : Graph) → SameChecked g (Rules.vscode_plugins ts g).0
  unfolding Rules.vscode_plugins
  vscode_plugins-SameChecked [] g = (refl, refl, refl)
  vscode_plugins-SameChecked (t ∷ ts) g =
      elim (parse_plugin t)
        as (λ r.
          SameChecked g
            (elim r as (λ _. Graph × Outcome) [
              | parsed p ↦ Rules.vscode_plugins ts (Rules.append_plugin g p)
              | invalid_publisher ↦ (g, failed Rules.bad_publisher)
              | out_of_range ↦ (g, panicked)
            ]).0) [
              | parsed p ↦ vscode_plugins-SameChecked ts (Rules.append_plugin g p)
              | invalid_publisher ↦ (refl, refl, refl)
              | out_of_range ↦ (refl, refl, refl)
            ]

  conda_channel-SameChecked : (c : String) (g : Graph) → SameChecked g (Rules.conda_channel c g).0
  unfolding Rules.conda_channel
  conda_channel-SameChecked c g = elim (Option-cases g.conda_config) [
    | inl e ↦ rw e (refl, refl, refl)
    | inr (k, e) ↦ rw e (refl, refl, refl)
  ]

  conda_package-SameChecked :
      (ns cs : List String) (f : String) (g : Graph)
      → SameChecked g (Rules.conda_package ns cs f g).0
  unfolding Rules.conda_package
  conda_package-SameChecked ns cs f g = elim (Option-cases g.conda_config) [
    | inl e ↦ rw e (refl, refl, refl)
    | inr (k, e) ↦ rw e (refl, refl, refl)
  ]

  http-SameChecked :
      (url sum name : String) (g : Graph)
      → SameChecked g (Rules.http h.parse_digest url sum name g).0
  unfolding Rules.http
  http-SameChecked url sum name g =
      if-SameChecked (str_eq sum "") g _ _ (refl, refl, refl)
        (elim (Option-cases (h.parse_digest sum)) [
          | inl e ↦ rw e (refl, refl, refl)
          | inr (d, e) ↦ rw e (refl, refl, refl)
        ])

  -- A rule with checked arguments keeps the graph sound, also if it ends with an error or a panic.
  pub apply-IsSound :
      (r : Rule) (g : Graph) → IsChecked h r → IsSound g → IsSound (apply h.parse_digest r g).0
  unfolding apply Rules.base Rules.python Rules.conda Rules.r_lang Rules.julia Rules.rstudio_server
      Rules.pypi_package Rules.r_package Rules.julia_package Rules.system_package Rules.entrypoint
      Rules.runtime_init_script Rules.gpu Rules.cuda Rules.ubuntu_apt Rules.cran_mirror
      Rules.julia_package_server Rules.shell Rules.pypi_index Rules.jupyter Rules.run Rules.git
      Rules.copy Rules.mount Rules.repo Rules.runtime_commands Rules.runtime_daemon
      Rules.runtime_expose Rules.runtime_environ Rules.owner
  apply-IsSound (Rule.owner uid gid) g c s = record {
    owner_fits = inr c;
    exposed_fit = s.exposed_fit;
  }
  apply-IsSound (Rule.runtime_expose e p name address) g c s = record {
    owner_fits = s.owner_fits;
    exposed_fit = All-append ItemFits g.runtime.runtime_expose _ s.exposed_fit (c, tt);
  }
  apply-IsSound (Rule.vscode_plugins ts) g c s =
      SameChecked-IsSound g _ (vscode_plugins-SameChecked ts g) s
  apply-IsSound (Rule.conda_channel ch) g c s =
      SameChecked-IsSound g _ (conda_channel-SameChecked ch g) s
  apply-IsSound (Rule.conda_package ns cs f) g c s =
      SameChecked-IsSound g _ (conda_package-SameChecked ns cs f g) s
  apply-IsSound (Rule.http url sum name) g c s =
      SameChecked-IsSound g _ (http-SameChecked url sum name g) s
  apply-IsSound (Rule.python v) g c s =
      SameChecked-IsSound g _ (if-SameChecked _ g _ _ (refl, refl, refl) (refl, refl, refl)) s
  apply-IsSound (Rule.r_package v) g c s =
      SameChecked-IsSound g _ (if-SameChecked _ g _ _ (refl, refl, refl) (refl, refl, refl)) s
  apply-IsSound (Rule.julia_package v) g c s =
      SameChecked-IsSound g _ (if-SameChecked _ g _ _ (refl, refl, refl) (refl, refl, refl)) s
  apply-IsSound (Rule.ubuntu_apt v) g c s =
      SameChecked-IsSound g _ (if-SameChecked _ g _ _ (refl, refl, refl) (refl, refl, refl)) s
  apply-IsSound (Rule.pypi_index u x t) g c s =
      SameChecked-IsSound g _ (if-SameChecked _ g _ _ (refl, refl, refl) (refl, refl, refl)) s
  apply-IsSound _ g c s = SameChecked-IsSound g _ (refl, refl, refl) s

  pub then_run-IsSound :
      (p : Graph × Outcome) (k : Graph → Graph × Outcome)
      → IsSound p.0
      → ((g : Graph) → IsSound g → IsSound (k g).0)
      → IsSound (then_run p k).0
  then_run-IsSound (g, done) k s f = f g s
  then_run-IsSound (g, failed e) k s f = s
  then_run-IsSound (g, panicked) k s f = s

  pub run_program-IsSound :
      (rs : List Rule) (g : Graph)
      → All (IsChecked h) rs
      → IsSound g
      → IsSound (run_program h.parse_digest rs g).0
  unfolding run_program
  run_program-IsSound [] g c s = s
  run_program-IsSound (r ∷ rs) g c s =
      then_run-IsSound (apply h.parse_digest r g) _ (apply-IsSound r g c.0 s)
        (λ g' s'. run_program-IsSound rs g' c.1 s')

  pub new_graph-IsSound : (path : String) → IsSound (new_graph path)
  new_graph-IsSound path = record { owner_fits = inl (refl, refl); exposed_fit = tt }
