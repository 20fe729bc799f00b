-- ===== src/Frontend/Interpreter/Graphs.antt =====
-- What interpreting a build file does to the graph.
use envd.Base.{
  ℕ, Bool, true, ◌&&◌, String, some, List, [], ◌∷◌, ◌++◌, ◌≡◌, refl, ◌∙◌, ap, sym, arith,
}
use mathlib.Core.Path.{subst}
use envd.Base.Lists.{All, All-append}
use envd.Base.Int.{FitsInt32}
use envd.Base.Text.{Text}
use envd.Base.Strings.Decimal.{ℤ, pos, negsuc}
use envd.Graph.{Graph, ExposeItem, new_graph}
use envd.Graph.Rules.{Outcome, done, failed, panicked}
use envd.Graph.Program.{Rule, apply, run_program, then_run}
use envd.Graph.Ports.{
  AllFit, exposed_ports, environment_ports, has_port, names_port, has_port-exposed_ports,
}
use envd.Frontend.{Host, Step, ir, as_reply, Within16}
use envd.Frontend.Sound.{IsChecked, Does, refuses, applies}
use envd.Frontend.Sound.Calls.{call-Does}
use envd.Frontend.Sound.Programs.{IsSound, ItemFits, run_program-IsSound, new_graph-IsSound}
use envd.Frontend.Interpreter.{World, Loaded, State, exec_file}
use envd.Frontend.Interpreter.Post.{is_globals, is_returned, Post, Holds, exec_file-Holds}

Within16-FitsInt32 : (z : ℤ) → Within16 z → FitsInt32 z
Within16-FitsInt32 (pos n) h = omega arith
Within16-FitsInt32 (negsuc n) h = absurd h

module _ (h : Host) where
  -- A program of checked rules takes one graph to the other, and ends well if the run did.
  pub record ByRules (g : Graph) (ended : Bool) (g' : Graph) : Type 0 where
    pub rules : List Rule
    pub outcome : Outcome
    pub checked : All (IsChecked h) rules
    pub runs : run_program h.parse_digest rules g ≡ (g', outcome)
    pub ends : ended ≡ true → outcome ≡ done

  then_run-append :
      (p : Graph × Outcome) (rs qs : List Rule)
      → ((g : Graph)
          → run_program h.parse_digest (rs ++ qs) g
            ≡ then_run (run_program h.parse_digest rs g) (run_program h.parse_digest qs))
      → then_run p (run_program h.parse_digest (rs ++ qs))
        ≡ then_run (then_run p (run_program h.parse_digest rs)) (run_program h.parse_digest qs)
  then_run-append (g, done) rs qs ih = ih g
  then_run-append (g, failed e) rs qs ih = refl
  then_run-append (g, panicked) rs qs ih = refl

  run_program-append :
      (rs qs : List Rule) (g : Graph)
      → run_program h.parse_digest (rs ++ qs) g
        ≡ then_run (run_program h.parse_digest rs g) (run_program h.parse_digest qs)
  unfolding run_program
  run_program-append [] qs g = refl
  run_program-append (r ∷ rs) qs g =
      then_run-append (apply h.parse_digest r g) rs qs (run_program-append rs qs)

  ByRules-same : (g : Graph) (k : Bool) → ByRules g k g
  unfolding run_program
  ByRules-same g k = record {
    rules = [];
    outcome = done;
    checked = tt;
    runs = refl;
    ends = λ _. refl;
  }

  ByRules-chain : (a b c : Graph) (k : Bool) → ByRules a true b → ByRules b k c → ByRules a k c
  ByRules-chain a b c k p q = record {
    rules = p.rules ++ q.rules;
    outcome = q.outcome;
    checked = All-append (IsChecked h) p.rules q.rules p.checked q.checked;
    runs = run_program-append p.rules q.rules a ∙ rw (p.runs, p.ends refl) (q.runs);
    ends = q.ends;
  }

  then_run-nil : (p : Graph × Outcome) → then_run p (run_program h.parse_digest []) ≡ p
  unfolding run_program
  then_run-nil (g, done) = refl
  then_run-nil (g, failed e) = refl
  then_run-nil (g, panicked) = refl

  as_reply-done : (o : Outcome) → is_returned (as_reply o) ≡ true → o ≡ done
  as_reply-done done e = refl
  as_reply-done (failed x) e = absurd (cc)
  as_reply-done panicked e = absurd (cc)

  ByRules-ir :
      (r : Rule) (g : Graph)
      → IsChecked h r
      → ByRules g (is_returned (ir (apply h.parse_digest r) g).1) (ir (apply h.parse_digest r) g).0
  unfolding run_program
  ByRules-ir r g c = record {
    rules = r ∷ [];
    outcome = (apply h.parse_digest r g).1;
    checked = (c, tt);
    runs = then_run-nil (apply h.parse_digest r g);
    ends = as_reply-done (apply h.parse_digest r g).1;
  }

  ByRules-Does : (f : Step) (g : Graph) → Does h f → ByRules g (is_returned (f g).1) (f g).0
  ByRules-Does f g (refuses r e) = rw (e g) (ByRules-same g (is_returned r))
  ByRules-Does f g (applies r c e) = rw (e g) (ByRules-ir r g c)

module _ (w : World) where
  abbrev Changes : State → Bool → State → Type 0
  Changes a k b = ByRules w.host a.graph k b.graph

  Changes-Post : Post w Changes
  Changes-Post = record {
    same = λ a k. ByRules-same w.host a.graph k;
    chain = λ a b c k p q. ByRules-chain w.host a.graph b.graph c.graph k p q;
    called = λ b args a. ByRules-Does w.host _ a.graph (call-Does w.host b args);
    left = λ m a b k free p. p;
    kept = λ m a b r free p. p;
  }

  -- Interpreting a build file, with all that it loads and includes, does to the graph what a sequence
  -- of rules with checked arguments does, one after the other, and if it ends without an error then
  -- all of them end well.
  pub exec_file-ByRules :
      (f : ℕ) (filename funcname : String) (st st' : State) (r : Loaded)
      → exec_file w f filename funcname st ≡ some (st', r)
      → ByRules w.host st.graph (is_globals r) st'.graph
  exec_file-ByRules f filename funcname st st' r h =
      subst (Holds w Changes Changes-Post st) h
        (exec_file-Holds w Changes Changes-Post f filename funcname st)

  -- Whatever a build file does, and also if it ends with an error or a panic, the owner in the graph
  -- is unset or two numbers of 16 bits, and each exposed port is from 1 to 65535, its port on the
  -- host at most 65535, and its address one that is parsed, if that was so before.
  pub exec_file-IsSound :
      (f : ℕ) (filename funcname : String) (st st' : State) (r : Loaded)
      → exec_file w f filename funcname st ≡ some (st', r)
      → IsSound w.host st.graph
      → IsSound w.host st'.graph
  exec_file-IsSound f filename funcname st st' r h s =
      let by = exec_file-ByRules f filename funcname st st' r h in
      subst (IsSound w.host) (ap (λ (p : Graph × Outcome). p.0) by.runs)
        (run_program-IsSound w.host by.rules st.graph by.checked s)

  AllFit-items : (items : List ExposeItem) → All (ItemFits w.host) items → AllFit items
  AllFit-items [] h = tt
  AllFit-items (item ∷ items) h =
      (Within16-FitsInt32 item.envd_port h.0.0.0, AllFit-items items h.1)

  -- The image of a build file exposes a port exactly if it is for development and its label names the
  -- port, whatever the build file, which starts from the new graph.
  pub exec_file-has_port :
      (f : ℕ) (filename funcname path : String) (st st' : State) (r : Loaded) (k : Text)
      → st.graph ≡ new_graph path
      → exec_file w f filename funcname st ≡ some (st', r)
      → has_port (exposed_ports st'.graph) k
        ≡ (st'.graph.dev && names_port (environment_ports st'.graph) k)
  exec_file-has_port f filename funcname path st st' r k new h =
      let before = subst (IsSound w.host) (sym new) (new_graph-IsSound w.host path) in
      let after = exec_file-IsSound f filename funcname st st' r h before in
      has_port-exposed_ports st'.graph k (AllFit-items _ after.exposed_fit)
