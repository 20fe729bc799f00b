-- ===== src/Frontend/Interpreter/Post.antt =====
-- Induction over a run of the interpreter: a relation of the states before and after that each step
-- keeps holds of every run. Its Boolean tells whether the run ended without an error.
use envd.Base.{
  ℕ, zero, suc, Bool, true, false, String, Option, none, some, List, [], ◌∷◌, ◌≡◌, refl,
  if◌then◌else◌, str_eq,
}
use envd.Base.Dict.{Dict, get, put}
use envd.Base.Native.{cat, has_prefix}
use envd.Base.Text.{codes, has_suffix}
use envd.Graph.{Graph}
use envd.Frontend.{Value, function, Args, Reply, returned, raised, crashed, stored, text_or}
use envd.Frontend.Builtins.{Builtin, call}
use envd.Frontend.Interpreter.{
  Script, finish, abort, builtin, load, include, Visit, failed_visit, directory, file_at, World,
  Loaded, globals, error, panic, State, Run, git_prefix, after, after_call, save, merge, run_script,
  included, merged, downloaded, found, load_visits, load_git_module, exec_new, exec, call_variable,
  exec_file,
}

abbrev pub is_globals : Loaded → Bool
is_globals (globals d) = true
is_globals _ = false

abbrev pub is_returned : Reply → Bool
is_returned (returned v) = true
is_returned _ = false

-- The state with the placeholder of a module.
abbrev pub placed : String → State → State
placed m st = record st { cache = put st.cache m none }

abbrev pub saved : String → Loaded → State → State
saved m r st = record st { cache = put st.cache m (some r) }

pub record Post (w : World) (R : State → Bool → State → Type 0) : Type 0 where
  pub same : (a : State) (k : Bool) → R a k a
  pub chain : (a b c : State) (k : Bool) → R a true b → R b k c → R a k c
  pub called :
      (b : Builtin) (args : Args) (a : State)
      → R a
          (is_returned (call w.host b args a.graph).1)
          (record a { graph = (call w.host b args a.graph).0 })
  pub left :
      (m : String) (a b : State) (k : Bool) → get a.cache m ≡ none → R (placed m a) k b → R a k b
  pub kept :
      (m : String) (a b : State) (r : Loaded)
      → get a.cache m ≡ none
      → R (placed m a) (is_globals r) b
      → R a (is_globals r) (saved m r b)

module _ (w : World) (R : State → Bool → State → Type 0) (p : Post w R) where
  open w use {host, file, body, walk}

  -- The relation holds of the run, if it has not run out of fuel.
  abbrev pub Holds : State → Run → Type 0
  Holds st none = Unit {0}
  Holds st (some (st', r)) = R st (is_globals r) st'

  chain-Holds : (a b : State) (o : Run) → R a true b → Holds b o → Holds a o
  chain-Holds a b none h k = tt
  chain-Holds a b (some (c, r)) h k = p.chain a b c (is_globals r) h k

  after-Holds :
      (o : Run) (k : Dict Value → State → Run) (st : State)
      → Holds st o
      → ((d : Dict Value) (st' : State) → Holds st' (k d st'))
      → Holds st (after o k)
  after-Holds none k st h f = tt
  after-Holds (some (b, globals d)) k st h f = chain-Holds st b (k d b) h (f d b)
  after-Holds (some (b, error x)) k st h f = h
  after-Holds (some (b, panic)) k st h f = h

  after_call-Holds :
      (c : Graph × Reply) (k : Value → State → Run) (st : State)
      → R st (is_returned c.1) (record st { graph = c.0 })
      → ((v : Value) (st' : State) → Holds st' (k v st'))
      → Holds st (after_call c st k)
  after_call-Holds (g, returned v) k st h f =
      chain-Holds st (record st { graph = g }) (k v _) h (f v (record st { graph = g }))
  after_call-Holds (g, raised x) k st h f = h
  after_call-Holds (g, crashed) k st h f = h

  save-Holds :
      (m : String) (o : Run) (st : State)
      → get st.cache m ≡ none
      → Holds (placed m st) o
      → Holds st (save m o)
  save-Holds m none st e h = tt
  save-Holds m (some (b, globals d)) st e h = p.kept m st b (globals d) e h
  save-Holds m (some (b, error x)) st e h = p.kept m st b (error x) e h
  save-Holds m (some (b, panic)) st e h = p.left m st b false e h

  if-Holds :
      (b : Bool) (st : State) (x y : Run) → Holds st x → Holds st y → Holds st (if b then x else y)
  if-Holds true st x y h k = h
  if-Holds false st x y h k = k

  included-Holds :
      (st : State) (vs : Option (List (Option Value))) (k : String → Run)
      → ((url : String) → Holds st (k url))
      → Holds st (included w st vs k)
  included-Holds st none k h = p.same st false
  included-Holds st (some vs) k h = h (text_or "" (stored 0 vs))

  merged-Holds :
      (path : String) (d : Option (Dict Value)) (st : State) (k : Dict Value → Run)
      → ((acc : Dict Value) → Holds st (k acc))
      → Holds st (merged w path d st k)
  merged-Holds path none st k h = p.same st false
  merged-Holds path (some d) st k h = h d

  downloaded-Holds :
      (m : String) (st : State) (path : Option String) (k : String → Run)
      → get st.cache m ≡ none
      → ((path : String) → Holds st (k path))
      → Holds st (downloaded w (placed m st) path k)
  downloaded-Holds m st none k e h = p.left m st (placed m st) false e (p.same (placed m st) false)
  downloaded-Holds m st (some path) k e h = h path

  module _ (execute : String → State → Run)
      (ih : (m : String) (st : State) → Holds st (execute m st)) where
    run_script-Holds : (s : Script) (st : State) → Holds st (run_script w execute s st)
    unfolding run_script
    run_script-Holds (finish d) st = p.same st true
    run_script-Holds abort st = p.same st false
    run_script-Holds (builtin b args k) st =
        after_call-Holds (call host b args st.graph) _ st (p.called b args st)
          (λ v st'. run_script-Holds (k v) st')
    run_script-Holds (load m k) st =
        after-Holds (execute m st) _ st (ih m st) (λ d st'. run_script-Holds (k d) st')
    run_script-Holds (include args k) st =
        included-Holds st (host.unpack "include" _ args) _ (λ url.
          after-Holds (execute (cat (git_prefix ∷ url ∷ [])) st) _ st (ih _ st)
            (λ d st'. run_script-Holds (k url d) st'))

    load_visits-Holds :
        (vs : List Visit) (acc : Dict Value) (st : State)
        → Holds st (load_visits w execute vs acc st)
    unfolding load_visits
    load_visits-Holds [] acc st = p.same st true
    load_visits-Holds (failed_visit ∷ vs) acc st = p.same st false
    load_visits-Holds (directory ∷ vs) acc st = load_visits-Holds vs acc st
    load_visits-Holds (file_at name path ∷ vs) acc st =
        if-Holds (has_suffix (codes name) (codes ".envd")) st _ _
          (after-Holds (run_script w execute (file path) st) _ st (run_script-Holds (file path) st)
            (λ d st'.
              merged-Holds path (merge d acc) st' _ (λ acc'. load_visits-Holds vs acc' st')))
          (load_visits-Holds vs acc st)

    exec_new-Holds :
        (m : String) (st : State)
        → get st.cache m ≡ none
        → Holds st (exec_new w execute m (placed m st))
    unfolding exec_new load_git_module
    exec_new-Holds m st e =
        if-Holds (has_prefix m git_prefix) st _ _
          (downloaded-Holds m st _ _ e
            (λ path. save-Holds m _ st e (load_visits-Holds (walk path) [] (placed m st))))
          (save-Holds m _ st e (run_script-Holds (file m) (placed m st)))

  -- The relation holds of every execution of a module ...
  pub exec-Holds : (f : ℕ) (m : String) (st : State) → Holds st (exec w f m st)
  unfolding exec
  exec-Holds zero m st = tt
  exec-Holds (suc f) m st =
      elim (get st.cache m)
          as (λ o.
            get st.cache m ≡ o → Holds st (found w m st o (λ st'. exec_new w (exec w f) m st'))) [
              | none ↦ exec_new-Holds (exec w f) (exec-Holds f) m st
              | some (some e) ↦ λ _. p.same st (is_globals e)
              | some none ↦ λ _. p.same st false
            ]
        refl

  call_variable-Holds :
      (f : ℕ) (name : String) (d : Dict Value) (v : Option Value) (st : State)
      → Holds st (call_variable w f name d v st)
  call_variable-Holds f name d (some (function n)) st =
      after-Holds (run_script w (exec w f) (body n) st) _ st
        (run_script-Holds (exec w f) (exec-Holds f) (body n) st) (λ d' st'. p.same st' true)
  call_variable-Holds f name d none st = p.same st false
  call_variable-Holds f name d (some _) st = p.same st false

  -- ... and of the build file as a whole.
  pub exec_file-Holds :
      (f : ℕ) (filename funcname : String) (st : State)
      → Holds st (exec_file w f filename funcname st)
  unfolding exec_file
  exec_file-Holds f filename funcname st =
      after-Holds (exec w f filename st) _ st (exec-Holds f filename st) λ d st'.
        if-Holds (str_eq funcname "") st' _ _ (p.same st' true)
          (call_variable-Holds f funcname d (get d funcname) st')
