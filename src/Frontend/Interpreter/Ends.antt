-- ===== src/Frontend/Interpreter/Ends.antt =====
-- Interpreting ends: each module that is entered takes a name out of those that are not yet cached,
-- and a module that is being executed is not entered again.
use envd.Base.{
  ℕ, zero, suc, ◌≤◌, ◌<◌, Bool, true, false, String, Option, none, some, List, [], ◌∷◌, ◌≡◌, refl,
  arith, str_eq, if◌then◌else◌,
}
use envd.Base.Dict.{Dict, get}
use native.Mathlib.Nat.{le_refl}
use envd.Base.Native.{cat, has_prefix}
use envd.Base.Text.{codes, has_suffix}
use envd.Graph.{Graph}
use envd.Frontend.{Value, function, text, Reply, returned, raised, crashed, stored, text_or}
use envd.Frontend.Builtins.{call}
use envd.Frontend.Interpreter.{
  Script, finish, abort, builtin, load, include, Visit, failed_visit, directory, file_at, World,
  Loaded, globals, error, panic, State, Run, git_prefix, after, after_call, save, merge, run_script,
  included, merged, downloaded, found, load_visits, load_git_module, exec_new, exec, call_variable,
  exec_file,
}
use envd.Frontend.Interpreter.Post.{placed}
use envd.Frontend.Interpreter.Unseen.{contains, unseen, unseen-put_le, unseen-put_lt}

module _ (w : World) (names : List String) where
  open w use {host, file, body, walk}

  -- What a script loads and includes is among the names, whatever the calls before return.
  unfoldable pub Within : Script → Type 0
  Within (finish d) = Unit {0}
  Within abort = Unit {0}
  Within (builtin b args k) = (v : Value) → Within (k v)
  Within (load m k) = (contains names m ≡ true) × ((d : Dict Value) → Within (k d))
  Within (include args k) =
      (vs : List (Option Value))
      → host.unpack "include" (record { name = "git?"; kind = text } ∷ []) args ≡ some vs
      → (contains names (cat (git_prefix ∷ text_or "" (stored 0 vs) ∷ [])) ≡ true)
        × ((d : Dict Value) → Within (k (text_or "" (stored 0 vs)) d))

  abbrev IsNamed : (String → Dict Value → Script) → List (Option Value) → Type 0
  IsNamed k vs =
      (contains names (cat (git_prefix ∷ text_or "" (stored 0 vs) ∷ [])) ≡ true)
      × ((d : Dict Value) → Within (k (text_or "" (stored 0 vs)) d))

  abbrev unseen_in : State → ℕ
  unseen_in st = unseen names st.cache

  -- The run ends, and the cache has lost none of the names.
  abbrev Ends : State → Run → Type 0
  Ends st none = ⊥
  Ends st (some (st', r)) = unseen_in st' ≤ unseen_in st

  Ends-le : (a b : State) (o : Run) → unseen_in b ≤ unseen_in a → Ends b o → Ends a o
  Ends-le a b none h e = e
  Ends-le a b (some (c, r)) h e = omega arith

  after-Ends :
      (o : Run) (k : Dict Value → State → Run) (st : State)
      → Ends st o
      → ((d : Dict Value) (st' : State) → unseen_in st' ≤ unseen_in st → Ends st' (k d st'))
      → Ends st (after o k)
  after-Ends none k st h f = h
  after-Ends (some (b, globals d)) k st h f = Ends-le st b (k d b) h (f d b h)
  after-Ends (some (b, error x)) k st h f = h
  after-Ends (some (b, panic)) k st h f = h

  after_call-Ends :
      (c : Graph × Reply) (k : Value → State → Run) (st : State)
      → ((v : Value) (st' : State) → unseen_in st' ≤ unseen_in st → Ends st' (k v st'))
      → Ends st (after_call c st k)
  after_call-Ends (g, returned v) k st f =
      let st' = record st { graph = g } in
      Ends-le st st' (k v st') (le_refl _) (f v st' (le_refl _))
  after_call-Ends (g, raised x) k st f = le_refl _
  after_call-Ends (g, crashed) k st f = le_refl _

  save-Ends : (m : String) (o : Run) (st : State) → Ends st o → Ends st (save m o)
  save-Ends m none st h = h
  save-Ends m (some (b, globals d)) st h =
      omega (arith, unseen-put_le names b.cache m (some (globals d)))
  save-Ends m (some (b, error x)) st h =
      omega (arith, unseen-put_le names b.cache m (some (error x)))
  save-Ends m (some (b, panic)) st h = h

  if-Ends :
      (b : Bool) (st : State) (x y : Run) → Ends st x → Ends st y → Ends st (if b then x else y)
  if-Ends true st x y h k = h
  if-Ends false st x y h k = k

  merged-Ends :
      (path : String) (d : Option (Dict Value)) (st : State) (k : Dict Value → Run)
      → ((acc : Dict Value) → Ends st (k acc))
      → Ends st (merged w path d st k)
  merged-Ends path none st k h = le_refl _
  merged-Ends path (some d) st k h = h d

  downloaded-Ends :
      (st : State) (path : Option String) (k : String → Run)
      → ((path : String) → Ends st (k path))
      → Ends st (downloaded w st path k)
  downloaded-Ends st none k h = le_refl _
  downloaded-Ends st (some path) k h = h path

  -- `execute` ends for the names that are among these, from a state with fewer than `n` left.
  abbrev Executes : ℕ → (String → State → Run) → Type 0
  Executes n execute =
      (m : String) (st : State)
      → contains names m ≡ true
      → unseen_in st < n
      → Ends st (execute m st)

  module _ (n : ℕ) (execute : String → State → Run) (ih : Executes n execute) where
    run_script-Ends :
        (s : Script) (st : State)
        → Within s
        → unseen_in st < n
        → Ends st (run_script w execute s st)
    unfolding run_script Within
    run_script-Ends (finish d) st i h = le_refl _
    run_script-Ends abort st i h = le_refl _
    run_script-Ends (builtin b args k) st i h =
        after_call-Ends (call host b args st.graph) _ st
          (λ v st' le. run_script-Ends (k v) st' (i v) (omega arith))
    run_script-Ends (load m k) st i h =
        after-Ends (execute m st) _ st (ih m st i.0 h)
          (λ d st' le. run_script-Ends (k d) st' (i.1 d) (omega arith))
    run_script-Ends (include args k) st i h =
        elim (host.unpack "include" (record { name = "git?"; kind = text } ∷ []) args)
            as (λ o.
              ((vs : List (Option Value)) → o ≡ some vs → IsNamed k vs)
              → Ends st (
                  included w st o (λ url.
                    after (execute (cat (git_prefix ∷ url ∷ [])) st)
                      (λ d st'. run_script w execute (k url d) st')))) [
                        | none ↦ λ _. le_refl _
                        | some vs ↦ λ j.
                            after-Ends (execute _ st) _ st (ih _ st (j vs refl).0 h) (λ d st' le.
                              run_script-Ends (k _ d) st' ((j vs refl).1 d) (omega arith))
                      ]
          i

    module _ (files : (path : String) → Within (file path)) where
      load_visits-Ends :
          (vs : List Visit) (acc : Dict Value) (st : State)
          → unseen_in st < n
          → Ends st (load_visits w execute vs acc st)
      unfolding load_visits
      load_visits-Ends [] acc st h = le_refl _
      load_visits-Ends (failed_visit ∷ vs) acc st h = le_refl _
      load_visits-Ends (directory ∷ vs) acc st h = load_visits-Ends vs acc st h
      load_visits-Ends (file_at name path ∷ vs) acc st h =
          if-Ends (has_suffix (codes name) (codes ".envd")) st _ _
            (after-Ends (run_script w execute (file path) st) _ st
              (run_script-Ends (file path) st (files path) h)
              (λ d st' le.
                merged-Ends path (merge d acc) st' _
                  (λ acc'. load_visits-Ends vs acc' st' (omega arith))))
            (load_visits-Ends vs acc st h)

      exec_new-Ends :
          (m : String) (st : State) → unseen_in st < n → Ends st (exec_new w execute m st)
      unfolding exec_new load_git_module
      exec_new-Ends m st h =
          if-Ends (has_prefix m git_prefix) st _ _
            (downloaded-Ends st _ _
              (λ path. save-Ends m _ st (load_visits-Ends (walk path) [] st h)))
            (save-Ends m _ st (run_script-Ends (file m) st (files m) h))

  module _ (files : (path : String) → Within (file path)) where
    exec-Ends : (f : ℕ) → Executes f (exec w f)
    unfolding exec
    exec-Ends zero m st i h = absurd (omega arith)
    exec-Ends (suc f) m st i h =
        elim (get st.cache m)
            as (λ o.
              get st.cache m ≡ o → Ends st (found w m st o (λ st'. exec_new w (exec w f) m st'))) [
                | none ↦ λ e.
                    let fewer = unseen-put_lt names st.cache m none i e in
                    Ends-le st (placed m st) _ (omega (arith, fewer)) (
                      exec_new-Ends f (exec w f) (exec-Ends f) files m (placed m st)
                        (omega (arith, fewer)))
                | some (some e) ↦ λ _. le_refl _
                | some none ↦ λ _. le_refl _
              ]
          refl

    call_variable-Ends :
        (f : ℕ) (name : String) (d : Dict Value) (v : Option Value) (st : State)
        → ((k : ℕ) → Within (body k))
        → unseen_in st < f
        → Ends st (call_variable w f name d v st)
    call_variable-Ends f name d (some (function k)) st bodies h =
        after-Ends (run_script w (exec w f) (body k) st) _ st
          (run_script-Ends f (exec w f) (exec-Ends f) (body k) st (bodies k) h)
          (λ d' st' le. le_refl _)
    call_variable-Ends f name d none st bodies h = le_refl _
    call_variable-Ends f name d (some _) st bodies h = le_refl _

    exec_file-Ends :
        (f : ℕ) (filename funcname : String) (st : State)
        → ((k : ℕ) → Within (body k))
        → contains names filename ≡ true
        → unseen_in st < f
        → Ends st (exec_file w f filename funcname st)
    unfolding exec_file
    exec_file-Ends f filename funcname st bodies i h =
        after-Ends (exec w f filename st) _ st (exec-Ends f filename st i h) λ d st' le.
          if-Ends (str_eq funcname "") st' _ _ (le_refl _)
            (call_variable-Ends f funcname d (get d funcname) st' bodies (omega arith))

  Ends-some :
      (st : State) (o : Run) → Ends st o → (st' : State) × (r : Loaded) × (o ≡ some (st', r))
  Ends-some st none h = absurd h
  Ends-some st (some (st', r)) h = (st', r, refl)

-- Interpreting ends, cycles or not: where everything that the files and functions load or include,
-- and the file itself, is among the names, and there is more fuel than names that are not cached.
pub exec_file-ends :
    (w : World) (names : List String) (f : ℕ) (filename funcname : String) (st : State)
    → ((path : String) → Within w names (w.file path))
    → ((k : ℕ) → Within w names (w.body k))
    → contains names filename ≡ true
    → unseen names st.cache < f
    → (st' : State) × (r : Loaded) × (exec_file w f filename funcname st ≡ some (st', r))
exec_file-ends w names f filename funcname st files bodies i h =
    Ends-some w names st _ (exec_file-Ends w names files f filename funcname st bodies i h)
