-- ===== src/Lib.antt =====
-- envd builds development environments from a build file. This library models the parts of it
-- that keep state and that read and write text of their own.
--
-- Home (pkg/home): `generalManager` of manager.go, which every command of the program gets by
-- `GetManager`. Home.State has its record and the types of pkg/types/envd.go, Home.File the gob
-- files behind it, Home.Context, Home.Auth and Home.Cache the methods of context.go, auth.go and
-- cache.go, and Home.Start `Initialize` and `init` (Home.Start.Valid has what they leave of the
-- contexts). A method takes the manager and returns the new one with Go's error; the answers of
-- the operating system (`DumpIo`, `InitIo`) are arguments. gob is modelled as the standard
-- library documents it: a field that is zero is not written, and what is not written keeps the
-- value that is there (`decode_context`). Maps are association lists in a fixed order, for which
-- Go fixes none. The parent Home.Context has children for the commands as one type (Commands),
-- the invariant (Valid), lookups (Lookup), the map that the list stands for (Store), and files
-- and restarts (Restart).
--
-- Ssh (pkg/ssh/config): the parser and printer of ssh_config.go, which rewrite the user's file
-- when an environment starts or stops, and the entries of entry.go. Ssh has the types and the
-- printer (`writeTo`), Ssh.Parse the parser with the variables of its loop as a record (`State`),
-- Ssh.Find the searches, Ssh.File reading and replacing the file, Ssh.Entry `AddEntry`,
-- `RemoveEntry`, `GetPort` and the copies for Windows under WSL, and Ssh.Key
-- `ReplaceKeyManagedByEnvd`. Ssh.Lines, Ssh.Steps, Ssh.RoundTrip and Ssh.EntryLaws hold proofs. A
-- text is a list of code points (Base.Text), and the scanners of bufio, with the limit of 64 KiB
-- on a line, are in Base.Strings.
--
-- Graph (pkg/lang/ir/v1): the graph that the rules of a build file fill. Graph has the records of
-- types.go and of pkg/lang/ir/types.go and `NewGraph`, Graph.Rules the functions of interface.go
-- one by one, Graph.Program sequences of rules (Collects, Panics and Owned say what they do to
-- the graph), Graph.Owner `getUIDGID` of util.go, Graph.Ports and Graph.Labels `ExposedPorts` and
-- `Labels` of compile.go and `newManifest` of pkg/types/envd.go, which reads the labels of an
-- image back. A panic of Go is an outcome of its own. The JSON encoder and the digest parser are
-- parameters.
--
-- Graph.Compile (the other files of pkg/lang/ir/v1): `Compile` and `CompileLLB`, which turn the
-- graph into a state of buildkit. The client of buildkit is a parameter (`Buildkit`), with a type
-- of states and a function for each call, and so is what the compiler reads besides the graph
-- (`World`): files, downloads, the embedded scripts. A method with a value receiver is a function
-- of the graph; one with a pointer receiver is in the monad `M`, which passes the graph on and
-- ends at an error. A call of a pointer method on the copy of a value method drops the changed
-- graph, as Go does. The children are named for the files: System (system.go, cache.go, fs.go),
-- Conda, Python, Languages (julia.go, r.go), User, Shell (shell.go, git.go), Supervisor, Editor,
-- Pipeline (`CompileLLB`) and Entry (`Compile`, `GetEnviron`, `GetEntrypoint`). Effect is a
-- specification of the pipeline on graphs alone, Refine has the proof that the pipeline
-- implements it, Production what an image that is not for development depends on, and Environ the
-- environment of one image in the build of the next. FilePath has `filepath.Clean`, `Join` and
-- `Base` of the standard library on "/" and the paths of pkg/util/fileutil/file.go.
--
-- V0 (pkg/lang/ir/v0): the default version of the build language, with its own graph. V0.Rules is
-- interface.go with `parseLanguage` of util.go (and V0.Rules.Language which texts it accepts),
-- V0.Labels the labels and ports of compile.go, and V0.Compile the pipeline, over the same client
-- of buildkit: System (system.go, user.go), Conda, Python (python.go and custom.go), Languages
-- (julia.go and r.go), Editor, Shell (shell.go, git.go), Supervisor and Pipeline (`Compile`,
-- `CompileLLB`). A method here may have a value receiver and change a copy of the graph, of which
-- only the shared map of the environment is kept (`on_copy`). V0.Compile.Effect is a
-- specification of the pipeline on graphs, and V0.Compile.Refine has the proof.
--
-- Frontend (pkg/lang/frontend/starlark/v1): the functions that a build file calls, and the
-- interpreter. `starlark.UnpackArgs` and what the system says are parameters (`Host`). A function
-- is a step on the graph that ends with a value, an error or a panic; Frontend.Install, Config,
-- Runtime and Universe are named for the packages, and Frontend.Builtins lists all functions.
-- What starlark does with a file is a tree of the calls and loads that it makes (`Script`), and
-- Frontend.Interpreter is interpreter.go over such trees, with the cache of modules as state.
-- Frontend.Sound relates the calls to the rules of Graph.Program, and the children of
-- Frontend.Interpreter prove what a run does to the graph (Graphs, by the induction of Post),
-- that it ends (Ends) and that a module is executed once (Again).
--
-- Engine (pkg/envd/docker.go): the docker engine. The client of the daemon is a parameter
-- (`Client`) with a type of states, which every call may change, and an error of it has the text
-- that the code looks into. Engine.Docker has pausing, resuming, looking for and removing an
-- environment, Engine.Wait the loop that waits for a container, whose `select` receives a list of
-- ticks, Engine.Ports the ports, and Engine.Start the rest of the configuration of a container
-- and `StartEnvd`. Engine.Removed states what is documented of the daemon (`IsDaemon`), and
-- Engine.Bindings compares the ports that a start binds with those of Graph.Ports.
--
-- Plugin (pkg/editor/vscode): `ParsePlugin` and `Plugin.String`.
--
-- Options (pkg/builder/util.go, pkg/app/build/build.go): the values of --from, --import-cache,
-- --export-cache and --output (Options, Options.Cache, Options.Output), with the CSV reader of
-- the standard library (Options.Csv), and `CreateEnvNameFromDir` (Options.EnvName). The table of
-- `unicode.ToLower` beyond ASCII is a parameter, and so is what the system says of the
-- destination (`OutputIo`).
--
-- Version (pkg/lang/version): the version of the build language that a file's first line names.
--
-- The interpreter has fuel for modules that load modules, and Frontend.Interpreter.Ends shows
-- that the number of names that may be loaded, and one more, is enough. Every other loop is
-- structural recursion on a list, with no fuel but that of `digits_of` in Base.Strings.Decimal,
-- where the number and one more are enough. Integers are ℤ, with the conversions of `int32`
-- (Base.Int) and the range of `Atoi` (Base.Strings.Decimal) written out. Logging is left out.
--
-- Not modelled: the frontend of v0 (pkg/lang/frontend/starlark/v0), the builder, the engine of
-- the envd server and the lists of the docker engine, buildkitd, ssh sessions, the progress
-- display (a copy of buildkit's) and the generator of names (a copy of moby's), the command
-- line's flags, metrics and formatting. They call other systems or libraries, or repeat what is
-- modelled.
--
-- Base has the names that all modules share; Tests applies the theorems at concrete inputs.
pub mod Base
pub mod FilePath
pub mod Home
pub mod Ssh
pub mod Plugin
pub mod Graph
pub mod V0
pub mod Frontend
pub mod Engine
pub mod Options
pub mod Version
pub mod Tests
