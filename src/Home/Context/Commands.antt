-- ===== src/Home/Context/Commands.antt =====
-- The methods that change the contexts, as one type of commands, and sequences of them.
use envd.Base.{String, Bool, Option, List, [], ◌∷◌}
use envd.Home.File.{Error, DumpIo}
use envd.Home.State.{Context, Manager}
use envd.Home.Context.{context_create, context_use, context_remove}

pub data Command : Type 0 where
  create : Context → Bool → Command
  switch : String → Command
  remove : String → Command

unfoldable pub execute : Command → DumpIo → Manager → Manager × Option Error
execute (create c use_it) = context_create c use_it
execute (switch name) = context_use name
execute (remove name) = context_remove name

-- Each command runs whether or not the ones before it failed.
unfoldable pub run : List (Command × DumpIo) → Manager → Manager
run [] m = m
run ((c, io) ∷ rest) m = run rest (execute c io m).0
