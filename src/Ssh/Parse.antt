-- ===== src/Ssh/Parse.antt =====
-- `parse` of pkg/ssh/config/ssh_config.go.
use envd.Base.{Bool, true, false, Option, none, some, List, [], ◌∷◌, ◌++◌, ◌==◌, if◌then◌else◌}
use envd.Base.Text.{Text, text_eq}
use envd.Base.Strings.Space.{trim_space}
use envd.Base.Strings.Lines.{scan_lines}
use envd.Base.Strings.Words.{scan_words}
use envd.Ssh.{Param, Host, SshConfig, empty_param, host_keyword}

-- The variables of the loop.
pub record State : Type 0 where
  pub global : Bool
  pub p : Param
  pub h : Option Host
  pub globals : List Param
  pub hosts : List Host

abbrev pub start : State
start = record { global = true; p = empty_param; h = none; globals = []; hosts = [] }

-- `if h != nil { config.hosts = append(config.hosts, h) }`
abbrev pub with_host : Option Host → List Host → List Host
with_host none hosts = hosts
with_host (some h) hosts = hosts ++ (h ∷ [])

-- `h.params = append(h.params, p)`. Behind a `Host` line `h` is never nil.
abbrev pub with_param : Param → Option Host → Option Host
with_param p none = none
with_param p (some h) = some (record h { params = h.params ++ (p ∷ []) })

-- A line that begins with `keyword`; `p` has the keyword and the arguments already.
unfoldable pub keyword_line : Param → State → State
keyword_line p s =
    if text_eq p.keyword host_keyword
    then record {
      global = false;
      p = empty_param;
      h = some (record { comments = p.comments; hostnames = p.args; params = [] });
      globals = s.globals;
      hosts = with_host s.h s.hosts;
    }
    else if s.global
    then record s { p = empty_param; globals = s.globals ++ (p ∷ []) }
    else record s { p = empty_param; h = with_param p s.h }

-- The words of a line; a line with none is skipped.
unfoldable pub words_line : List Text → State → State
words_line [] s = s
words_line (keyword ∷ args) s =
    keyword_line (record s.p { keyword = keyword; args = s.p.args ++ args }) s

-- One line, trimmed.
unfoldable pub trimmed_line : Text → State → State
trimmed_line [] s = s
trimmed_line (c ∷ cs) s =
    if c == b'#'
    then record s { p = record s.p { comments = s.p.comments ++ ((c ∷ cs) ∷ []) } }
    else words_line (scan_words (c ∷ cs)) s

unfoldable pub step : State → Text → State
step s line = trimmed_line (trim_space line) s

unfoldable pub run : State → List Text → State
run s [] = s
run s (l ∷ ls) = run (step s l) ls

-- What is done behind the loop.
unfoldable pub finish : Text → State → SshConfig
finish source s =
    if s.global
    then record { source = source; globals = s.globals ++ (s.p ∷ []); hosts = s.hosts }
    else record { source = source; globals = s.globals; hosts = with_host s.h s.hosts }

-- Reading the file is the caller's; `parse` of bytes never fails.
unfoldable pub parse : Text → SshConfig
parse source = finish source (run start (scan_lines source))
