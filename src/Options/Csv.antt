-- ===== src/Options/Csv.antt =====
-- `csv.Reader.Read` of the standard library, as pkg/builder/util.go uses it: the first record.
pub mod Join
use envd.Base.{
  ℕ, Bool, true, false, Option, none, some, List, [], ◌∷◌, ◌++◌, ◌≡◌, refl, sym, ap, ◌∙◌, arith,
  ◌==◌, if◌then◌else◌, All,
}
use envd.Base.Text.{Text}
use mathlib.Core.List.{append-nil, append_assoc}

-- A line's ending: "\r\n" counts as "\n", and a last "\r" is dropped.
unfoldable pub line_ends : Text → Text
line_ends [] = []
line_ends (c ∷ []) = if c == b'\r' then [] else c ∷ []
line_ends (c ∷ d ∷ cs) =
    let rest = line_ends (d ∷ cs) in
    if c == b'\r' then (if d == b'\n' then rest else c ∷ rest) else c ∷ rest

-- Before the record, at the start of a field, in one without quotes, in one with quotes, and
-- behind a quote that may close it.
pub data Mode : Type 0 where
  before field bare quoted closing : Mode

-- The field that is read and the record's fields so far.
abbrev pub push : List Text → Text → List Text
push fields f = fields ++ (f ∷ [])

unfoldable pub read_from : Mode → Text → List Text → Text → Option (List Text)
read_from before f fields [] = none
read_from quoted f fields [] = none
read_from _ f fields [] = some (push fields f)
read_from before f fields (c ∷ cs) =
    let blank = read_from before [] fields cs in
    let quote_opens = read_from quoted [] fields cs in
    let next = read_from field [] (push fields []) cs in
    let char = read_from bare (c ∷ []) fields cs in
    if c == b'\n'
    then blank
    else if c == b'"'
    then quote_opens
    else if c == b','
    then next
    else char
read_from field f fields (c ∷ cs) =
    let quote_opens = read_from quoted [] fields cs in
    let next = read_from field [] (push fields []) cs in
    let char = read_from bare (c ∷ []) fields cs in
    if c == b'\n'
    then some (push fields [])
    else if c == b'"'
    then quote_opens
    else if c == b','
    then next
    else char
read_from bare f fields (c ∷ cs) =
    let next = read_from field [] (push fields f) cs in
    let char = read_from bare (f ++ (c ∷ [])) fields cs in
    if c == b'\n'
    then some (push fields f)
    else if c == b'"'
    then none
    else if c == b','
    then next
    else char
read_from quoted f fields (c ∷ cs) =
    let close = read_from closing f fields cs in
    let char = read_from quoted (f ++ (c ∷ [])) fields cs in if c == b'"' then close else char
read_from closing f fields (c ∷ cs) =
    let quote = read_from quoted (f ++ (c ∷ [])) fields cs in
    let next = read_from field [] (push fields f) cs in
    if c == b'"'
    then quote
    else if c == b','
    then next
    else if c == b'\n'
    then some (push fields f)
    else none

-- `none` is the reader's error.
unfoldable pub read_record : Text → Option (List Text)
read_record t = read_from before [] [] (line_ends t)
