-- ===== src/Plugin.antt =====
-- pkg/editor/vscode: plugins, printed (types.go) and parsed (util.go).
pub mod RoundTrip
use envd.Base.{ℕ, Bool, true, false, Option, none, some, List, [], ◌∷◌, ◌++◌, ◌==◌, if◌then◌else◌}
use envd.Base.Text.{Text, codes}
use envd.Base.Strings.Decimal.{is_digit}

pub record Plugin : Type 0 where
  pub publisher : Text
  pub extension : Text
  pub version : Option Text

unfoldable pub plugin_string : Plugin → Text
plugin_string p = elim p.version [
  | some v ↦ p.publisher ++ (b'.' ∷ (p.extension ++ (b'-' ∷ v)))
  | none ↦ p.publisher ++ (b'.' ∷ p.extension)
]

abbrev before : ℕ → Text × Text → Text × Text
before c (a, b) = (c ∷ a, b)

-- Cut at the first `sep`, which is dropped.
unfoldable pub cut_first : ℕ → Text → Option (Text × Text)
cut_first sep [] = none
cut_first sep (c ∷ cs) =
    let rest = cut_first sep cs in
    if c == sep then some ([], cs) else elim rest [ none ↦ none | some r ↦ some (before c r) ]

-- Cut at the last `sep`, which is dropped.
unfoldable pub cut_last : ℕ → Text → Option (Text × Text)
cut_last sep [] = none
cut_last sep (c ∷ cs) = elim (cut_last sep cs) [
  | some r ↦ some (before c r)
  | none ↦ if c == sep then some ([], cs) else none
]

pub data Parsed : Type 0 where
  parsed : Plugin → Parsed
  invalid_publisher : Parsed
  out_of_range : Parsed

abbrev unversioned : Text → Text → Plugin
unversioned publisher extension = record {
  publisher = publisher;
  extension = extension;
  version = none;
}

-- `strconv.Atoi(version[0:1])`: on one character, it reads a digit. `version[0:1]` of an empty text
-- is out of range, and panics.
unfoldable pub with_version : Text → Text → Text → Text → Parsed
with_version publisher rest extension [] = out_of_range
with_version publisher rest extension (c ∷ cs) =
    if is_digit c
    then parsed (record { publisher = publisher; extension = extension; version = some (c ∷ cs) })
    else parsed (unversioned publisher rest)

-- `rest` is what stands behind the first dot. The source looks for the last dash from the dot on,
-- which is no dash.
unfoldable pub parse_extension : Text → Text → Parsed
parse_extension publisher rest = elim (cut_last b'-' rest) [
  | none ↦ parsed (unversioned publisher rest)
  | some (extension, version) ↦ with_version publisher rest extension version
]

unfoldable pub parse_plugin : Text → Parsed
parse_plugin p = elim (cut_first b'.' p) [
  | none ↦ invalid_publisher
  | some (publisher, rest) ↦ parse_extension publisher rest
]
