-- ===== src/Options/Output.antt =====
-- pkg/builder/util.go: the option --output.
pub mod Valid
use envd.Base.{ℕ, Bool, true, false, ◌||◌, Option, none, some, List, [], ◌∷◌, if◌then◌else◌}
use envd.Base.Text.{Text, codes, text_eq}
use envd.Options.Cache.{
  Attrs, get_attr, delete_attr, Error, output_not_supported, bad_destination, Result, ok, err, bind,
  Entry, fields_of, parse_fields, checked_kind,
}

-- The function `Output` of an exporter's entry, by what it writes to.
pub data Writer : Type 0 where
  no_writer stdout : Writer
  file : Text → Writer

pub record ExportEntry : Type 0 where
  pub kind : Text
  pub attrs : Attrs
  pub output : Writer
  pub output_dir : Text

-- What `os.Stat` says of a path.
pub data Stat : Type 0 where
  not_exist is_file is_dir stat_error : Stat

-- The system as the parser meets it: `stat`, whether `os.Create` succeeds, and whether standard
-- output is a console.
pub record OutputIo : Type 0 where
  pub stat : Text → Stat
  pub create : Text → Bool
  pub console : Bool

abbrev pub create_file : OutputIo → Text → Result (Writer × Text)
create_file io dest = if io.create dest then ok (file dest, []) else err bad_destination

abbrev pub stat_dest : OutputIo → Text → Stat → Result (Writer × Text)
stat_dest io dest not_exist = create_file io dest
stat_dest io dest is_file = create_file io dest
stat_dest io dest is_dir = err bad_destination
stat_dest io dest stat_error = err bad_destination

abbrev pub file_dest : OutputIo → Text → Result (Writer × Text)
file_dest io dest = stat_dest io dest (io.stat dest)

abbrev pub stdout_dest : OutputIo → Result (Writer × Text)
stdout_dest io = if io.console then err bad_destination else ok (stdout, [])

abbrev pub is_file_exporter : Text → Bool
is_file_exporter kind =
    text_eq kind (codes "oci") || text_eq kind (codes "docker") || text_eq kind (codes "tar")

abbrev pub local_dest : Text → Result (Writer × Text)
local_dest [] = err bad_destination
local_dest (c ∷ cs) = ok (no_writer, c ∷ cs)

abbrev pub plain_dest : Text → Result (Writer × Text)
plain_dest [] = ok (no_writer, [])
plain_dest (c ∷ cs) = err bad_destination

-- `resolveExporterDest`
unfoldable pub resolve_exporter_dest : OutputIo → Text → Text → Result (Writer × Text)
resolve_exporter_dest io exporter dest =
    if text_eq exporter (codes "local")
    then local_dest dest
    else if is_file_exporter exporter
    then (if text_eq dest [] || text_eq dest (codes "-") then stdout_dest io else file_dest io dest)
    else plain_dest dest

abbrev pub dest_key : Text
dest_key = codes "dest"

abbrev pub value_or_empty : Option Text → Text
value_or_empty none = []
value_or_empty (some v) = v

-- `delete(ex.Attrs, "dest")` if there is a writer or a directory.
abbrev pub without_dest : Writer × Text → Attrs → Attrs
without_dest (no_writer, []) m = m
without_dest _ m = delete_attr m dest_key

abbrev pub finish_output : Entry → Writer × Text → ExportEntry
finish_output e d = record {
  kind = e.kind;
  attrs = without_dest d e.attrs;
  output = d.0;
  output_dir = d.1;
}

abbrev pub dest_of : Entry → Text
dest_of e = value_or_empty (get_attr e.attrs dest_key)

abbrev pub resolve_dest : OutputIo → Entry → Option Text → Result ExportEntry
resolve_dest io e (some _) = err output_not_supported
resolve_dest io e none =
    bind (resolve_exporter_dest io e.kind (dest_of e)) (λ d. ok (finish_output e d))

abbrev pub output_key : Text
output_key = codes "output"

abbrev pub with_dest : OutputIo → Entry → Result ExportEntry
with_dest io e = resolve_dest io e (get_attr e.attrs output_key)

module _ (unicode : ℕ → ℕ) (io : OutputIo) where
  -- `parseOutputCSV`
  unfoldable pub parse_output_csv : Text → Result ExportEntry
  parse_output_csv s =
      bind
        (bind (bind (fields_of s) (parse_fields unicode (record { kind = []; attrs = [] })))
          checked_kind)
        (with_dest io)

  -- `parseOutput`
  unfoldable pub parse_output : Text → Result (List ExportEntry)
  parse_output [] = ok []
  parse_output (c ∷ cs) = bind (parse_output_csv (c ∷ cs)) (λ e. ok (e ∷ []))
