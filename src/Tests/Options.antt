-- ===== src/Tests/Options.antt =====
-- pkg/builder/util.go and pkg/app/build/build.go at concrete inputs.
use envd.Base.{ℕ, true, false, some, List, [], ◌∷◌, ◌≡◌, ◌≤◌, refl, All, length}
use envd.Base.Text.{Text, codes, text_eq}
use envd.Base.Strings.Space.{has_prefix, join}
use envd.Plugin.{cut_first, cut_last}
use envd.Options.{contains}
use envd.Options.Csv.{line_ends, read_from, read_record}
use envd.Options.Csv.Join.{comma, read_record-join}
use envd.Options.Cache.{
  get_attr, put_attr, ok, Entry, to_lower, parse_fields, parse_import_cache, parse_export_cache_csv,
  parse_exports, parse_export_cache, delete_attr,
}
use envd.Options.Cache.Valid.{IsComplete, parse_export_cache-IsComplete}
use envd.Options.Cache.Print.{print_entry, IsPrintable, parse_import_cache-print_entry}
use envd.Options.Output.{ExportEntry, is_file, OutputIo, resolve_exporter_dest, parse_output_csv}
use envd.Options.Output.Valid.{IsResolved, parse_output_csv-IsResolved}
use envd.Options.EnvName.{
  IsLegal, is_alnum, is_name_char, matches, drop_slashes, base_name, create_env_name_from_dir,
  create_env_name_from_dir_idem,
}

abbrev same : ℕ → ℕ
same c = c

abbrev s3 : Entry
s3 = record { kind = codes "s3"; attrs = (codes "ref", codes "r") ∷ [] }

abbrev IsFalse4 : Type 0
IsFalse4 = (false ≡ false) × (false ≡ false) × (false ≡ false) × (false ≡ false)

plain : IsFalse4
plain = (refl, refl, refl, refl)

s3-IsPrintable : IsPrintable same s3
unfolding to_lower text_eq get_attr
s3-IsPrintable = (
  (λ e. cc),
  (plain, (plain, tt)),
  ((refl, (refl, (refl, (refl, tt))), refl, (plain, (plain, (plain, tt))), (plain, tt)), tt),
  (refl, tt),
)

parse_import_cache-print_entry_example :
    parse_import_cache same (print_entry s3 ∷ []) ≡ ok (s3 ∷ [])
parse_import_cache-print_entry_example = parse_import_cache-print_entry same s3 s3-IsPrintable

read_record-join_example :
    read_record (join comma (codes "a" ∷ [] ∷ codes "b" ∷ []))
    ≡ some (codes "a" ∷ [] ∷ codes "b" ∷ [])
read_record-join_example =
    read_record-join b'a' [] ([] ∷ codes "b" ∷ []) (plain, tt) (tt, ((plain, tt), tt))

abbrev export_value : Text
export_value = codes "type=local,DEST=/tmp"

exported : (es : List Entry) × (parse_export_cache same (export_value ∷ []) [] ≡ ok es)
unfolding parse_export_cache parse_exports parse_export_cache_csv contains has_prefix read_record
    read_from line_ends parse_fields cut_first to_lower text_eq put_attr get_attr
exported = (_, refl)

parse_export_cache-IsComplete_example : All IsComplete exported.0
parse_export_cache-IsComplete_example =
    parse_export_cache-IsComplete same (export_value ∷ []) [] exported.0 exported.1

abbrev disk : OutputIo
disk = record { stat = λ _. is_file; create = λ _. true; console = true }

resolved : (e : ExportEntry) × (parse_output_csv same disk (codes "type=tar,dest=a.tar") ≡ ok e)
unfolding parse_output_csv resolve_exporter_dest read_record read_from line_ends parse_fields
    cut_first to_lower text_eq put_attr get_attr delete_attr
resolved = (_, refl)

parse_output_csv-IsResolved_example : IsResolved resolved.0
parse_output_csv-IsResolved_example =
    parse_output_csv-IsResolved same disk (codes "type=tar,dest=a.tar") resolved.0 resolved.1

made : create_env_name_from_dir (codes "/home/_my app/") ≡ some (codes "myapp")
unfolding create_env_name_from_dir base_name drop_slashes cut_last matches is_alnum is_name_char
made = refl

create_env_name_from_dir_idem_example :
    IsLegal (codes "myapp")
    × (length (codes "myapp") ≤ 30)
    × (create_env_name_from_dir (codes "myapp") ≡ some (codes "myapp"))
create_env_name_from_dir_idem_example =
    create_env_name_from_dir_idem (codes "/home/_my app/") (codes "myapp") made
