-- ===== src/Options/Output/Valid.antt =====
-- The entry that --output is parsed into.
use envd.Base.{ℕ, false, ◌||◌, Option, none, some, [], ◌∷◌, ◌≡◌, ◌≢◌, ◌⊎◌, refl, ap, ◌∙◌, inl, inr}
use envd.Base.Text.{Text, codes, text_eq}
use envd.Options.Cache.{Attrs, get_attr, ok, bind, Entry, fields_of, parse_fields, checked_kind}
use envd.Options.Cache.Attrs.{get_attr-delete_attr, get_attr-delete_attr_other}
use envd.Options.Cache.Valid.{Sure, Sure-bind, Sure-if, Sure-ok, checked_kind-Sure}
use envd.Options.Output.{
  Writer, no_writer, stdout, file, ExportEntry, Stat, OutputIo, create_file, stat_dest, stdout_dest,
  output_key, dest_of, resolve_dest, not_exist, is_file, is_dir, stat_error, local_dest, plain_dest,
  is_file_exporter, resolve_exporter_dest, dest_key, value_or_empty, without_dest, finish_output,
  with_dest, parse_output_csv,
}

-- At most one of the writer and the directory; neither of them only for an empty destination.
abbrev pub IsDest : Text → Writer × Text → Type 0
IsDest dest d = ((d.0 ≡ no_writer) ⊎ (d.1 ≡ [])) × ((d.0 ≡ no_writer) → (d.1 ≡ []) → dest ≡ [])

local_dest-Sure : (dest : Text) → Sure (IsDest dest) (local_dest dest)
local_dest-Sure [] = tt
local_dest-Sure (c ∷ cs) = (inl refl, λ _ e. cc)

plain_dest-Sure : (dest : Text) → Sure (IsDest dest) (plain_dest dest)
plain_dest-Sure [] = (inl refl, λ _ _. refl)
plain_dest-Sure (c ∷ cs) = tt

stdout_dest-Sure : (io : OutputIo) (dest : Text) → Sure (IsDest dest) (stdout_dest io)
stdout_dest-Sure io dest = Sure-if (IsDest dest) io.console _ _ tt (inr refl, λ e _. cc)

create_file-Sure : (io : OutputIo) (path dest : Text) → Sure (IsDest path) (create_file io dest)
create_file-Sure io path dest = Sure-if (IsDest path) (io.create dest) _ _ (inr refl, λ e _. cc) tt

stat_dest-Sure :
    (io : OutputIo) (dest : Text) (st : Stat) → Sure (IsDest dest) (stat_dest io dest st)
stat_dest-Sure io dest not_exist = create_file-Sure io dest dest
stat_dest-Sure io dest is_file = create_file-Sure io dest dest
stat_dest-Sure io dest is_dir = tt
stat_dest-Sure io dest stat_error = tt

resolve_exporter_dest-Sure :
    (io : OutputIo) (exporter dest : Text)
    → Sure (IsDest dest) (resolve_exporter_dest io exporter dest)
unfolding resolve_exporter_dest
resolve_exporter_dest-Sure io exporter dest =
    Sure-if (IsDest dest) (text_eq exporter (codes "local")) _ _ (local_dest-Sure dest) (
      Sure-if (IsDest dest) (is_file_exporter exporter) _ _
        (Sure-if (IsDest dest) (text_eq dest [] || text_eq dest (codes "-")) _ _
          (stdout_dest-Sure io dest) (stat_dest-Sure io dest (io.stat dest)))
        (plain_dest-Sure dest))

-- What buildkit is given of an output.
abbrev pub IsResolved : ExportEntry → Type 0
IsResolved e =
    (e.kind ≢ [])
    × ((e.output ≡ no_writer) ⊎ (e.output_dir ≡ []))
    × (get_attr e.attrs output_key ≡ none)
    × (value_or_empty (get_attr e.attrs dest_key) ≡ [])

without_dest-dest :
    (d : Writer × Text) (m : Attrs)
    → IsDest (value_or_empty (get_attr m dest_key)) d
    → value_or_empty (get_attr (without_dest d m) dest_key) ≡ []
without_dest-dest (no_writer, []) m h = h.1 refl refl
without_dest-dest (no_writer, (c ∷ cs)) m h = ap value_or_empty (get_attr-delete_attr m dest_key)
without_dest-dest (stdout, dir) m h = ap value_or_empty (get_attr-delete_attr m dest_key)
without_dest-dest (file path, dir) m h = ap value_or_empty (get_attr-delete_attr m dest_key)

dest_is_not_output : text_eq dest_key output_key ≡ false
unfolding text_eq
dest_is_not_output = refl

without_dest-output :
    (d : Writer × Text) (m : Attrs)
    → get_attr m output_key ≡ none
    → get_attr (without_dest d m) output_key ≡ none
without_dest-output (no_writer, []) m h = h
without_dest-output (no_writer, (c ∷ cs)) m h =
    get_attr-delete_attr_other m dest_key output_key dest_is_not_output ∙ h
without_dest-output (stdout, dir) m h =
    get_attr-delete_attr_other m dest_key output_key dest_is_not_output ∙ h
without_dest-output (file path, dir) m h =
    get_attr-delete_attr_other m dest_key output_key dest_is_not_output ∙ h

resolve_dest-Sure :
    (io : OutputIo) (e : Entry) (o : Option Text)
    → e.kind ≢ []
    → get_attr e.attrs output_key ≡ o
    → Sure IsResolved (resolve_dest io e o)
resolve_dest-Sure io e (some v) k h = tt
resolve_dest-Sure io e none k h =
    let resolved = resolve_exporter_dest io e.kind (dest_of e) in
    Sure-bind IsResolved resolved (λ d. ok (finish_output e d))
      (λ d r.
        let dest =
          Sure-ok (IsDest (dest_of e)) resolved d (resolve_exporter_dest-Sure io e.kind (dest_of e))
            r in
        (k, dest.0, without_dest-output d e.attrs h, without_dest-dest d e.attrs dest))

module _ (unicode : ℕ → ℕ) (io : OutputIo) where
  parse_output_csv-Sure : (s : Text) → Sure IsResolved (parse_output_csv unicode io s)
  unfolding parse_output_csv
  parse_output_csv-Sure s =
      let fields = bind (fields_of s) (parse_fields unicode (record { kind = []; attrs = [] })) in
      Sure-bind IsResolved (bind fields checked_kind) (with_dest io) (λ e h.
        resolve_dest-Sure io e (get_attr e.attrs output_key)
          (Sure-ok (λ f. f.kind ≢ []) (bind fields checked_kind) e
            (Sure-bind (λ f. f.kind ≢ []) fields checked_kind (λ g _. checked_kind-Sure g)) h)
          refl)

  -- If the value of --output parses, the exporter has a type that is not empty, at most one of a
  -- writer and a directory, no attribute "output", and no destination left among its attributes.
  pub parse_output_csv-IsResolved :
      (s : Text) (e : ExportEntry) → parse_output_csv unicode io s ≡ ok e → IsResolved e
  parse_output_csv-IsResolved s e h = Sure-ok IsResolved _ e (parse_output_csv-Sure s) h
