-- ===== src/Options/Csv/Join.antt =====
-- A record of plain fields, joined by commas, is read back.
use envd.Base.{ℕ, false, some, List, [], ◌∷◌, ◌++◌, ◌≡◌, refl, ap, ◌∙◌, ◌==◌, All, All-append}
use mathlib.Core.List.{append-nil, append_assoc}
use envd.Base.Text.{Text}
use envd.Base.Strings.Space.{join}
use envd.Options.Csv.{line_ends, before, field, bare, push, read_from, read_record}

-- No comma, quote or line break.
abbrev pub IsPlainChar : ℕ → Type 0
IsPlainChar c =
    ((c == b',') ≡ false) × ((c == b'"') ≡ false) × ((c == b'\n') ≡ false) × ((c == b'\r') ≡ false)

abbrev pub IsPlain : Text → Type 0
IsPlain = All IsPlainChar

abbrev pub comma : Text
comma = b',' ∷ []

line_ends_id : (t : Text) → All (λ c. (c == b'\r') ≡ false) t → line_ends t ≡ t
unfolding line_ends
line_ends_id [] h = refl
line_ends_id (c ∷ []) h = rw (h.0)
line_ends_id (c ∷ d ∷ t) h = rw (h.0, line_ends_id (d ∷ t) h.1)

no_return : (t : Text) → IsPlain t → All (λ c. (c == b'\r') ≡ false) t
no_return [] h = tt
no_return (c ∷ t) h = (h.0.3, no_return t h.1)

join-no_return : (ws : List Text) → All IsPlain ws → All (λ c. (c == b'\r') ≡ false) (join comma ws)
unfolding join
join-no_return [] h = tt
join-no_return (w ∷ []) h = no_return w h.0
join-no_return (w ∷ v ∷ ws) h =
    All-append _ w (comma ++ join comma (v ∷ ws)) (no_return w h.0)
      (refl, join-no_return (v ∷ ws) h.1)

read_from-bare_end :
    (w f : Text) (fields : List Text)
    → IsPlain w
    → read_from bare f fields w ≡ some (push fields (f ++ w))
unfolding read_from
read_from-bare_end [] f fields h = rw append-nil
read_from-bare_end (c ∷ w) f fields h =
    rw (h.0.0, h.0.1, h.0.2, read_from-bare_end w (f ++ (c ∷ [])) fields h.1, append_assoc)

read_from-bare :
    (w f : Text) (fields : List Text) (rest : Text)
    → IsPlain w
    → read_from bare f fields (w ++ (comma ++ rest))
      ≡ read_from field [] (push fields (f ++ w)) rest
unfolding read_from
read_from-bare [] f fields rest h = rw append-nil
read_from-bare (c ∷ w) f fields rest h =
    rw (h.0.0, h.0.1, h.0.2, read_from-bare w (f ++ (c ∷ [])) fields rest h.1, append_assoc)

read_from-field :
    (w : Text) (ws : List Text) (fields : List Text)
    → IsPlain w
    → All IsPlain ws
    → read_from field [] fields (join comma (w ∷ ws)) ≡ some (fields ++ (w ∷ ws))
unfolding read_from join
read_from-field [] [] fields h k = refl
read_from-field (c ∷ w) [] fields h k =
    rw (h.0.0, h.0.1, h.0.2) (read_from-bare_end w (c ∷ []) fields h.1)
read_from-field [] (v ∷ ws) fields h k =
    read_from-field v ws (push fields []) k.0 k.1 ∙ rw append_assoc
read_from-field (c ∷ w) (v ∷ ws) fields h k =
    rw (h.0.0, h.0.1, h.0.2)
      (read_from-bare w (c ∷ []) fields (join comma (v ∷ ws)) h.1
        ∙ read_from-field v ws (push fields (c ∷ w)) k.0 k.1
        ∙ rw append_assoc)

read_from-before :
    (c : ℕ) (cs : Text)
    → (c == b'\n') ≡ false
    → read_from before [] [] (c ∷ cs) ≡ read_from field [] [] (c ∷ cs)
unfolding read_from
read_from-before c cs h = rw h

read_from-join :
    (c : ℕ) (w : Text) (ws : List Text)
    → (c == b'\n') ≡ false
    → read_from before [] [] (join comma ((c ∷ w) ∷ ws))
      ≡ read_from field [] [] (join comma ((c ∷ w) ∷ ws))
unfolding join
read_from-join c w [] h = read_from-before c w h
read_from-join c w (v ∷ ws) h = read_from-before c (w ++ (comma ++ join comma (v ∷ ws))) h

-- Fields without commas, quotes and line breaks, the first of them not empty, are read back from
-- the record that joins them by commas.
pub read_record-join :
    (c : ℕ) (w : Text) (ws : List Text)
    → IsPlain (c ∷ w)
    → All IsPlain ws
    → read_record (join comma ((c ∷ w) ∷ ws)) ≡ some ((c ∷ w) ∷ ws)
unfolding read_record
read_record-join c w ws h k =
    ap (read_from before [] []) (line_ends_id _ (join-no_return ((c ∷ w) ∷ ws) (h, k)))
    ∙ read_from-join c w ws (h.0.2)
    ∙ read_from-field (c ∷ w) ws [] h k
