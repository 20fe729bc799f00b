-- ===== src/Base/Strings/Words.antt =====
-- `bufio.Scanner` with `ScanWords`. The words of a line are no longer than the line, which fits the
-- buffer of the scanner of lines already.
use Prim.Native.Nat.{ℕ}
use mathlib.Core.Bool.{false}
use mathlib.Core.List.{List, [], ◌∷◌, ◌++◌, append-nil, append_assoc}
use mathlib.Core.Path.{◌≡◌, refl, ap, ◌∙◌, sym}
use mathlib.Core.Logic.{inl, inr}
use native.Mathlib.Omega.{arith}
use envd.Base.Tests.{if◌then◌else◌, Bool-cases}
use envd.Base.Text.{Text}
use envd.Base.Lists.{All, All-append}
use envd.Base.Strings.Space.{is_space, trim_left, trim_right, trim_space, join, IsSolid, IsWord}

-- A word ends: an empty one is no word.
abbrev pub flush : Text → List Text → List Text
flush [] ws = ws
flush (c ∷ cs) ws = (c ∷ cs) ∷ ws

-- `word` is what has been read of the current word.
unfoldable pub words_from : Text → Text → List Text
words_from word [] = flush word []
words_from word (c ∷ cs) =
    let rest = words_from (if is_space c then [] else word ++ (c ∷ [])) cs in
    if is_space c then flush word rest else rest

unfoldable pub scan_words : Text → List Text
unfolding words_from
scan_words = words_from []

words_from-solid :
    (word w rest : Text) → IsSolid w → words_from word (w ++ rest) ≡ words_from (word ++ w) rest
unfolding words_from
words_from-solid word [] rest h = rw append-nil
words_from-solid word (c ∷ cs) rest h =
    rw h.0 (words_from-solid (word ++ (c ∷ [])) cs rest h.1 ∙ rw append_assoc)

words_from-space :
    (word rest : Text) → words_from word (b' ' ∷ rest) ≡ flush word (words_from [] rest)
unfolding words_from is_space
words_from-space word rest = refl

IsWord-IsSolid : (w : Text) → IsWord w → IsSolid w
IsWord-IsSolid [] h = tt
IsWord-IsSolid (c ∷ cs) h = h

flush-IsWord : (w : Text) (ws : List Text) → IsWord w → flush w ws ≡ w ∷ ws
flush-IsWord [] ws h = absurd h
flush-IsWord (c ∷ cs) ws h = refl

words_from-join : (ws : List Text) → All IsWord ws → words_from [] (join (b' ' ∷ []) ws) ≡ ws
unfolding join
words_from-join [] h = unfold words_from in refl
words_from-join (w ∷ []) h =
    ap (words_from []) (sym (append-nil w))
    ∙ words_from-solid [] w [] (IsWord-IsSolid w h.0)
    ∙ unfold words_from in flush-IsWord w [] h.0
words_from-join (w ∷ v ∷ ws) h =
    words_from-solid [] w _ (IsWord-IsSolid w h.0)
    ∙ words_from-space w (join (b' ' ∷ []) (v ∷ ws))
    ∙ flush-IsWord w _ h.0
    ∙ ap (λ x. w ∷ x) (words_from-join (v ∷ ws) h.1)

-- A keyword, a blank and the arguments are read as those words.
pub scan_words-join :
    (w : Text) (ws : List Text)
    → IsWord w
    → All IsWord ws
    → scan_words (w ++ (b' ' ∷ join (b' ' ∷ []) ws)) ≡ w ∷ ws
unfolding scan_words
scan_words-join w ws h hs =
    words_from-solid [] w _ (IsWord-IsSolid w h)
    ∙ words_from-space w (join (b' ' ∷ []) ws)
    ∙ flush-IsWord w _ h
    ∙ ap (λ x. w ∷ x) (words_from-join ws hs)

words_from-trim_right : (word t : Text) → words_from word (trim_right t) ≡ words_from word t
unfolding trim_right words_from
words_from-trim_right word [] = refl
words_from-trim_right word (c ∷ cs) =
    ground (arith, words_from-trim_right [] cs, words_from-trim_right (word ++ (c ∷ [])) cs)

scan_words-trim_left : (t : Text) → words_from [] (trim_left t) ≡ words_from [] t
unfolding trim_left words_from
scan_words-trim_left [] = refl
scan_words-trim_left (c ∷ cs) = ground (arith, scan_words-trim_left cs)

pub scan_words-trim_space : (t : Text) → scan_words (trim_space t) ≡ scan_words t
unfolding scan_words trim_space
scan_words-trim_space t = scan_words-trim_left (trim_right t) ∙ words_from-trim_right [] t

flush-All :
    (word : Text) (ws : List Text) → IsSolid word → All IsWord ws → All IsWord (flush word ws)
flush-All [] ws h hs = hs
flush-All (c ∷ cs) ws h hs = (h, hs)

words_from-All : (word t : Text) → IsSolid word → All IsWord (words_from word t)
unfolding words_from
words_from-All word [] h = flush-All word [] h tt
words_from-All word (c ∷ cs) h = elim (Bool-cases (is_space c)) [
  | inl e ↦ rw e (flush-All word (words_from [] cs) h (words_from-All [] cs tt))
  | inr e ↦ rw e (
      words_from-All (word ++ (c ∷ [])) cs
        (All-append (λ x. is_space x ≡ false) word (c ∷ []) h (e, tt)))
]

-- What is read are words.
pub scan_words-All : (t : Text) → All IsWord (scan_words t)
unfolding scan_words
scan_words-All t = words_from-All [] t tt

words_from-head :
    (c : ℕ) (w t : Text) → (v : Text) × (vs : List Text) × (words_from (c ∷ w) t ≡ (c ∷ v) ∷ vs)
unfolding words_from
words_from-head c w [] = (w, [], refl)
words_from-head c w (d ∷ t) = elim (Bool-cases (is_space d)) [
  | inl e ↦ (w, words_from [] t, rw e)
  | inr e ↦ let (v, vs, p) = words_from-head c (w ++ (d ∷ [])) t in (v, vs, rw e p)
]

-- The first word of a trimmed line begins as the line does.
pub scan_words-head :
    (c : ℕ) (t : Text)
    → is_space c ≡ false
    → (v : Text) × (vs : List Text) × (scan_words (c ∷ t) ≡ (c ∷ v) ∷ vs)
unfolding scan_words words_from
scan_words-head c t h = let (v, vs, p) = words_from-head c [] t in (v, vs, rw h p)
