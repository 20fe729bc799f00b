-- ===== src/Options/EnvName.antt =====
-- pkg/app/build/build.go, `CreateEnvNameFromDir`: the environment's name from the directory's.
use envd.Base.{
  ℕ, Bool, true, false, ◌&&◌, ◌||◌, ◌≤◌, Option, none, some, [], ◌∷◌, ◌≡◌, refl, sym, ap, ◌∙◌,
  arith, zero, suc, ◌⊎◌, inl, inr, Bool-cases, ◌==◌, leb, if◌then◌else◌, length, take,
  length-take_le, All,
}
use envd.Base.Text.{Text}
use envd.Plugin.{cut_last}
use mathlib.Core.Path.{subst}

-- `[a-zA-Z0-9]`
unfoldable pub is_alnum : ℕ → Bool
is_alnum c = (leb 97 c && leb c 122) || (leb 65 c && leb c 90) || (leb 48 c && leb c 57)

-- `[a-zA-Z0-9_.-]`
unfoldable pub is_name_char : ℕ → Bool
is_name_char c = is_alnum c || c == 95 || c == 46 || c == 45

-- The matches of `[a-zA-Z0-9][a-zA-Z0-9_.-]*` in the text, one after the other. The flag says
-- whether the walk is inside a match.
unfoldable pub matches : Bool → Text → Text
matches inside [] = []
matches true (c ∷ cs) =
    let kept = matches true cs in
    let dropped = matches false cs in if is_name_char c then c ∷ kept else dropped
matches false (c ∷ cs) =
    let kept = matches true cs in
    let dropped = matches false cs in if is_alnum c then c ∷ kept else dropped

abbrev or_slash : Text → Text
or_slash [] = b'/' ∷ []
or_slash (c ∷ cs) = c ∷ cs

unfoldable pub drop_slashes : Text → Text
drop_slashes [] = []
drop_slashes (c ∷ cs) = elim (drop_slashes cs) [
  | [] ↦ if c == b'/' then [] else c ∷ []
  | d ∷ ds ↦ c ∷ d ∷ ds
]

abbrev last_part : Text → Option (Text × Text) → Text
last_part path none = path
last_part path (some (_, last)) = last

-- `filepath.Base` where the separator is "/".
unfoldable pub base_name : Text → Text
base_name [] = b'.' ∷ []
base_name (c ∷ cs) =
    or_slash (last_part (drop_slashes (c ∷ cs)) (cut_last b'/' (drop_slashes (c ∷ cs))))

abbrev named : Text → Option Text
named [] = none
named (c ∷ cs) = some (take 30 (c ∷ cs))

-- `CreateEnvNameFromDir`; `none` is its error.
unfoldable pub create_env_name_from_dir : Text → Option Text
create_env_name_from_dir dir = named (matches false (base_name dir))

-- A legal name: characters of the pattern, the first a letter or a digit.
abbrev pub IsLegal : Text → Type 0
IsLegal [] = ⊥
IsLegal (c ∷ cs) = (is_alnum c ≡ true) × All (λ d. is_name_char d ≡ true) cs

keep-All :
    (b : Bool) (c : ℕ) (xs ys : Text)
    → (b ≡ true → is_name_char c ≡ true)
    → All (λ d. is_name_char d ≡ true) xs
    → All (λ d. is_name_char d ≡ true) ys
    → All (λ d. is_name_char d ≡ true) (if b then c ∷ xs else ys)
keep-All true c xs ys h hx hy = (h refl, hx)
keep-All false c xs ys h hx hy = hy

alnum-is_name_char : (c : ℕ) → is_alnum c ≡ true → is_name_char c ≡ true
unfolding is_name_char
alnum-is_name_char c h = ground arith

matches-All : (inside : Bool) (t : Text) → All (λ d. is_name_char d ≡ true) (matches inside t)
unfolding matches
matches-All inside [] = tt
matches-All true (c ∷ cs) =
    keep-All (is_name_char c) c _ _ (λ e. e) (matches-All true cs) (matches-All false cs)
matches-All false (c ∷ cs) =
    keep-All (is_alnum c) c _ _ (alnum-is_name_char c) (matches-All true cs) (matches-All false cs)

matches-IsLegal : (t : Text) → (matches false t ≡ []) ⊎ IsLegal (matches false t)
unfolding matches
matches-IsLegal [] = inl refl
matches-IsLegal (c ∷ cs) = elim (Bool-cases (is_alnum c)) [
  | inl e ↦ inr (
      subst (λ b. IsLegal (if b then c ∷ matches true cs else matches false cs)) (sym e)
        (e, matches-All true cs))
  | inr e ↦
      subst
        (λ b. let t = if b then c ∷ matches true cs else matches false cs in (t ≡ []) ⊎ IsLegal t)
        (sym e) (matches-IsLegal cs)
]

take-All :
    (n : ℕ) (t : Text)
    → All (λ d. is_name_char d ≡ true) t
    → All (λ d. is_name_char d ≡ true) (take n t)
take-All zero t h = tt
take-All (suc n) [] h = tt
take-All (suc n) (c ∷ t) h = (h.0, take-All n t h.1)

take-IsLegal : (n : ℕ) (t : Text) → IsLegal t → IsLegal (take (suc n) t)
take-IsLegal n [] h = absurd h
take-IsLegal n (c ∷ t) h = (h.0, take-All n t h.1)

take_id : (n : ℕ) (t : Text) → length t ≤ n → take n t ≡ t
take_id zero [] h = refl
take_id zero (c ∷ t) h = ground arith
take_id (suc n) [] h = refl
take_id (suc n) (c ∷ t) h = ap (λ r. c ∷ r) (take_id n t (omega arith))

matches-legal_id : (t : Text) → All (λ d. is_name_char d ≡ true) t → matches true t ≡ t
unfolding matches
matches-legal_id [] h = refl
matches-legal_id (c ∷ t) h = ground (arith, matches-legal_id t h.1, h.0)

name_char-no_slash : (c : ℕ) → is_name_char c ≡ true → (c == b'/') ≡ false
unfolding is_name_char is_alnum
name_char-no_slash c h = ground arith

drop_slashes_id : (t : Text) → All (λ d. is_name_char d ≡ true) t → drop_slashes t ≡ t
unfolding drop_slashes
drop_slashes_id [] h = refl
drop_slashes_id (c ∷ t) h = ground (arith, drop_slashes_id t h.1, name_char-no_slash c h.0)

cut_last-name : (t : Text) → All (λ d. is_name_char d ≡ true) t → cut_last b'/' t ≡ none
unfolding cut_last
cut_last-name [] h = refl
cut_last-name (c ∷ t) h = ground (arith, cut_last-name t h.1, name_char-no_slash c h.0)

base_name-name :
    (c : ℕ) (t : Text) → All (λ d. is_name_char d ≡ true) (c ∷ t) → base_name (c ∷ t) ≡ c ∷ t
unfolding base_name
base_name-name c t h =
    ap (λ path. or_slash (last_part path (cut_last b'/' path))) (drop_slashes_id (c ∷ t) h)
    ∙ ap (λ o. or_slash (last_part (c ∷ t) o)) (cut_last-name (c ∷ t) h)

create_env_name_from_dir-legal :
    (t : Text) → IsLegal t → length t ≤ 30 → create_env_name_from_dir t ≡ some t
unfolding create_env_name_from_dir matches
create_env_name_from_dir-legal [] h k = absurd h
create_env_name_from_dir-legal (c ∷ t) h k =
    let all : All (λ d. is_name_char d ≡ true) (c ∷ t) = (alnum-is_name_char c h.0, h.1) in
    rw (base_name-name c t all, h.0, matches-legal_id t h.1) (ap some (take_id 30 (c ∷ t) k))

named-IsLegal :
    (t name : Text) → (t ≡ []) ⊎ IsLegal t → named t ≡ some name → IsLegal name × (length name ≤ 30)
named-IsLegal [] name k h = cc
named-IsLegal (c ∷ t) name (inl e) h = cc
named-IsLegal (c ∷ t) name (inr k) h =
    let e : take 30 (c ∷ t) ≡ name = cc in
    (
      subst IsLegal e (take-IsLegal 29 (c ∷ t) k),
      subst (λ n. length n ≤ 30) e (length-take_le 30 (c ∷ t)),
    )

-- A name that is made from a directory is legal: at most 30 characters, each a letter, a digit or
-- one of "_.-", and the first a letter or a digit. It is also its own name: a directory that is
-- called so gets it unchanged.
pub create_env_name_from_dir_idem :
    (dir name : Text)
    → create_env_name_from_dir dir ≡ some name
    → IsLegal name × (length name ≤ 30) × (create_env_name_from_dir name ≡ some name)
create_env_name_from_dir_idem dir name h =
    let legal =
      named-IsLegal (matches false (base_name dir)) name (matches-IsLegal (base_name dir))
        (unfold create_env_name_from_dir in h) in
    (legal.0, legal.1, create_env_name_from_dir-legal name legal.0 legal.1)
