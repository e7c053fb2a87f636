-- ===== src/Common/Text.antt =====
-- Text as a list of code points, its UTF-8 bytes, and the functions of Rust's `str` that are used.
use Prim.Native.Nat.{ℕ, ◌+◌, ◌-◌, ◌/◌, ◌%◌}
use mathlib.Core.Path.{◌≡◌, refl, ap, ◌∙◌}
use mathlib.Core.Logic.{◌≢◌, inl, inr}
use mathlib.Core.Bool.{Bool, true, false, ◌&&◌, ◌||◌}
use mathlib.Core.List.{List, [], ◌∷◌, ◌++◌}
use mathlib.Core.Option.{Option, none, some}
use native.Mathlib.Omega.{arith}
use p2p_file.Common.Tests.{ltb, leb, ◌==◌, if◌then◌else◌, Bool-cases}
use p2p_file.Common.Lists.{All}

abbrev pub all_chars : (ℕ → Bool) → List ℕ → Bool
all_chars p [] = true
all_chars p (c ∷ cs) = p c && all_chars p cs

abbrev pub any_char : (ℕ → Bool) → List ℕ → Bool
any_char p [] = false
any_char p (c ∷ cs) = p c || any_char p cs

-- The UTF-8 bytes of a code point.
abbrev pub char_bytes : ℕ → List ℕ
char_bytes c =
    if ltb c 128
    then c ∷ []
    else (if ltb c 2048
        then (192 + c / 64) ∷ (128 + c % 64) ∷ []
        else (if ltb c 65536
            then (224 + c / 4096) ∷ (128 + c / 64 % 64) ∷ (128 + c % 64) ∷ []
            else (240 + c / 262144)
              ∷ (128 + c / 4096 % 64)
              ∷ (128 + c / 64 % 64)
              ∷ (128 + c % 64)
              ∷ []))

abbrev pub utf8 : List ℕ → List ℕ
utf8 [] = []
utf8 (c ∷ cs) = char_bytes c ++ utf8 cs

-- `char::is_control`
abbrev pub is_control : ℕ → Bool
is_control c = ltb c 32 || (leb 127 c && ltb c 160)

-- `char::is_whitespace`
abbrev pub is_whitespace : ℕ → Bool
is_whitespace c =
    (leb 9 c && leb c 13)
    || c == 32
    || c == 133
    || c == 160
    || c == 5760
    || (leb 8192 c && leb c 8202)
    || c == 8232
    || c == 8233
    || c == 8239
    || c == 8287
    || c == 12288

-- `to_ascii_uppercase`
abbrev pub upper : List ℕ → List ℕ
upper [] = []
upper (c ∷ cs) = (if leb b'a' c && leb c b'z' then c - 32 else c) ∷ upper cs

abbrev pub onto_first : ℕ → List (List ℕ) → List (List ℕ)
onto_first c [] = (c ∷ []) ∷ []
onto_first c (p ∷ ps) = (c ∷ p) ∷ ps

-- `split(c)`: the pieces between the separators, one more than there are separators.
abbrev pub split : ℕ → List ℕ → List (List ℕ)
split s [] = [] ∷ []
split s (c ∷ cs) = let rest = split s cs in if c == s then [] ∷ rest else onto_first c rest

-- `split_once(c)`
abbrev pub split_once : ℕ → List ℕ → Option (List ℕ × List ℕ)
split_once s [] = none
split_once s (c ∷ cs) =
    if c == s
    then some ([], cs)
    else elim (split_once s cs) [ none ↦ none | some (a, b) ↦ some (c ∷ a, b) ]

abbrev pub first_or {ℓ} : {A : Type ℓ} → A → List A → A
first_or d [] = d
first_or d (x ∷ xs) = x

abbrev pub last_or {ℓ} : {A : Type ℓ} → A → List A → A
last_or d [] = d
last_or d (x ∷ xs) = last_or x xs

-- The pieces with the separator between them.
abbrev pub intercalate : ℕ → List (List ℕ) → List ℕ
intercalate s [] = []
intercalate s (p ∷ []) = p
intercalate s (p ∷ q ∷ ps) = p ++ (s ∷ intercalate s (q ∷ ps))

pub intercalate-split : (s : ℕ) (cs : List ℕ) → intercalate s (split s cs) ≡ cs
intercalate-split s [] = refl
intercalate-split s (c ∷ cs) = elim (Bool-cases (c == s)) [
  | inl e ↦ ground (arith, joined (split s cs), intercalate-split s cs, split_some cs)
  | inr e ↦ rw e (onto (split s cs) ∙ ap (λ t. c ∷ t) (intercalate-split s cs))
]
  where
    joined : (ps : List (List ℕ)) → ps ≢ [] → intercalate s ([] ∷ ps) ≡ s ∷ intercalate s ps
    joined [] h = absurd (h refl)
    joined (p ∷ ps) h = refl

    onto : (ps : List (List ℕ)) → intercalate s (onto_first c ps) ≡ c ∷ intercalate s ps
    onto [] = refl
    onto (p ∷ []) = refl
    onto (p ∷ q ∷ ps) = refl

    split_some : (ds : List ℕ) → split s ds ≢ []
    split_some [] = λ e. cc
    split_some (d ∷ ds) = elim (Bool-cases (d == s)) [
      | inl e ↦ rw e (λ q. cc)
      | inr e ↦ rw e (never (split s ds))
    ]
      where
        never : (ps : List (List ℕ)) → onto_first d ps ≢ []
        never [] = λ e. cc
        never (p ∷ ps) = λ e. cc

pub split-All : (s : ℕ) (cs : List ℕ) → All (λ p. any_char (λ c. c == s) p ≡ false) (split s cs)
split-All s [] = (refl, tt)
split-All s (c ∷ cs) = elim (Bool-cases (c == s)) [
  | inl e ↦ rw e (refl, split-All s cs)
  | inr e ↦ rw e (onto e (split s cs) (split-All s cs))
]
  where
    onto :
        (c == s) ≡ false
        → (ps : List (List ℕ)) → All (λ p. any_char (λ c. c == s) p ≡ false) ps
        → All (λ p. any_char (λ c. c == s) p ≡ false) (onto_first c ps)
    onto e [] h = (ground (arith, e), tt)
    onto e (p ∷ ps) h = (ground (arith, e), h.1)
