-- ===== src/Common/Paths.antt =====
-- `std::path::PathBuf`: whether it is absolute, and the names it is made of. A name is a list of code
-- points; one that holds a surrogate is no Unicode text, and `to_str` refuses it.
use Prim.Native.Nat.{ℕ}
use mathlib.Core.Bool.{Bool, true, false, not, ◌&&◌, ◌||◌}
use mathlib.Core.List.{List, [], ◌∷◌, ◌++◌}
use mathlib.Core.Option.{Option, none, some}
use p2p_file.Common.Tests.{ltb, leb, ◌==◌, if◌then◌else◌}
use p2p_file.Common.Bytes.{same_bytes}
use p2p_file.Common.Text.{all_chars, split, last_or}

pub record PathBuf : Type 0 where
  pub is_absolute : Bool
  pub names : List (List ℕ)

abbrev pub same_names : List (List ℕ) → List (List ℕ) → Bool
same_names [] [] = true
same_names [] (q ∷ qs) = false
same_names (p ∷ ps) [] = false
same_names (p ∷ ps) (q ∷ qs) = same_bytes p q && same_names ps qs

abbrev pub same_bool : Bool → Bool → Bool
same_bool true b = b
same_bool false b = not b

abbrev pub same_path : PathBuf → PathBuf → Bool
same_path a b = same_bool a.is_absolute b.is_absolute && same_names a.names b.names

abbrev pub names_start_with : List (List ℕ) → List (List ℕ) → Bool
names_start_with ps [] = true
names_start_with [] (q ∷ qs) = false
names_start_with (p ∷ ps) (q ∷ qs) = same_bytes p q && names_start_with ps qs

-- `a.starts_with(b)`
abbrev pub starts_with : PathBuf → PathBuf → Bool
starts_with a b = same_bool a.is_absolute b.is_absolute && names_start_with a.names b.names

abbrev pub is_unicode : List ℕ → Bool
is_unicode name = all_chars (λ c. not (leb 55296 c && ltb c 57344)) name

-- `to_str().is_some()`
abbrev pub all_unicode : List (List ℕ) → Bool
all_unicode [] = true
all_unicode (p ∷ ps) = is_unicode p && all_unicode ps

abbrev pub up_name : List ℕ
up_name = b'.' ∷ b'.' ∷ []

-- `file_name().and_then(|n| n.to_str())`
abbrev pub file_name_text : PathBuf → Option (List ℕ)
file_name_text p =
    let name = last_or [] p.names in
    if same_bytes name [] || same_bytes name up_name || not (is_unicode name)
    then none
    else some name

-- The names of a relative path: the pieces but the empty ones and `.`.
abbrev pub names_of : List (List ℕ) → List (List ℕ)
names_of [] = []
names_of (p ∷ ps) =
    let rest = names_of ps in if same_bytes p [] || same_bytes p (b'.' ∷ []) then rest else p ∷ rest

abbrev pub is_rooted : List ℕ → Bool
is_rooted [] = false
is_rooted (c ∷ cs) = c == b'/'

-- `p.join(text)`: an absolute text replaces the path.
abbrev pub join : PathBuf → List ℕ → PathBuf
join p text =
    let names = names_of (split b'/' text) in
    if is_rooted text
    then record { is_absolute = true; names = names }
    else record { is_absolute = p.is_absolute; names = p.names ++ names }
