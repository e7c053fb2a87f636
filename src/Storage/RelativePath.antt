-- ===== src/Storage/RelativePath.antt =====
-- `validate_relative_path` of src/storage/relative_path.rs, on the code points of the path.
use p2p_file.Common.{
  ℕ, ◌≤◌, ◌≡◌, ◌≢◌, sym, Bool, false, ◌&&◌, ◌||◌, List, [], ◌∷◌, if◌then◌else◌, ltb, leb, ◌==◌,
  length, All, arith,
}
use p2p_file.Common.Bytes.{same_bytes, same_bytes_iff}
use p2p_file.Common.Text.{
  utf8, any_char, is_control, upper, split, first_or, last_or, intercalate, intercalate-split,
  split-All,
}

pub data Error : Type 0 where
  bad_length bad_component reserved_device : Error

pub data Result : Type 0 where
  ok : Result
  err : Error → Result

-- `".P2P-DESKTOP"`, which `eq_ignore_ascii_case` compares in either case.
abbrev pub partial_dir : List ℕ
partial_dir = b'.' ∷ b'P' ∷ b'2' ∷ b'P' ∷ b'-' ∷ b'D' ∷ b'E' ∷ b'S' ∷ b'K' ∷ b'T' ∷ b'O' ∷ b'P' ∷ []

abbrev pub is_dot_or_space : ℕ → Bool
is_dot_or_space c = c == b'.' || c == b' '

-- `"\\:<>\"|?*"`
abbrev pub is_unportable : ℕ → Bool
is_unportable c =
    is_control c
    || c == 92
    || c == b':'
    || c == b'<'
    || c == b'>'
    || c == 34
    || c == b'|'
    || c == b'?'
    || c == b'*'

unfoldable pub bad_name : List ℕ → Bool
bad_name component =
    same_bytes (upper component) partial_dir
    || same_bytes component []
    || same_bytes component (b'.' ∷ [])
    || same_bytes component (b'.' ∷ b'.' ∷ [])
    || ltb 255 (length (utf8 component))
    || is_dot_or_space (last_or 0 component)
    || any_char is_unportable component

-- The one character after `COM` or `LPT` of a device: 1 to 9, or a superscript 1, 2 or 3.
abbrev pub is_device_digit : ℕ → Bool
is_device_digit c = (leb b'1' c && leb c b'9') || c == 185 || c == 178 || c == 179

abbrev pub is_numbered : List ℕ → Bool
is_numbered (a ∷ b ∷ c ∷ d ∷ []) =
    (same_bytes (a ∷ b ∷ c ∷ []) (b'C' ∷ b'O' ∷ b'M' ∷ [])
      || same_bytes (a ∷ b ∷ c ∷ []) (b'L' ∷ b'P' ∷ b'T' ∷ []))
    && is_device_digit d
is_numbered _ = false

unfoldable pub is_device : List ℕ → Bool
is_device component =
    same_bytes stem (b'C' ∷ b'O' ∷ b'N' ∷ [])
    || same_bytes stem (b'P' ∷ b'R' ∷ b'N' ∷ [])
    || same_bytes stem (b'A' ∷ b'U' ∷ b'X' ∷ [])
    || same_bytes stem (b'N' ∷ b'U' ∷ b'L' ∷ [])
    || is_numbered stem
  where
    stem : List ℕ
    stem = upper (first_or [] (split b'.' component))

unfoldable pub check_components : List (List ℕ) → Result
check_components [] = ok
check_components (c ∷ cs) =
    let rest = check_components cs in
    if bad_name c then err bad_component else if is_device c then err reserved_device else rest

unfoldable pub validate_relative_path : List ℕ → Result
validate_relative_path path =
    if same_bytes path [] || ltb 4096 (length (utf8 path)) || ltb 64 (length (split b'/' path))
    then err bad_length
    else check_components (split b'/' path)

-- What a component of an accepted path is: a name of one directory entry.
pub record IsEntry (c : List ℕ) : Type 0 where
  pub some_name : c ≢ []
  pub not_here : c ≢ b'.' ∷ []
  pub not_up : c ≢ b'.' ∷ b'.' ∷ []
  pub one_level : any_char (λ d. d == b'/') c ≡ false
  pub portable : any_char is_unportable c ≡ false
  pub short : length (utf8 c) ≤ 255

check_components_lem :
    (cs : List (List ℕ))
    → All (λ c. any_char (λ d. d == b'/') c ≡ false) cs
    → check_components cs ≡ ok
    → All IsEntry cs
unfolding check_components bad_name
check_components_lem [] s h = tt
check_components_lem (c ∷ cs) s h = (
  record {
    some_name = λ e. ground (arith, same_bytes_iff c []);
    not_here = λ e. ground (arith, same_bytes_iff c (b'.' ∷ []));
    not_up = λ e. ground (arith, same_bytes_iff c (b'.' ∷ b'.' ∷ []));
    one_level = s.0;
    portable = ground arith;
    short = ground arith;
  },
  check_components_lem cs s.1 (ground arith),
)

-- An accepted path is its components with separators between them, at most 64, each the name of
-- one directory entry: not empty, neither one dot nor two, no longer than 255 bytes, without
-- separators and characters that are not portable.
pub validate_relative_path_lem :
    (path : List ℕ)
    → validate_relative_path path ≡ ok
    → (cs : List (List ℕ)) × (path ≡ intercalate b'/' cs) × (length cs ≤ 64) × All IsEntry cs
unfolding validate_relative_path
validate_relative_path_lem path h = (
  split b'/' path,
  sym (intercalate-split b'/' path),
  ground arith,
  check_components_lem (split b'/' path) (split-All b'/' path) (ground arith),
)
