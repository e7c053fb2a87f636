-- ===== src/Transfer/FileName.antt =====
-- `safe_file_name` of src/protocol/manifest.rs, on the code points of the name. The classes of
-- characters and the trimming functions are those of Rust's standard library.
use p2p_file.Common.Text.{is_whitespace}
use p2p_file.Common.{
  ℕ, ◌≡◌, refl, inl, inr, Bool, true, false, not, ◌&&◌, ◌||◌, List, [], ◌∷◌, if◌then◌else◌, leb,
  ltb, ◌==◌, select, arith, Bool-cases,
}

-- `char::is_control`
abbrev pub is_control : ℕ → Bool
is_control c = ltb c 32 || (leb 127 c && ltb c 160)

abbrev pub is_separator : ℕ → Bool
is_separator c = c == b'/' || c == b'\\'

abbrev pub is_dot : ℕ → Bool
is_dot c = c == b'.'

abbrev pub some_char : (ℕ → Bool) → List ℕ → Bool
some_char p [] = false
some_char p (c ∷ cs) = p c || some_char p cs

abbrev pub is_empty : List ℕ → Bool
is_empty [] = true
is_empty (_ ∷ _) = false

-- `rsplit(['/', '\\']).next()`: what follows the last separator.
unfoldable pub last_part : List ℕ → List ℕ
last_part [] = []
last_part (c ∷ cs) =
    let rest = last_part cs in if some_char is_separator (c ∷ cs) then rest else c ∷ cs

unfoldable pub trim_start : (ℕ → Bool) → List ℕ → List ℕ
trim_start p [] = []
trim_start p (c ∷ cs) = let rest = trim_start p cs in if p c then rest else c ∷ cs

unfoldable pub trim_end : (ℕ → Bool) → List ℕ → List ℕ
trim_end p [] = []
trim_end p (c ∷ cs) = let rest = trim_end p cs in if is_empty rest && p c then [] else c ∷ rest

unfoldable pub trim_matches : (ℕ → Bool) → List ℕ → List ℕ
trim_matches p cs = trim_end p (trim_start p cs)

-- `"download.bin"`
abbrev pub fallback_name : List ℕ
fallback_name =
    b'd' ∷ b'o' ∷ b'w' ∷ b'n' ∷ b'l' ∷ b'o' ∷ b'a' ∷ b'd' ∷ b'.' ∷ b'b' ∷ b'i' ∷ b'n' ∷ []

unfoldable pub cleaned : List ℕ → List ℕ
cleaned name =
    select (λ c. not (is_control c) && not (c == 0))
      (trim_matches is_dot (trim_matches is_whitespace (last_part name)))

unfoldable pub safe_file_name : List ℕ → List ℕ
safe_file_name name = if is_empty (cleaned name) then fallback_name else cleaned name

-- What holds of every character of a text holds of what is left of it.
module _ (P : ℕ → Bool) where
  no_more_last : (cs : List ℕ) → some_char P cs ≡ false → some_char P (last_part cs) ≡ false
  unfolding last_part
  no_more_last [] h = refl
  no_more_last (c ∷ cs) h = ground (arith, no_more_last cs)

  no_more_start :
      (q : ℕ → Bool) (cs : List ℕ) → some_char P cs ≡ false → some_char P (trim_start q cs) ≡ false
  unfolding trim_start
  no_more_start q [] h = refl
  no_more_start q (c ∷ cs) h = ground (arith, no_more_start q cs)

  no_more_end :
      (q : ℕ → Bool) (cs : List ℕ) → some_char P cs ≡ false → some_char P (trim_end q cs) ≡ false
  unfolding trim_end
  no_more_end q [] h = refl
  no_more_end q (c ∷ cs) h = ground (arith, no_more_end q cs)

  no_more_matches :
      (q : ℕ → Bool) (cs : List ℕ)
      → some_char P cs ≡ false
      → some_char P (trim_matches q cs) ≡ false
  unfolding trim_matches
  no_more_matches q cs h = no_more_end q (trim_start q cs) (no_more_start q cs h)

  no_more_select :
      (q : ℕ → Bool) (cs : List ℕ) → some_char P cs ≡ false → some_char P (select q cs) ≡ false
  no_more_select q [] h = refl
  no_more_select q (c ∷ cs) h = ground (arith, no_more_select q cs)

last_part_clean : (cs : List ℕ) → some_char is_separator (last_part cs) ≡ false
unfolding last_part
last_part_clean [] = refl
last_part_clean (c ∷ cs) = elim (Bool-cases (some_char is_separator (c ∷ cs))) [
  | inl e ↦ rw e (last_part_clean cs)
  | inr e ↦ rw e e
]

select_none :
    (p q : ℕ → Bool) (cs : List ℕ)
    → ((c : ℕ) → p c ≡ true → q c ≡ false)
    → some_char q (select p cs) ≡ false
select_none p q [] h = refl
select_none p q (c ∷ cs) h = ground (arith, h c, select_none p q cs h)

-- The cleaned file name is never empty and has no path separator and no control character.
pub safe_file_name_clean :
    (name : List ℕ)
    → (is_empty (safe_file_name name) ≡ false)
      × (some_char is_separator (safe_file_name name) ≡ false)
      × (some_char is_control (safe_file_name name) ≡ false)
unfolding safe_file_name cleaned
safe_file_name_clean name = elim (Bool-cases (is_empty (cleaned name))) [
  | inl e ↦ rw e (refl, refl, refl)
  | inr e ↦ rw e (e, no_separator, no_control)
]
  where
    kept : List ℕ
    kept = trim_matches is_whitespace (last_part name)

    no_separator : some_char is_separator (cleaned name) ≡ false
    no_separator =
        no_more_select is_separator (λ c. not (is_control c) && not (c == 0))
          (trim_matches is_dot kept)
          (no_more_matches is_separator is_dot kept
            (no_more_matches is_separator is_whitespace (last_part name) (last_part_clean name)))

    no_control : some_char is_control (cleaned name) ≡ false
    no_control =
        select_none (λ c. not (is_control c) && not (c == 0)) is_control (trim_matches is_dot kept)
          (λ c h. ground arith)

abbrev pub starts_with : (ℕ → Bool) → List ℕ → Bool
starts_with p [] = false
starts_with p (c ∷ cs) = p c

trim_start_head : (p : ℕ → Bool) (cs : List ℕ) → starts_with p (trim_start p cs) ≡ false
unfolding trim_start
trim_start_head p [] = refl
trim_start_head p (c ∷ cs) = ground (arith, trim_start_head p cs)

trim_end_head :
    (p q : ℕ → Bool) (cs : List ℕ)
    → starts_with p cs ≡ false
    → starts_with p (trim_end q cs) ≡ false
unfolding trim_end
trim_end_head p q [] h = refl
trim_end_head p q (c ∷ cs) h = ground arith

trim_matches_head : (p : ℕ → Bool) (cs : List ℕ) → starts_with p (trim_matches p cs) ≡ false
unfolding trim_matches
trim_matches_head p cs = trim_end_head p p (trim_start p cs) (trim_start_head p cs)

select_all :
    (p q : ℕ → Bool) (cs : List ℕ)
    → ((c : ℕ) → q c ≡ false → p c ≡ true)
    → some_char q cs ≡ false
    → select p cs ≡ cs
select_all p q [] h e = refl
select_all p q (c ∷ cs) h e = ground (arith, h c, select_all p q cs h)

-- If the name given has no control character, the cleaned name does not begin with a dot.
pub safe_file_name_no_dot :
    (name : List ℕ)
    → some_char is_control name ≡ false
    → starts_with is_dot (safe_file_name name) ≡ false
unfolding safe_file_name cleaned
safe_file_name_no_dot name h = elim (Bool-cases (is_empty (cleaned name))) [
  | inl e ↦ rw e refl
  | inr e ↦ rw e (rw unchanged (trim_matches_head is_dot kept))
]
  where
    kept : List ℕ
    kept = trim_matches is_whitespace (last_part name)

    unchanged : cleaned name ≡ trim_matches is_dot kept
    unchanged =
        select_all (λ c. not (is_control c) && not (c == 0)) is_control (trim_matches is_dot kept)
          (λ c q. ground arith)
          (no_more_matches is_control is_dot kept (
            no_more_matches is_control is_whitespace (last_part name)
              (no_more_last is_control name h)))

last_part_four :
    (a b c d : ℕ)
    → some_char is_separator (a ∷ b ∷ c ∷ d ∷ []) ≡ false
    → last_part (a ∷ b ∷ c ∷ d ∷ []) ≡ a ∷ b ∷ c ∷ d ∷ []
unfolding last_part
last_part_four a b c d h = rw h

trim_matches_four :
    (p : ℕ → Bool) (a b c d : ℕ)
    → p a ≡ false
    → p d ≡ false
    → trim_matches p (a ∷ b ∷ c ∷ d ∷ []) ≡ a ∷ b ∷ c ∷ d ∷ []
unfolding trim_matches trim_start trim_end
trim_matches_four p a b c d h e = ground arith

select_middle :
    (p : ℕ → Bool) (a b c d : ℕ)
    → p a ≡ false
    → p b ≡ true
    → p c ≡ true
    → p d ≡ false
    → select p (a ∷ b ∷ c ∷ d ∷ []) ≡ b ∷ c ∷ []
select_middle p a b c d ha hb hc hd = ground arith

-- Two dots between two control characters that are not white space are cleaned to the name of two
-- dots.
pub safe_file_name_dots :
    (c d : ℕ)
    → is_control c ≡ true
    → is_whitespace c ≡ false
    → is_control d ≡ true
    → is_whitespace d ≡ false
    → safe_file_name (c ∷ b'.' ∷ b'.' ∷ d ∷ []) ≡ b'.' ∷ b'.' ∷ []
unfolding safe_file_name cleaned
safe_file_name_dots c d hc wc hd wd = rw result
  where
    dropped : (x : ℕ) → is_control x ≡ true → (not (is_control x) && not (x == 0)) ≡ false
    dropped x h = rw h

    no_separator : some_char is_separator (c ∷ b'.' ∷ b'.' ∷ d ∷ []) ≡ false
    no_separator = ground arith

    no_dot : (x : ℕ) → is_control x ≡ true → is_dot x ≡ false
    no_dot x h = ground arith

    result : cleaned (c ∷ b'.' ∷ b'.' ∷ d ∷ []) ≡ b'.' ∷ b'.' ∷ []
    result =
        rw
          (
            last_part_four c b'.' b'.' d no_separator,
            trim_matches_four is_whitespace c b'.' b'.' d wc wd,
            trim_matches_four is_dot c b'.' b'.' d (no_dot c hc) (no_dot d hd),
          )
          (select_middle (λ x. not (is_control x) && not (x == 0)) c b'.' b'.' d (dropped c hc) refl
            refl (dropped d hd))
