-- ===== src/Text/Parts.antt =====
-- Prefixes, suffixes, lines and pieces of texts and of bytes, as Python's methods give them.
use enterprise_communication.Prelude.{
  ℕ, Bool, true, false, ◌&&◌, ◌||◌, List, [], ◌∷◌, reverse, ◌==◌, leb, if◌then◌else◌,
}
use enterprise_communication.Text.{Text, is_empty}

-- `s.startswith(prefix)`
unfoldable pub starts_with : Text → Text → Bool
starts_with [] s = true
starts_with (p ∷ ps) [] = false
starts_with (p ∷ ps) (c ∷ s) = p == c && starts_with ps s

-- `s.endswith(suffix)`
unfoldable pub ends_with : Text → Text → Bool
unfolding starts_with
ends_with suffix s = starts_with (reverse suffix) (reverse s)

-- `part in s`
unfoldable pub contains : Text → Text → Bool
unfolding starts_with
contains part [] = is_empty part
contains part (c ∷ s) = starts_with part (c ∷ s) || contains part s

-- `s.strip(characters)`
unfoldable pub lstrip_of : (ℕ → Bool) → Text → Text
lstrip_of p [] = []
lstrip_of p (c ∷ s) = let rest = lstrip_of p s in if p c then rest else c ∷ s

unfoldable pub strip_of : (ℕ → Bool) → Text → Text
unfolding lstrip_of
strip_of p s = reverse (lstrip_of p (reverse (lstrip_of p s)))

-- `s.splitlines()[0]`, for a text that is not empty
abbrev pub is_line_break : ℕ → Bool
is_line_break c = leb 10 c && leb c 13 || leb 28 c && leb c 30 || c == 133 || c == 8232 || c == 8233

unfoldable pub first_line : Text → Text
first_line [] = []
first_line (c ∷ s) = let rest = first_line s in if is_line_break c then [] else c ∷ rest

-- `s.split(separator)` at one character: never empty
abbrev onto : ℕ → List Text → List Text
onto c [] = (c ∷ []) ∷ []
onto c (part ∷ parts) = (c ∷ part) ∷ parts

unfoldable pub split_at : ℕ → Text → List Text
split_at separator [] = [] ∷ []
split_at separator (c ∷ s) =
    let parts = split_at separator s in if c == separator then [] ∷ parts else onto c parts

-- `parts[-1]`
unfoldable pub last_part : List Text → Text
last_part [] = []
last_part (part ∷ []) = part
last_part (part ∷ next ∷ parts) = last_part (next ∷ parts)

-- `s.replace(old, new)` for two characters
unfoldable pub replace_character : ℕ → ℕ → Text → Text
replace_character old new [] = []
replace_character old new (c ∷ s) = (if c == old then new else c) ∷ replace_character old new s

-- `s[:-1]`
unfoldable pub without_last : Text → Text
without_last [] = []
without_last (c ∷ s) = let rest = without_last s in if is_empty s then [] else c ∷ rest

-- `s.rstrip(characters)`
unfoldable pub rstrip_of : (ℕ → Bool) → Text → Text
unfolding lstrip_of
rstrip_of p s = reverse (lstrip_of p (reverse s))
