-- ===== src/Text.antt =====
-- Go strings as byte lists, and the functions of package `strings` that the program calls.
-- Letter case is that of ASCII: bytes from 0x80 up are left as they are by `to_lower`, `to_upper`
-- and `equal_fold`. `trim_space` cuts the ASCII spaces and the UTF-8 sequences of the other
-- spaces of Unicode, as `strings.TrimSpace` does.
pub mod Trim
pub mod Split
pub mod Sort
mod Tests
use Prim.Native.Char.{code}
use Prim.Native.String.{String}
use mathlib.Core.List.{reverse}
use tunnelgate.Prelude.{
  ℕ, zero, suc, ◌+◌, ◌-◌, Bool, true, false, ◌&&◌, ◌||◌, Option, none, some, List, [], ◌∷◌, ◌++◌,
  ◌≡◌, if◌then◌else◌, leb, length, drop, is_empty, Eq, ◌==◌, ℕ_eq, list_eq, list_eq_iff, ◌↔◌, map,
  find,
}

abbrev pub Text : Type 0
Text = List ℕ

-- The bytes of an ASCII literal. `String` has its own `[]` and `∷`.
abbrev pub bytes : String → Text
bytes String.[] = []
bytes (String.◌∷◌ c s) = code c ∷ bytes s

instance abbrev pub text_eq : Eq Text
text_eq = record { same = list_eq; same_iff = list_eq_iff }

pub text_eq_iff : (s t : Text) → ((s == t) ≡ true) ↔ (s ≡ t)
text_eq_iff = list_eq_iff

-- strings.HasPrefix and strings.TrimPrefix
abbrev pub has_prefix : Text → Text → Bool
has_prefix s [] = true
has_prefix [] (p ∷ ps) = false
has_prefix (c ∷ s) (p ∷ ps) = c == p && has_prefix s ps

abbrev pub trim_prefix : Text → Text → Text
trim_prefix s p = if has_prefix s p then drop (length p) s else s

-- strings.Contains
abbrev pub contains : Text → Text → Bool
contains [] sub = is_empty sub
contains (c ∷ s) sub = has_prefix (c ∷ s) sub || contains s sub

-- strings.ReplaceAll for a non-empty `old`: `skip` bytes of a match are still to be passed over.
abbrev replace_from : Text → Text → ℕ → Text → Text
replace_from old new skip [] = []
replace_from old new zero (c ∷ s) =
    if has_prefix (c ∷ s) old
    then new ++ replace_from old new (length old - 1) s
    else c ∷ replace_from old new 0 s
replace_from old new (suc skip) (c ∷ s) = replace_from old new skip s

unfoldable pub replace_all : Text → Text → Text → Text
replace_all s old new = replace_from old new 0 s

-- The UTF-8 sequences of the white space of Unicode.
spaces : List Text
spaces =
    (0x09 ∷ [])
    ∷ (0x0a ∷ [])
    ∷ (0x0b ∷ [])
    ∷ (0x0c ∷ [])
    ∷ (0x0d ∷ [])
    ∷ (0x20 ∷ [])
    ∷ (0xc2 ∷ 0x85 ∷ [])
    ∷ (0xc2 ∷ 0xa0 ∷ [])
    ∷ (0xe1 ∷ 0x9a ∷ 0x80 ∷ [])
    ∷ (0xe2 ∷ 0x80 ∷ 0x80 ∷ [])
    ∷ (0xe2 ∷ 0x80 ∷ 0x81 ∷ [])
    ∷ (0xe2 ∷ 0x80 ∷ 0x82 ∷ [])
    ∷ (0xe2 ∷ 0x80 ∷ 0x83 ∷ [])
    ∷ (0xe2 ∷ 0x80 ∷ 0x84 ∷ [])
    ∷ (0xe2 ∷ 0x80 ∷ 0x85 ∷ [])
    ∷ (0xe2 ∷ 0x80 ∷ 0x86 ∷ [])
    ∷ (0xe2 ∷ 0x80 ∷ 0x87 ∷ [])
    ∷ (0xe2 ∷ 0x80 ∷ 0x88 ∷ [])
    ∷ (0xe2 ∷ 0x80 ∷ 0x89 ∷ [])
    ∷ (0xe2 ∷ 0x80 ∷ 0x8a ∷ [])
    ∷ (0xe2 ∷ 0x80 ∷ 0xa8 ∷ [])
    ∷ (0xe2 ∷ 0x80 ∷ 0xa9 ∷ [])
    ∷ (0xe2 ∷ 0x80 ∷ 0xaf ∷ [])
    ∷ (0xe2 ∷ 0x81 ∷ 0x9f ∷ [])
    ∷ (0xe3 ∷ 0x80 ∷ 0x80 ∷ [])
    ∷ []

-- Cuts the sequences at the front, as many as there are; `skip` bytes of one are still to be cut.
cut_front : List Text → ℕ → Text → Text
cut_front seqs skip [] = []
cut_front seqs zero (c ∷ s) = elim (find (has_prefix (c ∷ s)) seqs) [
  | none ↦ c ∷ s
  | some seq ↦ cut_front seqs (length seq - 1) s
]
cut_front seqs (suc skip) (c ∷ s) = cut_front seqs skip s

-- The same at the end.
cut_back : List Text → Text → Text
cut_back seqs s = reverse (cut_front (map reverse seqs) 0 (reverse s))

-- strings.TrimSpace
unfoldable pub trim_space : Text → Text
unfolding spaces cut_front cut_back
trim_space s = cut_back spaces (cut_front spaces 0 s)

-- strings.TrimLeft and strings.TrimRight with a cut set of one byte
abbrev pub trim_left : Text → ℕ → Text
trim_left [] c = []
trim_left (x ∷ s) c = if x == c then trim_left s c else x ∷ s

abbrev pub trim_right : Text → ℕ → Text
trim_right [] c = []
trim_right (x ∷ s) c = let rest = trim_right s c in if is_empty rest && x == c then [] else x ∷ rest

abbrev push_front : ℕ → List Text → List Text
push_front x [] = (x ∷ []) ∷ []
push_front x (w ∷ ws) = (x ∷ w) ∷ ws

-- strings.Split with a separator of one byte
abbrev pub split : Text → ℕ → List Text
split [] c = [] ∷ []
split (x ∷ s) c = if x == c then [] ∷ split s c else push_front x (split s c)

-- strings.Cut with a separator of one byte: the text before the first one, and the text after it
-- if there is one.
abbrev pub before : Text → ℕ → Text
before [] c = []
before (x ∷ s) c = if x == c then [] else x ∷ before s c

abbrev pub after? : Text → ℕ → Option Text
after? [] c = none
after? (x ∷ s) c = if x == c then some s else after? s c

-- strings.Join
abbrev pub join : List Text → Text → Text
join [] sep = []
join (w ∷ []) sep = w
join (w ∷ v ∷ ws) sep = w ++ sep ++ join (v ∷ ws) sep

abbrev pub lower_byte : ℕ → ℕ
lower_byte c = if leb 65 c && leb c 90 then c + 32 else c

abbrev pub upper_byte : ℕ → ℕ
upper_byte c = if leb 97 c && leb c 122 then c - 32 else c

-- strings.ToLower, strings.ToUpper and strings.EqualFold
unfoldable pub to_lower : Text → Text
to_lower = map lower_byte

unfoldable pub to_upper : Text → Text
to_upper = map upper_byte

unfoldable pub equal_fold : Text → Text → Bool
unfolding to_lower
equal_fold s t = to_lower s == to_lower t
