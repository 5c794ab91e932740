-- ===== src/Prelude/Text.antt =====
-- What the program uses of Python's `str`: a text is its list of code points, a native `String`.
-- The tests on characters are the character classes of the program's regular expressions.
pub mod Trimming
use Prim.Native.Char.{Char, code}
use Prim.Native.Nat.{ℕ, zero, suc, ◌+◌, ◌≤◌}
use Prim.Native.String
use Prim.Native.String.{String}
use mathlib.Core.Path.{◌≡◌, refl, ap}
use mathlib.Core.Bool.{Bool, true, false, not, ◌&&◌, ◌||◌}
use mathlib.Core.List.{List, [], ◌∷◌}
use mathlib.Core.Option.{Option, none, some}
use native.Mathlib.Omega.{arith}
use text.Mathlib.Text.{◌==◌}
use brunova_knowledge_gatewa.Prelude.Tests.{leb, eqb, if◌then◌else◌}

-- len(s)
abbrev pub len : String → ℕ
len String.[] = 0
len (String.◌∷◌ c s) = suc (len s)

-- not s
abbrev pub is_empty : String → Bool
is_empty String.[] = true
is_empty (String.◌∷◌ c s) = false

-- the characters for which Python's `str.isspace` holds, which `str.strip` removes
unfoldable pub is_space : ℕ → Bool
is_space c =
    (leb 9 c && leb c 13)
    || (leb 28 c && leb c 32)
    || eqb c 0x85
    || eqb c 0xa0
    || eqb c 0x1680
    || (leb 0x2000 c && leb c 0x200a)
    || eqb c 0x2028
    || eqb c 0x2029
    || eqb c 0x202f
    || eqb c 0x205f
    || eqb c 0x3000

unfoldable pub lstrip : String → String
lstrip String.[] = ""
lstrip (String.◌∷◌ c s) = if is_space (code c) then lstrip s else String.◌∷◌ c s

unfoldable pub rstrip : String → String
rstrip String.[] = ""
rstrip (String.◌∷◌ c s) =
    let r = rstrip s in if is_empty r && is_space (code c) then "" else String.◌∷◌ c r

-- s.strip()
unfoldable pub strip : String → String
unfolding lstrip rstrip
strip s = rstrip (lstrip s)

-- every character of `s` is in the class
unfoldable pub every : (ℕ → Bool) → String → Bool
every p String.[] = true
every p (String.◌∷◌ c s) = p (code c) && every p s

-- re.fullmatch of `[p]{lo,hi}`
unfoldable pub matches : (ℕ → Bool) → ℕ → ℕ → String → Bool
unfolding every
matches p lo hi s = leb lo (len s) && leb (len s) hi && every p s

-- re.fullmatch of `[q][p]{lo,hi}`
unfoldable pub matches_after : (ℕ → Bool) → (ℕ → Bool) → ℕ → ℕ → String → Bool
unfolding matches
matches_after q p lo hi String.[] = false
matches_after q p lo hi (String.◌∷◌ c s) = q (code c) && matches p lo hi s

abbrev pub is_digit : ℕ → Bool
is_digit c = leb 48 c && leb c 57

abbrev pub is_upper : ℕ → Bool
is_upper c = leb 65 c && leb c 90

abbrev pub is_lower : ℕ → Bool
is_lower c = leb 97 c && leb c 122

abbrev pub is_alnum : ℕ → Bool
is_alnum c = is_digit c || is_upper c || is_lower c

-- [a-f0-9]
abbrev pub is_hex : ℕ → Bool
is_hex c = is_digit c || (leb 97 c && leb c 102)

-- [A-Za-z0-9_-]
abbrev pub is_id_char : ℕ → Bool
is_id_char c = is_alnum c || eqb c b'_' || eqb c b'-'

-- s.startswith(prefix)
unfoldable pub starts_with : String → String → Bool
starts_with String.[] s = true
starts_with (String.◌∷◌ c p) String.[] = false
starts_with (String.◌∷◌ c p) (String.◌∷◌ d s) = eqb (code c) (code d) && starts_with p s

-- part in s
unfoldable pub contains : String → String → Bool
unfolding starts_with
contains part String.[] = is_empty part
contains part (String.◌∷◌ c s) = starts_with part (String.◌∷◌ c s) || contains part s

-- s.endswith(suffix)
unfoldable pub ends_with : String → String → Bool
ends_with suffix String.[] = suffix == ""
ends_with suffix (String.◌∷◌ c s) = String.◌∷◌ c s == suffix || ends_with suffix s

-- s.partition(sep) for a separator of one character: `none` if it does not occur
unfoldable pub partition : ℕ → String → Option (String × String)
partition sep String.[] = none
partition sep (String.◌∷◌ c s) =
    let rest = partition sep s in
    if eqb (code c) sep
    then some ("", s)
    else elim rest [ none ↦ none | some (before, after) ↦ some (String.◌∷◌ c before, after) ]

-- s + t
abbrev pub append : String → String → String
append = String.◌++◌

-- the last character, if there is one
unfoldable pub last_char : String → Option ℕ
last_char String.[] = none
last_char (String.◌∷◌ c s) = elim (last_char s) [ none ↦ some (code c) | some d ↦ some d ]

-- s.split(sep) for a separator of one character: the first part, and the rest
unfoldable pub split_on : ℕ → String → String × List String
split_on sep String.[] = ("", [])
split_on sep (String.◌∷◌ c s) =
    let (first, rest) = split_on sep s in
    if eqb (code c) sep then ("", first ∷ rest) else (String.◌∷◌ c first, rest)

unfoldable pub split : ℕ → String → List String
unfolding split_on
split sep s = let (first, rest) = split_on sep s in first ∷ rest

split_test : split b'/' "/a//b" ≡ "" ∷ "a" ∷ "" ∷ "b" ∷ []
unfolding split
split_test = refl

strip_test : strip " \t a b\n " ≡ "a b"
unfolding strip is_space
strip_test = refl

partition_test : partition 32 "Bearer a b" ≡ some ("Bearer", "a b")
unfolding partition
partition_test = refl
