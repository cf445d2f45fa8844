-- ===== src/Prelude/Texts.antt =====
-- Python's `str` methods on the native texts. HTTP methods, header names, header schemes and paths
-- are ASCII on the wire, so `upper` and `lower` map the ASCII letters and leave the rest.
use Prim.Native.Nat.{ℕ, ◌-◌}
use Prim.Native.Char.{Char, code}
use Prim.Native.String
use Prim.Native.String.{String, [], ◌∷◌, char_at}
use mathlib.Core.Bool.{Bool, true, false, ◌&&◌, ◌||◌}
use mathlib.Core.List.{List}
use text.Mathlib.Text.{◌==◌, starts_with}
use fastapi_sample.Prelude.Tests.{ltb, leb, eqb, if◌then◌else◌}

abbrev upper_char : Char → Char
upper_char c =
    if leb b'a' (code c) && leb (code c) b'z'
    then char_at "ABCDEFGHIJKLMNOPQRSTUVWXYZ" (code c - b'a')
    else c

abbrev lower_char : Char → Char
lower_char c =
    if leb b'A' (code c) && leb (code c) b'Z'
    then char_at "abcdefghijklmnopqrstuvwxyz" (code c - b'A')
    else c

-- `s.upper()` and `s.lower()`
unfoldable pub upper : String → String
upper [] = []
upper (c ∷ s) = upper_char c ∷ upper s

unfoldable pub lower : String → String
lower [] = []
lower (c ∷ s) = lower_char c ∷ lower s

-- The characters that `str.isspace` accepts.
unfoldable pub is_space : Char → Bool
is_space c =
    let n = code c in
    (leb 9 n && leb n 13)
    || (leb 28 n && leb n 32)
    || eqb n 0x85
    || eqb n 0xA0
    || eqb n 0x1680
    || (leb 0x2000 n && leb n 0x200A)
    || eqb n 0x2028
    || eqb n 0x2029
    || eqb n 0x202F
    || eqb n 0x205F
    || eqb n 0x3000

unfoldable pub lstrip : String → String
unfolding is_space
lstrip [] = []
lstrip (c ∷ s) = if is_space c then lstrip s else c ∷ s

-- A character joins the result if it is no space or something already follows it.
keep_char : Char → String → String
keep_char c [] = if is_space c then [] else c ∷ []
keep_char c (d ∷ s) = c ∷ d ∷ s

unfoldable pub rstrip : String → String
unfolding keep_char is_space
rstrip [] = []
rstrip (c ∷ s) = keep_char c (rstrip s)

-- `s.strip()`
unfoldable pub strip : String → String
unfolding lstrip rstrip
strip s = rstrip (lstrip s)

-- `s.partition(sep)[0]` and `s.partition(sep)[2]` for a separator of one character.
unfoldable pub before : ℕ → String → String
before sep [] = []
before sep (c ∷ s) = if eqb (code c) sep then [] else c ∷ before sep s

unfoldable pub after : ℕ → String → String
after sep [] = []
after sep (c ∷ s) = if eqb (code c) sep then s else after sep s

-- `s.isascii()`
unfoldable pub is_ascii : String → Bool
is_ascii [] = true
is_ascii (c ∷ s) = ltb (code c) 128 && is_ascii s

-- `sep in s` for one character, and `s.split(sep)`.
unfoldable pub has_char : ℕ → String → Bool
has_char sep [] = false
has_char sep (c ∷ s) = eqb (code c) sep || has_char sep s

unfoldable pub split_from : ℕ → String → String → List String
split_from sep cur [] = List.◌∷◌ cur List.[]
split_from sep cur (c ∷ s) =
    let closed = List.◌∷◌ cur (split_from sep [] s) in
    let longer = split_from sep (String.◌++◌ cur (c ∷ [])) s in
    if eqb (code c) sep then closed else longer

unfoldable pub split : ℕ → String → List String
unfolding split_from
split sep s = split_from sep [] s

-- `s.endswith(t)` and `t in s`
unfoldable pub ends_with : String → String → Bool
ends_with [] t = [] == t
ends_with (c ∷ s) t = (c ∷ s) == t || ends_with s t

unfoldable pub contains : String → String → Bool
contains [] t = [] == t
contains (c ∷ s) t = starts_with (c ∷ s) t || contains s t
