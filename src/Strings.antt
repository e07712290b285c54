-- ===== src/Strings.antt =====
-- Python's `str` methods that the code calls, on the characters of ASCII: header values, host names
-- and paths.
use Prim.Native.Nat.{Ordering, ◌+◌, ◌-◌}
use Prim.Native.Char.{Char, code}
use Prim.Native.String.append
use Prim.Native.String.{String, [], ◌∷◌, ◌++◌, len, slice, find, compare}
use mathlib.Core.Bool.{Bool, true, false, ◌&&◌, ◌||◌}
pub use text.Mathlib.Text.{starts_with}
use text.Mathlib.TextPositions.{len-append}
use tito_os.Prelude.{leb, nat_eq, if◌then◌else◌, ◌≡◌}

abbrev pub alphabet : String
alphabet = "abcdefghijklmnopqrstuvwxyz"

abbrev pub lower_char : Char → String
lower_char c =
    if leb 65 (code c) && leb (code c) 90
    then slice alphabet (code c - 65) (code c - 64)
    else c ∷ []

-- `s.lower()`
unfoldable pub lower : String → String
lower [] = []
lower (c ∷ s) = lower_char c ++ lower s

abbrev pub upper_char : Char → String
upper_char c =
    if leb 97 (code c) && leb (code c) 122
    then slice "ABCDEFGHIJKLMNOPQRSTUVWXYZ" (code c - 97) (code c - 96)
    else c ∷ []

-- `s.upper()`
unfoldable pub upper : String → String
upper [] = []
upper (c ∷ s) = upper_char c ++ upper s

abbrev pub is_space : Char → Bool
is_space c = nat_eq (code c) 32 || (leb 9 (code c) && leb (code c) 13)

-- `s.lstrip()`
unfoldable pub strip_left : String → String
strip_left [] = []
strip_left (c ∷ s) = let rest = strip_left s in if is_space c then rest else c ∷ s

unfoldable pub backwards : String → String
backwards [] = []
backwards (c ∷ s) = backwards s ++ (c ∷ [])

-- `s.strip()`
unfoldable pub strip : String → String
unfolding strip_left backwards
strip s = backwards (strip_left (backwards (strip_left s)))

-- `s.partition(mark)`, without its middle
unfoldable pub partition : String → String → String × String
partition mark s =
    let i = find s mark in
    if leb i (len s) then (slice s 0 i, slice s (i + len mark) (len s)) else (s, [])

-- `s.split(mark)[0]`
unfoldable pub before : String → String → String
unfolding partition
before mark s = (partition mark s).0

-- `mark in s`
abbrev pub contains_text : String → String → Bool
contains_text mark s = leb (find s mark) (len s)

-- `a < b`
abbrev pub text_before : String → String → Bool
text_before a b = elim (compare a b) [ Ordering.lt ↦ true | _ ↦ false ]

-- `a + b`
abbrev pub concat : String → String → String
concat a b = a ++ b

pub concat_empty : (s : String) → concat "" s ≡ s
concat_empty = append.nil

pub len-concat : (a b : String) → len (concat a b) ≡ len a + len b
len-concat = len-append

-- `s.endswith(t)`
unfoldable pub ends_with : String → String → Bool
unfolding backwards
ends_with s t = starts_with (backwards s) (backwards t)

-- `s.lstrip(".")`
unfoldable pub strip_dots : String → String
strip_dots [] = []
strip_dots (c ∷ s) = let rest = strip_dots s in if nat_eq (code c) 46 then rest else c ∷ s
