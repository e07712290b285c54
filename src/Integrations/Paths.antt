-- ===== src/Integrations/Paths.antt =====
-- `pathlib.PurePath` of a POSIX system, as titoos/integrations/files.py uses it: whether a path is
-- absolute, a path's parts, and the path that parts make.
use Prim.Native.Char.{Char, code}
use Prim.Native.String.{String}
use tito_os.Prelude.{Bool, false, List, [], ◌∷◌, ◌==◌, if◌then◌else◌, nat_eq, ◌||◌, not}
use tito_os.Strings.{concat}

abbrev pub is_slash : Char → Bool
is_slash c = nat_eq (code c) 47

abbrev pub prefixed : Char → List String → List String
prefixed c [] = String.◌∷◌ c String.[] ∷ []
prefixed c (s ∷ rest) = String.◌∷◌ c s ∷ rest

-- `s.split("/")`
unfoldable pub split_slashes : String → List String
split_slashes String.[] = "" ∷ []
split_slashes (String.◌∷◌ c s) =
    let rest = split_slashes s in if is_slash c then "" ∷ rest else prefixed c rest

-- `PurePath(path).is_absolute()`, and the same as whether it has a root; there are no drives.
unfoldable pub is_absolute : String → Bool
is_absolute String.[] = false
is_absolute (String.◌∷◌ c s) = is_slash c

abbrev pub is_kept : String → Bool
is_kept part = not (part == "." || part == "")

unfoldable pub kept_parts : List String → List String
kept_parts [] = []
kept_parts (p ∷ ps) = let rest = kept_parts ps in if is_kept p then p ∷ rest else rest

-- `PurePath(path).parts` of a relative path: empty parts and dots are dropped.
unfoldable pub path_parts : String → List String
unfolding split_slashes kept_parts
path_parts path = kept_parts (split_slashes path)

-- `str(PurePath(*parts) / name)`
unfoldable pub joined_path : List String → String → String
joined_path [] name = name
joined_path (p ∷ ps) name = concat p (concat "/" (joined_path ps name))
