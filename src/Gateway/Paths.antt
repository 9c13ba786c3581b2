-- ===== src/Gateway/Paths.antt =====
-- What gateway.go uses of Go's package strings: `Trim` and `Split` at a slash.
use Prim.Native.Char.{code}
use apigateway_distributed_s.Base.{Bool, List, [], ◌∷◌, String, if◌then◌else◌, ◌==◌}
use apigateway_distributed_s.Auth.Text.{prepend}

abbrev pub is_slash : Prim.Native.Char.Char → Bool
is_slash c = code c == b'/'

unfoldable pub trim_left : String → String
trim_left String.[] = String.[]
trim_left (String.◌∷◌ c s) = let rest = trim_left s in if is_slash c then rest else String.◌∷◌ c s

-- A character in front of what is left of a text, which is dropped if it is the last slash.
abbrev pub keep_front : Prim.Native.Char.Char → String → String
keep_front c String.[] = if is_slash c then String.[] else String.◌∷◌ c String.[]
keep_front c (String.◌∷◌ d s) = String.◌∷◌ c (String.◌∷◌ d s)

unfoldable pub trim_right : String → String
trim_right String.[] = String.[]
trim_right (String.◌∷◌ c s) = keep_front c (trim_right s)

unfoldable pub split : String → List String
split String.[] = String.[] ∷ []
split (String.◌∷◌ c s) =
    let parts = split s in if is_slash c then String.[] ∷ parts else prepend c parts

-- `strings.Split(strings.Trim(path, "/"), "/")`
unfoldable pub parts_of : String → List String
unfolding trim_left trim_right split
parts_of path = split (trim_right (trim_left path))
