-- ===== src/Identity/Text.antt =====
-- `strings.TrimSpace` and `strings.Contains(s, "@")`, as internal/domain/identity/auth_service.go
-- uses them.
use Prim.Native.Char.{code, Char}
use text.Mathlib.Text.{◌==◌ as str_eq}
use doki_core_backend.Prelude.{ℕ, Bool, false, ◌&&◌, ◌||◌, String, leb, ◌==◌, if◌then◌else◌}

-- `unicode.IsSpace`.
is_space : ℕ → Bool
is_space c =
    (((leb 9 c && leb c 13) || c == 32) || (c == 133 || c == 160))
    || ((c == 5760 || (leb 8192 c && leb c 8202))
        || ((c == 8232 || c == 8233) || (c == 8239 || (c == 8287 || c == 12288))))

trim_left : String → String
unfolding is_space
trim_left String.[] = ""
trim_left (String.◌∷◌ c s) = if is_space (code c) then trim_left s else String.◌∷◌ c s

kept : Char → String → String
unfolding is_space
kept c rest = if str_eq rest "" && is_space (code c) then "" else String.◌∷◌ c rest

trim_right : String → String
unfolding kept
trim_right String.[] = ""
trim_right (String.◌∷◌ c s) = kept c (trim_right s)

unfoldable pub trim_space : String → String
unfolding trim_left trim_right
trim_space s = trim_right (trim_left s)

unfoldable pub contains_at : String → Bool
contains_at String.[] = false
contains_at (String.◌∷◌ c s) = code c == 64 || contains_at s
