-- ===== src/FileName.antt =====
-- pkg/gosilver/path.go: the name under which a received file is stored. A string is the list of
-- its runes.
pub mod Safe
use go_silver_core.Prelude.{
  ℕ, ◌-◌, Bool, true, false, not, ◌&&◌, ◌||◌, List, [], ◌∷◌, map, Str, codes, str_dec,
  if◌then◌else◌, ite, any, leb, ltb, ◌==◌,
}

-- \ / : * ? " < > | and the control characters
abbrev pub is_illegal : ℕ → Bool
is_illegal r = any (λ x. x == r) (92 ∷ 47 ∷ 58 ∷ 42 ∷ 63 ∷ 34 ∷ 60 ∷ 62 ∷ 124 ∷ []) || ltb r 32

abbrev pub clean_rune : ℕ → ℕ
clean_rune r = if is_illegal r then 95 else r

abbrev pub is_trimmed : ℕ → Bool
is_trimmed r = r == 32 || r == 46

abbrev pub is_empty : Str → Bool
is_empty [] = true
is_empty (r ∷ rs) = false

-- strings.TrimRight(name, " .")
abbrev pub trim_right : Str → Str
trim_right [] = []
trim_right (r ∷ rs) =
    let rest = trim_right rs in if is_empty rest && is_trimmed r then [] else r ∷ rest

-- The name up to its first dot.
abbrev pub stem : Str → Str
stem [] = []
stem (r ∷ rs) = let rest = stem rs in if r == 46 then [] else r ∷ rest

-- strings.ToUpper as far as it can give a reserved name: no letter outside a .. z has its upper
-- case in them.
abbrev pub to_upper : ℕ → ℕ
to_upper r = if leb 97 r && leb r 122 then r - 32 else r

abbrev pub reserved_names : List Str
reserved_names =
    codes "CON"
    ∷ codes "PRN"
    ∷ codes "AUX"
    ∷ codes "NUL"
    ∷ codes "COM1"
    ∷ codes "COM2"
    ∷ codes "COM3"
    ∷ codes "COM4"
    ∷ codes "COM5"
    ∷ codes "COM6"
    ∷ codes "COM7"
    ∷ codes "COM8"
    ∷ codes "COM9"
    ∷ codes "LPT1"
    ∷ codes "LPT2"
    ∷ codes "LPT3"
    ∷ codes "LPT4"
    ∷ codes "LPT5"
    ∷ codes "LPT6"
    ∷ codes "LPT7"
    ∷ codes "LPT8"
    ∷ codes "LPT9"
    ∷ []

abbrev pub is_reserved : Str → Bool
is_reserved name = any (λ r. ite (str_dec r (map to_upper (stem name))) true false) reserved_names

abbrev pub named : Str → Str
named [] = codes "download"
named (r ∷ rs) = if is_reserved (r ∷ rs) then 95 ∷ r ∷ rs else r ∷ rs

-- `SanitizeFileName`
unfoldable pub sanitize_file_name : Str → Str
sanitize_file_name name = named (trim_right (map clean_rune name))
