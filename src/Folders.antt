-- ===== src/Folders.antt =====
-- internal/transfer/files.go: the manifest of a folder that is sent as an archive.
pub mod Paths
pub mod Manifest
pub mod Extract
pub mod Probe
pub mod Copy
use go_silver_core.Prelude.Int.{ℤ, pos, is_neg, ltb_ℤ, pos_part}
use go_silver_core.Prelude.Maps.{get, put}
use go_silver_core.Prelude.{
  ℕ, zero, suc, ◌+◌, ◌^◌, Bool, true, false, not, ◌&&◌, ◌||◌, Option, none, some, List, [], ◌∷◌,
  ◌++◌, Str, str_dec, codes, if◌then◌else◌, ite, any, leb, ltb, ◌==◌, length, is_some, map,
}
use go_silver_core.Server.Sched.{is_empty}

abbrev pub max_entries : ℕ
max_entries = 10000

pub record Entry : Type 0 where
  pub name : Str
  pub size : ℤ
  pub dir : Bool
  pub mode : ℕ

abbrev pub same : Str → Str → Bool
same a b = ite (str_dec a b) true false

-- The parts of a path between its slashes, and a path of parts.
abbrev pub prepend : ℕ → List Str → List Str
prepend c [] = (c ∷ []) ∷ []
prepend c (p ∷ ps) = (c ∷ p) ∷ ps

abbrev pub split : Str → List Str
split [] = [] ∷ []
split (c ∷ cs) = let rest = split cs in if c == b'/' then [] ∷ rest else prepend c rest

abbrev pub join : List Str → Str
join [] = []
join (p ∷ []) = p
join (p ∷ q ∷ ps) = p ++ (b'/' ∷ join (q ∷ ps))

abbrev pub dot : Str
dot = b'.' ∷ []

abbrev pub dots : Str
dots = b'.' ∷ b'.' ∷ []

-- path.Clean: the parts that stay, the last one first.
abbrev pub climb : Bool → List Str → List Str
climb rooted [] = if rooted then [] else dots ∷ []
climb rooted (p ∷ ps) = if same p dots then dots ∷ p ∷ ps else ps

abbrev pub push : Bool → List Str → Str → List Str
push rooted out part =
    if is_empty part || same part dot
    then out
    else if same part dots
    then climb rooted out
    else part ∷ out

abbrev pub push_all : Bool → List Str → List Str → List Str
push_all rooted out [] = out
push_all rooted out (part ∷ parts) = push_all rooted (push rooted out part) parts

abbrev pub back : List Str → List Str → List Str
back [] acc = acc
back (p ∷ ps) acc = back ps (p ∷ acc)

-- path.IsAbs
abbrev pub is_abs : Str → Bool
is_abs [] = false
is_abs (c ∷ cs) = c == b'/'

abbrev pub kept_parts : Str → List Str
kept_parts name = back (push_all (is_abs name) [] (split name)) []

unfoldable pub path_clean : Str → Str
path_clean name =
    if is_empty name
    then dot
    else if is_abs name
    then b'/' ∷ join (kept_parts name)
    else if is_empty (join (kept_parts name))
    then dot
    else join (kept_parts name)

-- strings.HasPrefix(name, "../")
abbrev pub goes_up : Str → Bool
goes_up (a ∷ b ∷ c ∷ cs) = a == b'.' && b == b'.' && c == b'/'
goes_up _ = false

-- `SafeName`
unfoldable pub safe_name : Str → Bool
safe_name name =
    not (is_empty name)
    && not (same name dot)
    && not (any (λ c. c == 92 || c == 58 || c == 0) name)
    && not (is_abs name)
    && same (path_clean name) name
    && not (same name dots)
    && not (goes_up name)

abbrev pub pebibyte : ℕ
pebibyte = 2 ^ 50

abbrev pub is_bad : List (Str × Entry) → Entry → Bool
is_bad seen e =
    not (safe_name e.name)
    || is_neg e.size
    || ltb_ℤ (pos pebibyte) e.size
    || is_some (get str_dec e.name seen)
    || e.dir && not (pos_part e.size == 0)

-- The first loop of `ValidateEntries`, with the entries seen and their total size. Both are at most
-- 2^50 when they are added, so the sum does not overflow.
abbrev pub check_all : List (Str × Entry) → ℕ → List Entry → Option (List (Str × Entry))
check_all seen total [] = some seen
check_all seen total (e ∷ es) =
    let rest = check_all (put str_dec e.name e seen) (total + pos_part e.size) es in
    if is_bad seen e then none else if ltb pebibyte (total + pos_part e.size) then none else rest

-- The directories above a name: for a safe name these are what path.Dir gives, one after the other,
-- up to ".". Their order decides only which of two conflicts the error names.
abbrev pub prefixes : List Str → List (List Str)
prefixes [] = []
prefixes (p ∷ []) = []
prefixes (p ∷ q ∷ ps) = (p ∷ []) ∷ map (p ∷◌) (prefixes (q ∷ ps))

abbrev pub parents : Str → List Str
parents name = map join (prefixes (split name))

abbrev pub is_file : List (Str × Entry) → Str → Bool
is_file seen name = elim (get str_dec name seen) [ none ↦ false | some e ↦ not e.dir ]

abbrev pub no_conflict : List Entry → Option (List (Str × Entry)) → Bool
no_conflict entries none = false
no_conflict entries (some seen) = not (any (λ e. any (is_file seen) (parents e.name)) entries)

-- `ValidateEntries`: is there no error?
unfoldable pub validate_entries : List Entry → Bool
validate_entries entries =
    not (length entries == 0 || ltb max_entries (length entries))
    && no_conflict entries (check_all [] 0 entries)
