-- ===== src/WebUi/Listing.antt =====
-- internal/webui/http.go: `listDirectory`, which reads a directory in batches.
pub mod Batches
use go_silver_core.Prelude.Int.{ℤ}
use go_silver_core.Prelude.{
  ℕ, ◌+◌, Bool, true, false, not, ◌&&◌, ◌||◌, Option, none, some, List, [], ◌∷◌, ◌++◌, Str, str_dec,
  codes, if◌then◌else◌, ite, ◌==◌, leb, ltb, length,
}
use go_silver_core.WebUi.{Err, Result, ok, err}
use go_silver_core.Folders.{same}
use go_silver_core.Server.Sched.{is_empty}
use go_silver_core.WebUi.Upload.{starts_with}

-- An entry of a directory, with its size when `Info` returns no error.
pub record DirEntry : Type 0 where
  pub name : Str
  pub link : Bool
  pub dir : Bool
  pub info : Option ℤ

-- `FileEntry`
pub record FileEntry : Type 0 where
  pub name : Str
  pub path : Str
  pub dir : Bool
  pub size : ℤ

-- `Listing`
pub record Listing : Type 0 where
  pub path : Str
  pub parent : Str
  pub root : Str
  pub entries : List FileEntry
  pub truncated : Bool

-- The calls of ReadDir: each returns entries; the last one the end of the directory or an error too.
pub data Reads : Type 0 where
  last : List DirEntry → Option Err → Reads
  more : List DirEntry → Reads → Reads

-- filepath.Abs, whether Stat finds something else than a directory, filepath.Dir, Open with what the
-- calls of ReadDir return, and filepath.Join.
pub record Directories : Type 0 where
  pub abs : Str → Result Str
  pub is_file : Str → Bool
  pub parent_of : Str → Str
  pub open_dir : Str → Result Reads
  pub join : Str → Str → Str

abbrev pub limit : ℕ
limit = 1000

-- The entries that are left out.
abbrev pub skipped : Bool → DirEntry → Bool
skipped only_dirs e = e.link || starts_with (codes ".gosilver-") e.name || (only_dirs && not e.dir)

-- The byte order of Go's strings.
abbrev pub str_lt : Str → Str → Bool
str_lt s [] = false
str_lt [] (d ∷ ds) = true
str_lt (c ∷ cs) (d ∷ ds) = let rest = str_lt cs ds in if c == d then rest else ltb c d

-- Directories come first, then names in order.
abbrev pub comes_before : FileEntry → FileEntry → Bool
comes_before a b = elim a.dir [
  | true ↦ if b.dir then str_lt a.name b.name else true
  | false ↦ if b.dir then false else str_lt a.name b.name
]

-- sort.Slice
abbrev pub insert : FileEntry → List FileEntry → List FileEntry
insert a [] = a ∷ []
insert a (b ∷ bs) = let rest = insert a bs in if comes_before b a then b ∷ rest else a ∷ b ∷ bs

abbrev pub sort_slice : List FileEntry → List FileEntry
sort_slice [] = []
sort_slice (a ∷ rest) = insert a (sort_slice rest)

module _ (w : Directories) where
  abbrev pub directory : Str → Str
  directory p = if w.is_file p then w.parent_of p else p

module _ (w : Directories) (only_dirs : Bool) where
  abbrev pub entry_of : Str → DirEntry → Option FileEntry
  entry_of dir e = if skipped only_dirs e then none else elim e.info [
    | none ↦ none
    | some n ↦ some (record { name = e.name; path = w.join dir e.name; dir = e.dir; size = n })
  ]

  -- One round of the loop over a batch: what is read, and whether the limit is reached.
  abbrev pub appended :
      Option FileEntry
      → List FileEntry
      → (List FileEntry → List FileEntry × Bool)
      → List FileEntry × Bool
  appended none out go = go out
  appended (some f) out go =
      if leb limit (length (out ++ f ∷ [])) then (out ++ f ∷ [], true) else go (out ++ f ∷ [])

  unfoldable pub read_batch : Str → List DirEntry → List FileEntry → List FileEntry × Bool
  read_batch dir [] out = (out, false)
  read_batch dir (e ∷ es) out = appended (entry_of dir e) out (read_batch dir es)

  abbrev pub last_batch : Option Err → List FileEntry × Bool → Result (List FileEntry × Bool)
  last_batch e (out, true) = ok (out, true)
  last_batch none (out, false) = ok (out, false)
  last_batch (some e) (out, false) = err e

  abbrev pub next_batch :
      List FileEntry × Bool
      → (List FileEntry → Result (List FileEntry × Bool))
      → Result (List FileEntry × Bool)
  next_batch (out, true) go = ok (out, true)
  next_batch (out, false) go = go out

  unfoldable pub read_all : Str → Reads → List FileEntry → Result (List FileEntry × Bool)
  read_all dir (last es e) out = last_batch e (read_batch dir es out)
  read_all dir (more es r) out = next_batch (read_batch dir es out) (read_all dir r)

  abbrev pub finished : Str → Str → Result (List FileEntry × Bool) → Result Listing
  finished dir root (err e) = err e
  finished dir root (ok (out, truncated)) = ok (record {
    path = dir;
    parent = if not (is_empty root) && same dir root then [] else w.parent_of dir;
    root = root;
    entries = sort_slice out;
    truncated = truncated;
  })

  abbrev pub of_reads : Str → Str → Result Reads → Result Listing
  of_reads dir root (err e) = err e
  of_reads dir root (ok r) = finished dir root (read_all dir r [])

  abbrev pub of_path : Str → Result Str → Result Listing
  of_path root (err e) = err e
  of_path root (ok p) = of_reads (directory w p) root (w.open_dir (directory w p))

  -- `listDirectory`
  unfoldable pub list_directory : Str → Str → Result Listing
  list_directory p root = of_path root (w.abs p)
