-- ===== src/WebUi/Upload.antt =====
-- internal/webui/http.go: `upload`, by which a browser stores files in a temporary directory. A tree
-- of files is a map from paths to bytes; directories are not in it.
pub mod Files
pub mod Answers
use go_silver_core.Prelude.Maps.{get, put}
use go_silver_core.Prelude.{
  ℕ, zero, suc, ◌+◌, Bool, true, false, not, ◌&&◌, ◌||◌, Option, none, some, List, [], ◌∷◌, ◌++◌,
  Str, str_dec, if◌then◌else◌, ◌==◌, ltb, any, is_some,
}
use go_silver_core.WebUi.{Err, Result, ok, err}
use go_silver_core.Folders.{same, safe_name, max_entries}

-- A part of the request: the name of its field, and its bytes.
pub record Part : Type 0 where
  pub name : Str
  pub content : Str

-- What `NextPart` returns; the list ends with the request.
pub data Incoming : Type 0 where
  part : Part → Incoming
  broken : Err → Incoming

abbrev pub Tree : Type 0
Tree = List (Str × Str)

-- The system: the errors of MultipartReader, MkdirTemp, MkdirAll and OpenFile, of copying and of
-- Close, each for the file's path; `partial` is what a copy that failed has written; ReadDir.
pub record System : Type 0 where
  pub reader_error : Option Err
  pub mkdir_temp : Result Str
  pub mkdir_error : Str → Option Err
  pub open_error : Str → Option Err
  pub exist_error : Err
  pub copy_error : Str → Option Err
  pub partial : Str → Str
  pub close_error : Str → Option Err
  pub read_dir : Str → Tree → Result (List Str)

-- The answer: a status that is an error, or 200 with a path and a count.
pub data Reply : Type 0 where
  refused : ℕ → Reply
  accepted : Str → ℕ → Reply

-- filepath.Join of the directory and a name that is clean.
abbrev pub path : Str → Str → Str
path dir name = dir ++ (b'/' ∷ name)

abbrev pub starts_with : Str → Str → Bool
starts_with [] s = true
starts_with (c ∷ cs) [] = false
starts_with (c ∷ cs) (d ∷ ds) = c == d && starts_with cs ds

abbrev pub below : Str → Str → Bool
below dir p = starts_with (path dir []) p

-- os.RemoveAll
unfoldable pub remove_all : Str → Tree → Tree
remove_all dir [] = []
remove_all dir ((p, bytes) ∷ t) =
    let rest = remove_all dir t in if below dir p then rest else (p, bytes) ∷ rest

-- A single entry of the directory is selected itself.
abbrev pub selected : Str → List Str → Str
selected temp (name ∷ []) = path temp name
selected temp names = temp

module _ (w : System) where
  abbrev pub copied : Option Err → Option Err → Str → Part → Tree → Option Err × Tree
  copied (some e) closing target p t = (some e, put str_dec target (w.partial target) t)
  copied none closing target p t = (closing, put str_dec target p.content t)

  -- os.O_EXCL: a file that is there already is an error.
  abbrev pub opened : Bool → Option Err → Str → Part → Tree → Option Err × Tree
  opened there (some e) target p t = (some e, t)
  opened true none target p t = (some w.exist_error, t)
  opened false none target p t = copied (w.copy_error target) (w.close_error target) target p t

  abbrev pub in_directory : Option Err → Str → Part → Tree → Option Err × Tree
  in_directory (some e) target p t = (some e, t)
  in_directory none target p t =
      opened (is_some (get str_dec target t)) (w.open_error target) target p t

  unfoldable pub save_part : Str → Part → Tree → Option Err × Tree
  save_part target p t = in_directory (w.mkdir_error target) target p t

  -- The loop over the parts: how many there are, or nothing when it has answered 400.
  unfoldable pub receive : Str → List Str → ℕ → List Incoming → Tree → Option ℕ × Tree
  receive temp seen count [] t = (some count, t)
  receive temp seen count (broken e ∷ ps) t = (none, t)
  receive temp seen count (part p ∷ ps) t =
      let (e, u) = save_part (path temp p.name) p t in
      let rest = receive temp (p.name ∷ seen) (count + 1) ps u in
      if not (safe_name p.name) || any (same p.name) seen
      then (none, t)
      else if ltb max_entries (count + 1)
      then (none, t)
      else if is_some e
      then (none, u)
      else rest

  -- Whether the app is closed, and its `uploads`, which `Close` removes.
  abbrev pub kept : Bool → List Str → Str → ℕ → Result (List Str) → Tree → Reply × List Str × Tree
  kept closed uploads temp n (err e) t = (refused 500, uploads, remove_all temp t)
  kept true uploads temp n (ok names) t = (refused 503, uploads, remove_all temp t)
  kept false uploads temp n (ok names) t =
      (accepted (selected temp names) n, uploads ++ temp ∷ [], t)

  abbrev pub received : Bool → List Str → Str → Option ℕ × Tree → Reply × List Str × Tree
  received closed uploads temp (none, t) = (refused 400, uploads, remove_all temp t)
  received closed uploads temp (some zero, t) = (refused 400, uploads, remove_all temp t)
  received closed uploads temp (some (suc n), t) =
      kept closed uploads temp (suc n) (w.read_dir temp t) t

  abbrev pub in_temp : Bool → List Str → List Incoming → Result Str → Tree → Reply × List Str × Tree
  in_temp closed uploads ps (err e) t = (refused 500, uploads, t)
  in_temp closed uploads ps (ok temp) t = received closed uploads temp (receive temp [] 0 ps t)

  abbrev pub readable :
      Option Err → Bool → List Str → List Incoming → Tree → Reply × List Str × Tree
  readable (some e) closed uploads ps t = (refused 400, uploads, t)
  readable none closed uploads ps t = in_temp closed uploads ps w.mkdir_temp t

  unfoldable pub upload : Bool → List Str → List Incoming → Tree → Reply × List Str × Tree
  upload closed uploads ps t = readable w.reader_error closed uploads ps t
