-- ===== src/Folders/Extract.antt =====
-- internal/transfer/files.go: `Extract`, which unpacks a received archive. A tree of
-- files is a map from paths to bytes; directories are not in it.
pub mod Only
pub mod Complete
use go_silver_core.Prelude.Int.{ℤ, int_dec}
use go_silver_core.Prelude.Maps.{get, put, delete}
use go_silver_core.Prelude.{
  ℕ, ◌+◌, ◌≡◌, Bool, true, false, not, ◌&&◌, ◌||◌, Option, none, some, List, [], ◌∷◌, ◌++◌, Str,
  str_dec, if◌then◌else◌, ◌==◌, ite,
}
use go_silver_core.Folders.{Entry, safe_name}

pub data Error : Type 0 where
  canceled not_in_manifest exists incomplete : Error
  io : Str → Error

pub data Result (A : Type 0) : Type 0 where
  ok : A → Result A
  err : Error → Result A

-- `Typeflag`: a regular file, a directory, anything else.
pub data Kind : Type 0 where
  regular directory other : Kind

-- A header of the archive with what its reader delivers for it.
pub record Item : Type 0 where
  pub name : Str
  pub size : ℤ
  pub kind : Kind
  pub content : Str

abbrev pub Tree : Type 0
Tree = List (Str × Str)

-- strings.TrimSuffix(name, "/")
abbrev pub trim_slash : Str → Str
trim_slash [] = []
trim_slash (c ∷ []) = if c == b'/' then [] else c ∷ []
trim_slash (c ∷ d ∷ cs) = c ∷ trim_slash (d ∷ cs)

-- The file system and the context, for one item: `Resolve` of the place of a name, before and after
-- the copy; os.MkdirAll; the error of copying, Chmod, Sync and Close in this order; os.Lstat, which
-- finds the place taken or not; os.Rename.
pub record Disk : Type 0 where
  pub place : Str → Result Str
  pub mkdir_all : Str → Option Error
  pub create_temp : Str → Tree → Result Str
  pub copy_error : Str → Option Error
  pub chmod_error : Str → Option Error
  pub sync_error : Str → Option Error
  pub close_error : Str → Option Error
  pub lstat : Str → Result Bool
  pub still_placed : Str → Option Error
  pub rename_error : Str → Option Error
  -- Does os.Remove of a temporary file succeed?
  pub removes : Str → Bool
  -- os.CreateTemp makes a new file.
  pub temp_is_new : (dest p : Str) (t : Tree) → create_temp dest t ≡ ok p → get str_dec p t ≡ none

abbrev pub first_of : Option Error → Option Error → Option Error
first_of (some e) later = some e
first_of none later = later

-- The check that nothing has come to the place meanwhile.
abbrev pub taken : Bool → Result Bool → Option Error
taken overwrite found =
    if overwrite
    then none
    else elim found [ err e ↦ some e | ok there ↦ if there then some exists else none ]

abbrev pub is_dir : Kind → Bool
is_dir directory = true
is_dir _ = false

abbrev pub is_other : Kind → Bool
is_other other = true
is_other _ = false

abbrev pub same_bool : Bool → Bool → Bool
same_bool true b = b
same_bool false b = not b

-- An item against its entry of the manifest.
abbrev pub matches : Item → Str → Option Entry → Bool
matches h name none = false
matches h name (some e) =
    safe_name name
    && ite (int_dec h.size e.size) true false
    && not (is_other h.kind)
    && same_bool (is_dir h.kind) e.dir

-- What a round of the loop begins with: an item, an error of the archive's reader, or the end of the
-- context. The list ends with the archive.
pub data Next : Type 0 where
  item : Item → Next
  broken : Error → Next
  interrupted : Next

-- The names of a manifest that passed its checks are distinct, so the order does not matter.
abbrev pub expected_of : List Entry → List (Str × Entry)
expected_of [] = []
expected_of (e ∷ es) = put str_dec e.name e (expected_of es)

-- How what comes before the loop ends: without an error; with one of `ProbeTarget`, of `Resolve` for the
-- target or of os.Open for the archive; or with the one by which `ProbeTarget` could not remove the
-- file that it made to try a directory.
pub data Probing : Type 0 where
  passed : Probing
  failed : Error → Probing
  unremoved : Error → Str → Probing

module _ (w : Disk) where
  -- The error by which an item fails between the making of its temporary file and the end.
  abbrev pub write_error : Bool → Str → Str → Option Error
  write_error overwrite name dest = first_of (w.copy_error name) (
      first_of (w.chmod_error name) (
        first_of (w.sync_error name) (
          first_of (w.close_error name) (
            first_of (taken overwrite (w.lstat dest))
              (first_of (w.still_placed dest) (w.rename_error dest))))))

  -- os.Remove, whose error is ignored.
  abbrev pub remove : Str → Tree → Tree
  remove temp t = if w.removes temp then delete str_dec temp t else t

  -- The temporary file becomes the file, or is removed if that works.
  abbrev pub settle : Option Error → Str → Str → Str → Tree → Option Error × Tree
  settle none temp dest bytes t =
      (none, put str_dec dest bytes (delete str_dec temp (put str_dec temp bytes t)))
  settle (some e) temp dest bytes t = (some e, remove temp (put str_dec temp bytes t))

  abbrev pub with_temp : Bool → Str → Item → Result Str → Tree → Option Error × Tree
  with_temp overwrite dest h (err e) t = (some e, t)
  with_temp overwrite dest h (ok temp) t =
      settle (write_error overwrite (trim_slash h.name) dest) temp dest h.content t

  -- A directory is made, or the one for a file, which is written then.
  abbrev pub made : Bool → Bool → Str → Item → Option Error → Tree → Option Error × Tree
  made overwrite dir dest h (some e) t = (some e, t)
  made overwrite true dest h none t = (none, t)
  made overwrite false dest h none t = with_temp overwrite dest h (w.create_temp dest t) t

  abbrev pub at_place : Bool → Bool → Item → Result Str → Tree → Option Error × Tree
  at_place overwrite dir h (err e) t = (some e, t)
  at_place overwrite dir h (ok dest) t = made overwrite dir dest h (w.mkdir_all dest) t

  unfoldable pub unpack : Bool → Item → Tree → Option Error × Tree
  unpack overwrite h t = at_place overwrite (is_dir h.kind) h (w.place (trim_slash h.name)) t

  abbrev pub finished : List (Str × Entry) → Option Error
  finished [] = none
  finished (e ∷ es) = some incomplete

  -- The loop of `Extract`, with the entries that are still expected.
  unfoldable pub unpack_all : Bool → List (Str × Entry) → List Next → Tree → Option Error × Tree
  unpack_all overwrite expected [] t = (finished expected, t)
  unpack_all overwrite expected (interrupted ∷ ns) t = (some canceled, t)
  unpack_all overwrite expected (broken e ∷ ns) t = (some e, t)
  unpack_all overwrite expected (item h ∷ ns) t =
      let name = trim_slash h.name in
      let (r, u) = unpack overwrite h t in
      let rest = unpack_all overwrite (delete str_dec name expected) ns u in
      if not (matches h name (get str_dec name expected))
      then (some not_in_manifest, t)
      else elim r [ some e ↦ (some e, u) | none ↦ rest ]

  -- `Extract`: a probe that fails at the removal of its own file leaves that, an empty one.
  unfoldable pub extract : Probing → List Entry → Bool → List Next → Tree → Option Error × Tree
  unfolding unpack_all
  extract passed entries overwrite ns t = unpack_all overwrite (expected_of entries) ns t
  extract (failed e) entries overwrite ns t = (some e, t)
  extract (unremoved e file) entries overwrite ns t = (some e, put str_dec file [] t)
