-- ===== src/Folders/Probe.antt =====
-- internal/transfer/files.go: `ProbeTarget`, which looks whether the files of a manifest can be
-- written. A resolved place is the list of its parts, the innermost first; [] is the root.
pub mod Ready
use go_silver_core.Prelude.Int.{ℤ, pos, negsuc, pos_part}
use go_silver_core.Prelude.{
  ℕ, ◌+◌, ◌-◌, ◌%◌, ◌^◌, Bool, true, false, not, ◌&&◌, ◌||◌, Option, none, some, List, [], ◌∷◌, Str,
  str_dec, if◌then◌else◌, ltb, any,
}
use go_silver_core.Folders.{Entry, same, validate_entries}

pub data Error : Type 0 where
  invalid_entries kind_conflict exists not_a_directory disk_full : Error
  io : Str → Error

pub data Result (A : Type 0) : Type 0 where
  ok : A → Result A
  err : Error → Result A

abbrev pub Place : Type 0
Place = List Str

-- `Probe`, with the number of its warnings.
pub record Probe : Type 0 where
  pub ready : Bool
  pub target : Place
  pub warnings : ℕ
  pub bytes : ℕ

-- What the file system answers: `Resolve` for the target and for a name below it; Lstat and Stat, which
-- find nothing, a file or a directory; the error of opening a file for writing; the error of making
-- and removing a temporary file in a directory; `freeBytes`.
pub record System : Type 0 where
  pub resolve : Result Place
  pub place : Place → Str → Result Place
  pub lstat : Place → Result (Option Bool)
  pub stat : Place → Result (Option Bool)
  pub not_there : Error
  pub open_error : Place → Option Error
  pub write_error : Place → Option Error
  pub free_bytes : Place → Option ℕ

-- The sizes that `ValidateEntries` lets through are not negative, and their sum is at most 2^50.
abbrev pub grown : Entry → Probe → Probe
grown e p = record {
  ready = p.ready;
  target = p.target;
  warnings = p.warnings;
  bytes = if e.dir then p.bytes else p.bytes + pos_part e.size;
}

abbrev pub warned : Probe → Probe
warned p = record { ready = p.ready; target = p.target; warnings = p.warnings + 1; bytes = p.bytes }

abbrev pub is_ready : Probe → Probe
is_ready p = record { ready = true; target = p.target; warnings = p.warnings; bytes = p.bytes }

abbrev pub same_kind : Bool → Bool → Bool
same_kind true b = b
same_kind false b = not b

abbrev pub same_place : Place → Place → Bool
same_place [] [] = true
same_place [] (b ∷ bs) = false
same_place (a ∷ rest) [] = false
same_place (a ∷ rest) (b ∷ bs) = same a b && same_place rest bs

-- filepath.Dir
abbrev pub dir_of : Place → Place
dir_of [] = []
dir_of (part ∷ p) = p

-- The steps go on unless one has failed. With an error the code returns the probe as it is then, which is
-- not ready and which nobody reads.
abbrev pub bind : {A B : Type 0} → Result A → (A → Result B) → Result B
bind (ok a) go = go a
bind (err e) go = err e

-- uint64(p.Bytes+extraBytes): the extra bytes are an int64, and may be negative.
unfoldable pub uint64_sum : ℕ → ℤ → ℕ
uint64_sum bytes (pos n) = (bytes + n) % 2 ^ 64
uint64_sum bytes (negsuc n) = (bytes + (2 ^ 64 - (n + 1))) % 2 ^ 64

module _ (w : System) where
  abbrev pub found : Place → Result (Option Bool) → Result Place → Result Place
  found here (err e) above = err e
  found here (ok none) above = above
  found here (ok (some true)) above = ok here
  found here (ok (some false)) above = err not_a_directory

  -- The nearest place upwards that is there; it has to be a directory.
  abbrev pub nearest : Place → Result Place
  nearest [] = found [] (w.stat []) (err w.not_there)
  nearest (part ∷ p) = found (part ∷ p) (w.stat (part ∷ p)) (nearest p)

  abbrev pub is_there : Result (Option Bool) → Bool
  is_there (ok (some dir)) = true
  is_there _ = false

  -- The loop that looks for a place for `freeBytes`; the root is there always.
  abbrev pub existing : Place → Place
  existing [] = []
  existing (part ∷ p) =
      let above = existing p in if is_there (w.stat (part ∷ p)) then part ∷ p else above

  abbrev pub to_write : Option Error → Probe → Result Probe
  to_write (some e) p = err e
  to_write none p = ok (warned p)

  -- What is at the place of an entry.
  abbrev pub fitting : Bool → Entry → Place → Result (Option Bool) → Probe → Result Probe
  fitting overwrite e dest (err x) p = err x
  fitting overwrite e dest (ok none) p = ok p
  fitting overwrite e dest (ok (some dir)) p =
      if not (same_kind dir e.dir)
      then err kind_conflict
      else if e.dir
      then ok p
      else if not overwrite
      then err exists
      else to_write (w.open_error dest) p

  abbrev pub tried : Option Error → Place → List Place → Result (List Place)
  tried (some e) parent checked = err e
  tried none parent checked = ok (parent ∷ checked)

  abbrev pub try_directory : List Place → Place → Result (List Place)
  try_directory checked parent =
      if any (same_place parent) checked
      then ok checked
      else tried (w.write_error parent) parent checked

  abbrev pub start_of : Entry → Place → Place
  start_of e dest = if e.dir then dest else dir_of dest

  -- The loop over the entries, with the directories that have been tried.
  unfoldable pub check_entries : Bool → List Entry → List Place → Probe → Result Probe
  check_entries overwrite [] checked p = ok p
  check_entries overwrite (e ∷ es) checked p = bind (w.place p.target e.name) (λ dest.
      bind (fitting overwrite e dest (w.lstat dest) (grown e p)) (λ q.
        bind (nearest (start_of e dest)) (λ parent.
          bind (try_directory checked parent) (λ now. check_entries overwrite es now q))))

  abbrev pub enough : ℤ → Probe → Option ℕ → Result Probe
  enough extra p none = ok (is_ready p)
  enough extra p (some n) =
      if ltb n (uint64_sum p.bytes extra) then err disk_full else ok (is_ready p)

  abbrev pub new_probe : Place → Probe
  new_probe target = record { ready = false; target = target; warnings = 0; bytes = 0 }

  -- `ProbeTarget`, for a manifest that is valid
  abbrev pub probe_entries : List Entry → Bool → ℤ → Result Probe
  probe_entries entries overwrite extra = bind w.resolve (λ target.
      bind (check_entries overwrite entries [] (new_probe target))
        (λ p. enough extra p (w.free_bytes (existing p.target))))

  unfoldable pub probe_target : List Entry → Bool → ℤ → Result Probe
  probe_target entries overwrite extra =
      let rest = probe_entries entries overwrite extra in
      if validate_entries entries then rest else err invalid_entries
