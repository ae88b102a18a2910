-- ===== src/Examples/Archives.antt =====
-- An archive with one file, unpacked into an empty directory.
use go_silver_core.Prelude.Int.{pos, int_dec}
use go_silver_core.Prelude.Text.{str_dec}
use go_silver_core.Prelude.Maps.{get, put, delete}
use native.Mathlib.Decide.{ℕ_discrete}
use go_silver_core.Prelude.{
  ◌≡◌, refl, true, false, none, some, List, [], ◌∷◌, ◌++◌, Str, codes, Option-cases, inl, inr,
  if◌then◌else◌, is_some, All, arith,
}
use go_silver_core.Folders.{Entry, safe_name, path_clean}
use go_silver_core.Folders.{validate_entries}
use go_silver_core.Folders.Probe
use go_silver_core.Folders.Probe.{uint64_sum, Probe, System, disk_full, probe_target, check_entries}
use go_silver_core.Folders.Probe.Ready.{IsFit, HasRoom, file_bytes, probe_target-IsFit}
use go_silver_core.Folders.Extract.{
  passed, canceled, Result, ok, err, regular, Item, Tree, Disk, item, extract, unpack, unpack_all,
  expected_of,
}
use go_silver_core.Folders.Extract.Only.{IsSame, extract_elsewhere}
use go_silver_core.Folders.Extract.Complete.{times_packed, extract_complete}

abbrev temp : Str
temp = codes "/in/.tmp"

abbrev make_temp : Tree → Result Str
make_temp t = elim (get str_dec temp t) [ none ↦ ok temp | some bytes ↦ err canceled ]

make_temp-new : (dest p : Str) (t : Tree) → make_temp t ≡ ok p → get str_dec p t ≡ none
make_temp-new dest p t h = elim (Option-cases (get str_dec temp t)) [
  | inr (bytes, e) ↦ absurd (ground (arith, e))
  | inl free ↦ ground (arith, free)
]

abbrev plain_disk : Disk
plain_disk = record {
  place = λ name. ok (codes "/in/" ++ name);
  mkdir_all = λ dest. none;
  create_temp = λ dest t. make_temp t;
  copy_error = λ name. none;
  chmod_error = λ name. none;
  sync_error = λ name. none;
  close_error = λ name. none;
  lstat = λ dest. ok false;
  still_placed = λ dest. none;
  rename_error = λ dest. none;
  removes = λ temp. false;
  temp_is_new = make_temp-new;
}

abbrev packed : Item
packed = record { name = codes "a"; size = pos 2; kind = regular; content = 7 ∷ 8 ∷ [] }

abbrev manifest : List Entry
manifest = record { name = codes "a"; size = pos 2; dir = false; mode = 420 } ∷ []

unpacked : (extract plain_disk passed manifest false (item packed ∷ []) []).0 ≡ none
unfolding extract unpack_all unpack get put delete str_dec int_dec ℕ_discrete safe_name path_clean
unpacked = refl

extract_elsewhere_example :
    IsSame plain_disk
      (codes "/etc/b")
      []
      (extract plain_disk passed manifest false (item packed ∷ []) []).1
unfolding str_dec ℕ_discrete
extract_elsewhere_example =
    extract_elsewhere plain_disk (codes "/etc/b") passed manifest false (item packed ∷ []) [] refl
      tt

extract_complete_example :
    (get str_dec (codes "/in/a") (extract plain_disk passed manifest false (item packed ∷ []) []).1
      ≡ some (7 ∷ 8 ∷ []))
    × (times_packed (codes "a") (item packed ∷ [])
        ≡ (if is_some (get str_dec (codes "a") (expected_of manifest)) then 1 else 0))
extract_complete_example =
    extract_complete plain_disk passed manifest false [] [] packed [] (codes "/in/a") (codes "a")
      unpacked refl refl refl

-- An empty directory /in with room for ten bytes.
abbrev empty_system : System
empty_system = record {
  resolve = Probe.ok (codes "in" ∷ []);
  place = λ target name. Probe.ok (name ∷ target);
  lstat = λ p. Probe.ok none;
  stat = λ p. Probe.ok (some true);
  not_there = disk_full;
  open_error = λ p. none;
  write_error = λ p. none;
  free_bytes = λ p. some 10;
}

abbrev ready_probe : Probe
ready_probe = record { ready = true; target = codes "in" ∷ []; warnings = 0; bytes = 2 }

probed : probe_target empty_system manifest false (pos 3) ≡ Probe.ok ready_probe
unfolding probe_target uint64_sum check_entries validate_entries get put str_dec ℕ_discrete
    safe_name path_clean
probed = refl

probe_target-IsFit_example :
    (validate_entries manifest ≡ true)
    × (empty_system.resolve ≡ Probe.ok (codes "in" ∷ []))
    × (true ≡ true)
    × All (IsFit empty_system false (codes "in" ∷ [])) manifest
    × (2 ≡ file_bytes manifest)
    × HasRoom (some 10) 5
unfolding uint64_sum
probe_target-IsFit_example =
    probe_target-IsFit empty_system manifest false (pos 3) ready_probe probed
