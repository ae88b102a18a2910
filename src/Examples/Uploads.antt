-- ===== src/Examples/Uploads.antt =====
-- Two files that a browser stores, a file that comes twice, and a small directory.
use native.Mathlib.Decide.{ℕ_discrete}
use go_silver_core.Prelude.Text.{str_dec}
use go_silver_core.Prelude.Maps.{get, put}
use go_silver_core.Prelude.{◌≡◌, refl, true, false, none, some, List, [], ◌∷◌, codes}
use go_silver_core.Folders.{safe_name, path_clean}
use go_silver_core.WebUi.{ok, passed_on}
use go_silver_core.Prelude.Int.{pos}
use go_silver_core.WebUi.Listing.{
  DirEntry, last, more, Directories, list_directory, read_all, read_batch, finished,
}
use go_silver_core.WebUi.Listing.Batches.{whole, shown, list_directory-whole}
use go_silver_core.WebUi.Upload.{
  path, System, Incoming, part, accepted, refused, upload, receive, save_part,
}
use go_silver_core.WebUi.Upload.Answers.{IsKept, upload-IsKept}

abbrev plain_system : System
plain_system = record {
  reader_error = none;
  mkdir_temp = ok (codes "/t/u");
  mkdir_error = λ p. none;
  open_error = λ p. none;
  exist_error = passed_on false [];
  copy_error = λ p. none;
  partial = λ p. [];
  close_error = λ p. none;
  read_dir = λ p t. ok (codes "d" ∷ []);
}

abbrev two_parts : List Incoming
two_parts =
    part (record { name = codes "d/a"; content = 7 ∷ [] })
    ∷ part (record { name = codes "d/b"; content = 8 ∷ 9 ∷ [] })
    ∷ []

abbrev same_twice : List Incoming
same_twice =
    part (record { name = codes "d/a"; content = 7 ∷ [] })
    ∷ part (record { name = codes "d/a"; content = 8 ∷ [] })
    ∷ []

two_stored : (upload plain_system false [] two_parts []).0 ≡ accepted (codes "/t/u/d") 2
unfolding upload receive save_part get put str_dec ℕ_discrete safe_name path_clean
two_stored = refl

twice_refused : (upload plain_system false [] same_twice []).0 ≡ refused 400
unfolding upload receive save_part get put str_dec ℕ_discrete safe_name path_clean
twice_refused = refl

upload-IsKept_example : IsKept false [] two_parts [] (upload plain_system false [] two_parts [])
upload-IsKept_example = upload-IsKept plain_system false [] two_parts []

abbrev small : DirEntry
small = record { name = codes "b"; link = false; dir = false; info = some (pos 3) }

abbrev linked : DirEntry
linked = record { name = codes "a"; link = true; dir = false; info = some (pos 3) }

abbrev folder : DirEntry
folder = record { name = codes "c"; link = false; dir = true; info = some (pos 0) }

abbrev plain_directories : Directories
plain_directories = record {
  abs = λ p. ok p;
  is_file = λ p. false;
  parent_of = λ p. codes "/";
  open_dir = λ p. ok (more (small ∷ linked ∷ []) (last (folder ∷ []) none));
  join = path;
}

two_shown :
    list_directory plain_directories false (codes "/d") []
    ≡ ok (record {
      path = codes "/d";
      parent = codes "/";
      root = [];
      entries =
          record { name = codes "c"; path = codes "/d/c"; dir = true; size = pos 0 }
          ∷ record { name = codes "b"; path = codes "/d/b"; dir = false; size = pos 3 }
          ∷ [];
      truncated = false;
    })
unfolding list_directory read_all read_batch
two_shown = refl

list_directory-whole_example :
    list_directory plain_directories false (codes "/d") []
    ≡ finished plain_directories false (codes "/d") [] (
        whole plain_directories false
          (codes "/d")
          none
          (shown plain_directories false (codes "/d") (small ∷ linked ∷ folder ∷ [])))
list_directory-whole_example =
    list_directory-whole plain_directories false (codes "/d") [] (codes "/d")
      (more (small ∷ linked ∷ []) (last (folder ∷ []) none)) refl refl
