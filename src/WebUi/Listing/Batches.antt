-- ===== src/WebUi/Listing/Batches.antt =====
-- internal/webui/http.go: the batches in which `listDirectory` reads make no difference.
use go_silver_core.Prelude.{
  ℕ, zero, suc, ◌≤◌, ◌<◌, ◌≡◌, refl, sym, ap, ◌∙◌, inl, inr, Bool, true, false, Option, none, some,
  List, [], ◌∷◌, ◌++◌, Str, if◌then◌else◌, leb, length, take, length-append, take_of_length-le,
  Bool-cases, arith,
}
use mathlib.Core.List.{append_assoc, append-nil}
use go_silver_core.WebUi.{Err, Result, ok, err}
use go_silver_core.WebUi.Listing.{
  DirEntry, FileEntry, Reads, last, more, Directories, limit, entry_of, appended, read_batch,
  last_batch, next_batch, read_all, finished, directory, of_reads, of_path, list_directory,
}

-- All entries of the directory, and the error that ends it.
abbrev pub entries_of : Reads → List DirEntry
entries_of (last es e) = es
entries_of (more es r) = es ++ entries_of r

abbrev pub error_of : Reads → Option Err
error_of (last es e) = e
error_of (more es r) = error_of r

abbrev pub add : Option FileEntry → List FileEntry → List FileEntry
add none fs = fs
add (some f) fs = f ∷ fs

if_true : {A : Type 0} {b : Bool} (x y : A) → b ≡ true → (if b then x else y) ≡ x
if_true x y h = ground (arith, h)

if_false : {A : Type 0} {b : Bool} (x y : A) → b ≡ false → (if b then x else y) ≡ y
if_false x y h = ground (arith, h)

take-append : (n : ℕ) (fs gs : List FileEntry) → n ≤ length fs → take n (fs ++ gs) ≡ take n fs
take-append zero fs gs h = refl
take-append (suc n) [] gs h = absurd (omega (arith, h))
take-append (suc n) (f ∷ fs) gs h =
    let rest = take-append n fs gs (omega (arith, h)) in ap (f ∷◌) rest

module _ (w : Directories) (only_dirs : Bool) (dir : Str) where
  abbrev pub shown : List DirEntry → List FileEntry
  shown [] = []
  shown (e ∷ es) = add (entry_of w only_dirs dir e) (shown es)

  -- A list up to the limit, and whether it reaches the limit.
  abbrev pub cut : List FileEntry → List FileEntry × Bool
  cut fs = (take limit fs, leb limit (length fs))

  shown-append : (ds es : List DirEntry) → shown (ds ++ es) ≡ shown ds ++ shown es
  shown-append [] es = refl
  shown-append (d ∷ ds) es =
      elim (entry_of w only_dirs dir d)
        as (λ o. add o (shown (ds ++ es)) ≡ add o (shown ds) ++ shown es) [
          | none ↦ shown-append ds es
          | some f ↦ ap (f ∷◌) (shown-append ds es)
        ]

  cut_below : (fs : List FileEntry) → leb limit (length fs) ≡ false → cut fs ≡ (fs, false)
  cut_below fs h = ground (arith, take_of_length-le limit fs (ground arith))

  cut_full :
      (fs gs : List FileEntry)
      → leb limit (length fs) ≡ true
      → cut (fs ++ gs) ≡ (take limit fs, true)
  cut_full fs gs h =
      let many : leb limit (length (fs ++ gs)) ≡ true = ground (arith, h, length-append fs gs) in
      ap (λ b. (take limit (fs ++ gs), b)) many
      ∙ ap (λ x. (x, true)) (take-append limit fs gs (ground arith))

  cut_exactly : (fs gs : List FileEntry) → length fs ≡ limit → cut (fs ++ gs) ≡ (fs, true)
  cut_exactly fs gs h =
      cut_full fs gs (ground arith)
      ∙ ap (λ x. (x, true)) (take_of_length-le limit fs (omega (arith, h)))

  read_batch-cut :
      (es : List DirEntry) (out : List FileEntry)
      → length out < limit
      → read_batch w only_dirs dir es out ≡ cut (out ++ shown es)
  unfolding read_batch
  read_batch-cut [] out h = sym (ap cut (append-nil out) ∙ cut_below out (ground arith))
  read_batch-cut (e ∷ es) out h =
      elim (entry_of w only_dirs dir e)
        as (λ o.
          appended w only_dirs o out (read_batch w only_dirs dir es)
          ≡ cut (out ++ add o (shown es))) [
            | none ↦ read_batch-cut es out h
            | some f ↦
                let one_more = length-append out (f ∷ []) in
                let shift = append_assoc out (f ∷ []) (shown es) in
                elim (Bool-cases (leb limit (length (out ++ f ∷ [])))) [
                  | inl full ↦
                      if_true _ _ full
                      ∙ sym (
                          ap cut (sym shift)
                          ∙ cut_exactly (out ++ f ∷ []) (shown es) (ground (arith, one_more)))
                  | inr room ↦
                      if_false _ _ room
                      ∙ read_batch-cut es (out ++ f ∷ []) (ground (arith, one_more))
                      ∙ ap cut shift
                ]
          ]

  -- What reading gives whose entries are these, and that ends with the error.
  abbrev pub ended : Option Err → List FileEntry → Result (List FileEntry × Bool)
  ended none fs = ok (fs, false)
  ended (some e) fs = err e

  abbrev pub whole : Option Err → List FileEntry → Result (List FileEntry × Bool)
  whole e fs = if leb limit (length fs) then ok (take limit fs, true) else ended e fs

  last_batch-ended :
      (e : Option Err) (fs : List FileEntry) → last_batch w only_dirs e (fs, false) ≡ ended e fs
  last_batch-ended none fs = refl
  last_batch-ended (some e) fs = refl

  last_batch-whole :
      (e : Option Err) (fs : List FileEntry) → last_batch w only_dirs e (cut fs) ≡ whole e fs
  last_batch-whole e fs = elim (Bool-cases (leb limit (length fs))) [
    | inl full ↦
        ap (λ b. last_batch w only_dirs e (take limit fs, b)) full
        ∙ sym (if_true (ok (take limit fs, true)) (ended e fs) full)
    | inr room ↦
        ap (last_batch w only_dirs e) (cut_below fs room)
        ∙ last_batch-ended e fs
        ∙ sym (if_false (ok (take limit fs, true)) (ended e fs) room)
  ]

  whole_full :
      (fs gs : List FileEntry) (e : Option Err)
      → leb limit (length fs) ≡ true
      → whole e (fs ++ gs) ≡ ok (take limit fs, true)
  whole_full fs gs e h =
      let many : leb limit (length (fs ++ gs)) ≡ true = ground (arith, h, length-append fs gs) in
      if_true (ok (take limit (fs ++ gs), true)) (ended e (fs ++ gs)) many
      ∙ ap (λ x. ok (x, true)) (take-append limit fs gs (ground arith))

  read_all-whole :
      (r : Reads) (out : List FileEntry)
      → length out < limit
      → read_all w only_dirs dir r out ≡ whole (error_of r) (out ++ shown (entries_of r))
  unfolding read_all
  read_all-whole (last es e) out h =
      ap (last_batch w only_dirs e) (read_batch-cut es out h) ∙ last_batch-whole e (out ++ shown es)
  read_all-whole (more es r) out h =
      let now = out ++ shown es in
      let later = shown (entries_of r) in
      let shift =
        append_assoc out (shown es) later ∙ ap (out ++◌) (sym (shown-append es (entries_of r))) in
      ap (λ x. next_batch w only_dirs x (read_all w only_dirs dir r)) (read_batch-cut es out h)
      ∙ (elim (Bool-cases (leb limit (length now))) [
        | inl full ↦
            ap (λ b. next_batch w only_dirs (take limit now, b) (read_all w only_dirs dir r)) full
            ∙ sym (whole_full now later (error_of r) full)
        | inr room ↦
            ap (λ x. next_batch w only_dirs x (read_all w only_dirs dir r)) (cut_below now room)
            ∙ read_all-whole r now (ground arith)
      ])
      ∙ ap (whole (error_of r)) shift

-- Without an error before the directory is open, the batches in which it is read make no difference:
-- the listing has, sorted, the first 1000 of all entries that are not left out, and is truncated when
-- there are 1000 or more; with fewer, an error at the end is returned.
pub list_directory-whole :
    (w : Directories) (only_dirs : Bool) (p root a : Str) (r : Reads)
    → w.abs p ≡ ok a
    → w.open_dir (directory w a) ≡ ok r
    → list_directory w only_dirs p root
      ≡ finished w only_dirs (directory w a) root (
          whole w only_dirs
            (directory w a)
            (error_of r)
            (shown w only_dirs (directory w a) (entries_of r)))
unfolding list_directory
list_directory-whole w only_dirs p root a r found opened =
    ap (of_path w only_dirs root) found
    ∙ ap (of_reads w only_dirs (directory w a) root) opened
    ∙ ap (finished w only_dirs (directory w a) root)
        (read_all-whole w only_dirs (directory w a) r [] (omega arith))
