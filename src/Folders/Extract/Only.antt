-- ===== src/Folders/Extract/Only.antt =====
-- internal/transfer/files.go: what unpacking an archive touches.
use go_silver_core.Prelude.Maps.{
  get, put, delete, get-put, get-delete, Every, Every-get, Every-put, Every-delete,
}
use go_silver_core.Prelude.Text.{str_dec}
use go_silver_core.Prelude.{
  ◌⊎◌, sym, Bool-cases, if◌then◌else◌, not, ◌≡◌, inl, inr, refl, ap, ◌∙◌, Bool, true, false, ◌||◌,
  Option, none, some, List, [], ◌∷◌, Str, Option-cases, arith,
}
use go_silver_core.Folders.{Entry, same}
use go_silver_core.Folders.Extract.{
  Error, not_in_manifest, matches, remove, Probing, passed, failed, unremoved, Result, ok, err,
  Item, Tree, trim_slash, Disk, write_error, settle, with_temp, made, at_place, unpack, unpack_all,
  extract, expected_of, is_dir, Next, item, broken, interrupted,
}

-- Is the path the place of a name of the manifest?
abbrev pub is_place : Str → Result Str → Bool
is_place p (err e) = false
is_place p (ok dest) = same dest p

abbrev pub is_listed : Disk → Str → List Entry → Bool
is_listed w p [] = false
is_listed w p (e ∷ es) = is_place p (w.place e.name) || is_listed w p es

abbrev OffPlace : Disk → Str → List (Str × Entry) → Type 0
OffPlace w p expected = Every (λ name e. is_place p (w.place name) ≡ false) expected

expected_of-OffPlace :
    (w : Disk) (p : Str) (es : List Entry)
    → is_listed w p es ≡ false
    → OffPlace w p (expected_of es)
expected_of-OffPlace w p [] n = tt
expected_of-OffPlace w p (e ∷ es) n =
    Every-put str_dec (λ name e. is_place p (w.place name) ≡ false) e.name e (expected_of es)
      (expected_of-OffPlace w p es (ground arith)) (ground arith)

module _ (w : Disk) (p : Str) where
  -- A file that is as it was, or is a new temporary file that could not be removed.
  abbrev pub IsSame : Tree → Tree → Type 0
  IsSame t u =
      (get str_dec p u ≡ get str_dec p t) ⊎ ((get str_dec p t ≡ none) × (w.removes p ≡ false))

  IsSame-then : (t u v : Tree) → IsSame t u → IsSame u v → IsSame t v
  IsSame-then t u v (inl a) (inl b) = inl (b ∙ a)
  IsSame-then t u v (inl a) (inr b) = inr (sym a ∙ b.0, b.1)
  IsSame-then t u v (inr a) h = inr a

  deleted_elsewhere :
      (temp bytes : Str) (t : Tree)
      → get str_dec temp t ≡ none
      → get str_dec p (delete str_dec temp (put str_dec temp bytes t)) ≡ get str_dec p t
  deleted_elsewhere temp bytes t fresh =
      get-delete str_dec temp p (put str_dec temp bytes t) ∙ (elim (str_dec temp p) [
        | yes e ↦ ground (arith, e, ap (λ x. get str_dec x t) e, fresh)
        | no n ↦ ground (arith, n, get-put str_dec temp p bytes t)
      ])

  remove_elsewhere :
      (temp bytes : Str) (t : Tree)
      → get str_dec temp t ≡ none
      → IsSame t (remove w temp (put str_dec temp bytes t))
  remove_elsewhere temp bytes t fresh = elim (Bool-cases (w.removes temp)) [
    | inl done ↦ inl (ground (arith, done, deleted_elsewhere temp bytes t fresh))
    | inr left ↦ elim (str_dec temp p) [
      | yes e ↦ inr (ap (λ x. get str_dec x t) (sym e) ∙ fresh, ap w.removes (sym e) ∙ left)
      | no n ↦ inl (ground (arith, left, n, get-put str_dec temp p bytes t))
    ]
  ]

  settle_elsewhere :
      (e : Option Error) (temp dest bytes : Str) (t : Tree)
      → get str_dec temp t ≡ none
      → same dest p ≡ false
      → IsSame t (settle w e temp dest bytes t).1
  settle_elsewhere (some e) temp dest bytes t fresh n = remove_elsewhere temp bytes t fresh
  settle_elsewhere none temp dest bytes t fresh n = inl (
      ground (
        arith,
        get-put str_dec dest p bytes (delete str_dec temp (put str_dec temp bytes t)),
        n,
        deleted_elsewhere temp bytes t fresh,
      ))

  with_temp_elsewhere :
      (overwrite : Bool) (dest : Str) (h : Item) (made_temp : Result Str) (t : Tree)
      → w.create_temp dest t ≡ made_temp
      → same dest p ≡ false
      → IsSame t (with_temp w overwrite dest h made_temp t).1
  with_temp_elsewhere overwrite dest h (err e) t c n = inl refl
  with_temp_elsewhere overwrite dest h (ok temp) t c n =
      settle_elsewhere (write_error w overwrite (trim_slash h.name) dest) temp dest h.content t
        (w.temp_is_new dest temp t c) n

  made_elsewhere :
      (overwrite dir : Bool) (dest : Str) (h : Item) (e : Option Error) (t : Tree)
      → same dest p ≡ false
      → IsSame t (made w overwrite dir dest h e t).1
  made_elsewhere overwrite dir dest h (some e) t n = inl refl
  made_elsewhere overwrite true dest h none t n = inl refl
  made_elsewhere overwrite false dest h none t n =
      with_temp_elsewhere overwrite dest h (w.create_temp dest t) t refl n

  at_place_elsewhere :
      (overwrite dir : Bool) (h : Item) (place : Result Str) (t : Tree)
      → is_place p place ≡ false
      → IsSame t (at_place w overwrite dir h place t).1
  at_place_elsewhere overwrite dir h (err e) t n = inl refl
  at_place_elsewhere overwrite dir h (ok dest) t n =
      made_elsewhere overwrite dir dest h (w.mkdir_all dest) t n

  pub unpack_elsewhere :
      (overwrite : Bool) (h : Item) (t : Tree)
      → is_place p (w.place (trim_slash h.name)) ≡ false
      → IsSame t (unpack w overwrite h t).1
  unfolding unpack
  unpack_elsewhere overwrite h t n =
      at_place_elsewhere overwrite (is_dir h.kind) h (w.place (trim_slash h.name)) t n

  abbrev pub went_on : Bool → Option Error → Tree → Tree → Option Error × Tree → Option Error × Tree
  went_on bad r t u rest =
      if bad then (some not_in_manifest, t) else elim r [ some e ↦ (some e, u) | none ↦ rest ]

  round_elsewhere :
      (bad : Bool) (r : Option Error) (t u : Tree) (rest : Option Error × Tree)
      → IsSame t u
      → IsSame t rest.1
      → IsSame t (went_on bad r t u rest).1
  round_elsewhere true r t u rest here later = inl refl
  round_elsewhere false (some e) t u rest here later = here
  round_elsewhere false none t u rest here later = later

  unpack_all_elsewhere :
      (overwrite : Bool) (expected : List (Str × Entry)) (ns : List Next) (t : Tree)
      → OffPlace w p expected
      → IsSame t (unpack_all w overwrite expected ns t).1
  unfolding unpack_all
  unpack_all_elsewhere overwrite expected [] t v = inl refl
  unpack_all_elsewhere overwrite expected (interrupted ∷ ns) t v = inl refl
  unpack_all_elsewhere overwrite expected (broken e ∷ ns) t v = inl refl
  unpack_all_elsewhere overwrite expected (item h ∷ ns) t v =
      let name = trim_slash h.name in
      let found = get str_dec name expected in
      elim (Option-cases found) [
        | inl unknown ↦ inl (ground (arith, unknown))
        | inr (e, listed) ↦
            let (r, u) = unpack w overwrite h t in
            let off =
              Every-get str_dec (λ name e. is_place p (w.place name) ≡ false) name e expected v
                listed in
            let here = unpack_elsewhere overwrite h t off in
            let later = unpack_all_elsewhere overwrite (delete str_dec name expected) ns u (
              Every-delete str_dec (λ name e. is_place p (w.place name) ≡ false) name expected v) in
            round_elsewhere (not (matches h name found)) r t u
              (unpack_all w overwrite (delete str_dec name expected) ns u) here
              (IsSame-then t u _ here later)
      ]

-- The file that a failing probe leaves was new, and its removal failed.
abbrev pub IsNewProbe : Disk → Probing → Tree → Type 0
IsNewProbe w passed t = Unit
IsNewProbe w (failed e) t = Unit
IsNewProbe w (unremoved e file) t = (get str_dec file t ≡ none) × (w.removes file ≡ false)

-- Whatever the archive holds, and whether unpacking succeeds or fails, and wherever it fails: no file
-- changes but those at the places of the manifest's names. Only a temporary file that was not there
-- before can be left, and only if its removal fails; the file that a probe makes is supposed to be new.
pub extract_elsewhere :
    (w : Disk) (p : Str) (probe : Probing) (entries : List Entry) (overwrite : Bool)
    (ns : List Next) (t : Tree)
    → is_listed w p entries ≡ false
    → IsNewProbe w probe t
    → IsSame w p t (extract w probe entries overwrite ns t).1
unfolding extract
extract_elsewhere w p passed entries overwrite ns t n new =
    unpack_all_elsewhere w p overwrite (expected_of entries) ns t
      (expected_of-OffPlace w p entries n)
extract_elsewhere w p (failed e) entries overwrite ns t n new = inl refl
extract_elsewhere w p (unremoved e file) entries overwrite ns t n new = elim (str_dec file p) [
  | yes s ↦ inr (ap (λ x. get str_dec x t) (sym s) ∙ new.0, ap w.removes (sym s) ∙ new.1)
  | no d ↦ inl (ground (arith, d, get-put str_dec file p [] t))
]
