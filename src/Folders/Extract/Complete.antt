-- ===== src/Folders/Extract/Complete.antt =====
-- internal/transfer/files.go: what an archive that was unpacked without an error has brought.
use go_silver_core.Prelude.Maps.{get, put, delete, get-put, get-delete}
use go_silver_core.Prelude.Text.{str_dec}
use go_silver_core.Prelude.{
  not, ℕ, ◌+◌, ◌≡◌, inl, inr, refl, sym, ap, ◌∙◌, Bool, true, false, ◌||◌, Option, none, some, List,
  [], ◌∷◌, ◌++◌, Str, if◌then◌else◌, if_pos, is_some, Bool-cases, Option-cases, arith,
}
use go_silver_core.Folders.{Entry, same}
use go_silver_core.Folders.Extract.{
  Error, Probing, passed, failed, unremoved, Result, ok, err, Item, Tree, trim_slash, Disk,
  write_error, settle, with_temp, made, at_place, unpack, unpack_all, extract, expected_of, matches,
  is_dir, Next, item, broken, interrupted,
}
use go_silver_core.Folders.Extract.Only.{is_place, IsSame, went_on, unpack_elsewhere}

abbrev pub item_places : Disk → Str → List Next → Bool
item_places w p [] = false
item_places w p (item h ∷ ns) = is_place p (w.place (trim_slash h.name)) || item_places w p ns
item_places w p (broken e ∷ ns) = item_places w p ns
item_places w p (interrupted ∷ ns) = item_places w p ns

-- How many items have a name.
abbrev pub times_packed : Str → List Next → ℕ
times_packed name [] = 0
times_packed name (item h ∷ ns) =
    (if same (trim_slash h.name) name then 1 else 0) + times_packed name ns
times_packed name (broken e ∷ ns) = times_packed name ns
times_packed name (interrupted ∷ ns) = times_packed name ns

module _ (w : Disk) (overwrite : Bool) where
  -- A successful round.
  unpack_all-step :
      (expected : List (Str × Entry)) (h : Item) (ns : List Next) (t : Tree)
      → (unpack_all w overwrite expected (item h ∷ ns) t).0 ≡ none
      → (is_some (get str_dec (trim_slash h.name) expected) ≡ true)
        × ((unpack w overwrite h t).0 ≡ none)
        × (unpack_all w overwrite expected (item h ∷ ns) t
            ≡ unpack_all w overwrite
                (delete str_dec (trim_slash h.name) expected)
                ns
                (unpack w overwrite h t).1)
  unfolding unpack_all
  unpack_all-step expected h ns t s =
      let name = trim_slash h.name in
      elim (Bool-cases (matches h name (get str_dec name expected))) [
        | inr bad ↦ absurd (ground (arith, bad))
        | inl good ↦ elim (Option-cases (unpack w overwrite h t).0) [
          | inr (e, wrong) ↦ absurd (ground (arith, good, wrong))
          | inl fine ↦ (ground (arith, good), fine, ground (arith, good, fine))
        ]
      ]

  unpack_all-times :
      (name : Str) (expected : List (Str × Entry)) (ns : List Next) (t : Tree)
      → (unpack_all w overwrite expected ns t).0 ≡ none
      → times_packed name ns ≡ (if is_some (get str_dec name expected) then 1 else 0)
  unpack_all-times name [] [] t s = unfold get in refl
  unpack_all-times name (e ∷ es) [] t s = absurd (unfold unpack_all in (cc))
  unpack_all-times name expected (interrupted ∷ ns) t s = absurd (unfold unpack_all in (cc))
  unpack_all-times name expected (broken e ∷ ns) t s = absurd (unfold unpack_all in (cc))
  unpack_all-times name expected (item h ∷ ns) t s =
      let (listed, fine, e) = unpack_all-step expected h ns t s in
      let later =
        unpack_all-times name (delete str_dec (trim_slash h.name) expected) ns
          (unpack w overwrite h t).1 (sym (ap (λ x. x.0) e) ∙ s) in
      elim (str_dec (trim_slash h.name) name) [
        | yes same_name ↦ ground (
          arith,
          same_name,
          later,
          listed,
          get-delete str_dec (trim_slash h.name) name expected,
          ap (λ x. get str_dec x expected) same_name,
        )
        | no n ↦ ground (arith, n, later, get-delete str_dec (trim_slash h.name) name expected)
      ]

  same_file :
      (p bytes : Str) (t u : Tree)
      → IsSame w p t u
      → get str_dec p t ≡ some bytes
      → get str_dec p u ≡ some bytes
  same_file p bytes t u (inl e) h = e ∙ h
  same_file p bytes t u (inr (new, left)) h = absurd (cc (new, h))

  round_file :
      (p bytes : Str) (bad : Bool) (r : Option Error) (t u : Tree) (rest : Option Error × Tree)
      → get str_dec p t ≡ some bytes
      → get str_dec p u ≡ some bytes
      → get str_dec p rest.1 ≡ some bytes
      → get str_dec p (went_on w p bad r t u rest).1 ≡ some bytes
  round_file p bytes true r t u rest b here later = b
  round_file p bytes false (some e) t u rest b here later = here
  round_file p bytes false none t u rest b here later = later

  unpack_all-unplaced :
      (p bytes : Str) (expected : List (Str × Entry)) (ns : List Next) (t : Tree)
      → item_places w p ns ≡ false
      → get str_dec p t ≡ some bytes
      → get str_dec p (unpack_all w overwrite expected ns t).1 ≡ some bytes
  unfolding unpack_all
  unpack_all-unplaced p bytes expected [] t n b = b
  unpack_all-unplaced p bytes expected (interrupted ∷ ns) t n b = b
  unpack_all-unplaced p bytes expected (broken e ∷ ns) t n b = b
  unpack_all-unplaced p bytes expected (item h ∷ ns) t n b =
      let (r, u) = unpack w overwrite h t in
      let here = same_file p bytes t u (unpack_elsewhere w p overwrite h t (ground arith)) b in
      let later =
        unpack_all-unplaced p bytes (delete str_dec (trim_slash h.name) expected) ns u
          (ground arith) here in
      round_file p bytes
        (not (matches h (trim_slash h.name) (get str_dec (trim_slash h.name) expected))) r t u
        (unpack_all w overwrite (delete str_dec (trim_slash h.name) expected) ns u) b here later

  module _ (h : Item) (t : Tree) (dest : Str) where
    settle-content :
        (e : Option Error) (temp : Str)
        → (settle w e temp dest h.content t).0 ≡ none
        → get str_dec dest (settle w e temp dest h.content t).1 ≡ some h.content
    settle-content (some e) temp s = absurd (cc)
    settle-content none temp s =
        get-put str_dec dest dest h.content (delete str_dec temp (put str_dec temp h.content t))
        ∙ if_pos (str_dec dest dest) refl _ _

    with_temp-content :
        (temp : Result Str)
        → (with_temp w overwrite dest h temp t).0 ≡ none
        → get str_dec dest (with_temp w overwrite dest h temp t).1 ≡ some h.content
    with_temp-content (err e) s = absurd (cc)
    with_temp-content (ok temp) s =
        settle-content (write_error w overwrite (trim_slash h.name) dest) temp s

    made-content :
        (e : Option Error)
        → (made w overwrite false dest h e t).0 ≡ none
        → get str_dec dest (made w overwrite false dest h e t).1 ≡ some h.content
    made-content (some e) s = absurd (cc)
    made-content none s = with_temp-content (w.create_temp dest t) s

    at_place-content :
        (dir : Bool) (place : Result Str)
        → dir ≡ false
        → place ≡ ok dest
        → (at_place w overwrite dir h place t).0 ≡ none
        → get str_dec dest (at_place w overwrite dir h place t).1 ≡ some h.content
    at_place-content true place d p s = absurd (cc)
    at_place-content false (err e) d p s = absurd (cc)
    at_place-content false (ok x) d p s =
        let e : x ≡ dest = cc p in
        ap (λ y. get str_dec dest (at_place w overwrite false h (ok y) t).1) e
        ∙ made-content (w.mkdir_all dest)
            (sym (ap (λ y. (at_place w overwrite false h (ok y) t).0) e) ∙ s)

    unpack-content :
        is_dir h.kind ≡ false
        → w.place (trim_slash h.name) ≡ ok dest
        → (unpack w overwrite h t).0 ≡ none
        → get str_dec dest (unpack w overwrite h t).1 ≡ some h.content
    unfolding unpack
    unpack-content d p s = at_place-content (is_dir h.kind) (w.place (trim_slash h.name)) d p s

  unpack_all-content :
      (expected : List (Str × Entry)) (front back : List Next) (h : Item) (t : Tree) (dest : Str)
      → (unpack_all w overwrite expected (front ++ item h ∷ back) t).0 ≡ none
      → is_dir h.kind ≡ false
      → w.place (trim_slash h.name) ≡ ok dest
      → item_places w dest back ≡ false
      → get str_dec dest (unpack_all w overwrite expected (front ++ item h ∷ back) t).1
        ≡ some h.content
  unpack_all-content expected [] back h t dest s d p n =
      let (_, fine, e) = unpack_all-step expected h back t s in
      ap (λ x. get str_dec dest x.1) e
      ∙ unpack_all-unplaced dest h.content (delete str_dec (trim_slash h.name) expected) back
          (unpack w overwrite h t).1 n (unpack-content h t dest d p fine)
  unpack_all-content expected (interrupted ∷ front) back h t dest s d p n =
      absurd (unfold unpack_all in (cc))
  unpack_all-content expected (broken e ∷ front) back h t dest s d p n =
      absurd (unfold unpack_all in (cc))
  unpack_all-content expected (item g ∷ front) back h t dest s d p n =
      let (_, fine, e) = unpack_all-step expected g (front ++ item h ∷ back) t s in
      ap (λ x. get str_dec dest x.1) e
      ∙ unpack_all-content (delete str_dec (trim_slash g.name) expected) front back h
          (unpack w overwrite g t).1 dest (sym (ap (λ x. x.0) e) ∙ s) d p n

-- If `Extract` returns without an error, then the archive has exactly one item for each name of the
-- manifest, and none for another; and a file whose place is not that of a later item has, at its
-- place, the bytes that the archive holds for it.
pub extract_complete :
    (w : Disk) (probe : Probing) (entries : List Entry) (overwrite : Bool) (front back : List Next)
    (h : Item) (t : Tree) (dest name : Str)
    → (extract w probe entries overwrite (front ++ item h ∷ back) t).0 ≡ none
    → is_dir h.kind ≡ false
    → w.place (trim_slash h.name) ≡ ok dest
    → item_places w dest back ≡ false
    → (get str_dec dest (extract w probe entries overwrite (front ++ item h ∷ back) t).1
        ≡ some h.content)
      × (times_packed name (front ++ item h ∷ back)
          ≡ (if is_some (get str_dec name (expected_of entries)) then 1 else 0))
unfolding extract
extract_complete w (failed e) entries overwrite front back h t dest name s d p n = absurd (cc)
extract_complete w (unremoved e file) entries overwrite front back h t dest name s d p n =
    absurd (cc)
extract_complete w passed entries overwrite front back h t dest name s d p n = (
  unpack_all-content w overwrite (expected_of entries) front back h t dest s d p n,
  unpack_all-times w overwrite name (expected_of entries) (front ++ item h ∷ back) t s,
)
