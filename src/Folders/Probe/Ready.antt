-- ===== src/Folders/Probe/Ready.antt =====
-- internal/transfer/files.go: what a probe without an error has found.
use go_silver_core.Prelude.Int.{ℤ, pos_part}
use go_silver_core.Prelude.Text.{str_dec}
use go_silver_core.Prelude.{
  ℕ, ◌+◌, ◌≤◌, ◌≡◌, ◌⊎◌, inl, inr, refl, sym, ap, subst, ◌∙◌, Bool, true, false, Option, none, some,
  List, [], ◌∷◌, if◌then◌else◌, ltb, any, All, Bool-cases, arith,
}
use go_silver_core.Folders.{Entry, validate_entries}
use go_silver_core.Folders.Probe.{
  uint64_sum, Error, invalid_entries, Result, ok, err, Place, Probe, System, grown, warned,
  is_ready, same_kind, same_place, bind, nearest, existing, to_write, fitting, tried, try_directory,
  start_of, check_entries, enough, new_probe, probe_entries, probe_target,
}

-- What is at the place of an entry lets it be written: nothing, a directory for a directory, or a file
-- for a file, which may then be overwritten and can be opened for that.
abbrev pub IsFree : System → Bool → Entry → Place → Type 0
IsFree w overwrite e dest =
    (w.lstat dest ≡ ok none)
    ⊎ ((w.lstat dest ≡ ok (some e.dir))
        × ((e.dir ≡ true) ⊎ ((overwrite ≡ true) × (w.open_error dest ≡ none))))

-- The entry has a place that it can be written at, in or below a directory that can be written to.
abbrev pub IsFit : System → Bool → Place → Entry → Type 0
IsFit w overwrite target e =
    (dest : Place) × (w.place target e.name ≡ ok dest)
    × IsFree w overwrite e dest
    × ((parent : Place) × (nearest w (start_of w e dest) ≡ ok parent)
        × (w.write_error parent ≡ none))

abbrev pub file_bytes : List Entry → ℕ
file_bytes [] = 0
file_bytes (e ∷ es) = (if e.dir then 0 else pos_part e.size) + file_bytes es

if_true : {A : Type 0} {b : Bool} (x y : A) → b ≡ true → (if b then x else y) ≡ x
if_true x y h = ground (arith, h)

bind-ok :
    {A B : Type 0} (r : Result A) (go : A → Result B) (b : B)
    → bind r go ≡ ok b
    → (a : A) × (r ≡ ok a) × (go a ≡ ok b)
bind-ok (ok a) go b h = (a, refl, h)
bind-ok (err e) go b h = absurd (cc)

same_place_sound : (p q : Place) → same_place p q ≡ true → p ≡ q
same_place_sound [] [] h = refl
same_place_sound [] (b ∷ bs) h = absurd (cc)
same_place_sound (a ∷ rest) [] h = absurd (cc)
same_place_sound (a ∷ rest) (b ∷ bs) h = elim (str_dec a b) [
  | no n ↦ absurd (ground (arith, n))
  | yes e ↦ let later = same_place_sound rest bs (ground (arith, e)) in cc (e, later)
]

same_kind_sound : (a b : Bool) → same_kind a b ≡ true → a ≡ b
same_kind_sound true b h = sym h
same_kind_sound false b h = ground arith

to_write_lem :
    (w : System) (o : Option Error) (p q : Probe)
    → to_write w o p ≡ ok q
    → (o ≡ none) × (warned p ≡ q)
to_write_lem w (some e) p q h = absurd (cc)
to_write_lem w none p q h = (refl, cc h)

module _ (w : System) where
  abbrev AllWritable : List Place → Type 0
  AllWritable checked = All (λ p. w.write_error p ≡ none) checked

  any-AllWritable :
      (p : Place) (checked : List Place)
      → AllWritable checked
      → any (same_place p) checked ≡ true
      → w.write_error p ≡ none
  any-AllWritable p [] a h = absurd (cc)
  any-AllWritable p (q ∷ checked) a h = elim (Bool-cases (same_place p q)) [
    | inl s ↦ ap w.write_error (same_place_sound p q s) ∙ a.0
    | inr n ↦ any-AllWritable p checked a.1 (ground (arith, n))
  ]

  tried-AllWritable :
      (checked now : List Place) (parent : Place) (o : Option Error)
      → w.write_error parent ≡ o
      → tried w o parent checked ≡ ok now
      → AllWritable checked
      → (w.write_error parent ≡ none) × AllWritable now
  tried-AllWritable checked now parent (some e) o h a = absurd (cc)
  tried-AllWritable checked now parent none o h a =
      let same_list : parent ∷ checked ≡ now = cc h in (o, subst AllWritable same_list (o, a))

  try_directory-AllWritable :
      (checked now : List Place) (parent : Place)
      → try_directory w checked parent ≡ ok now
      → AllWritable checked
      → (w.write_error parent ≡ none) × AllWritable now
  try_directory-AllWritable checked now parent h a =
      elim (Bool-cases (any (same_place parent) checked)) [
        | inl seen ↦
            (any-AllWritable parent checked a seen, subst AllWritable (ground (arith, seen)) a)
        | inr new ↦
            tried-AllWritable checked now parent (w.write_error parent) refl (ground (arith, new)) a
      ]

  grown_bytes :
      (e : Entry) (p : Probe) → (grown e p).bytes ≡ p.bytes + (if e.dir then 0 else pos_part e.size)
  grown_bytes e p = ground arith

  found-IsFree :
      (overwrite : Bool) (e : Entry) (dest : Place) (p q : Probe) (o : Result (Option Bool))
      → w.lstat dest ≡ o
      → fitting w overwrite e dest o (grown e p) ≡ ok q
      → IsFree w overwrite e dest × (q.target ≡ p.target) × (q.bytes ≡ (grown e p).bytes)
  found-IsFree overwrite e dest p q (err x) o h = absurd (cc)
  found-IsFree overwrite e dest p q (ok none) o h =
      let here : grown e p ≡ q = cc h in
      (inl o, sym (ap (λ x. x.target) here), sym (ap (λ x. x.bytes) here))
  found-IsFree overwrite e dest p q (ok (some dir)) o h = elim (Bool-cases (same_kind dir e.dir)) [
    | inr other ↦ absurd (ground (arith, other))
    | inl kind ↦
        let at : w.lstat dest ≡ ok (some e.dir) =
          o ∙ ap (λ b. ok (some b)) (same_kind_sound dir e.dir kind) in
        elim (Bool-cases e.dir) [
          | inl d ↦
              let here : grown e p ≡ q = ground (arith, kind, d) in
              (inr (at, inl d), sym (ap (λ x. x.target) here), sym (ap (λ x. x.bytes) here))
          | inr file ↦ elim (Bool-cases overwrite) [
            | inr never ↦ absurd (ground (arith, kind, file, never))
            | inl may ↦
                let (opens, here) =
                  to_write_lem w (w.open_error dest) (grown e p) q
                    (ground (arith, kind, file, may)) in
                (
                  inr (at, inr (may, opens)),
                  sym (ap (λ x. x.target) here),
                  sym (ap (λ x. x.bytes) here),
                )
          ]
        ]
  ]

  fitting-IsFree :
      (overwrite : Bool) (e : Entry) (dest : Place) (p q : Probe)
      → fitting w overwrite e dest (w.lstat dest) (grown e p) ≡ ok q
      → IsFree w overwrite e dest
        × (q.target ≡ p.target)
        × (q.bytes ≡ p.bytes + (if e.dir then 0 else pos_part e.size))
  fitting-IsFree overwrite e dest p q h =
      let (free, target, bytes) = found-IsFree overwrite e dest p q (w.lstat dest) refl h in
      (free, target, bytes ∙ grown_bytes e p)

  check_entries-IsFit :
      (overwrite : Bool) (es : List Entry) (checked : List Place) (p q : Probe)
      → check_entries w overwrite es checked p ≡ ok q
      → AllWritable checked
      → (q.target ≡ p.target)
        × (q.bytes ≡ p.bytes + file_bytes es)
        × All (IsFit w overwrite p.target) es
  unfolding check_entries
  check_entries-IsFit overwrite [] checked p q h a =
      let here : p ≡ q = cc h in
      (sym (ap (λ x. x.target) here), ground (arith, ap (λ x. x.bytes) here), tt)
  check_entries-IsFit overwrite (e ∷ es) checked p q h a =
      let (dest, placed, h1) = bind-ok (w.place p.target e.name) _ q h in
      let (p1, fits, h2) = bind-ok (fitting w overwrite e dest (w.lstat dest) (grown e p)) _ q h1 in
      let (parent, near, h3) = bind-ok (nearest w (start_of w e dest)) _ q h2 in
      let (now, went, h4) = bind-ok (try_directory w checked parent) _ q h3 in
      let (free, same_target, size) = fitting-IsFree overwrite e dest p p1 fits in
      let (writable, all_writable) = try_directory-AllWritable checked now parent went a in
      let (target, bytes, rest) = check_entries-IsFit overwrite es now p1 q h4 all_writable in
      (
        target ∙ same_target,
        omega (arith, bytes, size),
        (
          (dest, placed, free, (parent, near, writable)),
          subst (λ t. All (IsFit w overwrite t) es) same_target rest,
        ),
      )

-- If the space is known, it is enough for the files and the extra bytes.
abbrev pub HasRoom : Option ℕ → ℕ → Type 0
HasRoom none need = Unit
HasRoom (some n) need = need ≤ n

enough-HasRoom :
    (w : System) (extra : ℤ) (p q : Probe) (space : Option ℕ)
    → enough w extra p space ≡ ok q
    → HasRoom space (uint64_sum p.bytes extra) × (is_ready p ≡ q)
enough-HasRoom w extra p q none h = (tt, cc h)
enough-HasRoom w extra p q (some n) h = elim (Bool-cases (ltb n (uint64_sum p.bytes extra))) [
  | inl full ↦ absurd (ground (arith, full))
  | inr room ↦ (ground arith, ground (arith, room))
]

-- A probe without an error is ready, for a manifest that is valid and a target that resolves; each
-- entry has a place below the target where it can be written: nothing is there, or the same kind, and a
-- file only with leave to overwrite it; the nearest directory that is there can be written to. The
-- bytes are those of the files, and the disk has room for them and the extra ones, added up as
-- the code does it, when that is known.
pub probe_target-IsFit :
    (w : System) (entries : List Entry) (overwrite : Bool) (extra : ℤ) (q : Probe)
    → probe_target w entries overwrite extra ≡ ok q
    → (validate_entries entries ≡ true)
      × (w.resolve ≡ ok q.target)
      × (q.ready ≡ true)
      × All (IsFit w overwrite q.target) entries
      × (q.bytes ≡ file_bytes entries)
      × HasRoom (w.free_bytes (existing w q.target)) (uint64_sum q.bytes extra)
unfolding probe_target
probe_target-IsFit w entries overwrite extra q h = elim (Bool-cases (validate_entries entries)) [
  | inr bad ↦ absurd (ground (arith, bad))
  | inl valid ↦
      let (target, resolved, h1) =
        bind-ok w.resolve _ q (
          sym (if_true (probe_entries w entries overwrite extra) (err invalid_entries) valid)
          ∙ h) in
      let (p, checked, h2) =
        bind-ok (check_entries w overwrite entries [] (new_probe w target)) _ q h1 in
      let (same_target, bytes, fits) =
        check_entries-IsFit w overwrite entries [] (new_probe w target) p checked tt in
      let (room, here) = enough-HasRoom w extra p q (w.free_bytes (existing w p.target)) h2 in
      let to : p.target ≡ q.target = ap (λ x. x.target) here in
      (
        valid,
        resolved ∙ ap ok (sym same_target ∙ to),
        sym (ap (λ x. x.ready) here),
        subst (λ t. All (IsFit w overwrite t) entries) (sym same_target ∙ to) fits,
        ground (arith, ap (λ x. x.bytes) here, bytes),
        subst (λ x. HasRoom (w.free_bytes (existing w x.target)) (uint64_sum x.bytes extra)) here
            room,
      )
]
