-- ===== src/WebUi/Agent/Resolve.antt =====
-- internal/webui/agent.go: where a directory that the sender names is on the receiver. A clean
-- absolute path is the list of its parts, the last one first.
use go_silver_core.Prelude.{
  ◌≡◌, refl, subst, sym, ap, ◌∙◌, true, false, ◌||◌, List, [], ◌∷◌, ◌++◌, Str, if◌then◌else◌, All,
  ◌⊎◌, Bool-cases, inl, inr, arith,
}
use mathlib.Core.List.{append_assoc, append-nil}
use go_silver_core.Folders.{same, split, push, push_all, climb, is_abs, dot, dots}
use go_silver_core.Server.Sched.{is_empty}
use go_silver_core.WebUi.{Err, passed_on, Result, ok, err}

pub data Found : Type 0 where
  present missing : Found
  unreadable : Err → Found

-- os.Lstat and filepath.EvalSymlinks.
pub record Files : Type 0 where
  pub lstat : List Str → Found
  pub eval_symlinks : List Str → Result (List Str)

-- The path before it is cleaned.
abbrev pub absolute : Str → Str → Str
absolute root dir =
    let d = if is_empty dir then dot else dir in if is_abs d then d else root ++ (b'/' ∷ d)

unfoldable pub abs_parts : Str → Str → List Str
abs_parts root dir = push_all true [] (split (absolute root dir))

-- "目标目录不可用"
abbrev pub unavailable : Err
unavailable = passed_on false []

module _ (f : Files) where
  -- The loop over the ancestors, with the names that were cut off so far; it ends at the root.
  abbrev pub ancestor_of : List Str → List Str → Result (List Str × List Str)
  ancestor_of [] suffix = elim (f.lstat []) [
    | present ↦ ok ([], suffix)
    | missing ↦ err unavailable
    | unreadable e ↦ err e
  ]
  ancestor_of (p ∷ ps) suffix =
      let rest = ancestor_of ps (suffix ++ p ∷ []) in
      elim (f.lstat (p ∷ ps)) [
        | present ↦ ok ((p ∷ ps, suffix))
        | missing ↦ rest
        | unreadable e ↦ err e
      ]

  -- The names are joined again, the last of the suffix first.
  abbrev pub rejoin : List Str → List Str → List Str
  rejoin base [] = base
  rejoin base (s ∷ ss) = push true (rejoin base ss) s

  abbrev pub rejoined : List Str → Result (List Str) → Result (List Str)
  rejoined suffix (err e) = err e
  rejoined suffix (ok base) = ok (rejoin base suffix)

  abbrev pub evaluated : Result (List Str × List Str) → Result (List Str)
  evaluated (err e) = err e
  evaluated (ok (ancestor, suffix)) = rejoined suffix (f.eval_symlinks ancestor)

  unfoldable pub resolve : Str → Str → Result (List Str)
  unfolding abs_parts
  resolve root dir = evaluated (ancestor_of (abs_parts root dir) [])

  -- Neither the path nor any of its ancestors down to `existing` is there.
  abbrev pub AreMissing : List Str → List Str → Type 0
  AreMissing [] existing = Unit {0}
  AreMissing (p ∷ ps) existing = (f.lstat (p ∷ (ps ++ existing)) ≡ missing) × AreMissing ps existing

abbrev IsPlain : Str → Type 0
IsPlain p = ((is_empty p || same p dot || same p dots) ≡ false)

climb-IsPlain : (out : List Str) → All IsPlain out → All IsPlain (climb true out)
climb-IsPlain [] h = tt
climb-IsPlain (p ∷ ps) h = rw (let e : same p dots ≡ false = ground (arith, h.0) in e) h.1

push-IsPlain : (out : List Str) (part : Str) → All IsPlain out → All IsPlain (push true out part)
push-IsPlain out part h = elim (Bool-cases (is_empty part || same part dot)) [
  | inl t ↦ rw t h
  | inr t ↦ rw t (elim (Bool-cases (same part dots)) [
    | inl u ↦ rw u (climb-IsPlain out h)
    | inr u ↦ rw u (ground (arith, t, u), h)
  ])
]

push_all-IsPlain : (out parts : List Str) → All IsPlain out → All IsPlain (push_all true out parts)
push_all-IsPlain out [] h = h
push_all-IsPlain out (p ∷ ps) h = push_all-IsPlain (push true out p) ps (push-IsPlain out p h)

push_ordinary : (out : List Str) (p : Str) → IsPlain p → push true out p ≡ p ∷ out
push_ordinary out p h = ground arith

All-front : (P : Str → Type 0) (front rest : List Str) → All P (front ++ rest) → All P front
All-front P [] rest h = tt
All-front P (x ∷ xs) rest h = (h.0, All-front P xs rest h.1)

ok_inj : {x y : List Str} → ok x ≡ ok y → x ≡ y
ok_inj h = cc

Found-cases : (r : Found) → (r ≡ present) ⊎ (r ≡ missing) ⊎ ((e : Err) × (r ≡ unreadable e))
Found-cases present = inl refl
Found-cases missing = inr (inl refl)
Found-cases (unreadable e) = inr (inr (e, refl))

module _ (f : Files) where
  rejoin-append :
      (base suffix : List Str) → All IsPlain suffix → rejoin f base suffix ≡ suffix ++ base
  rejoin-append base [] h = refl
  rejoin-append base (s ∷ ss) h =
      push_ordinary (rejoin f base ss) s h.0 ∙ ap (s ∷◌) (rejoin-append base ss h.1)

  -- What the loop finds.
  record IsAncestor (full suffix existing cut : List Str) : Type 0 where
    names : List Str
    parted : full ≡ names ++ existing
    cut_off : cut ≡ suffix ++ names
    there : f.lstat existing ≡ present
    gone : AreMissing f names existing

  here-IsAncestor :
      (full suffix existing cut : List Str)
      → f.lstat full ≡ present
      → ◌≡◌ {A = Result (List Str × List Str)} (ok (full, suffix)) (ok (existing, cut))
      → IsAncestor full suffix existing cut
  here-IsAncestor full suffix existing cut there e =
      let same_path : full ≡ existing = ground (arith, e) in
      let same_cut : suffix ≡ cut = ground (arith, e) in
      record {
        names = [];
        parted = same_path;
        cut_off = sym same_cut ∙ sym (append-nil suffix);
        there = ap f.lstat (sym same_path) ∙ there;
        gone = tt;
      }

  above-IsAncestor :
      (p : Str) (ps suffix existing cut : List Str)
      → f.lstat (p ∷ ps) ≡ missing
      → IsAncestor ps (suffix ++ p ∷ []) existing cut
      → IsAncestor (p ∷ ps) suffix existing cut
  above-IsAncestor p ps suffix existing cut gone v = record {
    names = p ∷ v.names;
    parted = ap (p ∷◌) v.parted;
    cut_off = v.cut_off ∙ append_assoc suffix (p ∷ []) v.names;
    there = v.there;
    gone = (ap (λ x. f.lstat (p ∷ x)) (sym v.parted) ∙ gone, v.gone);
  }

  ancestor_of-IsAncestor :
      (full suffix existing cut : List Str)
      → ancestor_of f full suffix ≡ ok ((existing, cut))
      → IsAncestor full suffix existing cut
  ancestor_of-IsAncestor [] suffix existing cut h = elim (Found-cases (f.lstat [])) [
    | inl there ↦ here-IsAncestor [] suffix existing cut there (ground (arith, there))
    | inr (inl gone) ↦ absurd (ground (arith, gone))
    | inr (inr (e, bad)) ↦ absurd (ground (arith, bad))
  ]
  ancestor_of-IsAncestor (p ∷ ps) suffix existing cut h = elim (Found-cases (f.lstat (p ∷ ps))) [
    | inl there ↦ here-IsAncestor (p ∷ ps) suffix existing cut there (ground (arith, there))
    | inr (inl gone) ↦
        above-IsAncestor p ps suffix existing cut gone
          (ancestor_of-IsAncestor ps (suffix ++ p ∷ []) existing cut (ground (arith, gone)))
    | inr (inr (e, bad)) ↦ absurd (ground (arith, bad))
  ]

  -- Where a named directory leads to.
  pub record IsPlace (root dir : Str) (path : List Str) : Type 0 where
    pub names : List Str
    pub existing : List Str
    pub base : List Str
    pub parted : abs_parts root dir ≡ names ++ existing
    pub there : f.lstat existing ≡ present
    pub gone : AreMissing f names existing
    pub real : f.eval_symlinks existing ≡ ok base
    pub placed : path ≡ names ++ base

  -- A directory is resolved to the real path of its deepest ancestor that exists, followed by the
  -- names below that do not exist yet, and nothing else of the path changes.
  pub resolve-IsPlace :
      (root dir : Str) (path : List Str) → resolve f root dir ≡ ok path → IsPlace root dir path
  unfolding resolve abs_parts
  resolve-IsPlace root dir path h = found (ancestor_of f (abs_parts root dir) []) refl h
    where
      based :
          (r : Result (List Str)) (names existing : List Str)
          → abs_parts root dir ≡ names ++ existing
          → f.lstat existing ≡ present
          → AreMissing f names existing
          → All IsPlain names
          → f.eval_symlinks existing ≡ r
          → rejoined f names r ≡ ok path
          → IsPlace root dir path
      based (err e) names existing parted there gone plain real h = absurd (cc)
      based (ok base) names existing parted there gone plain real h = record {
        names = names;
        existing = existing;
        base = base;
        parted = parted;
        there = there;
        gone = gone;
        real = real;
        placed = sym (ok_inj h) ∙ rejoin-append base names plain;
      }

      found :
          (r : Result (List Str × List Str))
          → ancestor_of f (abs_parts root dir) [] ≡ r
          → evaluated f r ≡ ok path
          → IsPlace root dir path
      found (err e) a h = absurd (cc)
      found (ok (existing, cut)) a h =
          let v = ancestor_of-IsAncestor (abs_parts root dir) [] existing cut a in
          let plain =
            All-front IsPlain v.names existing
              (subst (All IsPlain) v.parted (push_all-IsPlain [] (split (absolute root dir)) tt)) in
          based (f.eval_symlinks existing) v.names existing v.parted v.there v.gone plain refl
            (ap (λ x. rejoined f x (f.eval_symlinks existing)) (sym v.cut_off) ∙ h)
