-- ===== src/Folders/Paths.antt =====
-- internal/transfer/files.go: a safe name stays below the directory that it is put into.
use go_silver_core.Prelude.{
  ℕ, ◌≡◌, ◌≢◌, ◌⊎◌, inl, inr, refl, ap, sym, subst, ◌∙◌, Bool, true, false, ◌||◌, List, [], ◌∷◌,
  ◌++◌, Str, if◌then◌else◌, any, ◌==◌, arith, Bool-cases, All,
}
use go_silver_core.Prelude.Text.{str_dec}
use native.Mathlib.Decide.{ℕ_discrete}
use go_silver_core.Server.Sched.{is_empty}
use go_silver_core.Folders.{
  split, join, prepend, dot, dots, same, climb, push, push_all, back, is_abs, path_clean, goes_up,
  safe_name,
}

abbrev has_slash : Str → Bool
has_slash p = any (λ c. c == b'/') p

-- A part that names a file or a directory below.
abbrev pub IsOrdinary : Str → Type 0
IsOrdinary p = ((is_empty p || same p dot || same p dots) ≡ false) × (has_slash p ≡ false)

abbrev IsUp : Str → Type 0
IsUp p = p ≡ dots

-- What path.Clean keeps: parts that go up, and below them ordinary ones.
Kept : List Str → Type 0
Kept [] = Unit {0}
Kept (p ∷ ps) = (IsOrdinary p × Kept ps) ⊎ All IsUp (p ∷ ps)

climb-Kept : (out : List Str) → Kept out → Kept (climb false out)
unfolding Kept
climb-Kept [] k = inr (refl, tt)
climb-Kept (p ∷ ps) (inl (o, k)) = rw (let e : same p dots ≡ false = ground (arith, o) in e) k
climb-Kept (p ∷ ps) (inr (u, us)) =
    rw (let e : same p dots ≡ true = ground (arith, u) in e) (inr (refl, (u, us)))

push-Kept :
    (out : List Str) (part : Str) → has_slash part ≡ false → Kept out → Kept (push false out part)
unfolding Kept
push-Kept out part n k = elim (Bool-cases (is_empty part || same part dot)) [
  | inl t ↦ rw t k
  | inr t ↦ rw t (elim (Bool-cases (same part dots)) [
    | inl u ↦ rw u (climb-Kept out k)
    | inr u ↦ rw u (inl ((ground (arith, t, u), n), k))
  ])
]

push_all-Kept :
    (out parts : List Str)
    → All (λ p. has_slash p ≡ false) parts
    → Kept out
    → Kept (push_all false out parts)
push_all-Kept out [] n k = k
push_all-Kept out (p ∷ ps) n k = push_all-Kept (push false out p) ps n.1 (push-Kept out p n.0 k)

prepend-slash :
    (c : ℕ) (ps : List Str)
    → (c == b'/') ≡ false
    → All (λ p. has_slash p ≡ false) ps
    → All (λ p. has_slash p ≡ false) (prepend c ps)
prepend-slash c [] n a = (rw n refl, tt)
prepend-slash c (p ∷ ps) n a = (rw n a.0, a.1)

split-slash : (name : Str) → All (λ p. has_slash p ≡ false) (split name)
split-slash [] = (refl, tt)
split-slash (c ∷ cs) = elim (Bool-cases (c == b'/')) [
  | inl t ↦ rw t (refl, split-slash cs)
  | inr t ↦ rw t (prepend-slash c (split cs) t (split-slash cs))
]

split-append : (p s : Str) → has_slash p ≡ false → split (p ++ (b'/' ∷ s)) ≡ p ∷ split s
split-append [] s n = refl
split-append (c ∷ p) s n = ground (arith, split-append p s)

split_self : (p : Str) → has_slash p ≡ false → split p ≡ p ∷ []
split_self [] n = refl
split_self (c ∷ p) n = ground (arith, split_self p)

split-join :
    (p : Str) (ps : List Str)
    → All (λ q. has_slash q ≡ false) (p ∷ ps)
    → split (join (p ∷ ps)) ≡ p ∷ ps
split-join p [] n = split_self p n.0
split-join p (q ∷ ps) n = split-append p (join (q ∷ ps)) n.0 ∙ ap (p ∷◌) (split-join q ps n.1)

up-back :
    (p : Str) (ps acc : List Str)
    → All IsUp (p ∷ ps)
    → (rest : List Str) × (back (p ∷ ps) acc ≡ dots ∷ rest)
up-back p [] acc (u, _) = (acc, ap (◌∷ acc) u)
up-back p (q ∷ ps) acc (u, us) = up-back q ps (p ∷ acc) us

-- Either everything that is kept is ordinary, or the path begins by going up.
Kept-back :
    (out acc : List Str)
    → Kept out
    → All IsOrdinary out ⊎ ((rest : List Str) × (back out acc ≡ dots ∷ rest))
unfolding Kept
Kept-back [] acc k = inl tt
Kept-back (p ∷ ps) acc (inr us) = inr (up-back p ps acc us)
Kept-back (p ∷ ps) acc (inl (o, k)) = elim (Kept-back ps (p ∷ acc) k) [
  | inl os ↦ inl (o, os)
  | inr r ↦ inr r
]

All-back : (P : Str → Type 0) (out acc : List Str) → All P out → All P acc → All P (back out acc)
All-back P [] acc a b = b
All-back P (p ∷ ps) acc a b = All-back P ps (p ∷ acc) a.1 (a.0, b)

ups-slash : (ps : List Str) → All IsUp ps → All (λ p. has_slash p ≡ false) ps
ups-slash [] u = tt
ups-slash (p ∷ ps) u = (ap has_slash u.0, ups-slash ps u.1)

Kept-slash : (out : List Str) → Kept out → All (λ p. has_slash p ≡ false) out
unfolding Kept
Kept-slash [] k = tt
Kept-slash (p ∷ ps) (inl (o, k)) = (o.1, Kept-slash ps k)
Kept-slash (p ∷ ps) (inr us) = ups-slash (p ∷ ps) us

-- A path that begins by going up is not safe.
no_way_up :
    (rest : List Str)
    → same (join (dots ∷ rest)) dots ≡ false
    → goes_up (join (dots ∷ rest)) ≢ false
no_way_up [] n g = absurd (ground arith)
no_way_up (q ∷ rest) n g = absurd (cc)

parts_of_join :
    (kept : List Str)
    → is_empty (join kept) ≡ false
    → All (λ p. has_slash p ≡ false) kept
    → split (join kept) ≡ kept
parts_of_join [] e n = absurd (cc)
parts_of_join (p ∷ ps) e n = split-join p ps n

join-IsOrdinary :
    (out : List Str)
    → Kept out
    → is_empty (join (back out [])) ≡ false
    → same (join (back out [])) dots ≡ false
    → goes_up (join (back out [])) ≡ false
    → All IsOrdinary (split (join (back out [])))
join-IsOrdinary out k e n g =
    let parts =
      parts_of_join (back out []) e
        (All-back (λ p. has_slash p ≡ false) out [] (Kept-slash out k) tt) in
    subst (All IsOrdinary) (sym parts) (elim (Kept-back out [] k) [
      | inl os ↦ All-back IsOrdinary out [] os tt
      | inr (rest, up) ↦ absurd (
          no_way_up rest (ap (λ x. same (join x) dots) (sym up) ∙ n)
            (ap (λ x. goes_up (join x)) (sym up) ∙ g))
    ])

abbrev relative : Str → Str
relative name = join (back (push_all false [] (split name)) [])

path_clean-relative :
    (name : Str)
    → is_empty name ≡ false
    → is_abs name ≡ false
    → path_clean name ≡ (if is_empty (relative name) then dot else relative name)
unfolding path_clean
path_clean-relative name n a = rw (n, path_clean) (rw a refl)

same-eq : (a b : Str) → same a b ≡ true → a ≡ b
same-eq a b h = ground arith

true-ne-false : true ≢ false
true-ne-false e = cc

not_dot : (name : Str) → dot ≡ name → same name dot ≢ false
unfolding str_dec ℕ_discrete
not_dot name e d = true-ne-false (ap (λ x. same x dot) e ∙ d)

clean_fixed :
    (name : Str)
    → is_empty name ≡ false
    → is_abs name ≡ false
    → same name dot ≡ false
    → same (path_clean name) name ≡ true
    → relative name ≡ name
clean_fixed name n a d h =
    let c = sym (path_clean-relative name n a) ∙ same-eq (path_clean name) name h in
    elim (Bool-cases (is_empty (relative name))) [
      | inr some_parts ↦ ap (λ b. if b then dot else relative name) (sym some_parts) ∙ c
      | inl t ↦ absurd (not_dot name (ap (λ b. if b then dot else relative name) (sym t) ∙ c) d)
    ]

-- Every part of a safe name is the name of a file or directory: none is empty, "." or "..", so the
-- path never leaves the directory that it is joined to; and the name is not absolute.
pub safe_name-IsOrdinary :
    (name : Str) → safe_name name ≡ true → All IsOrdinary (split name) × (is_abs name ≡ false)
unfolding safe_name
safe_name-IsOrdinary name h =
    let a : is_abs name ≡ false = ground arith in
    let n : is_empty name ≡ false = ground arith in
    let up : goes_up name ≡ false = ground arith in
    let u : same name dots ≡ false = ground arith in
    let e = clean_fixed name n a (ground arith) (ground arith) in
    let k = push_all-Kept [] (split name) (split-slash name) (unfold Kept in tt) in
    (
      subst (λ x. All IsOrdinary (split x)) e
          (join-IsOrdinary (push_all false [] (split name)) k (ap is_empty e ∙ n)
            (ap (λ x. same x dots) e ∙ u) (ap goes_up e ∙ up)),
      a,
    )
