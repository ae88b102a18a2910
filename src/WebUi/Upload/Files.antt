-- ===== src/WebUi/Upload/Files.antt =====
-- internal/webui/http.go: the files that `upload` writes in its temporary directory.
use go_silver_core.Prelude.Maps.{get, get-put}
use go_silver_core.Prelude.{
  ℕ, ◌+◌, ◌≡◌, inl, inr, refl, sym, ap, subst, ◌∙◌, Bool, true, false, not, ◌||◌, Option, none,
  some, List, [], ◌∷◌, ◌++◌, Str, str_dec, if◌then◌else◌, if_pos, any, All, length, is_some,
  Bool-cases, Option-cases, arith, ltb,
}
use go_silver_core.WebUi.{Err}
use go_silver_core.Folders.{same, safe_name, max_entries}
use go_silver_core.WebUi.Upload.{
  Part, Incoming, part, broken, Tree, System, path, starts_with, below, remove_all, copied, opened,
  in_directory, save_part, receive,
}

starts_with-append : (xs ys : Str) → starts_with xs (xs ++ ys) ≡ true
starts_with-append [] ys = refl
starts_with-append (x ∷ xs) ys = ground (arith, starts_with-append xs ys)

starts_with-path : (dir name : Str) → below dir (path dir name) ≡ true
starts_with-path [] name = refl
starts_with-path (x ∷ dir) name = ground (arith, starts_with-path dir name)

path_injective : (dir a b : Str) → path dir a ≡ path dir b → a ≡ b
path_injective [] a b e = cc
path_injective (x ∷ dir) a b e = path_injective dir a b (cc)

pub get-remove_all :
    (dir q : Str) (t : Tree)
    → get str_dec q (remove_all dir t) ≡ (if below dir q then none else get str_dec q t)
unfolding get remove_all
get-remove_all dir q [] = ground arith
get-remove_all dir q ((p, bytes) ∷ t) = elim (str_dec p q) [
  | yes e ↦ ground (arith, e, get-remove_all dir q t, ap (below dir) e)
  | no n ↦ ground (arith, n, get-remove_all dir q t)
]

path-apart : (dir a b : Str) → same a b ≡ false → same (path dir a) (path dir b) ≡ false
path-apart dir a b n = elim (str_dec (path dir a) (path dir b)) [
  | yes e ↦ absurd (ground (arith, path_injective dir a b e, n))
  | no m ↦ ground (arith, m)
]

outside-path : (dir name q : Str) → below dir q ≡ false → same (path dir name) q ≡ false
outside-path dir name q b = elim (str_dec (path dir name) q) [
  | yes e ↦ absurd (ground (arith, ap (below dir) e, starts_with-path dir name, b))
  | no m ↦ ground (arith, m)
]

-- A name that is among those seen differs from one that is not.
seen-apart :
    (a b : Str) (seen : List Str)
    → any (same b) seen ≡ true
    → any (same a) seen ≡ false
    → same a b ≡ false
seen-apart a b seen s n = elim (str_dec a b) [
  | yes e ↦ absurd (ground (arith, ap (λ x. any (same x) seen) e, s, n))
  | no m ↦ ground (arith, m)
]

-- A part whose file is in the tree; a request that breaks off stores nothing.
abbrev pub IsStored : Str → Tree → Incoming → Type 0
IsStored temp u (part p) = get str_dec (path temp p.name) u ≡ some p.content
IsStored temp u (broken e) = ⊥

module _ (w : System) where
  module _ (target q : Str) (p : Part) (t : Tree) (n : same target q ≡ false) where
    copied_elsewhere :
        (c e : Option Err) → get str_dec q (copied w c e target p t).1 ≡ get str_dec q t
    copied_elsewhere (some c) e = ground (arith, get-put str_dec target q (w.partial target) t, n)
    copied_elsewhere none e = ground (arith, get-put str_dec target q p.content t, n)

    opened_elsewhere :
        (there : Bool) (e : Option Err)
        → get str_dec q (opened w there e target p t).1 ≡ get str_dec q t
    opened_elsewhere there (some e) = refl
    opened_elsewhere true none = refl
    opened_elsewhere false none = copied_elsewhere (w.copy_error target) (w.close_error target)

    in_directory_elsewhere :
        (e : Option Err) → get str_dec q (in_directory w e target p t).1 ≡ get str_dec q t
    in_directory_elsewhere (some e) = refl
    in_directory_elsewhere none =
        opened_elsewhere (is_some (get str_dec target t)) (w.open_error target)

    save_part_elsewhere : get str_dec q (save_part w target p t).1 ≡ get str_dec q t
    unfolding save_part
    save_part_elsewhere = in_directory_elsewhere (w.mkdir_error target)

  module _ (target : Str) (p : Part) (t : Tree) where
    copied_content :
        (c e : Option Err)
        → (copied w c e target p t).0 ≡ none
        → get str_dec target (copied w c e target p t).1 ≡ some p.content
    copied_content (some c) e s = absurd (cc)
    copied_content none e s =
        get-put str_dec target target p.content t ∙ if_pos (str_dec target target) refl _ _

    opened_content :
        (there : Bool) (e : Option Err)
        → (opened w there e target p t).0 ≡ none
        → get str_dec target (opened w there e target p t).1 ≡ some p.content
    opened_content there (some e) s = absurd (cc)
    opened_content true none s = absurd (cc)
    opened_content false none s = copied_content (w.copy_error target) (w.close_error target) s

    in_directory_content :
        (e : Option Err)
        → (in_directory w e target p t).0 ≡ none
        → get str_dec target (in_directory w e target p t).1 ≡ some p.content
    in_directory_content (some e) s = absurd (cc)
    in_directory_content none s =
        opened_content (is_some (get str_dec target t)) (w.open_error target) s

    save_part_content :
        (save_part w target p t).0 ≡ none
        → get str_dec target (save_part w target p t).1 ≡ some p.content
    unfolding save_part
    save_part_content s = in_directory_content (w.mkdir_error target) s

  module _ (temp : Str) where
    -- The loop changes no file outside its directory.
    pub receive_outside :
        (q : Str) (seen : List Str) (count : ℕ) (ps : List Incoming) (t : Tree)
        → below temp q ≡ false
        → get str_dec q (receive w temp seen count ps t).1 ≡ get str_dec q t
    unfolding receive
    receive_outside q seen count [] t b = refl
    receive_outside q seen count (broken e ∷ ps) t b = refl
    receive_outside q seen count (part p ∷ ps) t b =
        let (e, u) = save_part w (path temp p.name) p t in
        let here = save_part_elsewhere (path temp p.name) q p t (outside-path temp p.name q b) in
        let later = receive_outside q (p.name ∷ seen) (count + 1) ps u b in
        ground (arith, here, later)

    -- Nor a file that it has stored.
    receive_keeps :
        (name : Str) (seen : List Str) (count : ℕ) (ps : List Incoming) (t : Tree)
        → any (same name) seen ≡ true
        → get str_dec (path temp name) (receive w temp seen count ps t).1
          ≡ get str_dec (path temp name) t
    unfolding receive
    receive_keeps name seen count [] t b = refl
    receive_keeps name seen count (broken e ∷ ps) t b = refl
    receive_keeps name seen count (part p ∷ ps) t b =
        let (e, u) = save_part w (path temp p.name) p t in
        let later = receive_keeps name (p.name ∷ seen) (count + 1) ps u (ground arith) in
        elim (Bool-cases (any (same p.name) seen)) [
          | inl again ↦ ground (arith, again)
          | inr new ↦
              let here =
                save_part_elsewhere (path temp p.name) (path temp name) p t
                  (path-apart temp p.name name (seen-apart p.name name seen b new)) in
              ground (arith, here, later)
        ]

    -- A round after which the loop goes on to its end.
    receive_step :
        (n : ℕ) (seen : List Str) (count : ℕ) (p : Part) (ps : List Incoming) (t : Tree)
        → (receive w temp seen count (part p ∷ ps) t).0 ≡ some n
        → ((save_part w (path temp p.name) p t).0 ≡ none)
          × (receive w temp seen count (part p ∷ ps) t
              ≡ receive w temp
                  (p.name ∷ seen)
                  (count + 1)
                  ps
                  (save_part w (path temp p.name) p t).1)
    unfolding receive
    receive_step n seen count p ps t s =
        elim (Bool-cases (not (safe_name p.name) || any (same p.name) seen)) [
          | inl bad ↦ absurd (ground (arith, bad))
          | inr good ↦ elim (Bool-cases (ltb max_entries (count + 1))) [
            | inl many ↦ absurd (ground (arith, good, many))
            | inr few ↦ elim (Option-cases (save_part w (path temp p.name) p t).0) [
              | inr (e, failed) ↦ absurd (ground (arith, good, few, failed))
              | inl fine ↦ (fine, ground (arith, good, few, fine))
            ]
          ]
        ]

    -- A loop that ends has counted and stored every part.
    pub receive-IsStored :
        (n : ℕ) (seen : List Str) (count : ℕ) (ps : List Incoming) (t : Tree)
        → (receive w temp seen count ps t).0 ≡ some n
        → (n ≡ count + length ps) × All (IsStored temp (receive w temp seen count ps t).1) ps
    unfolding receive
    receive-IsStored n seen count [] t s = (ground (arith, s), tt)
    receive-IsStored n seen count (broken e ∷ ps) t s = absurd (cc)
    receive-IsStored n seen count (part p ∷ ps) t s =
        let (fine, e) = receive_step n seen count p ps t s in
        let u = (save_part w (path temp p.name) p t).1 in
        let (counted, stored) =
          receive-IsStored n (p.name ∷ seen) (count + 1) ps u (sym (ap (λ x. x.0) e) ∙ s) in
        let kept = receive_keeps p.name (p.name ∷ seen) (count + 1) ps u (ground arith) in
        (
          omega (arith, counted),
          (
            ap (λ x. get str_dec (path temp p.name) x.1) e
                ∙ kept
                ∙ save_part_content (path temp p.name) p t fine,
            subst (λ x. All (IsStored temp x.1) ps) (sym e) stored,
          ),
        )
