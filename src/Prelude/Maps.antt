-- ===== src/Prelude/Maps.antt =====
-- Go maps as association lists. The order of the list is the order in which `range` visits the
-- map; nothing is proved for one order only.
use mathlib.Core.Path.{◌≡◌, refl, sym, subst}
use mathlib.Core.Logic.{ite, if_pos, if_neg}
use mathlib.Core.Option.{Option, none, some}
use mathlib.Core.List.{List, [], ◌∷◌}
use Prim.Native.Nat.{ℕ, ◌+◌, ◌≤◌}
use native.Mathlib.Omega.{arith}
use go_silver_core.Prelude.Lists.{length}

module _ {ℓ} {K V : Type ℓ} where
  -- A number for each entry, summed up.
  abbrev pub sum : (V → ℕ) → List (K × V) → ℕ
  sum f [] = 0
  sum f ((k, v) ∷ m) = f v + sum f m

  -- A statement about every entry.
  abbrev pub Every {μ} : (K → V → Type μ) → List (K × V) → Type μ
  Every P [] = Unit
  Every P ((k, v) ∷ m) = P k v × Every P m

module _ {ℓ} {K V : Type ℓ} (dec : Discrete K) where
  unfoldable pub get : K → List (K × V) → Option V
  get k [] = none
  get k ((j, v) ∷ m) = ite (dec j k) (some v) (get k m)

  unfoldable pub put : K → V → List (K × V) → List (K × V)
  put k v [] = (k, v) ∷ []
  put k v ((j, w) ∷ m) = ite (dec j k) ((j, v) ∷ m) ((j, w) ∷ put k v m)

  unfoldable pub delete : K → List (K × V) → List (K × V)
  delete k [] = []
  delete k ((j, w) ∷ m) = let rest = delete k m in ite (dec j k) rest ((j, w) ∷ rest)

  pub get-put :
      (k j : K) (v : V) (m : List (K × V)) → get j (put k v m) ≡ ite (dec k j) (some v) (get j m)
  unfolding get put
  get-put k j v [] = refl
  get-put k j v ((i, w) ∷ m) = ground (arith, get-put k j v m)

  pub get-delete : (k j : K) (m : List (K × V)) → get j (delete k m) ≡ ite (dec k j) none (get j m)
  unfolding get delete
  get-delete k j [] = ground arith
  get-delete k j ((i, w) ∷ m) = ground (arith, get-delete k j m)

  pub length-put :
      (k : K) (v : V) (m : List (K × V)) → get k m ≡ none → length (put k v m) ≡ length m + 1
  unfolding get put
  length-put k v [] h = omega arith
  length-put k v ((i, w) ∷ m) h = ground (arith, length-put k v m)

  pub length-put_old :
      (k : K) (v w : V) (m : List (K × V)) → get k m ≡ some w → length (put k v m) ≡ length m
  unfolding get put
  length-put_old k v w [] h = cc
  length-put_old k v w ((i, u) ∷ m) h = ground (arith, length-put_old k v w m)

  -- A key has one entry.
  abbrev pub Unique : List (K × V) → Type ℓ
  Unique [] = Unit
  Unique ((k, v) ∷ m) = (get k m ≡ none) × Unique m

  pub put-Unique : (k : K) (v : V) (m : List (K × V)) → Unique m → Unique (put k v m)
  unfolding get put
  put-Unique k v [] u = (refl, tt)
  put-Unique k v ((i, w) ∷ m) u = ground (arith, put-Unique k v m u.1, get-put k i v m)

  pub delete-Unique : (k : K) (m : List (K × V)) → Unique m → Unique (delete k m)
  unfolding get delete
  delete-Unique k [] u = tt
  delete-Unique k ((i, w) ∷ m) u = ground (arith, delete-Unique k m u.1, get-delete k i m)

  pub delete_absent : (k : K) (m : List (K × V)) → get k m ≡ none → delete k m ≡ m
  unfolding get delete
  delete_absent k [] h = refl
  delete_absent k ((i, w) ∷ m) h = ground (arith, delete_absent k m)

  pub length-delete :
      (k : K) (v : V) (m : List (K × V))
      → Unique m
      → get k m ≡ some v
      → length (delete k m) + 1 ≡ length m
  unfolding get delete
  length-delete k v [] u h = cc
  length-delete k v ((i, w) ∷ m) u h = ground (arith, length-delete k v m u.1, delete_absent k m)

  pub sum-put_new :
      (f : V → ℕ) (k : K) (v : V) (m : List (K × V))
      → get k m ≡ none
      → sum f (put k v m) ≡ sum f m + f v
  unfolding get put
  sum-put_new f k v [] h = omega arith
  sum-put_new f k v ((i, w) ∷ m) h = ground (arith, sum-put_new f k v m)

  pub sum-put_old :
      (f : V → ℕ) (k : K) (v w : V) (m : List (K × V))
      → get k m ≡ some w
      → sum f (put k v m) + f w ≡ sum f m + f v
  unfolding get put
  sum-put_old f k v w [] h = cc
  sum-put_old f k v w ((i, u) ∷ m) h = ground (arith, sum-put_old f k v w m)

  pub sum-delete :
      (f : V → ℕ) (k : K) (v : V) (m : List (K × V))
      → Unique m
      → get k m ≡ some v
      → sum f (delete k m) + f v ≡ sum f m
  unfolding get delete
  sum-delete f k v [] u h = cc
  sum-delete f k v ((i, w) ∷ m) u h = ground (arith, sum-delete f k v m u.1, delete_absent k m)

  pub sum-get : (f : V → ℕ) (k : K) (v : V) (m : List (K × V)) → get k m ≡ some v → f v ≤ sum f m
  unfolding get
  sum-get f k v [] h = cc
  sum-get f k v ((i, w) ∷ m) h = ground (arith, sum-get f k v m)

  pub Every-get {μ} :
      (P : K → V → Type μ) (k : K) (v : V) (m : List (K × V)) → Every P m → get k m ≡ some v → P k v
  unfolding get
  Every-get P k v [] e h = cc
  Every-get P k v ((i, w) ∷ m) e h = elim (dec i k) [
    | yes p ↦ subst (λ x. P x v) p (subst (P i) (ground arith) e.0)
    | no p ↦ Every-get P k v m e.1 (ground arith)
  ]

  pub Every-put {μ} :
      (P : K → V → Type μ) (k : K) (v : V) (m : List (K × V))
      → Every P m
      → P k v
      → Every P (put k v m)
  unfolding put
  Every-put P k v [] e h = (h, tt)
  Every-put P k v ((i, w) ∷ m) e h = elim (dec i k) [
    | yes p ↦ rw (if_pos _ p) (subst (λ x. P x v) (sym p) h, e.1)
    | no p ↦ rw (if_neg _ p) (e.0, Every-put P k v m e.1 h)
  ]

  pub Every-delete {μ} :
      (P : K → V → Type μ) (k : K) (m : List (K × V)) → Every P m → Every P (delete k m)
  unfolding delete
  Every-delete P k [] e = tt
  Every-delete P k ((i, w) ∷ m) e = ground (arith, Every-delete P k m e.1)

  Every-self_cons :
      (k : K) (v : V) (m xs : List (K × V))
      → get k xs ≡ none
      → Every (λ j w. get j m ≡ some w) xs
      → Every (λ j w. get j ((k, v) ∷ m) ≡ some w) xs
  unfolding get
  Every-self_cons k v m [] n h = tt
  Every-self_cons k v m ((j, w) ∷ xs) n h = ground (arith, Every-self_cons k v m xs)

  -- In a table with unique keys every entry is found.
  pub Every-self : (m : List (K × V)) → Unique m → Every (λ k v. get k m ≡ some v) m
  Every-self [] u = tt
  Every-self ((k, v) ∷ m) u =
      (unfold get in rw (if_pos _ refl), Every-self_cons k v m m u.0 (Every-self m u.1))

  -- Entries that are found stay found when another key is deleted.
  pub Every-deleted :
      (k : K) (m xs : List (K × V))
      → get k xs ≡ none
      → Every (λ j w. get j m ≡ some w) xs
      → Every (λ j w. get j (delete k m) ≡ some w) xs
  unfolding get
  Every-deleted k m [] n h = tt
  Every-deleted k m ((j, w) ∷ xs) n h = ground (arith, Every-deleted k m xs, get-delete k j m)
