-- ===== src/Folders/Manifest.antt =====
-- internal/transfer/files.go: what a manifest that passes the checks is.
use go_silver_core.Prelude.Int.{pos_part, is_neg}
use go_silver_core.Prelude.Maps.{get, put, get-put}
use go_silver_core.Prelude.{
  ℕ, ◌+◌, ◌≤◌, ◌≡◌, refl, Bool, true, false, not, ◌&&◌, ◌||◌, some, List, [], ◌∷◌, Str, str_dec,
  ◌==◌, length, is_some, arith, Bool-cases, Option-cases, inl, inr, All,
}
use go_silver_core.Folders.{
  Entry, safe_name, validate_entries, check_all, is_bad, max_entries, pebibyte, same,
}

-- One entry alone.
pub record IsSound (e : Entry) : Type 0 where
  pub safe : safe_name e.name ≡ true
  pub no_debt : is_neg e.size ≡ false
  pub small : pos_part e.size ≤ pebibyte
  pub dir_empty : (e.dir && not (pos_part e.size == 0)) ≡ false

abbrev pub total_size : List Entry → ℕ
total_size [] = 0
total_size (e ∷ es) = pos_part e.size + total_size es

abbrev pub named_in : Str → List Entry → Bool
named_in name [] = false
named_in name (e ∷ es) = same e.name name || named_in name es

abbrev pub AreDistinct : List Entry → Type 0
AreDistinct [] = Unit {0}
AreDistinct (e ∷ es) = (named_in e.name es ≡ false) × AreDistinct es

is_bad-IsSound :
    (seen : List (Str × Entry)) (e : Entry)
    → is_bad seen e ≡ false
    → IsSound e × (is_some (get str_dec e.name seen) ≡ false)
is_bad-IsSound seen e h = (
  record {
    safe = ground arith;
    no_debt = ground arith;
    small = ground arith;
    dir_empty = ground arith;
  },
  ground arith,
)

-- What the first loop has checked.
check_all-checked :
    (seen out : List (Str × Entry)) (total : ℕ) (es : List Entry)
    → check_all seen total es ≡ some out
    → All IsSound es
      × AreDistinct es
      × (total ≤ pebibyte → total + total_size es ≤ pebibyte)
      × ((name : Str) → is_some (get str_dec name seen) ≡ true → named_in name es ≡ false)
check_all-checked seen out total [] h = (tt, tt, λ t. omega arith, λ name k. refl)
check_all-checked seen out total (e ∷ es) h = elim (Bool-cases (is_bad seen e)) [
  | inl bad ↦ absurd (ground arith)
  | inr good ↦
      let (sound, new) = is_bad-IsSound seen e good in
      let room : total + pos_part e.size ≤ pebibyte = ground arith in
      let (sounds, distinct, fits, fresh) =
        check_all-checked (put str_dec e.name e seen) out (total + pos_part e.size) es
          (ground arith) in
      (
        (sound, sounds),
        (fresh e.name (ground (arith, get-put str_dec e.name e.name e seen)), distinct),
        λ t. omega (arith, fits room),
        λ name k. ground (arith, fresh name, get-put str_dec e.name name e seen, new),
      )
]

-- A manifest that passes has between 1 and 10000 entries, with safe and distinct names; no size is
-- negative or above 2^50 bytes, directories have size zero, and the sizes add up to 2^50 at most.
pub validate_entries-IsSound :
    (entries : List Entry)
    → validate_entries entries ≡ true
    → (1 ≤ length entries)
      × (length entries ≤ max_entries)
      × All IsSound entries
      × AreDistinct entries
      × (total_size entries ≤ pebibyte)
unfolding validate_entries
validate_entries-IsSound entries h = elim (Option-cases (check_all [] 0 entries)) [
  | inl n ↦ absurd (ground (arith, n))
  | inr (seen, e) ↦
      let (sounds, distinct, fits, _) = check_all-checked [] seen 0 entries e in
      (ground arith, ground arith, sounds, distinct, omega (arith, fits (omega arith)))
]
