-- ===== src/Folders/Copy/Bytes.antt =====
-- internal/transfer/files.go: what `CopyContext` has written when it returns.
use go_silver_core.Prelude.{
  ◌≡◌, refl, sym, ap, ◌∙◌, inl, inr, true, Option, none, some, List, [], ◌∷◌, ◌++◌, Str, ◌==◌,
  length, drop, take-append-drop, take_of_length-le, Bool-cases, Option-cases, arith,
}
use mathlib.Core.List.{append_assoc, append-nil}
use go_silver_core.Folders.Copy.{
  Error, After, go_on, eof, failed, Round, output, write_failure, go_after, unless_done,
  copy_context,
}

-- The bytes that Read delivers until it ends or fails.
abbrev pub beyond : After → Str → Str
beyond go_on later = later
beyond eof later = []
beyond (failed e) later = []

abbrev pub delivered : List Round → Str
delivered [] = []
delivered (r ∷ rs) = r.bytes ++ beyond r.after (delivered rs)

-- All of them, or with an error a first part of them.
abbrev pub IsCopied : Str → Option Error × Str → Type 0
IsCopied input (none, written) = written ≡ input
IsCopied input (some e, written) = (rest : Str) × (written ++ rest ≡ input)

empty_lem : (xs : Str) → (length xs == 0) ≡ true → xs ≡ []
empty_lem [] h = refl
empty_lem (x ∷ xs) h = absurd (ground arith)

output_whole : (r : Round) → write_failure r ≡ none → output r ≡ r.bytes
output_whole r h = elim (Bool-cases (length r.bytes == 0)) [
  | inl nothing ↦ ground (arith, nothing, empty_lem r.bytes nothing)
  | inr bytes ↦ elim (Option-cases r.write_error) [
    | inr (e, broken) ↦ absurd (ground (arith, bytes, broken))
    | inl fine ↦ elim (Bool-cases (r.written == length r.bytes)) [
      | inr less ↦ absurd (ground (arith, bytes, fine, less))
      | inl full ↦
          let all_taken = take_of_length-le r.written r.bytes (ground (arith, full)) in
          ground (arith, bytes, all_taken)
    ]
  ]
]

output_part : (r : Round) → (rest : Str) × (output r ++ rest ≡ r.bytes)
output_part r = elim (Bool-cases (length r.bytes == 0)) [
  | inl nothing ↦ (r.bytes, ground (arith, nothing))
  | inr bytes ↦ (drop r.written r.bytes, ground (arith, bytes, take-append-drop r.written r.bytes))
]

go_after-IsCopied :
    (f : Option Error) (a : After) (bytes out later : Str) (rest : Option Error × Str)
    → (f ≡ none → out ≡ bytes)
    → (tail : Str) × (out ++ tail ≡ bytes)
    → IsCopied later rest
    → IsCopied (bytes ++ beyond a later) (go_after f a out rest)
go_after-IsCopied (some e) a bytes out later rest whole (tail, part) c = (
  tail ++ beyond a later,
  sym (append_assoc out tail (beyond a later)) ∙ ap (λ x. x ++ beyond a later) part,
)
go_after-IsCopied none eof bytes out later rest whole part c = whole refl ∙ sym (append-nil bytes)
go_after-IsCopied none (failed e) bytes out later rest whole part c =
    ([], ap (λ x. x ++ []) (whole refl))
go_after-IsCopied none go_on bytes out later (none, written) whole part c =
    ap (λ x. x ++ written) (whole refl) ∙ ap (bytes ++◌) c
go_after-IsCopied none go_on bytes out later (some e, written) whole part (tail, c) = (
  tail,
  append_assoc out written tail ∙ ap (λ x. x ++ (written ++ tail)) (whole refl) ∙ ap (bytes ++◌) c,
)

unless_done-IsCopied :
    (e : Option Error) (input : Str) (rest : Option Error × Str)
    → IsCopied input rest
    → IsCopied input (unless_done e rest)
unless_done-IsCopied (some e) input rest c = (input, refl)
unless_done-IsCopied none input rest c = c

-- Without an error everything that was read is written, in its order, and otherwise a first part of it:
-- nothing is lost in between or written twice.
pub copy_context-IsCopied : (rs : List Round) → IsCopied (delivered rs) (copy_context rs)
unfolding copy_context
copy_context-IsCopied [] = refl
copy_context-IsCopied (r ∷ rs) =
    unless_done-IsCopied r.context_error (r.bytes ++ beyond r.after (delivered rs)) _ (
      go_after-IsCopied (write_failure r) r.after r.bytes (output r) (delivered rs)
        (copy_context rs) (output_whole r) (output_part r) (copy_context-IsCopied rs))
