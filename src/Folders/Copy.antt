-- ===== src/Folders/Copy.antt =====
-- internal/transfer/files.go: `CopyContext`. The count that it returns beside the error is left out,
-- since no caller reads it.
pub mod Bytes
use go_silver_core.Prelude.{
  ℕ, Bool, true, false, Option, none, some, List, [], ◌∷◌, ◌++◌, Str, if◌then◌else◌, ◌==◌, length,
  take,
}

pub data Error : Type 0 where
  short_write : Error
  io : Str → Error

-- What Read returns beside its bytes.
pub data After : Type 0 where
  go_on eof : After
  failed : Error → After

-- A round: the error of the context; what Read delivers; how many bytes Write takes of it, and its
-- error.
pub record Round : Type 0 where
  pub context_error : Option Error
  pub bytes : Str
  pub after : After
  pub written : ℕ
  pub write_error : Option Error

-- The bytes that a round writes, and the error by which writing ends the loop. Nothing is written of
-- nothing.
abbrev pub output : Round → Str
output r = if length r.bytes == 0 then [] else take r.written r.bytes

abbrev pub short : Round → Option Error
short r = if r.written == length r.bytes then none else some short_write

abbrev pub write_failure : Round → Option Error
write_failure r =
    if length r.bytes == 0 then none else elim r.write_error [ some e ↦ some e | none ↦ short r ]

-- What a round goes on with, once its bytes are written.
abbrev pub go_after : Option Error → After → Str → Option Error × Str → Option Error × Str
go_after (some e) after bytes rest = (some e, bytes)
go_after none eof bytes rest = (none, bytes)
go_after none (failed e) bytes rest = (some e, bytes)
go_after none go_on bytes rest = (rest.0, bytes ++ rest.1)

abbrev pub unless_done : Option Error → Option Error × Str → Option Error × Str
unless_done (some e) rest = (some e, [])
unless_done none rest = rest

-- `CopyContext`: its error and what it has written. At the end of the list Read returns nothing but
-- io.EOF.
unfoldable pub copy_context : List Round → Option Error × Str
copy_context [] = (none, [])
copy_context (r ∷ rs) =
    let rest = copy_context rs in
    unless_done r.context_error (go_after (write_failure r) r.after (output r) rest)
