-- ===== src/WebUi/Output.antt =====
-- internal/webui/agent.go: the output of a command, which is kept up to 256 KiB, and the run of one.
use go_silver_core.Prelude.Int.{ℤ, pos, ltb_ℤ}
use go_silver_core.Prelude.{
  ℕ, ◌-◌, ◌^◌, ◌≤◌, ◌<◌, ◌≡◌, refl, Bool, true, false, not, Option, none, some, List, [], ◌∷◌, ◌++◌,
  Str, codes, if◌then◌else◌, ltb, length, take, length-append, length-take, take_of_length-le,
  arith, Bool-cases, inl, inr, ap, suc, zero, sym, ◌∙◌, ◌||◌,
}
use mathlib.Core.List.{append_assoc, append-nil}
use go_silver_core.Prelude.Tests.{ltb→lt, lt→ltb}
use go_silver_core.WebUi.{Err, Command, no_commands}

-- `limitedOutput`
pub record Output : Type 0 where
  pub buffer : Str
  pub truncated : Bool

abbrev pub output_limit : ℕ
output_limit = 2 ^ 18

abbrev pub no_output : Output
no_output = record { buffer = []; truncated = false }

-- `Write` with its limit; the buffer never exceeds it, so `left` is not negative. The number of
-- bytes that it claims to have written, and the output.
unfoldable pub write_upto : ℕ → Str → Output → ℕ × Output
write_upto limit p w =
    let left = limit - length w.buffer in
    if ltb left (length p)
    then (length p, record { buffer = w.buffer ++ take left p; truncated = true })
    else (length p, record w { buffer = w.buffer ++ p })

-- What a command writes, one call of `Write` after the other.
unfoldable pub write_all : ℕ → List Str → Output → Output
unfolding write_upto
write_all limit [] w = w
write_all limit (p ∷ ps) w = write_all limit ps (write_upto limit p w).1

abbrev pub concat : List Str → Str
concat [] = []
concat (p ∷ ps) = p ++ concat ps

-- The text "\n[输出超过 256 KiB，已截断]" in UTF-8.
abbrev pub notice : Str
notice =
    10
      ∷ b'['
      ∷ 232
      ∷ 190
      ∷ 147
      ∷ 229
      ∷ 135
      ∷ 186
      ∷ 232
      ∷ 182
      ∷ 133
      ∷ 232
      ∷ 191
      ∷ 135
      ∷ codes " 256 KiB"
    ++ 239 ∷ 188 ∷ 140 ∷ 229 ∷ 183 ∷ 178 ∷ 230 ∷ 136 ∷ 170 ∷ 230 ∷ 150 ∷ 173 ∷ b']' ∷ []

-- The time limit in seconds.
abbrev pub time_limit : ℤ → ℤ
time_limit t =
    let asked = if ltb_ℤ (pos 0) t then t else pos 60 in
    if ltb_ℤ (pos 300) asked then pos 300 else asked

-- The shell and how its process ends: what it writes, the error of its context afterwards and the
-- error of `cmd.Run`, for the text, the directory and the time limit.
pub record Shell : Type 0 where
  pub writes : Str → Str → ℤ → List Str
  pub context_error : Str → Str → ℤ → Option Err
  pub run_error : Str → Str → ℤ → Option Err

abbrev pub first_error : Option Err → Option Err → Option Err
first_error none e = e
first_error (some c) e = some c

abbrev pub output_text : Output → Str
output_text w = if w.truncated then w.buffer ++ notice else w.buffer

-- `execute`: the text that becomes the task's output, where the command runs, and the error.
unfoldable pub execute : Shell → Bool → Command → Option Str × Option Err
unfolding write_all
execute sh allow_commands c =
    let t = time_limit c.timeout in
    if not allow_commands then (none, some no_commands) else (
      some (output_text (write_all output_limit (sh.writes c.text c.directory t) no_output)),
      first_error (sh.context_error c.text c.directory t) (sh.run_error c.text c.directory t),
    )

take-append_ge :
    (n : ℕ) (xs ys : Str) → length xs ≤ n → take n (xs ++ ys) ≡ xs ++ take (n - length xs) ys
take-append_ge n [] ys h = ap (λ k. take k ys) (omega arith)
take-append_ge zero (x ∷ xs) ys h = absurd (omega arith)
take-append_ge (suc n) (x ∷ xs) ys h =
    ap (x ∷◌) (take-append_ge n xs ys (omega arith) ∙ ap (λ k. xs ++ take k ys) (omega arith))

take_cut : (k : ℕ) (p rest : Str) → k ≤ length p → take k (take k p ++ rest) ≡ take k (p ++ rest)
take_cut zero p rest h = refl
take_cut (suc k) [] rest h = absurd (omega arith)
take_cut (suc k) (x ∷ p) rest h = ap (x ∷◌) (take_cut k p rest (omega arith))

-- What a single call leaves in front of all that is written afterwards.
write_upto-take :
    (limit : ℕ) (p rest : Str) (w : Output)
    → length w.buffer ≤ limit
    → let v = (write_upto limit p w).1 in
      (length v.buffer ≤ limit)
      × (take limit (v.buffer ++ rest) ≡ take limit (w.buffer ++ (p ++ rest)))
      × ((v.truncated || ltb limit (length (v.buffer ++ rest)))
          ≡ (w.truncated || ltb limit (length (w.buffer ++ (p ++ rest)))))
unfolding write_upto
write_upto-take limit p rest w h = elim (Bool-cases (ltb (limit - length w.buffer) (length p))) [
  | inr fits ↦ rw fits (
    ground (arith, length-append w.buffer p, fits),
    ap (take limit) (append_assoc w.buffer p rest),
    ap (λ x. w.truncated || ltb limit (length x)) (append_assoc w.buffer p rest),
  )
  | inl over ↦
      let much = ltb→lt (limit - length w.buffer) (length p) over in
      rw over (
        omega (
          arith,
          length-append w.buffer (take (limit - length w.buffer) p),
          length-take (limit - length w.buffer) p,
        ),
        full much,
        ground (
          arith,
          length-append w.buffer (p ++ rest),
          length-append p rest,
          lt→ltb limit (length (w.buffer ++ (p ++ rest))),
        ),
      )
]
  where
    full :
        limit - length w.buffer < length p
        → take limit ((w.buffer ++ take (limit - length w.buffer) p) ++ rest)
          ≡ take limit (w.buffer ++ (p ++ rest))
    full much =
        ap (take limit) (append_assoc w.buffer (take (limit - length w.buffer) p) rest)
        ∙ take-append_ge limit w.buffer (take (limit - length w.buffer) p ++ rest) h
        ∙ ap (w.buffer ++◌) (take_cut (limit - length w.buffer) p rest (omega arith))
        ∙ sym (take-append_ge limit w.buffer (p ++ rest) h)

write_all-take :
    (limit : ℕ) (ps : List Str) (w : Output)
    → length w.buffer ≤ limit
    → let v = write_all limit ps w in
      (v.buffer ≡ take limit (w.buffer ++ concat ps))
      × (v.truncated ≡ (w.truncated || ltb limit (length (w.buffer ++ concat ps))))
unfolding write_all
write_all-take limit [] w h =
    rw (append-nil w.buffer) (sym (take_of_length-le limit w.buffer h), ground arith)
write_all-take limit (p ∷ ps) w h =
    let (short, same_text, same_mark) = write_upto-take limit p (concat ps) w h in
    let (text, mark) = write_all-take limit ps (write_upto limit p w).1 short in
    (text ∙ same_text, mark ∙ same_mark)

output_text-take :
    (limit : ℕ) (all : Str) (v : Output)
    → v.buffer ≡ take limit all
    → v.truncated ≡ ltb limit (length all)
    → output_text v ≡ (if ltb limit (length all) then take limit all ++ notice else all)
output_text-take limit all v text mark = elim (Bool-cases (ltb limit (length all))) [
  | inl more ↦ rw (mark, more) (ap (◌++ notice) text)
  | inr fits ↦ rw (mark, fits) (text ∙ take_of_length-le limit all (ground arith))
]

-- Of everything that a command writes, in any number of calls and pieces, exactly the first 256 KiB
-- are the task's output, followed by the notice if and only if there was more.
pub execute-output :
    (sh : Shell) (c : Command)
    → let all = concat (sh.writes c.text c.directory (time_limit c.timeout)) in
      (execute sh true c).0
      ≡ some (if ltb output_limit (length all) then take output_limit all ++ notice else all)
unfolding execute
execute-output sh c =
    let written = sh.writes c.text c.directory (time_limit c.timeout) in
    let (text, mark) = write_all-take output_limit written no_output (omega arith) in
    ap some (
      output_text-take output_limit (concat written) (write_all output_limit written no_output) text
        mark)
