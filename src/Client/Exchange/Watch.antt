-- ===== src/Client/Exchange/Watch.antt =====
-- internal/gsp_sdk/client/receiver.go: the control connection delivers every command in order.
use go_silver_core.Prelude.{
  ℕ, zero, suc, ◌+◌, ◌≤◌, ◌≡◌, refl, ap, ◌∙◌, false, Option, some, List, [], ◌∷◌, ◌++◌, Str, length,
  length-append, arith, map, All,
}
use go_silver_core.Gsp.{decode, encode_to, type_json}
use go_silver_core.Gsp.RoundTrip.{decode-encode_to, packet}
use go_silver_core.Gsp
use go_silver_core.Prelude.Text.{str_dec}
use go_silver_core.Server.Sched.{is_empty}
use go_silver_core.Client.Exchange.{ControlMsg, controlled, calls_of, watch_loop, watch_control}

module _ {A : Type 0} (read_push : List ℕ → Option (Str × A))
    (read_control : List ℕ → Option ControlMsg) (marshal : ControlMsg → List ℕ) (blank : A)
    (json : (m : ControlMsg) → read_control (marshal m) ≡ some m)
    (other : (m : ControlMsg) → read_push (marshal m) ≡ some ([], blank)) where
  -- What `sendControl` writes for a list of commands.
  abbrev pub control_frames : List ControlMsg → List ℕ
  control_frames [] = []
  control_frames (m ∷ ms) = encode_to type_json (marshal m) ++ control_frames ms

  -- A command that a node sends: it names an operation, and its frame fits the receiver's buffer.
  abbrev pub IsCommand : ControlMsg → Type 0
  IsCommand m = (is_empty m.cmd ≡ false) × (length (marshal m) ≤ 4096)

  frames_length :
      (m : ControlMsg) (ms : List ControlMsg)
      → length (control_frames ms) + 1 ≤ length (control_frames (m ∷ ms))
  unfolding encode_to
  frames_length m ms = omega (arith, length-append (marshal m) (control_frames ms))

  command_call :
      (m : ControlMsg)
      → is_empty m.cmd ≡ false
      → calls_of read_push read_control (packet type_json (marshal m)) ≡ controlled m ∷ []
  unfolding str_dec
  command_call m c = ground (arith, json m, other m)

  watch_loop-frames :
      (fuel : ℕ) (ms : List ControlMsg)
      → length (control_frames ms) ≤ fuel
      → All IsCommand ms
      → watch_loop read_push read_control fuel (control_frames ms) ≡ map controlled ms
  watch_loop-frames zero [] l v = refl
  watch_loop-frames (suc fuel) [] l v = unfold decode in refl
  watch_loop-frames zero (m ∷ ms) l v = absurd (omega (arith, frames_length m ms))
  watch_loop-frames (suc fuel) (m ∷ ms) l v =
      let small = v.0.1 in
      let e =
        decode-encode_to 4096 type_json (marshal m) (control_frames ms) refl (omega (arith, small))
          small in
      ap
        (λ d. elim d.0 [
          | Gsp.Result.err x ↦ []
          | Gsp.Result.ok p ↦
              calls_of read_push read_control p ++ watch_loop read_push read_control fuel d.1
        ])
        e
      ∙ ap (◌++ watch_loop read_push read_control fuel (control_frames ms)) (command_call m v.0.0)
      ∙ ap (controlled m ∷◌) (watch_loop-frames fuel ms (omega (arith, frames_length m ms)) v.1)

  -- However many commands the coordinator writes to a control connection, the receiver hands all of
  -- them to its handler, in order, where each fits 4096 bytes as JSON, reads back as it was written,
  -- and is not taken for a push.
  pub watch_control-frames :
      (ms : List ControlMsg)
      → All IsCommand ms
      → watch_control read_push read_control (control_frames ms) ≡ map controlled ms
  unfolding watch_control
  watch_control-frames ms v = watch_loop-frames (length (control_frames ms)) ms (omega arith) v
