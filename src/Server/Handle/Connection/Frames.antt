-- ===== src/Server/Handle/Connection/Frames.antt =====
-- internal/gsp_sdk/server: every request that is written to a connection is served, in order.
use go_silver_core.Prelude.{ℕ, ◌+◌, ◌≤◌, ◌≡◌, Option, some, List, [], ◌∷◌, ◌++◌, length}
use go_silver_core.Gsp.{encode_to, type_json}
use go_silver_core.Gsp
use go_silver_core.Server.Handle.{Request}
use go_silver_core.Server.Handle.Connection.{Message, World, dispatched}

module _ (read : List ℕ → Option Message) (world : ℕ → World) (marshal : Message → List ℕ) where
  abbrev pub request_frames : List Message → List ℕ
  request_frames [] = []
  request_frames (m ∷ ms) = encode_to type_json (marshal m) ++ request_frames ms

  -- What the messages bring about, the first of them in round `n`.
  abbrev pub served : ℕ → List Message → List Request
  served n [] = []
  served n (m ∷ ms) = dispatched m (world n) (served (n + 1) ms)

  -- The message fits a frame, and reads back as it was written.
  abbrev pub Fits : Message → Type 0
  Fits m = (length (marshal m) ≤ 4194304) × (read (marshal m) ≡ some m)
