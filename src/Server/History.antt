-- ===== src/Server/History.antt =====
-- internal/gsp_sdk/server: everything that happens to the tables of a session, in its order. Each
-- operation holds the session's lock, so a run is a sequence of them.
pub mod Keeps
use go_silver_core.Prelude.Int.{ℤ}
use go_silver_core.Prelude.{ℕ, Bool, Option, none, some, List, [], ◌∷◌, Str}
use go_silver_core.Chunk.{OsFile}
use go_silver_core.Server.{Floats, Session}
use go_silver_core.Server.Content.{
  be_send_main, mark_sender, be_send_sub, clear_chunks, clear_content, add_chunk, index_valid,
}
use go_silver_core.Server.Handle.{Request, serve, or_same}

-- A request of another node, or a call of this node's own application.
pub data Event : Type 0 where
  asks : Request → Event
  sends_main : OsFile → Bool → Event
  marks_sender clears_chunks clears_content : Event
  sends_sub : OsFile → Event
  adds_chunk : ℤ → ℕ → Event
  validates : ℤ → Event

module _ {F : Type 0} (fl : Floats F) (zone_of : Str → Str → Str) where
  abbrev pub happen : Event → Session F → Session F
  happen (asks r) s = serve fl zone_of r s
  happen (sends_main f regular) s = or_same s (be_send_main fl f regular s)
  happen marks_sender s = mark_sender fl s
  happen clears_chunks s = clear_chunks s
  happen clears_content s = clear_content s
  happen (sends_sub f) s = be_send_sub f s
  happen (adds_chunk i checksum) s = add_chunk i checksum s
  happen (validates i) s = (index_valid i s).0

  unfoldable pub history : List Event → Session F → Session F
  history [] s = s
  history (e ∷ es) s = history es (happen e s)
