-- ===== src/Server/History/Keeps.antt =====
-- internal/gsp_sdk/server: the tables of a session are well formed after any history.
use go_silver_core.Prelude.Int.{ℤ, int_dec, pos}
use go_silver_core.Prelude.Maps.{get, Every, Every-put}
use go_silver_core.Prelude.{
  ℕ, zero, suc, ◌+◌, ◌≡◌, refl, ◌∙◌, not, ◌||◌, Bool, false, none, List, [], ◌∷◌, Str, str_dec,
  arith, Option-cases, Bool-cases, inl, inr, is_none, length, ◌==◌,
}
use go_silver_core.Chunk.{
  OsFile, FileChunk, new_file_chunk, get_chunk_num, out_of_range, read_chunk, chunk_size,
}
use go_silver_core.Chunk
use go_silver_core.Server.{Floats, Peer, Session, SetOf}
use go_silver_core.Server.Peers.{contains, set_at, new_peer}
use go_silver_core.Server.Peers.Owners.{contains-add_to}
use go_silver_core.Server.Peers.Tables.{put-TablesAgree}
use go_silver_core.Server.Leases.{status_is}
use go_silver_core.Server.Leases.Count.{IsBounded}
use go_silver_core.Server.Leases.Bounded.{new_peer-IsBounded}
use go_silver_core.Server.Content.{
  own_from, without_leases, new_session, be_send_main, mark_sender, index_valid, add_chunk, hashed,
  clear_content, clear_chunks, be_send_sub, no_chunks,
}
use go_silver_core.Server.Handle.{or_same}
use go_silver_core.Server.Handle.Keeps.{IsValid, serve-IsValid}
use go_silver_core.Server.History.{
  Event, happen, history, asks, sends_main, marks_sender, clears_chunks, clears_content, sends_sub,
  adds_chunk, validates,
}

-- The chunks that a main source claims are its own: nobody else's change.
contains-own_from :
    (self x : Str) (left i : ℕ) (j : ℤ) (m : List (ℤ × SetOf Str))
    → status_is x self ≡ false
    → contains str_dec x (set_at int_dec j (own_from self left i m))
      ≡ contains str_dec x (set_at int_dec j m)
unfolding own_from
contains-own_from self x zero i j m n = refl
contains-own_from self x (suc left) i j m n =
    contains-own_from self x left (i + 1) j _ n
    ∙ ground (arith, contains-add_to int_dec str_dec (pos i) j self x m)

without_leases-Every :
    {F : Type 0} (self : Str) (ps : List (Str × Peer F))
    → Every (IsBounded self) (without_leases ps)
without_leases-Every self [] = tt
without_leases-Every self ((u, p) ∷ ps) = (ground arith, without_leases-Every self ps)

module _ {F : Type 0} (fl : Floats F) where
  be_send_main-IsValid :
      (f : OsFile) (regular : Bool) (s : Session F)
      → IsValid s
      → IsValid (or_same s (be_send_main fl f regular s))
  unfolding be_send_main
  be_send_main-IsValid f regular s v = elim (Bool-cases (not f.open_fd || not regular)) [
    | inl bad ↦ rw (bad, be_send_main) v
    | inr good ↦
        rw (good, be_send_main)
          (record {
            bounded =
                Every-put str_dec (IsBounded s.uuid) s.uuid _ s.peers v.bounded
                  (new_peer-IsBounded fl s.uuid s.uuid [] none);
            tables = record {
              agree =
                  λ x j n. contains-own_from s.uuid x _ 0 j s.chunk_owners n ∙ v.tables.agree x j n;
              known = (put-TablesAgree s.uuid (new_peer fl [] none) s v.tables).known;
            };
          })
  ]

  mark_sender-IsValid : (s : Session F) → IsValid s → IsValid (mark_sender fl s)
  unfolding mark_sender
  mark_sender-IsValid s v = elim (Bool-cases (is_none (get str_dec s.uuid s.peers))) [
    | inl new ↦
        rw (new, mark_sender)
          (record {
            bounded =
                Every-put str_dec (IsBounded s.uuid) s.uuid _ s.peers v.bounded
                  (new_peer-IsBounded fl s.uuid s.uuid [] none);
            tables = record {
              agree = v.tables.agree;
              known = (put-TablesAgree s.uuid (new_peer fl [] none) s v.tables).known;
            };
          })
    | inr old ↦
        rw (old, mark_sender)
          (record {
            bounded = v.bounded;
            tables = record { agree = v.tables.agree; known = v.tables.known };
          })
  ]

module _ {F : Type 0} where
  -- What only sets checksums or the provider leaves the tables alone.
  content-IsValid :
      (h : List (ℤ × ℕ)) (ck : FileChunk) (s : Session F)
      → IsValid s
      → IsValid (record s { chunk_hash = h; chunk_provider = ck })
  content-IsValid h ck s v = record {
    bounded = v.bounded;
    tables = record { agree = v.tables.agree; known = v.tables.known };
  }

  add_chunk-IsValid :
      (i : ℤ) (checksum : ℕ) (s : Session F) → IsValid s → IsValid (add_chunk i checksum s)
  unfolding add_chunk
  add_chunk-IsValid i checksum s v = elim (Bool-cases (is_none (get int_dec i s.chunk_hash))) [
    | inl new ↦ rw (new, add_chunk) (content-IsValid _ s.chunk_provider s v)
    | inr old ↦ rw (old, add_chunk) v
  ]

  hashed-IsValid :
      (i : ℤ) (s : Session F) (r : Chunk.Result (List ℕ)) → IsValid s → IsValid (hashed i s r).0
  hashed-IsValid i s (Chunk.Result.err e) v = v
  hashed-IsValid i s (Chunk.Result.ok bytes) v = elim (Bool-cases (length bytes == 0)) [
    | inl none_read ↦ rw none_read v
    | inr read ↦ rw read (content-IsValid _ s.chunk_provider s v)
  ]

  index_valid-IsValid : (i : ℤ) (s : Session F) → IsValid s → IsValid (index_valid i s).0
  unfolding index_valid
  index_valid-IsValid i s v = elim (Option-cases (get int_dec i s.chunk_hash)) [
    | inr (h, e) ↦ rw (e, index_valid) v
    | inl n ↦
        rw (n, index_valid)
          (elim (Bool-cases (
            is_none s.chunk_provider.file_stat
            || out_of_range s.chunk_provider i
            || not s.is_main)) [
              | inl refused ↦ rw refused v
              | inr own ↦ rw own (hashed-IsValid i s (read_chunk s.chunk_provider i chunk_size) v)
            ])
  ]

  clear_content-IsValid : (s : Session F) → IsValid (clear_content s)
  unfolding clear_content get
  clear_content-IsValid s = record {
    bounded = without_leases-Every s.uuid s.peers;
    tables = record { agree = λ u i n. refl; known = λ u i n h. absurd (cc) };
  }

  new_session-IsValid : (uuid : Str) → IsValid (new_session {F = F} uuid)
  unfolding get
  new_session-IsValid uuid = record {
    bounded = tt;
    tables = record { agree = λ u i n. refl; known = λ u i n h. absurd (cc) };
  }

module _ {F : Type 0} (fl : Floats F) (zone_of : Str → Str → Str) where
  happen-IsValid : (e : Event) (s : Session F) → IsValid s → IsValid (happen fl zone_of e s)
  happen-IsValid (asks r) s v = serve-IsValid fl zone_of r s v
  happen-IsValid (sends_main f regular) s v = be_send_main-IsValid fl f regular s v
  happen-IsValid marks_sender s v = mark_sender-IsValid fl s v
  happen-IsValid clears_chunks s v = unfold clear_chunks in content-IsValid [] no_chunks s v
  happen-IsValid clears_content s v = clear_content-IsValid s
  happen-IsValid (sends_sub f) s v = unfold be_send_sub in content-IsValid [] (new_file_chunk f) s v
  happen-IsValid (adds_chunk i checksum) s v = add_chunk-IsValid i checksum s v
  happen-IsValid (validates i) s v = index_valid-IsValid i s v

  history-from : (es : List Event) (s : Session F) → IsValid s → IsValid (history fl zone_of es s)
  unfolding history
  history-from [] s v = v
  history-from (e ∷ es) s v = history-from es _ (happen-IsValid e s v)

  -- In every state that a new session reaches by requests of other nodes and calls of its own
  -- application, in any number and order: each peer's connection count is the number of its
  -- leases, at most two where the peer is not this node itself; and for every other node the two
  -- ownership tables name the same chunks, and name them for registered peers only.
  pub history-IsValid :
      (uuid : Str) (es : List Event) → IsValid (history fl zone_of es (new_session uuid))
  history-IsValid uuid es = history-from es (new_session uuid) (new_session-IsValid uuid)
