-- ===== src/Server/Listener.antt =====
-- internal/gsp_sdk/server/session.go: the listener and its connections, which are numbers.
pub mod Closing
use go_silver_core.Prelude.{
  ℕ, ◌≡◌, Bool, true, false, not, Option, none, some, List, [], ◌∷◌, ◌++◌, length, if◌then◌else◌,
  leb,
}
use go_silver_core.Receiver.{without}

-- `shut` lists the connections that were closed.
pub record Listener : Type 0 where
  pub listening : Bool
  pub done : Bool
  pub connections : List ℕ
  pub shut : List ℕ

abbrev pub max_connections : ℕ
max_connections = 512

abbrev pub new_listener : Listener
new_listener = record { listening = false; done = false; connections = []; shut = [] }

-- `Start`; `bound` says whether the address could be listened on.
unfoldable pub start : Bool → Listener → Option Listener
start bound l =
    if l.done
    then none
    else if l.listening
    then none
    else if bound
    then some (record l { listening = true })
    else none

-- The loop of `Start` with a connection that it accepted, which can be after `Stop`.
unfoldable pub accept : ℕ → Listener → Listener
accept c l =
    if l.done
    then record l { shut = c ∷ l.shut }
    else if leb max_connections (length l.connections)
    then record l { shut = c ∷ l.shut }
    else record l { connections = c ∷ l.connections }

-- `CloseConn`, at the end of a handler at the latest.
unfoldable pub close_conn : ℕ → Listener → Listener
close_conn c l = record l { connections = without c l.connections; shut = c ∷ l.shut }

-- `Stop` up to the wait for the handlers.
unfoldable pub stop : Listener → Listener
stop l =
    if l.done
    then l
    else record l { done = true; listening = false; shut = l.connections ++ l.shut }

pub data Step : Listener → Listener → Type 0 where
  starts : (l m : Listener) (bound : Bool) → start bound l ≡ some m → Step l m
  accepts : (l : Listener) (c : ℕ) → Step l (accept c l)
  closes : (l : Listener) (c : ℕ) → Step l (close_conn c l)
  stops : (l : Listener) → Step l (stop l)

pub data Run : Listener → Listener → Type 0 where
  here : (l : Listener) → Run l l
  step : (l m n : Listener) → Step l m → Run m n → Run l n
