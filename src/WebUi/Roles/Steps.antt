-- ===== src/WebUi/Roles/Steps.antt =====
-- internal/webui: the interleavings of an operation, the discovery loop and `Close`.
use go_silver_core.Prelude.{◌≡◌, Bool, true, false, [], Str}
use go_silver_core.WebUi.{Config}
use go_silver_core.WebUi.Roles.{
  App, Mode, Stage, free, await_loop, AfterStop, dead, looking, connecting, not_yet, wait_op,
  wait_loop, Action, Outcome, begin, advance, loop_connect, loop_connected, close_last,
}

-- `New`, with the mode of the command line.
unfoldable pub new_app : Mode → Config → App
new_app m c = record {
  mode = m;
  config = c;
  hub = false;
  source = false;
  agent = false;
  discovery = false;
  probes = [];
  probe_key = [];
  stage = free;
  loop = dead;
  closing = not_yet;
}

abbrev pub is_waiting : Stage → Bool
is_waiting (await_loop k) = true
is_waiting _ = false

-- An operation begins only when no other is at work (`begin`), and waits for the loop where
-- `stopDiscovery` does. The loop ends only when its context was cancelled, and may begin another
-- attempt whenever it likes, which is more than `discoverLoop` does.
pub data Step (a b : App) : Type 0 where
  begins : (r : Action) → a.stage ≡ free → a.closing ≡ not_yet → b ≡ begin r a → Step a b
  advances : (o : Outcome) → is_waiting a.stage ≡ false → b ≡ advance a.stage o a → Step a b
  goes_on :
      (k : AfterStop) (o : Outcome)
      → a.stage ≡ await_loop k
      → a.loop ≡ dead
      → b ≡ advance (await_loop k) o a
      → Step a b
  connects : (c : Config) (addr : Str) → a.loop ≡ looking c → b ≡ loop_connect c addr a → Step a b
  connected :
      (c : Config) (addr : Str) (o : Outcome)
      → a.loop ≡ connecting c addr
      → b ≡ loop_connected c addr o a
      → Step a b
  ends :
      (c : Config)
      → a.loop ≡ looking c
      → a.discovery ≡ false
      → b ≡ record a { loop = dead }
      → Step a b
  closes : a.closing ≡ not_yet → b ≡ record a { closing = wait_op } → Step a b
  closes_discovery :
      a.closing ≡ wait_op
      → a.stage ≡ free
      → b ≡ record a { discovery = false; closing = wait_loop }
      → Step a b
  closes_last : a.closing ≡ wait_loop → a.loop ≡ dead → b ≡ close_last a → Step a b

pub data Run (a : App) : App → Type 0 where
  here : Run a a
  next : {b c : App} → Run a b → Step b c → Run a c
