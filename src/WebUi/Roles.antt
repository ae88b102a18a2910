-- ===== src/WebUi/Roles.antt =====
-- internal/webui: the two roles of the application, from app.go, sender.go and discovery.go. A
-- function stands for each part that holds the lock; `Stage` says which part the operation that
-- `begin` runs comes to next, the next one being chosen by what the calls between them return.
pub mod Steps
pub mod Exclusive
use go_silver_core.Prelude.{Bool, true, false, not, ◌&&◌, ◌||◌, List, [], ◌∷◌, Str, if◌then◌else◌}
use go_silver_core.Server.Sched.{is_empty}
use go_silver_core.WebUi.{PeerState, Config}

-- `Config.Mode`
pub data Mode : Type 0 where
  unset sender receiver : Mode

abbrev pub is_sender : Mode → Bool
is_sender sender = true
is_sender _ = false

abbrev pub is_receiver : Mode → Bool
is_receiver receiver = true
is_receiver _ = false

-- What follows `ensureSender`, and what follows `stopDiscovery`.
pub data AfterSender : Type 0 where
  then_done : AfterSender
  then_source : Str → AfterSender

pub data AfterStop : Type 0 where
  then_discover then_connect : Config → AfterStop
  then_leave : AfterStop

pub data Stage : Type 0 where
  free : Stage
  check_source : Str → Str → Stage
  ensure publish : Str → AfterSender → Stage
  put_source : Str → Str → Stage
  check_discovery : Config → Stage
  stop_discovery await_loop : AfterStop → Stage
  put_discovery : Config → Stage
  check_agent : Config → Stage
  put_agent : Config → Str → Stage
  take_agent : Stage

-- The goroutine of `discoverLoop`: between connections, or inside `startAgent`.
pub data Loop : Type 0 where
  dead : Loop
  looking : Config → Loop
  connecting : Config → Str → Loop

-- How far `Close` has come.
pub data Closing : Type 0 where
  not_yet wait_op wait_loop finished : Closing

-- `App`: the roles. `hub`, `source`, `agent` and `discovery` say whether the field (for the last one
-- discoveryDone) is not nil.
pub record App : Type 0 where
  pub mode : Mode
  pub config : Config
  pub hub : Bool
  pub source : Bool
  pub agent : Bool
  pub discovery : Bool
  pub probes : List (Str × PeerState)
  pub probe_key : Str
  pub stage : Stage
  pub loop : Loop
  pub closing : Closing

abbrev pub is_closed : Closing → Bool
is_closed not_yet = false
is_closed _ = true

-- What the user asks for; an operation begins with it.
pub data Action : Type 0 where
  select : Mode → Action
  start_sender : Str → Action
  start_file : Str → Str → Action
  start_receiver connect_to : Config → Action
  stop_file stop_sender stop_receiver : Action

abbrev pub port_or_any : Str → Str
port_or_any [] = b':' ∷ b'0' ∷ []
port_or_any (c ∷ cs) = c ∷ cs

-- `selectMode`, its part under the lock.
unfoldable pub select_mode : Mode → App → App
select_mode m a =
    let chosen = record a { mode = m; probes = []; probe_key = [] } in
    if a.hub || a.source || a.agent || a.discovery then a else elim m [
      | unset ↦ chosen
      | sender ↦ record chosen { stage = ensure a.config.listen then_done }
      | receiver ↦ record chosen { stage = check_discovery a.config }
    ]

-- The part of `stopRole` for the sender, and `stopFile`.
unfoldable pub drop_sender : App → App
drop_sender a = record a { hub = false; source = false; probes = []; probe_key = [] }

unfoldable pub drop_file : App → App
drop_file a = record a { source = false; probe_key = [] }

-- `action`: what `begin` runs first.
unfoldable pub begin : Action → App → App
unfolding select_mode drop_sender drop_file
begin (select m) a = select_mode m a
begin (start_sender listen) a = record a { stage = ensure listen then_done }
begin (start_file path listen) a = record a { stage = check_source path listen }
begin (start_receiver c) a = record a { stage = check_discovery c }
begin (connect_to c) a = record a { stage = stop_discovery (then_connect c) }
begin stop_file a = drop_file a
begin stop_sender a = drop_sender a
begin stop_receiver a = record a { stage = stop_discovery then_leave }

abbrev pub unready : List (Str × PeerState) → List (Str × PeerState)
unready [] = []
unready ((id, p) ∷ ps) = (id, record p { ready = false; probe = []; warnings = [] }) ∷ unready ps

-- `ensureSender` returns without an error.
abbrev pub sender_ready : Str → AfterSender → App → App
sender_ready listen then_done a = record a { stage = free }
sender_ready listen (then_source path) a = record a { stage = put_source path listen }

abbrev pub discovery_stopped : AfterStop → App → App
discovery_stopped (then_discover c) a = record a { stage = put_discovery c }
discovery_stopped (then_connect c) a = record a {
  stage = check_agent (record c { discover = false });
}
discovery_stopped then_leave a = record a { stage = take_agent }

-- `startSource`
unfoldable pub first_source : Str → Str → App → App
first_source path listen a =
    if is_receiver a.mode || a.source
    then record a { stage = free }
    else record a { stage = ensure listen (then_source path) }

unfoldable pub last_source : Str → Str → App → App
last_source path listen a = record a {
  source = true;
  probes = unready a.probes;
  probe_key = [];
  config = record a.config { file = path; listen = listen };
  mode = sender;
  stage = free;
}

-- `ensureSender`; `good` says that the session could be started and the operation goes on.
unfoldable pub first_ensure : Str → AfterSender → App → App
first_ensure listen k a =
    if is_closed a.closing || is_receiver a.mode
    then record a { stage = free }
    else if a.hub
    then sender_ready listen k a
    else record a { stage = publish (port_or_any listen) k }

unfoldable pub last_ensure : Str → AfterSender → App → App
last_ensure listen k a =
    sender_ready listen k
      (record a { hub = true; mode = sender; config = record a.config { listen = listen } })

-- `startDiscovery`
unfoldable pub first_discovery : Config → App → App
first_discovery c a =
    if is_closed a.closing || is_sender a.mode
    then record a { stage = free }
    else record a { stage = stop_discovery (then_discover c) }

unfoldable pub last_discovery : Config → App → App
last_discovery c a = if is_closed a.closing then record a { stage = free } else record a {
  mode = receiver;
  config = record a.config { token = c.token; allow_commands = c.allow_commands };
  discovery = true;
  loop = looking c;
  stage = free;
}

-- `startAgent`, with the address that it connects to; its callers say what comes next.
unfoldable pub last_agent : Config → Str → Str → App → App
last_agent c addr root a = record a {
  agent = true;
  mode = receiver;
  config = record a.config {
    sender_addr = addr;
    work_dir = root;
    token = c.token;
    allow_commands = c.allow_commands;
  };
}

-- What the calls between two parts return: whether they went well, the sender that was found, and
-- the real path of the working directory.
pub record Outcome : Type 0 where
  pub good : Bool
  pub found : Str
  pub root : Str

abbrev pub address : Config → Outcome → Str
address c o = if c.discover || is_empty c.sender_addr then o.found else c.sender_addr

abbrev pub give_up : App → App
give_up a = record a { stage = free }

-- The part that the operation comes to next.
unfoldable pub advance : Stage → Outcome → App → App
unfolding first_source last_source first_ensure last_ensure first_discovery last_discovery
    last_agent
advance free o a = a
advance (check_source path listen) o a = first_source path listen a
advance (ensure listen k) o a = if o.good then first_ensure listen k a else give_up a
advance (publish listen k) o a = if o.good then last_ensure listen k a else give_up a
advance (put_source path listen) o a = if o.good then last_source path listen a else give_up a
advance (check_discovery c) o a = first_discovery c a
advance (stop_discovery k) o a = record a { discovery = false; stage = await_loop k }
advance (await_loop k) o a = discovery_stopped k a
advance (put_discovery c) o a = last_discovery c a
advance (check_agent c) o a =
    if is_sender a.mode
    then give_up a
    else record a { agent = false; stage = put_agent c (address c o) }
advance (put_agent c addr) o a =
    if o.good then record (last_agent c addr o.root a) { stage = check_discovery c } else give_up a
advance take_agent o a = record a { agent = false; stage = free }

-- The loop tries to connect, to its own address or to one that it found.
unfoldable pub loop_connect : Config → Str → App → App
loop_connect c addr a =
    if is_sender a.mode then a else record a { agent = false; loop = connecting c addr }

unfoldable pub loop_connected : Config → Str → Outcome → App → App
unfolding last_agent
loop_connected c addr o a =
    if o.good
    then record (last_agent c addr o.root a) { loop = looking c }
    else record a { loop = looking c }

-- `Close`: it waits for the operation, stops the discovery, waits for the loop, and takes the rest.
unfoldable pub close_last : App → App
close_last a = record a { hub = false; source = false; agent = false; closing = finished }
