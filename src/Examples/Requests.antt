-- ===== src/Examples/Requests.antt =====
-- Requests to a receiver's agent: the launch of a download and of a command, the download itself,
-- and a directory that is not there yet.
use go_silver_core.Prelude.Int.{pos, int_dec}
use go_silver_core.Prelude.Text.{str_dec}
use go_silver_core.Prelude.{
  ℕ, ◌≡◌, refl, true, false, none, some, [], ◌∷◌, codes, suc, if◌then◌else◌,
}
use native.Mathlib.Decide.{ℕ_discrete}
use go_silver_core.Prelude.Maps.{get, put}
use go_silver_core.Folders.{Entry, same, validate_entries, safe_name, path_clean}
use go_silver_core.Server.Sched.{is_empty}
use go_silver_core.WebUi.{ok, Command, TaskSpec, Meta}
use go_silver_core.WebUi.Agent.{Agent, launch, launch_in, launch_command, is_working}
use go_silver_core.WebUi.Agent.Runs.{new_agent, Run, here, next, launches}
use go_silver_core.WebUi.Agent.Control.{
  ControlRequest, Json, World, task, start, command, method_of, validate_spec, meta_dec, is_blank,
  blank_from, start_checked, prepare, run_command, answer, control,
}
use go_silver_core.WebUi.Agent.Control.Guards.{downloads, commands, started, IsAllowed}
use go_silver_core.WebUi.Agent.Control.Starts.{IsStart, control-downloads}
use go_silver_core.WebUi.Agent.Control.Commands.{IsCommand, control-commands}
use go_silver_core.WebUi.Agent.Control.Download.{Transfer, download, OneLeft, download-Run}
use go_silver_core.WebUi.Agent.Resolve.{
  Files, present, missing, abs_parts, resolve, IsPlace, resolve-IsPlace,
}

abbrev pub one_entry : Entry
one_entry = record { name = codes "a"; size = pos 3; dir = false; mode = 420 }

abbrev pub one_meta : Meta
one_meta = record {
  error = [];
  file_name = codes "a";
  file_size = pos 3;
  chunk_size = pos 4;
  chunk_num = pos 1;
}

abbrev pub one_spec : TaskSpec
one_spec = record {
  id = codes "t";
  target = codes "in";
  overwrite = false;
  archive = false;
  entries = one_entry ∷ [];
  meta = one_meta;
}

abbrev say : Command
say = record { id = codes "c"; text = codes "ls"; directory = codes "in"; timeout = pos 5 }

-- The text of a request is its method.
abbrev plain : Json
plain = record {
  request_of = λ raw. some (record { method = raw; token = codes "key"; payload = codes "p" });
  spec_of = λ p. some one_spec;
  path_of = λ p. some (codes "in");
  id_of = λ p. some [];
  command_of = λ p. some say;
}

abbrev calm : World ℕ ℕ
calm = record {
  resolves = λ dir. ok (codes "/home/in");
  probes = λ spec extra. ok 1;
  lists = λ dir. ok 2;
  file_status = ok one_meta;
  new_key = codes "k";
}

abbrev fresh : Agent
fresh = new_agent (codes "/home") (codes "key") (codes "10.0.0.1:9") true

begins_download :
    downloads (control plain calm (codes "start") fresh fresh).1 ≡ suc (downloads fresh)
unfolding control answer method_of prepare start_checked validate_spec validate_entries safe_name
    path_clean get put meta_dec int_dec str_dec ℕ_discrete launch launch_in new_agent
begins_download = refl

control-downloads_example :
    (req : ControlRequest) × (spec : TaskSpec) × IsAllowed plain calm fresh fresh
      (codes "start")
      req
    × (method_of req.method ≡ start)
    × IsStart ℕ ℕ plain calm req.payload fresh fresh spec
    × ((control plain calm (codes "start") fresh fresh).0
        ≡ ok (task (started (codes "download") spec.id)))
control-downloads_example = control-downloads plain calm fresh fresh (codes "start") begins_download

begins_command :
    commands (control plain calm (codes "command") fresh fresh).1 ≡ suc (commands fresh)
unfolding control answer method_of run_command is_blank blank_from str_dec ℕ_discrete launch_command
    launch_in new_agent
begins_command = refl

control-commands_example :
    (req : ControlRequest) × (c : Command) × IsAllowed plain calm fresh fresh (codes "command") req
    × (method_of req.method ≡ command)
    × IsCommand ℕ ℕ plain calm req.payload fresh fresh c
    × ((control plain calm (codes "command") fresh fresh).0
        ≡ ok (task (started (codes "command") (if is_empty c.id then calm.new_key else c.id))))
control-commands_example = control-commands plain calm fresh fresh (codes "command") begins_command

abbrev archive : TaskSpec
archive = record one_spec { archive = true }

abbrev smooth : Transfer
smooth = record {
  resolves = λ dir. ok (codes "/home/in");
  mkdir_all = λ dir. none;
  mkdir_temp = λ dir. ok (codes "/home/in/x");
  resolves_entry = λ dir name. ok (codes "/home/in/a");
  run_to = λ target spec.
      (record { total = 1; done_chunks = 1; bytes = 3; speed = 3; finished = true } ∷ [], none);
  extract = λ target dir spec. none;
}

abbrev busy : Agent
busy = (launch (codes "t") fresh).1

busy_works : is_working 0 busy.download.jobs ≡ true
unfolding launch launch_in new_agent
busy_works = refl

ends_well : (download smooth archive busy).0 ≡ none
unfolding download
ends_well = refl

download-Run_example :
    Run fresh (download smooth archive busy).1
    × OneLeft true (codes "/home/in/x") (download smooth archive busy).1
download-Run_example =
    download-Run smooth archive (codes "/home") (codes "key") (codes "10.0.0.1:9") true busy 0
      (next here (launches (codes "t") refl)) busy_works ends_well

-- Below /home, which is a link to /data, nothing exists.
abbrev linked : Files
linked = record {
  lstat = λ path. elim path [
    | [] ↦ present
    | (p ∷ ps) ↦ if same p (codes "home") then present else missing
  ];
  eval_symlinks = λ path. ok (codes "data" ∷ []);
}

leads_on :
    resolve linked (codes "/home") (codes "in/x") ≡ ok (codes "x" ∷ codes "in" ∷ codes "data" ∷ [])
unfolding resolve abs_parts str_dec ℕ_discrete
leads_on = refl

resolve-IsPlace_example :
    IsPlace linked (codes "/home") (codes "in/x") (codes "x" ∷ codes "in" ∷ codes "data" ∷ [])
resolve-IsPlace_example = resolve-IsPlace linked (codes "/home") (codes "in/x") _ leads_on
