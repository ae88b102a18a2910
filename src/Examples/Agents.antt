-- ===== src/Examples/Agents.antt =====
-- A receiver's agent at work, from the launch of a download to its end.
use go_silver_core.Prelude.Int.{pos}
use go_silver_core.Prelude.{◌≡◌, inl, refl, true, false, none, some, [], ◌∷◌, codes}
use go_silver_core.WebUi.{context_canceled, err, Command, running, is_running}
use go_silver_core.WebUi.Output.{Shell, execute, execute-output}
use go_silver_core.WebUi.Agent.{
  Agent, closed, launch, launch_in, launch_command, finish_download, finish_in, leave_in, cancel_in,
  is_working, stop, waited, end_all,
}
use go_silver_core.WebUi.Agent.Runs.{
  new_agent, Run, here, next, launches, finishes, leaves, stops, waits, ends,
}
use go_silver_core.WebUi.Agent.Runs.Slots.{working}
use go_silver_core.WebUi.Agent.Runs.Frame.{IsEnded}
use go_silver_core.WebUi.Agent.Runs.Owners.{worker_id, is_cancelled, Run-owner, Run-closed}

abbrev echo : Shell
echo = record {
  writes = λ text dir limit. text ∷ codes "!" ∷ [];
  context_error = λ text dir limit. none;
  run_error = λ text dir limit. none;
}

abbrev say : Command
say = record { id = codes "c"; text = codes "hello"; directory = codes "/"; timeout = pos 5 }

execute-output_example : (execute echo true say).0 ≡ some (codes "hello!")
execute-output_example = execute-output echo say

abbrev fresh : Agent
fresh = new_agent (codes "/home") (codes "key") (codes "10.0.0.1:9") true

abbrev busy : Agent
busy = (launch (codes "t") fresh).1

abbrev first_run : Run fresh busy
first_run = next here (launches (codes "t") refl)

busy_works : is_working 0 busy.download.jobs ≡ true
unfolding launch launch_in new_agent
busy_works = refl

Run-owner_example :
    (worker_id 0 busy.download.jobs ≡ some busy.download.state.id)
    × (busy.download.state.status ≡ running)
    × (working busy.download.jobs ≡ 1)
    × (is_cancelled 0 (cancel_in busy.download).jobs ≡ true)
Run-owner_example =
    Run-owner (codes "/home") (codes "key") (codes "10.0.0.1:9") true busy busy.download 0 first_run
      (inl refl) busy_works

abbrev seeds : Agent
seeds = finish_download 0 none busy

abbrev alone : Agent
alone = record seeds { download = leave_in 0 seeds.download }

abbrev stopping : Agent
stopping = stop alone

abbrev emptied : Agent
emptied = record stopping { closing = waited }

abbrev gone : Agent
gone = end_all emptied

stopping_empty :
    (stopping.download.jobs ≡ []) × (stopping.command.jobs ≡ []) × (gone.closing ≡ closed)
unfolding stop finish_download finish_in leave_in launch launch_in new_agent end_all
stopping_empty = (refl, refl, refl)

last_run : Run fresh gone
unfolding stop finish_download launch new_agent end_all
last_run =
    next
      (next
        (next (next (next first_run (finishes 0 none busy_works refl)) (leaves 0 refl))
          (stops refl refl))
        (waits refl stopping_empty.0 stopping_empty.1 refl))
      (ends refl refl)

Run-closed_example :
    (gone.download.jobs ≡ [])
    × (gone.command.jobs ≡ [])
    × (is_running gone.download.state.status ≡ false)
    × (is_running gone.command.state.status ≡ false)
    × IsEnded gone.download
    × (gone.dirs ≡ [])
    × ((launch (codes "u") gone).0 ≡ err context_canceled)
    × ((launch_command say gone).0 ≡ err context_canceled)
Run-closed_example =
    Run-closed (codes "/home") (codes "key") (codes "10.0.0.1:9") true gone (codes "u") say last_run
      stopping_empty.2
