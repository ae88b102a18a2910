-- ===== src/Examples/Listeners.antt =====
-- A session that is stopped while it has a connection.
use go_silver_core.Prelude.{◌≤◌, ◌≡◌, refl, true, false, not, ◌&&◌, ◌||◌, All, [], ◌∷◌, length}
use go_silver_core.Server.Listener.{
  Listener, new_listener, accept, start, stop, Run, here, step, starts, accepts, stops,
}
use go_silver_core.Server.Listener.Closing.{is_shut, same_length, Run-reached}

abbrev stopped : Listener
stopped = record { listening = false; done = true; connections = 5 ∷ []; shut = 5 ∷ [] }

to_stopped : Run new_listener stopped
unfolding start accept stop
to_stopped = step _ _ _ (starts new_listener (record new_listener { listening = true }) true refl) (
    step _ _ _ (accepts (record new_listener { listening = true }) 5) (
      step _ _ _ (stops (record new_listener { listening = true; connections = 5 ∷ [] }))
        (here stopped)))

Run-reached_example :
    (length stopped.connections ≤ 512)
    × All (λ k. (not stopped.done || is_shut stopped k) ≡ true) stopped.connections
    × ((not stopped.done
          || (is_shut (accept 6 stopped) 6
              && same_length (accept 6 stopped).connections stopped.connections))
        ≡ true)
Run-reached_example = Run-reached stopped 6 to_stopped
