-- ===== src/WebUi/Agent/Runs/Keeps.antt =====
-- internal/webui/agent.go: each step of an agent keeps the invariant.
use go_silver_core.Prelude.{
  ℕ, ◌≡◌, refl, subst, sym, ◌∙◌, Bool, true, false, Option, [], Str, ◌⊎◌, inl, inr, Bool-cases,
  arith,
}
use go_silver_core.Server.Sched.{is_empty}
use go_silver_core.WebUi.{Err, Progress, Command, ended, is_running, seeding, completed}
use go_silver_core.WebUi.Agent.{
  Agent, Slot, open_, stopped_, waited, launch, launch_in, launch_command, cancel_task,
  cancel_command, finish_download, finish_command, leave_in, is_working, report_progress,
  keep_output, make_cache, remove_cache, prune_caches, stop, end_all, end_task,
}
use go_silver_core.WebUi.Agent.Runs.{
  new_agent, Step, launches, launches_command, cancels, cancels_command, reports, outputs,
  makes_cache, removes_cache, prunes, finishes, finishes_command, leaves, leaves_command, stops,
  waits, ends, Run, here, next,
}
use go_silver_core.WebUi.Agent.Runs.Slots.{
  Held, launch_in-Held, cancel_in-Held, finish_in-Held, leave_in-Held,
}
use go_silver_core.WebUi.Agent.Runs.Caches.{
  AreListed, make_cache_lem, remove_cache_lem, prune_caches_lem, all_removed,
}
use go_silver_core.WebUi.Agent.Runs.Frame.{
  begun, all_gone, IsEnded, Inv, gone-begun, closed-gone, launch_refused, cancel_quiet, leave_quiet,
  with_download, with_command, download-busy, command-busy, with_caches,
}

shut_slot :
    (a : Agent) (ctx : ℕ) (kind id : Str) (s : Slot)
    → Inv a
    → all_gone a.closing ≡ true
    → s ≡ (launch_in a.stopped ctx kind id s).1
shut_slot a ctx kind id s v g =
    launch_refused a.stopped ctx kind id s (v.refused (gone-begun a.closing g))

launch-Inv : (id : Str) (a : Agent) → Inv a → Inv (launch id a).1
unfolding launch
launch-Inv id a v =
    with_download a v _ _ (launch_in-Held a.stopped a.next_ctx _ id a.download v.download)
      (λ g. subst (λ s. s.jobs ≡ []) (shut_slot a a.next_ctx _ id a.download v g) (v.no_download g))
      (λ h.
        subst IsEnded (shut_slot a a.next_ctx _ id a.download v (closed-gone a.closing h))
          (v.marked h))

launch_command-Inv : (c : Command) (a : Agent) → Inv a → Inv (launch_command c a).1
unfolding launch_command
launch_command-Inv c a v =
    with_command a v _ _ (launch_in-Held a.stopped a.next_ctx _ c.id a.command v.command)
      (λ g. subst (λ s. s.jobs ≡ []) (shut_slot a a.next_ctx _ c.id a.command v g) (v.no_command g))

stop-Inv : (a : Agent) → a.closing ≡ open_ → Inv a → Inv (stop a)
unfolding stop
stop-Inv a o v = record {
  download = v.download;
  command = v.command;
  caches = v.caches;
  refused = λ h. refl;
  no_download = λ h. absurd (cc);
  no_command = λ h. absurd (cc);
  removed = λ h. absurd (cc);
  marked = λ h. absurd (cc);
}

wait-Inv :
    (a : Agent)
    → a.closing ≡ stopped_
    → a.download.jobs ≡ []
    → a.command.jobs ≡ []
    → Inv a
    → Inv (record a { closing = waited })
wait-Inv a o d c v = record {
  download = v.download;
  command = v.command;
  caches = v.caches;
  refused = λ h. v.refused (subst (λ p. begun p ≡ true) (sym o) refl);
  no_download = λ h. d;
  no_command = λ h. c;
  removed = λ h. absurd (cc);
  marked = λ h. absurd (cc);
}

end_task-jobs : (s : Slot) → (end_task s).jobs ≡ s.jobs
unfolding end_task
end_task-jobs s = ground arith

end_task-IsEnded : (s : Slot) → IsEnded (end_task s)
unfolding end_task
end_task-IsEnded s = elim (Bool-cases (is_empty s.state.id)) [
  | inl never ↦ inl (ground (arith, never))
  | inr ever ↦ inr (ground (arith, ever))
]

nobody-Held : (s : Slot) → s.jobs ≡ [] → is_running s.state.status ≡ false → Held s
nobody-Held s n r = record { owned = rw n tt; counted = rw (n, r) refl }

pub idle_slot : (s : Slot) → s.jobs ≡ [] → Held s → is_running s.state.status ≡ false
idle_slot s n v = ground (arith, n, v.counted)

end_task-Held : (s : Slot) → s.jobs ≡ [] → Held s → Held (end_task s)
unfolding end_task
end_task-Held s n v =
    nobody-Held (end_task s) (end_task-jobs s ∙ n) (ground (arith, idle_slot s n v))

end_all-Inv : (a : Agent) → a.closing ≡ waited → Inv a → Inv (end_all a)
unfolding end_all
end_all-Inv a o v =
    let g = subst (λ p. all_gone p ≡ true) (sym o) refl in
    record {
      download = end_task-Held a.download (v.no_download g) v.download;
      command = v.command;
      caches = subst (AreListed a.cache) (sym (all_removed a.cache a.dirs v.caches)) tt;
      refused = λ h. v.refused (gone-begun a.closing g);
      no_download = λ h. end_task-jobs a.download ∙ v.no_download g;
      no_command = λ h. v.no_command g;
      removed = λ h. all_removed a.cache a.dirs v.caches;
      marked = λ h. end_task-IsEnded a.download;
    }

cancel_task-Inv : (a : Agent) → Inv a → Inv (cancel_task a)
unfolding cancel_task
cancel_task-Inv a v =
    let (quiet, same_state) = cancel_quiet a.download in
    with_download a v _ a.next_ctx (cancel_in-Held a.download v.download)
      (λ g. quiet (v.no_download g))
      (λ h. subst (λ t. (is_empty t.id ≡ true) ⊎ (t.status ≡ ended)) (sym same_state) (v.marked h))

cancel_command-Inv : (a : Agent) → Inv a → Inv (cancel_command a)
unfolding cancel_command
cancel_command-Inv a v =
    with_command a v _ a.next_ctx (cancel_in-Held a.command v.command)
      (λ g. (cancel_quiet a.command).0 (v.no_command g))

leave_marked : {P : Type 0} (c : ℕ) (s : Slot) → (P → IsEnded s) → P → IsEnded (leave_in c s)
unfolding leave_in
leave_marked c s h = h

-- The steps of a goroutine at work.
module _ (a : Agent) (c : ℕ) where
  report_progress-Inv :
      (p : Progress) → is_working c a.download.jobs ≡ true → Inv a → Inv (report_progress p a)
  unfolding report_progress
  report_progress-Inv p w v =
      with_download a v _ a.next_ctx
        (record { owned = v.download.owned; counted = v.download.counted }) v.no_download v.marked

  keep_output-Inv :
      (text : Str) → is_working c a.command.jobs ≡ true → Inv a → Inv (keep_output text a)
  unfolding keep_output
  keep_output-Inv text w v =
      with_command a v _ a.next_ctx
        (record { owned = v.command.owned; counted = v.command.counted }) v.no_command

  make_cache-Inv : (p : Str) → is_working c a.download.jobs ≡ true → Inv a → Inv (make_cache p a)
  unfolding make_cache
  make_cache-Inv p w v = with_caches a v c _ _ w (make_cache_lem p a v.caches)

  remove_cache-Inv :
      (p : Str) → is_working c a.download.jobs ≡ true → Inv a → Inv (remove_cache p a)
  unfolding remove_cache
  remove_cache-Inv p w v = with_caches a v c _ _ w (remove_cache_lem p a v.caches)

  prune_caches-Inv :
      (p : Str) → is_working c a.download.jobs ≡ true → Inv a → Inv (prune_caches p a)
  unfolding prune_caches
  prune_caches-Inv p w v = with_caches a v c _ _ w (prune_caches_lem p a v.caches)

  finish_download-Inv :
      (e : Option Err) → is_working c a.download.jobs ≡ true → Inv a → Inv (finish_download c e a)
  unfolding finish_download
  finish_download-Inv e w v =
      with_download a v _ a.next_ctx (finish_in-Held seeding c e a.download refl w v.download)
        (λ g. absurd (download-busy a v c w g))
        (λ h. absurd (download-busy a v c w (closed-gone a.closing h)))

  finish_command-Inv :
      (e : Option Err) → is_working c a.command.jobs ≡ true → Inv a → Inv (finish_command c e a)
  unfolding finish_command
  finish_command-Inv e w v =
      with_command a v _ a.next_ctx (finish_in-Held completed c e a.command refl w v.command)
        (λ g. absurd (command-busy a v c w g))

Step-Inv : {a b : Agent} → Step a b → Inv a → Inv b
Step-Inv {a} (launches id e) v = subst Inv (sym e) (launch-Inv id a v)
Step-Inv {a} (launches_command c e) v = subst Inv (sym e) (launch_command-Inv c a v)
Step-Inv {a} (cancels e) v = subst Inv (sym e) (cancel_task-Inv a v)
Step-Inv {a} (cancels_command e) v = subst Inv (sym e) (cancel_command-Inv a v)
Step-Inv {a} (reports c p w e) v = subst Inv (sym e) (report_progress-Inv a c p w v)
Step-Inv {a} (outputs c text w e) v = subst Inv (sym e) (keep_output-Inv a c text w v)
Step-Inv {a} (makes_cache c p w e) v = subst Inv (sym e) (make_cache-Inv a c p w v)
Step-Inv {a} (removes_cache c p w e) v = subst Inv (sym e) (remove_cache-Inv a c p w v)
Step-Inv {a} (prunes c p w e) v = subst Inv (sym e) (prune_caches-Inv a c p w v)
Step-Inv {a} (finishes c r w e) v = subst Inv (sym e) (finish_download-Inv a c r w v)
Step-Inv {a} (finishes_command c r w e) v = subst Inv (sym e) (finish_command-Inv a c r w v)
Step-Inv {a} (leaves c e) v = subst Inv (sym e) (
    with_download a v _ a.next_ctx (leave_in-Held c a.download v.download)
      (λ g. leave_quiet c a.download (v.no_download g)) (leave_marked c a.download v.marked))
Step-Inv {a} (leaves_command c e) v = subst Inv (sym e) (
    with_command a v _ a.next_ctx (leave_in-Held c a.command v.command)
      (λ g. leave_quiet c a.command (v.no_command g)))
Step-Inv {a} (stops o e) v = subst Inv (sym e) (stop-Inv a o v)
Step-Inv {a} (waits o d c e) v = subst Inv (sym e) (wait-Inv a o d c v)
Step-Inv {a} (ends o e) v = subst Inv (sym e) (end_all-Inv a o v)

pub new_agent-Inv :
    (root token sender_addr : Str) (allow : Bool) → Inv (new_agent root token sender_addr allow)
unfolding new_agent
new_agent-Inv root token sender_addr allow = record {
  download = record { owned = tt; counted = refl };
  command = record { owned = tt; counted = refl };
  caches = tt;
  refused = λ h. absurd (cc);
  no_download = λ h. refl;
  no_command = λ h. refl;
  removed = λ h. refl;
  marked = λ h. inl refl;
}

pub Run-Inv : {a b : Agent} → Run a b → Inv a → Inv b
Run-Inv here v = v
Run-Inv (next r s) v = Step-Inv s (Run-Inv r v)
