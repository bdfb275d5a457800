-- ===== src/State/Notifier.antt =====
-- daemon/internal/state/notifications.go: the queue between the event loop and the worker that runs
-- Hooks. `submitted` and `delivered` are not in the source: they keep what was accepted and what was
-- handed to the scripts, oldest first.
pub mod Order
use nixos_wanwatch.Prelude.{
  ℕ, Bool, true, false, ◌||◌, Option, none, some, List, [], ◌∷◌, ◌++◌, map, String, ltb, length,
  if◌then◌else◌,
}
use nixos_wanwatch.Decision.{Event}
use nixos_wanwatch.State.{HookContext, event_text}
use nixos_wanwatch.State.Hooks.{
  HookOutcome, hook_ok, hook_nonzero, hook_timeout, hook_error, hook_skipped, hook_cancelled,
  HookResult,
}

abbrev pub hook_queue_capacity : ℕ
hook_queue_capacity = 32

abbrev pub max_hooks_per_event : ℕ
max_hooks_per_event = 8

-- `jobs` is the channel, `none` before the first submission, which also starts the worker; `finished`
-- is set when the worker has returned.
pub record Notifier : Type 0 where
  pub cancelled : Bool
  pub jobs : Option (List HookContext)
  pub closed : Bool
  pub finished : Bool
  pub submitted : List HookContext
  pub delivered : List HookContext

unfoldable pub new_hook_notifier : Notifier
new_hook_notifier = record {
  cancelled = false;
  jobs = none;
  closed = false;
  finished = false;
  submitted = [];
  delivered = [];
}

abbrev pub queued : Option (List HookContext) → List HookContext
queued none = []
queued (some js) = js

-- The zero time becomes the time of the submission.
abbrev pub stamped : ℕ → Option ℕ → Option ℕ
stamped now none = some now
stamped now (some t) = some t

-- A submission that is not refused at once: a full queue drops it.
unfoldable pub enqueue : HookContext → Notifier → Bool × Notifier
enqueue h n =
    let js = queued n.jobs in
    if ltb (length js) hook_queue_capacity
    then (true, record n { jobs = some (js ++ h ∷ []); submitted = n.submitted ++ h ∷ [] })
    else (false, record n { jobs = some js })

-- `now` is the time of the call. Whether it was accepted, and the notifier.
unfoldable pub notify : ℕ → HookContext → Notifier → Bool × Notifier
unfolding enqueue
notify now h n =
    let sent = enqueue (record h { timestamp = stamped now h.timestamp }) n in
    if n.closed || n.cancelled then (false, n) else sent

-- `Close` up to its wait for the worker.
unfoldable pub close : Notifier → Notifier
close n = record n { closed = true }

-- What the worker's next turn does: `none` while it would wait. With a job and the cancellation both
-- there, `select` may take either, and the worker stops in both cases.
unfoldable pub take_job : Notifier → Option (List HookContext) → Option Notifier
take_job n none = none
take_job n (some (h ∷ js)) = some (record n { jobs = some js; delivered = n.delivered ++ h ∷ [] })
take_job n (some []) = if n.closed then some (record n { finished = true }) else none

unfoldable pub deliver_one : Notifier → Option Notifier
unfolding take_job
deliver_one n =
    let turn = take_job n n.jobs in
    if n.finished then none else elim n.jobs [
      | none ↦ none
      | some js ↦ if n.cancelled then some (record n { finished = true }) else turn
    ]

-- The counter of Hook runs, with its labels.
pub data Metric : Type 0 where
  hook_invocations_inc : (group event : String) → HookOutcome → Metric

-- What `execute` counts of a run's results: a Hook that was skipped or cancelled is not counted.
unfoldable pub counted : HookContext → List HookResult → List Metric
counted h [] = []
counted h (r ∷ rs) =
    let rest = counted h rs in
    elim r.outcome [
      | hook_skipped ↦ rest
      | hook_cancelled ↦ rest
      | o ↦ hook_invocations_inc h.group (event_text h.event) o ∷ rest
    ]
