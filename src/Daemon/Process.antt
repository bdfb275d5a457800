-- ===== src/Daemon/Process.antt =====
-- What keeps the daemon's parts running, and how it exits (daemon/cmd/wanwatchd/main.go); the interfaces
-- that it watches (subscribers.go).
use Prim.Native.String.{String}
use nixos_wanwatch.Prelude.{
  ℕ, ◌*◌, ◌≤◌, ◌≡◌, refl, Bool, true, false, ◌||◌, Option, none, some, List, [], ◌∷◌, map, Result,
  ok, err, arith, if◌then◌else◌, leb, min, All,
}
use nixos_wanwatch.Prelude.Text.{str_eq}
use nixos_wanwatch.Config.Types.{Config}

pub data Level : Type 0 where
  level_debug level_info level_warn level_error : Level

-- The error has the name.
unfoldable pub parse_log_level : String → Result String Level
parse_log_level name =
    if str_eq name "debug"
    then ok level_debug
    else if str_eq name "info" || str_eq name ""
    then ok level_info
    else if str_eq name "warn"
    then ok level_warn
    else if str_eq name "error"
    then ok level_error
    else err name

-- The errors that `errors.Is` looks for, and one that it does not.
pub data Sentinel : Type 0 where
  shutdown canceled subsystem_stopped : Sentinel

pub data Error : Type 0 where
  sentinel : Sentinel → Error
  text : String → Error
  wrapped : String → Error → Error

abbrev eq_sentinel : Sentinel → Sentinel → Bool
eq_sentinel shutdown shutdown = true
eq_sentinel canceled canceled = true
eq_sentinel subsystem_stopped subsystem_stopped = true
eq_sentinel _ _ = false

-- `errors.Is`
abbrev pub error_is : Error → Sentinel → Bool
error_is (sentinel s) t = eq_sentinel s t
error_is (text m) t = false
error_is (wrapped m e) t = error_is e t

unfoldable pub is_clean_shutdown : Option Error → Bool
is_clean_shutdown none = true
is_clean_shutdown (some cause) = error_is cause shutdown || error_is cause canceled

abbrev cause_of : String → Option Error → Error
cause_of name none = wrapped name (sentinel subsystem_stopped)
cause_of name (some e) =
    if error_is e canceled
    then wrapped name (wrapped "" (sentinel subsystem_stopped))
    else wrapped name e

-- The cause with which a subsystem's exit cancels the daemon, given its error and whether the context
-- was done. The text of a second wrapping is left out.
unfoldable pub supervise : String → (done : Bool) → Option Error → Option Error
supervise name true e = none
supervise name false e = some (cause_of name e)

-- What `run` returns for the context's cause: `none` is exit status 0.
unfoldable pub exit_error : Option Error → Option Error
unfolding is_clean_shutdown
exit_error none = none
exit_error (some cause) =
    if is_clean_shutdown (some cause) then none else some (wrapped "daemon stopped" cause)

-- A subsystem that exits while the daemon runs cancels it with a cause that makes the process fail,
-- also when it returned no error or a cancellation of its own, where its error does not wrap the
-- shutdown cause, which only `run` has; once the context is done, an exit cancels nothing.
pub supervise-exit_error :
    (name : String) (e : Option Error)
    → ((x : Error) → e ≡ some x → error_is x shutdown ≡ false)
    → ((cause : Error) × (supervise name false e ≡ some cause)
        × (exit_error (some cause) ≡ some (wrapped "daemon stopped" cause)))
      × (supervise name true e ≡ none)
unfolding supervise exit_error is_clean_shutdown
supervise-exit_error name none h = ((cause_of name none, refl, refl), refl)
supervise-exit_error name (some x) h =
    ((cause_of name (some x), refl, ground (arith, h x refl)), refl)

pub record RetryBackoff : Type 0 where
  pub min_delay : ℕ
  pub max_delay : ℕ

-- The delay of the next retry, given how long the run before it lasted.
unfoldable pub this_delay : RetryBackoff → ℕ → ℕ → ℕ
this_delay b delay lasted = if leb b.max_delay lasted then b.min_delay else delay

-- The delays before the retries, one for each run.
unfoldable pub delays : RetryBackoff → ℕ → List ℕ → List ℕ
unfolding this_delay
delays b delay [] = []
delays b delay (lasted ∷ runs) =
    let d = this_delay b delay lasted in d ∷ delays b (min (2 * d) b.max_delay) runs

-- Every delay is within the bounds, whatever the runs before it were.
pub delays_bounds :
    (b : RetryBackoff) (delay : ℕ) (runs : List ℕ)
    → b.min_delay ≤ b.max_delay
    → b.min_delay ≤ delay
    → delay ≤ b.max_delay
    → All (λ d. (b.min_delay ≤ d) × (d ≤ b.max_delay)) (delays b delay runs)
unfolding delays this_delay
delays_bounds b delay [] h l u = tt
delays_bounds b delay (lasted ∷ runs) h l u =
    let d = this_delay b delay lasted in
    (
      (ground arith, ground arith),
      delays_bounds b (min (2 * d) b.max_delay) runs h (ground arith) (ground arith),
    )

-- A Go set as the list of its members, with repetitions.
abbrev pub watched_interfaces : Config → List String
watched_interfaces cfg = map (λ e. e.1.interface) cfg.wans
