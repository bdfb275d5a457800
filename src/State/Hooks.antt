-- ===== src/State/Hooks.antt =====
-- daemon/internal/state/hooks.go: the running of a Decision's Hooks. Directories, processes, signals
-- and the environment are parameters over a world `W`; a result's error and duration are left out.
pub mod Env
pub mod Runs
use Prim.Native.String.{◌++◌ as ◌+++◌}
use nixos_wanwatch.Prelude.{
  ℕ, zero, suc, ◌+◌, ◌-◌, ◌%◌, ◌/◌, Bool, true, false, not, ◌&&◌, ◌||◌, Option, none, some, List,
  [], ◌∷◌, ◌++◌, map, String, Result, ok, err, ◌==◌, leb, ltb, if◌then◌else◌, keep, take, length,
  min,
}
use nixos_wanwatch.Prelude.Int.{ℤ, pos, negsuc}
use nixos_wanwatch.Prelude.Text.{str_eq, str_le}
use nixos_wanwatch.Prelude.Sort.{sort_by}
use nixos_wanwatch.State.{HookContext, event_text}

pub data HookOutcome : Type 0 where
  hook_ok hook_nonzero hook_timeout hook_error hook_skipped hook_cancelled : HookOutcome

pub record HookResult : Type 0 where
  pub path : String
  pub outcome : HookOutcome
  pub exit_code : ℤ
  pub output : List ℕ

-- In milliseconds.
abbrev pub default_hook_timeout : ℤ
default_hook_timeout = pos 5000

abbrev pub max_hook_output : ℕ
max_hook_output = 16_384

-- Bytes are numbers.
pub record CappedBuffer : Type 0 where
  pub limit : ℕ
  pub buf : List ℕ
  pub written : ℕ

-- A buffer that nothing was written to.
abbrev pub empty_buffer : ℕ → CappedBuffer
empty_buffer limit = record { limit = limit; buf = []; written = 0 }

unfoldable pub write_buffer : List ℕ → CappedBuffer → CappedBuffer
write_buffer p b =
    let room = b.limit - length b.buf in
    record b {
      written = b.written + length p;
      buf = if ltb 0 room then b.buf ++ take (min (length p) room) p else b.buf;
    }

-- "\n[hook output truncated]"
abbrev pub truncated_mark : List ℕ
truncated_mark =
    10 ∷ 91 ∷ 104 ∷ 111 ∷ 111 ∷ 107 ∷ 32 ∷ 111 ∷ 117 ∷ 116 ∷ 112 ∷ 117 ∷ 116 ∷ 32 ∷ 116 ∷ 114 ∷ 117
    ∷ 110 ∷ 99 ∷ 97 ∷ 116 ∷ 101 ∷ 100 ∷ 93 ∷ []

unfoldable pub buffer_text : CappedBuffer → List ℕ
buffer_text b = if ltb b.limit b.written then b.buf ++ truncated_mark else b.buf

-- An error of a signal: ESRCH from the process group, os.ErrProcessDone from the process, or another.
pub data KillError (E : Type 0) : Type 0 where
  no_such_process process_done : KillError E
  kill_failed : E → KillError E

-- `none` is success.
module _ {W E : Type 0} (kill_group kill_process : W → Option (KillError E) × W) where
  abbrev on_group : Option (KillError E) × W → Option (KillError E) × W
  on_group (none, w) = (none, w)
  on_group (some no_such_process, w) = kill_process w
  on_group (some process_done, w) = (some process_done, w)
  on_group (some (kill_failed e), w) = (some (kill_failed e), w)

  unfoldable pub cancel_hook : W → Option (KillError E) × W
  cancel_hook w = on_group (kill_group w)

-- How `cmd.Run` failed: with the exit code of an ExitError, or otherwise.
pub data RunError : Type 0 where
  exit_error : ℤ → RunError
  other_error : RunError

abbrev pub killed_code : ℤ
killed_code = negsuc 0

-- The result of a process that ended, with the parent's and the Hook's context as they are then.
unfoldable pub classify :
    String → List ℕ → (parent_cancelled deadline : Bool) → Option RunError → HookResult
classify path out parent_cancelled deadline none = record {
  path = path;
  outcome = hook_ok;
  exit_code = pos 0;
  output = out;
}
classify path out true deadline (some e) = record {
  path = path;
  outcome = hook_cancelled;
  exit_code = killed_code;
  output = out;
}
classify path out false true (some e) = record {
  path = path;
  outcome = hook_timeout;
  exit_code = killed_code;
  output = out;
}
classify path out false false (some (exit_error code)) = record {
  path = path;
  outcome = hook_nonzero;
  exit_code = code;
  output = out;
}
classify path out false false (some other_error) = record {
  path = path;
  outcome = hook_error;
  exit_code = killed_code;
  output = out;
}

-- How a process ended: its writes to the two streams in order, and the contexts after it.
pub record Ended : Type 0 where
  pub error : Option RunError
  pub writes : List (List ℕ)
  pub parent_cancelled : Bool
  pub deadline : Bool

abbrev pub write_all : List (List ℕ) → CappedBuffer → CappedBuffer
write_all [] b = b
write_all (p ∷ ps) b = write_all ps (write_buffer p b)

pub record DirEntry : Type 0 where
  pub name : String
  pub is_dir : Bool

pub data DirError (E : Type 0) : Type 0 where
  dir_not_exist : DirError E
  dir_failed : E → DirError E

pub record HookRunner : Type 0 where
  pub dir : String
  pub timeout : ℤ
  pub max_hooks : ℕ

-- `run_process` runs a file with an environment and a timeout; `stat` gives the mode bits of a file.
module _ {W E : Type 0} (run_process : String → List String → ℤ → W → Ended × W)
    (read_dir : String → W → Result (DirError E) (List DirEntry)) (stat : String → W → Option ℕ)
    (cancelled : W → Bool) where
  pub run_one : List String → ℤ → String → W → HookResult × W
  unfolding classify write_buffer buffer_text
  run_one env timeout path w =
      let (e, w') = run_process path env timeout w in
      (
        classify path (buffer_text (write_all e.writes (empty_buffer max_hook_output)))
            e.parent_cancelled e.deadline e.error,
        w',
      )

  -- The permission bits 0o111.
  abbrev is_executable : Option ℕ → Bool
  is_executable none = false
  is_executable (some mode) =
      not (mode % 2 == 0) || not (mode / 8 % 2 == 0) || not (mode / 64 % 2 == 0)

  abbrev pub join : String → String → String
  join dir name = dir +++ "/" +++ name

  pub hook_paths : String → List DirEntry → W → List String
  hook_paths dir entries w = sort_by str_le (
      keep (λ path. is_executable (stat path w))
        (map (λ e. join dir e.name) (keep (λ e. not e.is_dir) entries)))

  abbrev pub skipped_result : String → HookResult
  skipped_result path = record {
    path = path;
    outcome = hook_skipped;
    exit_code = killed_code;
    output = [];
  }

  -- The loop, with the index of the next Hook. A `max_hooks` of 0 is no limit.
  pub run_each : HookRunner → List String → ℤ → ℕ → List String → W → List HookResult × W
  unfolding run_one
  run_each r env timeout i [] w = ([], w)
  run_each r env timeout i (path ∷ paths) w =
      let skip = ltb 0 r.max_hooks && leb r.max_hooks i in
      let (result, w') = (if skip then (skipped_result path, w) else run_one env timeout path w) in
      let (rest, v) = run_each r env timeout (suc i) paths w' in
      if cancelled w then ([], w) else (result ∷ rest, v)

  abbrev or_default : ℤ → ℤ
  or_default (pos zero) = default_hook_timeout
  or_default t = t

  abbrev pub event_dir : HookRunner → HookContext → String
  event_dir r ctx = join r.dir (event_text ctx.event +++ ".d")

  abbrev in_dir :
      HookRunner
      → String
      → List String
      → Result (DirError E) (List DirEntry)
      → W
      → List HookResult × W
  in_dir r dir env (err dir_not_exist) w = ([], w)
  in_dir r dir env (err (dir_failed e)) w =
      (record { path = dir; outcome = hook_error; exit_code = killed_code; output = [] } ∷ [], w)
  in_dir r dir env (ok entries) w =
      run_each r env (or_default r.timeout) 0 (hook_paths dir entries w) w

  -- `env` is the environment that `buildEnv` builds.
  pub run : HookRunner → List String → HookContext → W → List HookResult × W
  unfolding run_each hook_paths
  run r env ctx w = in_dir r (event_dir r ctx) env (read_dir (event_dir r ctx) w) w
