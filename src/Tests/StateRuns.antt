-- ===== src/Tests/StateRuns.antt =====
-- The theorems on the State file, the Hooks and their queue.
use nixos_wanwatch.Prelude.{
  ℕ, suc, ◌-◌, ◌≡◌, refl, true, false, none, some, List, [], ◌∷◌, map, ◌++◌, String, Result, ok,
  if◌then◌else◌, length, take, ltb, In, ◌↔◌, ◌⊎◌,
}
use nixos_wanwatch.Prelude.Int.{ℤ, pos}
use nixos_wanwatch.State.{State, HookContext}
use nixos_wanwatch.State.Writer.{Files}
use nixos_wanwatch.State.Notifier.{Notifier, new_hook_notifier, notify, close}
use nixos_wanwatch.State.Notifier.Order.{
  Reach, start, next, notifies, cancels, IsOrdered, work, new_hook_notifier-IsOrdered,
  close-Delivers,
}
use nixos_wanwatch.State.Hooks.{
  buffer_text, write_all, empty_buffer, truncated_mark, HookRunner, Ended, run_each, DirError,
  DirEntry,
}
use nixos_wanwatch.State.Hooks.Runs.{concat, buffer_text_lem, Capped, run_each-Capped}
use nixos_wanwatch.State.Hooks.Env.{build_env}
use nixos_wanwatch.State.Hooks.Env.Documented.{assigned, Inherited, variables, build_env-assigned}
use nixos_wanwatch.Decision.{switch}
use nixos_wanwatch.Tests.HealthRuns.{counts}

-- The world is what stands at the path, and what the temporary file holds.
abbrev files : Files (State counts) (String × String) String
files = record {
  File = String;
  Bytes = String;
  now = λ w. 5;
  marshal = λ s. ok s.version;
  create_temp = λ w. (ok "tmp", (w.0, ""));
  write_file = λ f b w. (none, (w.0, b));
  chmod = λ f w. (none, w);
  close = λ f w. (none, w);
  replace = λ f w. (none, (w.1, ""));
  remove = λ f w. w;
}

abbrev at_path : String × String → String
at_path w = w.0

abbrev held : String → String × String → String
held f w = w.1

abbrev blank : State counts
blank = record {
  schema = pos 0;
  version = "1.0";
  started_at = 0;
  updated_at = none;
  wans = [];
  groups = [];
}

abbrev before : String × String
before = ("old", "")

abbrev told : HookContext
told = record {
  event = switch;
  group = "home";
  wan_old = "primary";
  wan_new = "backup";
  interface_old = "eth0";
  interface_new = "eth1";
  gateway_v4_old = "";
  gateway_v4_new = "";
  gateway_v6_old = "";
  gateway_v6_new = "";
  families_old = "v4" ∷ [];
  families_new = "v4" ∷ "v6" ∷ [];
  table = pos 100;
  mark = pos 7;
  timestamp = none;
}

abbrev one_told : Notifier
one_told = (notify 5 told new_hook_notifier).1

abbrev one_told-Reach : Reach new_hook_notifier one_told
one_told-Reach = next (start new_hook_notifier) (notifies 5 told new_hook_notifier)

new_hook_notifier-IsOrdered_example : IsOrdered (record one_told { cancelled = true })
new_hook_notifier-IsOrdered_example =
    new_hook_notifier-IsOrdered (next one_told-Reach (cancels one_told))

abbrev queue : List HookContext
queue = record told { timestamp = some 5 } ∷ []

close-Delivers_example :
    let n' = work (suc (length queue)) (close one_told) in
    (n'.delivered ≡ one_told.submitted) × (n'.finished ≡ true)
unfolding notify new_hook_notifier
close-Delivers_example =
    close-Delivers one_told queue (new_hook_notifier-IsOrdered one_told-Reach) refl refl refl

buffer_text_example : buffer_text (write_all ((1 ∷ 2 ∷ []) ∷ (3 ∷ []) ∷ []) (empty_buffer 2)) ≡ (
    if ltb 2 (length (concat ((1 ∷ 2 ∷ []) ∷ (3 ∷ []) ∷ [])))
    then take 2 (concat ((1 ∷ 2 ∷ []) ∷ (3 ∷ []) ∷ [])) ++ truncated_mark
    else take 2 (concat ((1 ∷ 2 ∷ []) ∷ (3 ∷ []) ∷ [])))
buffer_text_example = buffer_text_lem ((1 ∷ 2 ∷ []) ∷ (3 ∷ []) ∷ []) 2

abbrev succeeds : String → List String → ℤ → ℕ → Ended × ℕ
succeeds path env timeout w =
    (record { error = none; writes = []; parent_cancelled = false; deadline = false }, suc w)

abbrev no_dir : String → ℕ → Result (DirError String) (List DirEntry)
no_dir dir w = ok []

abbrev runner : HookRunner
runner = record { dir = "/etc/wanwatch/hooks"; timeout = pos 5000; max_hooks = 1 }

run_each-Capped_example :
    Capped succeeds no_dir
      (λ path w. some 493)
      (λ w. false)
      runner
      []
      (pos 5000)
      (1 - 0)
      ("10-a" ∷ "20-b" ∷ [])
      (run_each succeeds no_dir
        (λ path w. some 493)
        (λ w. false)
        runner
        []
        (pos 5000)
        0
        ("10-a" ∷ "20-b" ∷ [])
        0).0
run_each-Capped_example =
    run_each-Capped succeeds no_dir (λ path w. some 493) (λ w. false) runner [] (pos 5000) 0
      ("10-a" ∷ "20-b" ∷ []) 0

abbrev environ : List String
environ = "LC_ALL=C" ∷ "NOTIFY_SOCKET=/run/x" ∷ []

build_env_example :
    In (assigned ("LC_ALL", "C")) (build_env (λ n. "0") (λ t. "now") environ 5 told) ↔ (
      (In (assigned ("LC_ALL", "C")) environ × Inherited "LC_ALL")
      ⊎ In (assigned ("LC_ALL", "C")) (map assigned (variables (λ n. "0") (λ t. "now") 5 told)))
build_env_example =
    build_env-assigned (λ n. "0") (λ t. "now") environ 5 told "LC_ALL" "C"
      (refl, (refl, (refl, (refl, (refl, (refl, tt))))))
