-- ===== src/State/Hooks/Env.antt =====
-- The environment of a Hook (daemon/internal/state/hooks.go). `itoa` and `format_time` are of the
-- packages strconv and time.
pub mod Documented
use Prim.Native.String.{[], ◌∷◌, ◌++◌ as ◌+++◌}
use Prim.Native.Char.{code}
use text.Mathlib.Text.{starts_with}
use nixos_wanwatch.Prelude.{
  ℕ, Bool, ◌||◌, Option, none, some, List, ◌∷◌, ◌++◌, String, ◌==◌, any, keep, if◌then◌else◌,
}
use nixos_wanwatch.Prelude.Int.{ℤ}
use nixos_wanwatch.Prelude.Text.{str_eq}
use nixos_wanwatch.State.{HookContext, event_text}

abbrev pub inherited_env : List String
inherited_env =
    "PATH" ∷ "LANG" ∷ "TZ" ∷ "HOME" ∷ "USER" ∷ "LOGNAME" ∷ "JOURNAL_STREAM" ∷ "INVOCATION_ID"
    ∷ List.[]

unfoldable pub inherits_env : String → Bool
inherits_env name = starts_with name "LC_" || any (λ n. str_eq n name) inherited_env

-- What `strings.Cut` gives before the first "=", or the whole without one.
unfoldable pub name_of : String → String
name_of [] = ""
name_of (c ∷ s) = let rest = name_of s in if code c == 61 then "" else c ∷ rest

abbrev pub join_comma : List String → String
join_comma List.[] = ""
join_comma (s ∷ List.[]) = s
join_comma (s ∷ t ∷ ts) = s +++ "," +++ join_comma (t ∷ ts)

abbrev pub stamp : Option ℕ → ℕ → ℕ
stamp none now = now
stamp (some t) now = t

-- The fifteen variables of a Hook's own.
unfoldable pub extras : (ℤ → String) → (ℕ → String) → ℕ → HookContext → List String
extras itoa format_time now ctx =
    ("WANWATCH_EVENT=" +++ event_text ctx.event)
    ∷ ("WANWATCH_GROUP=" +++ ctx.group)
    ∷ ("WANWATCH_WAN_OLD=" +++ ctx.wan_old)
    ∷ ("WANWATCH_WAN_NEW=" +++ ctx.wan_new)
    ∷ ("WANWATCH_INTERFACE_OLD=" +++ ctx.interface_old)
    ∷ ("WANWATCH_INTERFACE_NEW=" +++ ctx.interface_new)
    ∷ ("WANWATCH_GATEWAY_V4_OLD=" +++ ctx.gateway_v4_old)
    ∷ ("WANWATCH_GATEWAY_V4_NEW=" +++ ctx.gateway_v4_new)
    ∷ ("WANWATCH_GATEWAY_V6_OLD=" +++ ctx.gateway_v6_old)
    ∷ ("WANWATCH_GATEWAY_V6_NEW=" +++ ctx.gateway_v6_new)
    ∷ ("WANWATCH_FAMILIES_OLD=" +++ join_comma ctx.families_old)
    ∷ ("WANWATCH_FAMILIES_NEW=" +++ join_comma ctx.families_new)
    ∷ ("WANWATCH_TABLE=" +++ itoa ctx.table)
    ∷ ("WANWATCH_MARK=" +++ itoa ctx.mark)
    ∷ ("WANWATCH_TIMESTAMP=" +++ format_time (stamp ctx.timestamp now))
    ∷ List.[]

-- `environ` is the daemon's own environment.
unfoldable pub build_env : (ℤ → String) → (ℕ → String) → List String → ℕ → HookContext → List String
unfolding inherits_env name_of extras
build_env itoa format_time environ now ctx =
    keep (λ kv. inherits_env (name_of kv)) environ ++ extras itoa format_time now ctx
