-- ===== src/State/Hooks/Env/Documented.antt =====
-- The environment of a Hook (daemon/internal/state/hooks.go) by docs/specs/daemon-state.md.
use Prim.Native.String.{[], ◌∷◌, ◌++◌ as ◌+++◌}
use Prim.Native.String.append
use Prim.Native.Char.{code}
use text.Mathlib.Text.{starts_with}
use text.Mathlib.TextBridge.{IsPrefix}
use text.Mathlib.TextEquality.{eq_iff, starts_with_iff}
use nixos_wanwatch.Prelude.{
  ℕ, ◌≡◌, ◌↔◌, refl, sym, ◌∙◌, ap, subst, ◌⊎◌, inl, inr, Bool, true, false, List, ◌∷◌, String, ◌==◌,
  any, map, keep, In, here, there, In-keep, keep-In, In-append, append_left-In, append_right-In,
  if◌then◌else◌, arith, Bool-cases,
}
use nixos_wanwatch.Prelude.Int.{ℤ}
use nixos_wanwatch.Prelude.Text.{str_eq}
use nixos_wanwatch.State.{HookContext, event_text}
use nixos_wanwatch.State.Hooks.Env.{
  inherited_env, inherits_env, name_of, join_comma, stamp, extras, build_env,
}

abbrev pub assigned : String × String → String
assigned (name, value) = (name +++ "=") +++ value

-- The names that a Hook has from the daemon.
abbrev pub Inherited : String → Type 0
Inherited name =
    In name (
      "PATH" ∷ "LANG" ∷ "TZ" ∷ "HOME" ∷ "USER" ∷ "LOGNAME" ∷ "JOURNAL_STREAM" ∷ "INVOCATION_ID"
      ∷ List.[])
    ⊎ IsPrefix "LC_" name

-- The variables of an event.
abbrev pub variables : (ℤ → String) → (ℕ → String) → ℕ → HookContext → List (String × String)
variables itoa format_time now ctx =
    ("WANWATCH_EVENT", event_text ctx.event)
    ∷ ("WANWATCH_GROUP", ctx.group)
    ∷ ("WANWATCH_WAN_OLD", ctx.wan_old)
    ∷ ("WANWATCH_WAN_NEW", ctx.wan_new)
    ∷ ("WANWATCH_INTERFACE_OLD", ctx.interface_old)
    ∷ ("WANWATCH_INTERFACE_NEW", ctx.interface_new)
    ∷ ("WANWATCH_GATEWAY_V4_OLD", ctx.gateway_v4_old)
    ∷ ("WANWATCH_GATEWAY_V4_NEW", ctx.gateway_v4_new)
    ∷ ("WANWATCH_GATEWAY_V6_OLD", ctx.gateway_v6_old)
    ∷ ("WANWATCH_GATEWAY_V6_NEW", ctx.gateway_v6_new)
    ∷ ("WANWATCH_FAMILIES_OLD", join_comma ctx.families_old)
    ∷ ("WANWATCH_FAMILIES_NEW", join_comma ctx.families_new)
    ∷ ("WANWATCH_TABLE", itoa ctx.table)
    ∷ ("WANWATCH_MARK", itoa ctx.mark)
    ∷ ("WANWATCH_TIMESTAMP", format_time (stamp ctx.timestamp now))
    ∷ List.[]

extras_lem :
    (itoa : ℤ → String) (format_time : ℕ → String) (now : ℕ) (ctx : HookContext)
    → extras itoa format_time now ctx ≡ map assigned (variables itoa format_time now ctx)
unfolding extras
extras_lem itoa format_time now ctx = refl

-- The name of a variable has no "=".
abbrev pub IsName : String → Type 0
IsName [] = Unit
IsName (c ∷ s) = ((code c == 61) ≡ false) × IsName s

name_of-assigned : (name value : String) → IsName name → name_of (assigned (name, value)) ≡ name
unfolding name_of
name_of-assigned [] value h = ap name_of (append.cons "=" "" value)
name_of-assigned (c ∷ name) value (h, hs) =
    ap name_of (ap (λ s. s +++ value) (append.cons c name "=") ∙ append.cons c (name +++ "=") value)
    ∙ ap (λ b. let rest = name_of (assigned (name, value)) in if b then "" else c ∷ rest) h
    ∙ ap (λ s. c ∷ s) (name_of-assigned name value hs)

any-str_eq : (name : String) (l : List String) → (any (λ n. str_eq n name) l ≡ true) ↔ In name l
any-str_eq name List.[] = (λ h. ground (arith, h), λ m. elim m [ ])
any-str_eq name (n ∷ l) =
    let (to, from) = any-str_eq name l in
    elim (Bool-cases (str_eq n name)) [
      | inl e ↦ (λ h. here (sym ((eq_iff n name).0 e)), λ m. rw e refl)
      | inr e ↦ (
        λ h. there (to (rw e at h)),
        λ m. elim m [
          | here q ↦ ground (arith, e, (eq_iff n name).1 (sym q))
          | there q ↦ rw e (from q)
        ],
      )
    ]

inherits_env_iff : (name : String) → (inherits_env name ≡ true) ↔ Inherited name
unfolding inherits_env
inherits_env_iff name =
    let (to, from) = any-str_eq name inherited_env in
    let (first, last) = starts_with_iff name "LC_" in
    elim (Bool-cases (starts_with name "LC_")) [
      | inl e ↦ (λ h. inr (first e), λ h. rw e refl)
      | inr e ↦ (
        λ h. inl (to (rw e at h)),
        λ h. elim h [ inl m ↦ rw e (from m) | inr p ↦ rw e (ground (arith, e, last p)) ],
      )
    ]

-- A Hook has a variable of a name without "=" exactly when the daemon has it and it is PATH, LANG, TZ,
-- HOME, USER, LOGNAME, JOURNAL_STREAM, INVOCATION_ID or begins with LC_, or when it is one of the fifteen
-- WANWATCH_ variables with the event's own value.
pub build_env-assigned :
    (itoa : ℤ → String) (format_time : ℕ → String) (environ : List String) (now : ℕ)
    (ctx : HookContext) (name value : String)
    → IsName name
    → In (assigned (name, value)) (build_env itoa format_time environ now ctx) ↔ (
        (In (assigned (name, value)) environ × Inherited name)
        ⊎ In (assigned (name, value)) (map assigned (variables itoa format_time now ctx)))
unfolding build_env
build_env-assigned itoa format_time environ now ctx name value h =
    let passes : String → Bool = λ kv. inherits_env (name_of kv) in
    let own = extras itoa format_time now ctx in
    let same = name_of-assigned name value h in
    let (to, from) = inherits_env_iff name in
    let told = extras_lem itoa format_time now ctx in
    let kv = assigned (name, value) in
    (
      λ m. elim (In-append (keep passes environ) own m) [
        | inl n ↦
            let (i, p) = In-keep passes environ n in inl (i, to (sym (ap inherits_env same) ∙ p))
        | inr n ↦ inr (subst (λ l. In kv l) told n)
      ],
      λ h. elim h [
        | inl (i, p) ↦
            append_left-In (keep passes environ) own
              (keep-In passes environ i (ap inherits_env same ∙ from p))
        | inr n ↦ append_right-In (keep passes environ) own (subst (λ l. In kv l) (sym told) n)
      ],
    )
