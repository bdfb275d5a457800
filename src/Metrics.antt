-- ===== src/Metrics.antt =====
-- daemon/internal/metrics: the metrics that the daemon registers (metrics.go) and the server of their
-- endpoint (server.go). The Prometheus library and the help texts are left out.
pub mod Server
use nixos_wanwatch.Prelude.{
  ℕ, Bool, true, false, Option, none, some, List, [], ◌∷◌, String, not, ◌&&◌, any,
}
use nixos_wanwatch.Prelude.Text.{str_eq}

pub data Kind : Type 0 where
  gauge counter histogram : Kind

-- A collector's kind, its name and its labels in order; a plain counter has none.
pub record Desc : Type 0 where
  pub kind : Kind
  pub subsystem : String
  pub name : String
  pub labels : List String

-- In microseconds.
abbrev pub route_duration_buckets : List ℕ
route_duration_buckets =
    100 ∷ 250 ∷ 500 ∷ 1_000 ∷ 2_500 ∷ 5_000 ∷ 10_000 ∷ 25_000 ∷ 100_000 ∷ 1_000_000 ∷ []

abbrev pub desc : Kind → String → String → List String → Desc
desc k sub name labels = record { kind = k; subsystem = sub; name = name; labels = labels }

-- The collectors in the order of their registration.
abbrev pub registry : List Desc
registry =
    desc gauge "probe" "rtt_seconds" ("wan" ∷ "family" ∷ [])
    ∷ desc gauge "probe" "jitter_seconds" ("wan" ∷ "family" ∷ [])
    ∷ desc gauge "probe" "loss_ratio" ("wan" ∷ "family" ∷ [])
    ∷ desc gauge "probe" "target_rtt_seconds" ("wan" ∷ "family" ∷ "target" ∷ [])
    ∷ desc gauge "wan" "carrier" ("wan" ∷ [])
    ∷ desc gauge "wan" "operstate" ("wan" ∷ "state" ∷ [])
    ∷ desc gauge "wan" "family_healthy" ("wan" ∷ "family" ∷ [])
    ∷ desc gauge "wan" "healthy" ("wan" ∷ [])
    ∷ desc counter "wan" "carrier_changes_total" ("wan" ∷ [])
    ∷ desc gauge "group" "selected" ("group" ∷ "wan" ∷ [])
    ∷ desc counter "group" "decisions_total" ("group" ∷ "reason" ∷ [])
    ∷ desc histogram "apply" "route_duration_seconds" ("group" ∷ "family" ∷ [])
    ∷ desc counter "apply" "route_errors_total" ("group" ∷ "family" ∷ [])
    ∷ desc counter "apply" "op_errors_total" ("group" ∷ "op" ∷ [])
    ∷ desc counter "state" "publications_total" []
    ∷ desc counter "hook" "invocations_total" ("group" ∷ "event" ∷ "result" ∷ [])
    ∷ desc gauge "" "build_info" ("version" ∷ "revision" ∷ "goversion" ∷ [])
    ∷ []

abbrev pub namespace : String
namespace = "wanwatch"

-- Two metrics under one name: the library panics when the second is registered.
abbrev pub same_name : Desc → Desc → Bool
same_name a b = str_eq a.subsystem b.subsystem && str_eq a.name b.name

unfoldable pub is_distinct : List Desc → Bool
is_distinct [] = true
is_distinct (d ∷ ds) = not (any (same_name d) ds) && is_distinct ds

-- `SetBuildInfo`, by the labels' order in the registry.
abbrev pub set_build_info : (version revision goversion : String) → List (String × String)
set_build_info version revision goversion =
    ("version", version) ∷ ("revision", revision) ∷ ("goversion", goversion) ∷ []
