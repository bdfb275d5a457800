-- ===== src/Daemon/Handlers/Vacated.antt =====
-- The WANs that a `down` vacated (daemon/cmd/wanwatchd/daemon.go), and the flush of their flows.
use text.Mathlib.TextEquality.{eq_iff}
use nixos_wanwatch.Prelude.{
  ◌≡◌, ◌≢◌, sym, subst, true, false, Option, none, some, List, String, arith, if◌then◌else◌,
}
use nixos_wanwatch.Prelude.Dict.{lookup, lookup-insert, lookup-delete}
use nixos_wanwatch.Prelude.Text.{str_eq}
use nixos_wanwatch.Selector.{Active}
use nixos_wanwatch.Decision
use nixos_wanwatch.Decision.{Commit, Event, up, down, switch, event, new_group}
use nixos_wanwatch.Decision.Commits.{Tells}
use nixos_wanwatch.Daemon.Publish.{flush_target, vacate}

-- A WAN is kept as vacated only while its Group has no Selection.
abbrev pub Waits : Option Active → Active → Type 0
Waits none a = Unit
Waits (some old) a = (old.has ≡ true) × (a.has ≡ false)

-- The WAN whose default route stands in a Group's table: the Selection's, or the vacated one.
abbrev pub carrying : Option Active → Active → Option Active
carrying v a = if a.has then some a else v

-- The WAN that traffic left.
abbrev pub moved : Option Active → Option Active → Option Active
moved (some a) (some b) = if str_eq a.wan b.wan then none else some a
moved (some a) none = none
moved none b = none

-- What is kept as vacated for the Group of a commit.
abbrev pub left_vacated : Option Event → Commit → Option Active → Option Active
left_vacated (some down) c v = some c.old
left_vacated (some up) c v = none
left_vacated (some switch) c v = v
left_vacated none c v = v

lookup-vacate :
    (e : Option Event) (name k : String) (c : Commit) (v : List (String × Active))
    → lookup str_eq k (vacate e name c v)
      ≡ (if str_eq name k then left_vacated e c (lookup str_eq name v) else lookup str_eq k v)
unfolding vacate
lookup-vacate (some down) name k c v = lookup-insert str_eq eq_iff name k c.old v
lookup-vacate (some up) name k c v = lookup-delete str_eq eq_iff name k v
lookup-vacate (some switch) name k c v = ground (arith, eq_iff name k)
lookup-vacate none name k c v = ground (arith, eq_iff name k)

pub left_vacated-Waits :
    (c : Commit) (v : Option Active) (gr gr' : Decision.Group)
    → Tells gr (some c) gr'
    → Waits v gr.selection
    → Waits (left_vacated (event c) c v) gr'.selection
unfolding event
left_vacated-Waits c v gr gr' t w = ground arith

pub flush_target-moved :
    (c : Commit) (v : Option Active) (gr gr' : Decision.Group)
    → Tells gr (some c) gr'
    → Waits v gr.selection
    → flush_target (event c) c v
      ≡ moved (carrying v gr.selection) (carrying (left_vacated (event c) c v) gr'.selection)
unfolding event flush_target
flush_target-moved c none gr gr' t w =
    ground (arith, eq_iff c.old.wan c.new.wan, eq_iff c.old.wan c.old.wan)
flush_target-moved c (some old) gr gr' t w =
    ground (arith, eq_iff c.old.wan c.new.wan, eq_iff c.old.wan c.old.wan, eq_iff old.wan old.wan)

pub vacate_own :
    (e : Option Event) (name k : String) (c : Commit) (v : List (String × Active))
    → name ≡ k
    → lookup str_eq k (vacate e name c v) ≡ left_vacated e c (lookup str_eq k v)
vacate_own e name k c v h =
    subst (λ n. lookup str_eq k (vacate e n c v) ≡ left_vacated e c (lookup str_eq k v)) (sym h)
      (ground (arith, lookup-vacate e k k c v, eq_iff k k))

pub vacate_other :
    (e : Option Event) (name k : String) (c : Commit) (v : List (String × Active))
    → name ≢ k
    → lookup str_eq k (vacate e name c v) ≡ lookup str_eq k v
vacate_other e name k c v h = ground (arith, lookup-vacate e name k c v, eq_iff name k)
