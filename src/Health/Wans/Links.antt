-- ===== src/Health/Wans/Links.antt =====
-- `Link` of daemon/internal/health/health.go: a link event goes to every WAN on its interface.
use nixos_wanwatch.Prelude.{not, ◌&&◌, ◌||◌, List, [], ◌∷◌, ◌++◌, String, if◌then◌else◌}
use nixos_wanwatch.Prelude.Text.{str_eq, str_le}
use nixos_wanwatch.Prelude.Sort.{sort_by}
use nixos_wanwatch.Probe.Float.{Floats}
use nixos_wanwatch.Rtnl.Event.{eq_carrier, eq_operstate, LinkEvent}
use nixos_wanwatch.Health.Wans.{
  Change, no_change, Metric, carrier_changes_inc, wan_healthy_set, WanState, Wans, is_healthy,
  record_link,
}

module _ (fl : Floats) where
  -- What a LinkEvent does to a WAN on its interface.
  unfoldable pub link_wan : LinkEvent → WanState fl → WanState fl
  link_wan e ws =
      if str_eq ws.cfg.interface e.name
      then record ws { carrier = e.carrier; operstate = e.operstate }
      else ws

  unfoldable pub link_change : LinkEvent → WanState fl → Change
  link_change e ws =
      let now = is_healthy fl (link_wan e ws) in
      let prev = is_healthy fl ws in
      if str_eq ws.cfg.interface e.name
      then record {
        flipped = if not now && prev || now && not prev then ws.name ∷ [] else [];
        republish =
            not (eq_carrier e.carrier ws.carrier) || not (eq_operstate e.operstate ws.operstate);
      }
      else no_change

  pub link_metrics : LinkEvent → WanState fl → List (Metric fl)
  unfolding link_wan is_healthy record_link
  link_metrics e ws =
      let changed =
        (if eq_carrier e.carrier ws.carrier then [] else carrier_changes_inc ws.name ∷ []) in
      let told =
        record_link fl (link_wan e ws)
        ++ wan_healthy_set ws.name (is_healthy fl (link_wan e ws)) ∷ [] in
      if str_eq ws.cfg.interface e.name then changed ++ told else []

  -- The loop over the WANs, in the order in which the map gives them.
  unfoldable pub link_each :
      LinkEvent
      → List (String × WanState fl)
      → List (String × WanState fl) × Change × List (Metric fl)
  link_each e [] = ([], no_change, [])
  link_each e ((name, ws) ∷ rest) =
      let (wans, c, ms) = link_each e rest in
      let d = link_change e ws in
      (
        (name, link_wan e ws) ∷ wans,
        record { flipped = d.flipped ++ c.flipped; republish = d.republish || c.republish },
        link_metrics e ws ++ ms,
      )

  unfoldable pub link : Wans fl → LinkEvent → Wans fl × Change
  link w e =
      let (wans, c, ms) = link_each e w.by_name in
      (
        record { by_name = wans; metrics = w.metrics ++ ms },
        record c { flipped = sort_by str_le c.flipped },
      )
