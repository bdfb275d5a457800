-- ===== src/Rtnl/Links.antt =====
-- daemon/internal/rtnl/subscriber.go: from link messages to the changes of the watched links. The
-- netlink library's reads are parameters over a world `W`; the channels are lists, the updates that
-- arrive before the channel closes and the events that were sent. Event times are left out.
pub mod Agrees
use nixos_wanwatch.Prelude.{
  ℕ, ◌/◌, ◌%◌, Bool, true, false, not, ◌&&◌, ◌||◌, Option, none, some, List, [], ◌∷◌, ◌++◌, String,
  ◌==◌, any, Result, ok, err, if◌then◌else◌,
}
use nixos_wanwatch.Prelude.Int.{pos}
use nixos_wanwatch.Prelude.Dict.{lookup, insert, delete}
use nixos_wanwatch.Prelude.Text.{str_eq}
use nixos_wanwatch.Rtnl.Event.{
  Carrier, carrier_down, carrier_up, Operstate, unknown, not_present, down, lower_layer_down,
  testing, dormant, up, other, eq_carrier, eq_operstate, LinkEvent,
}
use nixos_wanwatch.Rtnl.Dump.{DumpError, ReadError, retry_dump}

-- The attributes of a netlink link that the daemon reads: `raw_flags` is a uint32, `oper_state` a
-- uint8.
pub record Link : Type 0 where
  pub name : String
  pub raw_flags : ℕ
  pub oper_state : ℕ

-- An RTM_DELLINK, or another message.
pub record LinkUpdate : Type 0 where
  pub deleted : Bool
  pub flags : ℕ
  pub link : Link

pub record LinkState : Type 0 where
  pub carrier : Carrier
  pub operstate : Operstate

-- `nil` watches every interface.
abbrev pub Interfaces : Type 0
Interfaces = Option (List String)

-- IFF_LOWER_UP is bit 16.
abbrev pub carrier_from_flags : ℕ → Carrier
carrier_from_flags flags = if flags / 65_536 % 2 == 0 then carrier_down else carrier_up

-- `Operstate(n)`
abbrev pub operstate_of : ℕ → Operstate
operstate_of n =
    if n == 0
    then unknown
    else if n == 1
    then not_present
    else if n == 2
    then down
    else if n == 3
    then lower_layer_down
    else if n == 4
    then testing
    else if n == 5
    then dormant
    else if n == 6
    then up
    else other (pos n)

unfoldable pub watches : Interfaces → String → Bool
watches none name = true
watches (some names) name = any (λ n. str_eq n name) names

abbrev pub States : Type 0
States = List (String × LinkState)

-- The link as an update tells of it.
unfoldable pub told : LinkUpdate → LinkState
told upd =
    if upd.deleted then record { carrier = carrier_down; operstate = not_present } else record {
      carrier = carrier_from_flags upd.flags;
      operstate = operstate_of upd.link.oper_state;
    }

abbrev is_unchanged : Option LinkState → LinkState → Bool
is_unchanged none s = false
is_unchanged (some prev) s =
    eq_carrier prev.carrier s.carrier && eq_operstate prev.operstate s.operstate

abbrev is_seen : Option LinkState → Bool
is_seen none = false
is_seen (some _) = true

link_event : String → LinkState → LinkEvent
link_event name s = record { name = name; carrier = s.carrier; operstate = s.operstate }

-- The part of `handleUpdate` on a watched link, given what its state map has.
update_watched : States → LinkUpdate → Option LinkState → States × Option LinkEvent
unfolding told link_event
update_watched state upd prev =
    let name = upd.link.name in
    let now = told upd in
    let unchanged = is_unchanged prev now in
    if upd.deleted && not (is_seen prev) then (state, none) else (
      if upd.deleted
          then delete str_eq name state
          else if unchanged
          then state
          else insert str_eq name now state,
      if unchanged then none else some (link_event name now),
    )

unfoldable pub handle_update : Interfaces → States → LinkUpdate → States × Option LinkEvent
unfolding watches update_watched lookup
handle_update ifs state upd =
    if not (watches ifs upd.link.name)
    then (state, none)
    else update_watched state upd (lookup str_eq upd.link.name state)

unfoldable pub link_update_from_link : Link → LinkUpdate
link_update_from_link link = record { deleted = false; flags = link.raw_flags; link = link }

abbrev pub add_event : Option LinkEvent → List LinkEvent → List LinkEvent
add_event none es = es
add_event (some e) es = e ∷ es

-- The events of a sequence of updates, in order, and the state that they leave.
unfoldable pub handle_all : Interfaces → List LinkUpdate → States → List LinkEvent × States
unfolding handle_update
handle_all ifs [] state = ([], state)
handle_all ifs (upd ∷ upds) state =
    let (state', e) = handle_update ifs state upd in
    let (es, state'') = handle_all ifs upds state' in (add_event e es, state'')

-- An error of `LinkByName`: LinkNotFoundError, or another.
pub data GetError (E : Type 0) : Type 0 where
  link_not_found : GetError E
  get_failed : E → GetError E

-- How `runLoop` ends.
pub data LoopError (E : Type 0) : Type 0 where
  subscription_closed : LoopError E
  context_done : LoopError E
  read_failed : String → E → LoopError E

module _ {W E : Type 0} (cancelled : W → Bool)
    (get_link : String → W → Result (GetError E) Link × W) where
  abbrev current : String → Result (GetError E) Link → Result (LoopError E) LinkUpdate
  current name (ok link) = ok (link_update_from_link link)
  current name (err link_not_found) = ok (record {
    deleted = true;
    flags = 0;
    link = record { name = name; raw_flags = 0; oper_state = 0 };
  })
  current name (err (get_failed e)) = err (read_failed name e)

  pub reconcile : String → W → Result (LoopError E) LinkUpdate × W
  unfolding link_update_from_link
  reconcile name w =
      let (r, w') = get_link name w in
      if cancelled w then (err context_done, w) else (current name r, w')

  -- The events sent, the state and the world at the end, and why the loop ended.
  abbrev pub Ran : Type 0
  Ran = LoopError E × List LinkEvent × States × W

  abbrev after_event : Option LinkEvent → States → W → Ran → Ran
  after_event none state w rest = rest
  after_event (some e) state w (why, es, state', w') =
      if cancelled w then (context_done, [], state, w) else (why, e ∷ es, state', w')

  abbrev on_read :
      Interfaces → States → Result (LoopError E) LinkUpdate × W → (States → W → Ran) → Ran
  on_read ifs state (err e, w) next = (e, [], state, w)
  on_read ifs state (ok upd, w) next =
      let (state', e) = handle_update ifs state upd in after_event e state' w (next state' w)

  -- Over the names of the updates that arrive until the channel closes. Where an update and the
  -- cancellation are both ready, `select` may take either; this takes the cancellation.
  pub run_loop : Interfaces → List String → States → W → Ran
  unfolding reconcile handle_update
  run_loop ifs [] state w =
      (if cancelled w then context_done else subscription_closed, [], state, w)
  run_loop ifs (name ∷ names) state w =
      let skipped = run_loop ifs names state w in
      let handled = on_read ifs state (reconcile name w) (run_loop ifs names) in
      if cancelled w
      then (context_done, [], state, w)
      else if not (watches ifs name)
      then skipped
      else handled

-- The events of the snapshot and the state that they leave.
module _ {W E : Type 0} (cancelled : W → Bool)
    (list_links : W → Result (DumpError E) (List Link) × W) where
  abbrev folded :
      Interfaces
      → States
      → Result (ReadError E) (List Link) × W
      → Result (ReadError E) (List LinkEvent × States) × W
  folded ifs state (err e, w) = (err e, w)
  folded ifs state (ok links, w) =
      (ok (handle_all ifs (mathlib.Core.List.map link_update_from_link links) state), w)

  pub read_snapshot : Interfaces → States → W → Result (ReadError E) (List LinkEvent × States) × W
  unfolding handle_all link_update_from_link
  read_snapshot ifs state w = folded ifs state (retry_dump list_links cancelled w)
