-- ===== src/Rtnl/Links/Agrees.antt =====
-- A listener that knows only the events knows every watched link (daemon/internal/rtnl/subscriber.go).
use text.Mathlib.TextEquality.{eq_iff}
use nixos_wanwatch.Prelude.{
  ◌≡◌, ◌⊎◌, refl, ap, sym, subst, ◌&&◌, not, true, Option, none, some, List, [], ◌∷◌, String, arith,
  if◌then◌else◌,
}
use nixos_wanwatch.Prelude.Int.{eq_ℤ_iff}
use nixos_wanwatch.Prelude.Dict.{lookup, insert, delete, lookup-insert, lookup-delete}
use nixos_wanwatch.Prelude.Text.{str_eq}
use nixos_wanwatch.Rtnl.Event.{
  Carrier, carrier_down, Operstate, not_present, other, eq_carrier, eq_operstate, LinkEvent,
}
use nixos_wanwatch.Rtnl.Links.{
  Interfaces, LinkState, LinkUpdate, States, watches, told, update_watched, link_event,
  handle_update, handle_all, add_event, is_unchanged,
}

-- What a listener knows after more events.
abbrev pub learn : States → List LinkEvent → States
learn view [] = view
learn view (e ∷ es) =
    learn (insert str_eq e.name (record { carrier = e.carrier; operstate = e.operstate }) view) es

abbrev pub gone : LinkState
gone = record { carrier = carrier_down; operstate = not_present }

-- A listener knows the state of a link that is there, and has not heard of another one or has heard
-- that it is down and not present.
abbrev pub Knows : Option LinkState → Option LinkState → Type 0
Knows (some s) v = v ≡ some s
Knows none v = (v ≡ none) ⊎ (v ≡ some gone)

abbrev pub Agrees : States → States → Type 0
Agrees state view = (name : String) → Knows (lookup str_eq name state) (lookup str_eq name view)

eq_carrier→eq : (a b : Carrier) → eq_carrier a b ≡ true → a ≡ b
eq_carrier→eq a b h = ground arith

eq_operstate→eq : (a b : Operstate) → eq_operstate a b ≡ true → a ≡ b
eq_operstate→eq (other a) (other b) h = ground (arith, eq_ℤ_iff a b)
eq_operstate→eq a b h = ground arith

unchanged→eq : (p s : LinkState) → is_unchanged (some p) s ≡ true → p ≡ s
unchanged→eq p s h =
    ground (arith, eq_carrier→eq p.carrier s.carrier, eq_operstate→eq p.operstate s.operstate)

told-gone : (upd : LinkUpdate) → upd.deleted ≡ true → told upd ≡ gone
unfolding told
told-gone upd h = ground arith

update_watched-Knows :
    (state view : States) (upd : LinkUpdate) (prev : Option LinkState) (name : String)
    → lookup str_eq upd.link.name state ≡ prev
    → Knows prev (lookup str_eq upd.link.name view)
    → Knows (lookup str_eq name state) (lookup str_eq name view)
    → let (state', e) = update_watched state upd prev in
      Knows (lookup str_eq name state') (lookup str_eq name (learn view (add_event e [])))
unfolding update_watched link_event
update_watched-Knows state view upd none name h k a = ground (
  arith,
  eq_iff upd.link.name name,
  lookup-insert str_eq eq_iff upd.link.name name (told upd) state,
  lookup-insert str_eq eq_iff upd.link.name name (told upd) view,
  told-gone upd,
)
update_watched-Knows state view upd (some p) name h k a = ground (
  arith,
  eq_iff upd.link.name name,
  lookup-insert str_eq eq_iff upd.link.name name (told upd) state,
  lookup-insert str_eq eq_iff upd.link.name name (told upd) view,
  lookup-delete str_eq eq_iff upd.link.name name state,
  told-gone upd,
  unchanged→eq p (told upd),
)

handle_update-Agrees :
    (ifs : Interfaces) (state view : States) (upd : LinkUpdate)
    → Agrees state view
    → let (state', e) = handle_update ifs state upd in Agrees state' (learn view (add_event e []))
unfolding handle_update
handle_update-Agrees ifs state view upd a name = ground (
  arith,
  a name,
  update_watched-Knows state view upd (lookup str_eq upd.link.name state) name refl
      (a upd.link.name) (a name),
)

learn-add :
    (view : States) (e : Option LinkEvent) (es : List LinkEvent)
    → learn view (add_event e es) ≡ learn (learn view (add_event e [])) es
learn-add view none es = refl
learn-add view (some e) es = refl

handle_all-Agrees_state :
    (ifs : Interfaces) (upds : List LinkUpdate) (state view : States)
    → Agrees state view
    → let (es, state') = handle_all ifs upds state in Agrees state' (learn view es)
unfolding handle_all
handle_all-Agrees_state ifs [] state view a = a
handle_all-Agrees_state ifs (upd ∷ upds) state view a =
    let (state', e) = handle_update ifs state upd in
    let (es, state'') = handle_all ifs upds state' in
    subst (Agrees state'') (sym (learn-add view e es)) (
      handle_all-Agrees_state ifs upds state' (learn view (add_event e []))
        (handle_update-Agrees ifs state view upd a))

update_watched_lem :
    (state : States) (upd : LinkUpdate) (prev : Option LinkState) (name : String)
    → lookup str_eq upd.link.name state ≡ prev
    → lookup str_eq name (update_watched state upd prev).0 ≡ (
        if str_eq upd.link.name name
        then (if upd.deleted then none else some (told upd))
        else lookup str_eq name state)
unfolding update_watched
update_watched_lem state upd none name h = ground (
  arith,
  eq_iff upd.link.name name,
  lookup-insert str_eq eq_iff upd.link.name name (told upd) state,
)
update_watched_lem state upd (some p) name h = ground (
  arith,
  eq_iff upd.link.name name,
  lookup-insert str_eq eq_iff upd.link.name name (told upd) state,
  lookup-delete str_eq eq_iff upd.link.name name state,
  unchanged→eq p (told upd),
)

watches_same : (ifs : Interfaces) (a b : String) → str_eq a b ≡ true → watches ifs a ≡ watches ifs b
watches_same ifs a b h = ap (watches ifs) ((eq_iff a b).0 h)

-- What the state has of a link after an update: nothing of a deleted one, and of another the state
-- that the update tells. A link that is not watched keeps what it had, as do the other links.
pub handle_update_lem :
    (ifs : Interfaces) (state : States) (upd : LinkUpdate) (name : String)
    → lookup str_eq name (handle_update ifs state upd).0 ≡ (
        if watches ifs name && str_eq upd.link.name name
        then (if upd.deleted then none else some (told upd))
        else lookup str_eq name state)
unfolding handle_update
handle_update_lem ifs state upd name = ground (
  arith,
  watches_same ifs upd.link.name name,
  update_watched_lem state upd (lookup str_eq upd.link.name state) name refl,
)

-- The links without any holding back: an update of a watched link replaces what is known of it.
pub plain : Interfaces → States → LinkUpdate → States
unfolding watches told
plain ifs state upd =
    if not (watches ifs upd.link.name)
    then state
    else if upd.deleted
    then delete str_eq upd.link.name state
    else insert str_eq upd.link.name (told upd) state

pub plain_all : Interfaces → List LinkUpdate → States → States
unfolding plain
plain_all ifs [] state = state
plain_all ifs (upd ∷ upds) state = plain_all ifs upds (plain ifs state upd)

abbrev Same : States → States → Type 0
Same a b = (name : String) → lookup str_eq name a ≡ lookup str_eq name b

plain-Same :
    (ifs : Interfaces) (a b : States) (upd : LinkUpdate)
    → Same a b
    → Same (handle_update ifs a upd).0 (plain ifs b upd)
unfolding plain
plain-Same ifs a b upd h name = ground (
  arith,
  h name,
  handle_update_lem ifs a upd name,
  eq_iff upd.link.name name,
  watches_same ifs upd.link.name name,
  lookup-insert str_eq eq_iff upd.link.name name (told upd) b,
  lookup-delete str_eq eq_iff upd.link.name name b,
)

handle_all-Same :
    (ifs : Interfaces) (upds : List LinkUpdate) (a b : States)
    → Same a b
    → Same (handle_all ifs upds a).1 (plain_all ifs upds b)
unfolding handle_all plain_all
handle_all-Same ifs [] a b h = h
handle_all-Same ifs (upd ∷ upds) a b h =
    handle_all-Same ifs upds (handle_update ifs a upd).0 (plain ifs b upd)
      (plain-Same ifs a b upd h)

-- Over any updates, the events that are sent tell a listener, who knows nothing else, what the updates
-- themselves would: the last told state of every watched link that is there, and of one that is gone
-- nothing or that it is down and not present. What is held back as unchanged loses nothing.
pub handle_all-Agrees :
    (ifs : Interfaces) (upds : List LinkUpdate) (state view : States)
    → Agrees state view
    → Agrees (plain_all ifs upds state) (learn view (handle_all ifs upds state).0)
handle_all-Agrees ifs upds state view a name =
    let es = (handle_all ifs upds state).0 in
    subst (λ o. Knows o (lookup str_eq name (learn view es)))
      (handle_all-Same ifs upds state state (λ n. refl) name)
      (handle_all-Agrees_state ifs upds state view a name)
