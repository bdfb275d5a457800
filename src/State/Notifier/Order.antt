-- ===== src/State/Notifier/Order.antt =====
-- Notifications are delivered in order, and the queue is bounded
-- (daemon/internal/state/notifications.go).
use nixos_wanwatch.Prelude.{
  ℕ, zero, suc, ◌≤◌, ◌≡◌, refl, ap, sym, ◌∙◌, Bool, true, false, ◌||◌, Option, none, some, List, [],
  ◌∷◌, ◌++◌, arith, length, length-append, append-nil, append_assoc, if◌then◌else◌,
}
use nixos_wanwatch.State.{HookContext}
use nixos_wanwatch.State.Notifier.{
  Notifier, new_hook_notifier, queued, stamped, enqueue, notify, close, deliver_one,
  hook_queue_capacity,
}

-- The event loop and the worker take turns in any order, and the context may be cancelled at any time.
pub data Step : Notifier → Notifier → Type 0 where
  notifies : (now : ℕ) (h : HookContext) (n : Notifier) → Step n (notify now h n).1
  closes : (n : Notifier) → Step n (close n)
  delivers : (n n' : Notifier) → deliver_one n ≡ some n' → Step n n'
  cancels : (n : Notifier) → Step n (record n { cancelled = true })

pub data Reach : Notifier → Notifier → Type 0 where
  start : (n : Notifier) → Reach n n
  next : {n m k : Notifier} → Reach n m → Step m k → Reach n k

-- What was accepted is what was delivered and then what waits, and no more wait than there is room
-- for.
pub record IsOrdered (n : Notifier) : Type 0 where
  pub in_order : n.submitted ≡ n.delivered ++ queued n.jobs
  pub bounded : length (queued n.jobs) ≤ hook_queue_capacity

enqueue-IsOrdered : (h : HookContext) (n : Notifier) → IsOrdered n → IsOrdered (enqueue h n).1
unfolding enqueue
enqueue-IsOrdered h n v = record {
  in_order = ground (
    arith,
    v.in_order,
    ap (λ l. l ++ h ∷ []) v.in_order,
    append_assoc n.delivered (queued n.jobs) (h ∷ []),
  );
  bounded = ground (arith, v.bounded, length-append (queued n.jobs) (h ∷ []));
}

if-IsOrdered :
    (b : Bool) (x y : Bool × Notifier)
    → IsOrdered x.1
    → IsOrdered y.1
    → IsOrdered (if b then x else y).1
if-IsOrdered true x y p q = p
if-IsOrdered false x y p q = q

notify-IsOrdered :
    (now : ℕ) (h : HookContext) (n : Notifier) → IsOrdered n → IsOrdered (notify now h n).1
unfolding notify
notify-IsOrdered now h n v =
    let stamped_h = record h { timestamp = stamped now h.timestamp } in
    if-IsOrdered (n.closed || n.cancelled) (false, n) (enqueue stamped_h n) v
      (enqueue-IsOrdered stamped_h n v)

-- The worker's turn on what waits.
deliver-IsOrdered :
    (c : Bool) (js : Option (List HookContext)) (d f : Bool) (sub del : List HookContext)
    (n' : Notifier)
    → let n : Notifier = record {
      cancelled = c;
      jobs = js;
      closed = d;
      finished = f;
      submitted = sub;
      delivered = del;
    } in
      deliver_one n ≡ some n' → IsOrdered n → IsOrdered n'
unfolding deliver_one
deliver-IsOrdered c none d f sub del n' h v = ground (arith, h)
deliver-IsOrdered c (some []) d f sub del n' h v = record {
  in_order = ground (arith, h, v.in_order);
  bounded = ground (arith, h, v.bounded);
}
deliver-IsOrdered c (some (j ∷ js)) d f sub del n' h v = record {
  in_order = ground (arith, h, v.in_order, append_assoc del (j ∷ []) js);
  bounded = ground (arith, h, v.bounded);
}

Step-IsOrdered : {n m : Notifier} → Step n m → IsOrdered n → IsOrdered m
unfolding close
Step-IsOrdered (notifies now h n) v = notify-IsOrdered now h n v
Step-IsOrdered (closes n) v = record { in_order = v.in_order; bounded = v.bounded }
Step-IsOrdered (cancels n) v = record { in_order = v.in_order; bounded = v.bounded }
Step-IsOrdered (delivers n n' e) v =
    deliver-IsOrdered n.cancelled n.jobs n.closed n.finished n.submitted n.delivered n' e v

Reach-IsOrdered : {n m : Notifier} → Reach n m → IsOrdered n → IsOrdered m
Reach-IsOrdered (start n) v = v
Reach-IsOrdered (next r s) v = Step-IsOrdered s (Reach-IsOrdered r v)

-- In every state that a new notifier reaches, in whatever order submissions, the worker, a `Close` and
-- a cancellation follow one another, the scripts got the accepted events in order and without a gap,
-- and at most 32 wait.
pub new_hook_notifier-IsOrdered : {n : Notifier} → Reach new_hook_notifier n → IsOrdered n
unfolding new_hook_notifier
new_hook_notifier-IsOrdered r =
    Reach-IsOrdered r (record { in_order = refl; bounded = ground arith })

abbrev or_stay : Notifier → Option Notifier → Notifier
or_stay n none = n
or_stay n (some n') = n'

-- The worker's turns, as many as `fuel`; a turn that would wait changes nothing.
pub work : ℕ → Notifier → Notifier
unfolding deliver_one
work zero n = n
work (suc fuel) n = work fuel (or_stay n (deliver_one n))

work_closed :
    (js sub del : List HookContext)
    → let n : Notifier = record {
      cancelled = false;
      jobs = some js;
      closed = true;
      finished = false;
      submitted = sub;
      delivered = del;
    } in
      let n' = work (suc (length js)) n in (n'.delivered ≡ del ++ js) × (n'.finished ≡ true)
unfolding work
work_closed [] sub del = (sym (append-nil del), refl)
work_closed (j ∷ js) sub del =
    let (p, q) = work_closed js sub (del ++ j ∷ []) in (p ∙ append_assoc del (j ∷ []) js, q)

-- After a `Close` without a cancellation the worker delivers everything that was accepted and returns,
-- within one turn for each event that waits and one more: the wait of `Close` ends.
pub close-Delivers :
    (n : Notifier) (js : List HookContext)
    → IsOrdered n
    → n.jobs ≡ some js
    → n.cancelled ≡ false
    → n.finished ≡ false
    → let n' = work (suc (length js)) (close n) in
      (n'.delivered ≡ n.submitted) × (n'.finished ≡ true)
unfolding close
close-Delivers n js v e c f =
    let (p, q) = work_closed js n.submitted n.delivered in
    let same : ◌≡◌ {A = Notifier} (record n { closed = true })
        (record {
          cancelled = false;
          jobs = some js;
          closed = true;
          finished = false;
          submitted = n.submitted;
          delivered = n.delivered;
        }) =
      cc in
    (
      ap (λ m. (work (suc (length js)) m).delivered) same
          ∙ p
          ∙ ap (λ j. n.delivered ++ queued j) (sym e)
          ∙ sym v.in_order,
      ap (λ m. (work (suc (length js)) m).finished) same ∙ q,
    )
