-- ===== src/Probe/Pinger/Samples.antt =====
-- The samples of a cycle (daemon/internal/probe/pinger.go): one for every Target.
use nixos_wanwatch.Prelude.{
  ℕ, ◌+◌, ◌≡◌, refl, Bool, true, false, Option, none, some, List, [], ◌∷◌, ◌++◌, String, ◌==◌,
  ==_iff, Result, ok, err, if◌then◌else◌, arith, count_if,
}
use nixos_wanwatch.Prelude.Dict.{lookup, insert, delete, IsEquality, lookup-insert, lookup-delete}
use nixos_wanwatch.Prelude.Text.{str_eq}
use nixos_wanwatch.Probe.Icmp.{ReplyError, parse_echo_reply}
use nixos_wanwatch.Probe.Pinger.{
  Pinger, Pending, Inflight, eq_seq, Push, record_loss, Datagram, matched, parsed, receive,
  read_loop,
}

-- How many samples go to a Target.
abbrev pub samples_for : String → List Push → ℕ
samples_for t = count_if (λ e. str_eq e.0 t)

-- How many probes of a Target are in flight.
abbrev pub pending_for : String → Inflight → ℕ
pending_for t = count_if (λ e. str_eq e.1.target t)

-- Every probe in flight has a sequence number of its own.
abbrev pub Distinct : Inflight → Type 0
Distinct [] = Unit
Distinct ((k, v) ∷ m) = (lookup eq_seq k m ≡ none) × Distinct m

pub count_if-append :
    {A : Type 0} (q : A → Bool) (xs ys : List A)
    → count_if q (xs ++ ys) ≡ count_if q xs + count_if q ys
count_if-append q [] ys = ground arith
count_if-append q (x ∷ xs) ys = ground (arith, count_if-append q xs ys)

pub insert-fresh :
    (t : String) (k : ℕ) (v : Pending) (m : Inflight)
    → lookup eq_seq k m ≡ none
    → pending_for t (insert eq_seq k v m) ≡ pending_for t m + (if str_eq v.target t then 1 else 0)
unfolding insert lookup
insert-fresh t k v [] h = ground arith
insert-fresh t k v ((j, u) ∷ m) h = ground (arith, insert-fresh t k v m)

delete-missing : (k : ℕ) (m : Inflight) → lookup eq_seq k m ≡ none → delete eq_seq k m ≡ m
unfolding delete lookup
delete-missing k [] h = refl
delete-missing k ((j, u) ∷ m) h = ground (arith, delete-missing k m)

delete-known :
    (t : String) (k : ℕ) (v : Pending) (m : Inflight)
    → Distinct m
    → lookup eq_seq k m ≡ some v
    → pending_for t (delete eq_seq k m) + (if str_eq v.target t then 1 else 0) ≡ pending_for t m
unfolding delete lookup
delete-known t k v [] d h = ground arith
delete-known t k v ((j, u) ∷ m) (n, d) h =
    ground (arith, delete-known t k v m d, delete-missing k m, ==_iff j k)

eq_seq-IsEquality : IsEquality eq_seq
eq_seq-IsEquality a b = ==_iff a b

pub insert-Distinct :
    (k : ℕ) (v : Pending) (m : Inflight)
    → lookup eq_seq k m ≡ none
    → Distinct m
    → Distinct (insert eq_seq k v m)
unfolding insert lookup
insert-Distinct k v [] h d = (refl, tt)
insert-Distinct k v ((j, u) ∷ m) h (n, d) = ground (
  arith,
  ==_iff j k,
  ==_iff k j,
  lookup-insert eq_seq eq_seq-IsEquality k j v m,
  insert-Distinct k v m,
)

delete-Distinct : (k : ℕ) (m : Inflight) → Distinct m → Distinct (delete eq_seq k m)
unfolding delete
delete-Distinct k [] d = tt
delete-Distinct k ((j, u) ∷ m) (n, d) =
    ground (arith, lookup-delete eq_seq eq_seq-IsEquality k j m, delete-Distinct k m d)

-- What is in flight after some of it was answered, with the samples pushed meanwhile.
abbrev Settles : Inflight → Inflight × List Push → Type 0
Settles m (m', pushes) =
    Distinct m' × ((t : String) → pending_for t m' + samples_for t pushes ≡ pending_for t m)

matched-Settles :
    (d : Datagram) (seq : ℕ) (m : Inflight) (o : Option Pending)
    → lookup eq_seq seq m ≡ o
    → Distinct m
    → Settles m (matched d seq m o)
matched-Settles d seq m none h u = (u, λ t. ground arith)
matched-Settles d seq m (some p) h u =
    (delete-Distinct seq m u, λ t. ground (arith, delete-known t seq p m u h))

parsed-Settles :
    (p : Pinger) (d : Datagram) (m : Inflight) (r : Result ReplyError (ℕ × ℕ))
    → Distinct m
    → Settles m (parsed p d m r)
parsed-Settles p d m (err e) u = (u, λ t. ground arith)
parsed-Settles p d m (ok (ident, seq)) u =
    if-Settles m (ident == p.ident) (matched d seq m (lookup eq_seq seq m))
      (matched-Settles d seq m (lookup eq_seq seq m) refl u) u
  where
    if-Settles :
        (m : Inflight) (b : Bool) (x : Inflight × List Push)
        → Settles m x
        → Distinct m
        → Settles m (if b then x else (m, []))
    if-Settles m true x h u = h
    if-Settles m false x h u = (u, λ t. ground arith)

pub read_loop-Settles :
    (p : Pinger) (m : Inflight) (ds : List Datagram) → Distinct m → Settles m (read_loop p m ds)
unfolding read_loop receive
read_loop-Settles p m [] u = (u, λ t. ground arith)
read_loop-Settles p [] (d ∷ ds) u = (u, λ t. ground arith)
read_loop-Settles p (e ∷ m) (d ∷ ds) u =
    let (u', h) = parsed-Settles p d (e ∷ m) (parse_echo_reply p.family d.bytes) u in
    let (m', pushes) = receive p (e ∷ m) d in
    let (left, later) = read_loop p m' ds in
    let (v, k) = read_loop-Settles p m' ds u' in
    (v, λ t. ground (arith, h t, k t, count_if-append (λ e. str_eq e.0 t) pushes later))

pub samples_for-record_loss :
    (t : String) (m : Inflight) → samples_for t (record_loss m) ≡ pending_for t m
unfolding record_loss
samples_for-record_loss t [] = refl
samples_for-record_loss t (e ∷ m) = ground (arith, samples_for-record_loss t m)
