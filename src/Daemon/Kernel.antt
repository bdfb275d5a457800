-- ===== src/Daemon/Kernel.antt =====
-- The daemon's kernel (netlinkKernel of daemon/cmd/wanwatchd/kernel.go, and helpers.go): the operations
-- of Apply over netlink, and the lookups of an interface. The packages net and netlink are one record
-- over a world `W`.
pub mod Sound
use nixos_wanwatch.Prelude.{
  ℕ, ◌≡◌, ◌↔◌, Bool, true, false, Option, none, some, List, [], ◌∷◌, String, Result, ok, err,
  if◌then◌else◌, Bool-cases, inl, inr, In, here, there, arith, ap, ◌∙◌,
}
use nixos_wanwatch.Prelude.Int.{ℤ}
use nixos_wanwatch.Probe.Float.{Floats}
use nixos_wanwatch.Rtnl.Event.{Ip}
use nixos_wanwatch.Apply.Route.{KernelRoute, WriteError, write_default}
use nixos_wanwatch.Apply.Rule.{Rule, RuleError, ensure_rule}
use nixos_wanwatch.Apply.Conntrack.{RequestError, FlushError, flush_by_source}
use nixos_wanwatch.Daemon.{Outside}

-- A `net.Addr`: an IPNet with its address, or another.
pub data Addr : Type 0 where
  ip_net : Ip → Addr
  other_addr : Addr

pub record Interface : Type 0 where
  pub name : String
  pub index : ℤ

pub record Netlink (W E Filter : Type 0) : Type 0 where
  pub interface_by_name : String → W → Result E Interface × W
  pub addrs : Interface → W → Result E (List Addr) × W
  pub is_global_unicast : Ip → Bool
  pub replace : KernelRoute → W → Option E × W
  pub new_rule : Rule
  pub list_rules : ℤ → W → Result E (List Rule) × W
  pub add_rule : Rule → W → Option E × W
  pub delete_rule : Rule → W → Option E × W
  pub is_exist : E → Bool
  pub filtered_delete : Ip → W → Option (RequestError E) × W
  pub reply_dst_filter : Ip → Result E Filter
  pub dump_delete : ℤ → Filter → W → ℕ × Option (RequestError E) × W

pub data KernelError (E : Type 0) : Type 0 where
  rule_error : RuleError E → KernelError E
  route_error : WriteError E → KernelError E
  flush_error : FlushError E → KernelError E
  no_interface : String → E → KernelError E
  no_addrs : String → E → KernelError E

abbrev mapped_error : {A B : Type 0} → (A → B) → Option A → Option B
mapped_error f none = none
mapped_error f (some e) = some (f e)

module _ {W E Filter : Type 0} (nl : Netlink W E Filter) where
  abbrev index_of : String → Result E Interface × W → Result (KernelError E) ℤ × W
  index_of name (err e, w) = (err (no_interface name e), w)
  index_of name (ok i, w) = (ok i.index, w)

  unfoldable pub interface_index : String → W → Result (KernelError E) ℤ × W
  interface_index name w = index_of name (nl.interface_by_name name w)

  -- The IPNets of global unicast, in order.
  unfoldable pub filter_global_unicast : List Addr → List Ip
  filter_global_unicast [] = []
  filter_global_unicast (other_addr ∷ xs) = filter_global_unicast xs
  filter_global_unicast (ip_net ip ∷ xs) =
      let rest = filter_global_unicast xs in if nl.is_global_unicast ip then ip ∷ rest else rest

  abbrev filtered : String → Result E (List Addr) × W → Result (KernelError E) (List Ip) × W
  filtered name (err e, w) = (err (no_addrs name e), w)
  filtered name (ok xs, w) = (ok (filter_global_unicast xs), w)

  abbrev addrs_of : String → Result E Interface × W → Result (KernelError E) (List Ip) × W
  addrs_of name (err e, w) = (err (no_interface name e), w)
  addrs_of name (ok i, w) = filtered name (nl.addrs i w)

  unfoldable pub interface_addrs : String → W → Result (KernelError E) (List Ip) × W
  unfolding filter_global_unicast
  interface_addrs name w = addrs_of name (nl.interface_by_name name w)

  -- The kernel's part of what is outside of the daemon, which for the rest is as given.
  unfoldable pub netlink_kernel :
      {fl : Floats} → Outside fl W (KernelError E) → Outside fl W (KernelError E)
  netlink_kernel out = record out {
    ensure_rule = λ r w.
        let (n, e, w') =
          ensure_rule nl.new_rule nl.list_rules nl.add_rule nl.delete_rule nl.is_exist out.cancelled
            r w in
        (n, mapped_error rule_error e, w');
    if_index = interface_index;
    write_route = λ r w.
        let (e, w') = write_default out.is_v4 nl.replace out.cancelled r w in
        (mapped_error route_error e, w');
    interface_addrs = interface_addrs;
    flush_conntrack = λ fam ip w.
        let (_, e, w') =
          flush_by_source out.is_v4 nl.filtered_delete nl.reply_dst_filter nl.dump_delete
            out.cancelled fam ip w in
        (mapped_error flush_error e, w');
  }

  -- The addresses that a flush is made for are the interface's of global unicast, and all of them.
  pub filter_global_unicast_iff :
      (xs : List Addr) (ip : Ip)
      → In ip (filter_global_unicast xs) ↔ (In (ip_net ip) xs × (nl.is_global_unicast ip ≡ true))
  unfolding filter_global_unicast
  filter_global_unicast_iff [] ip = (λ m. elim m [ ], λ (m, h). elim m [ ])
  filter_global_unicast_iff (other_addr ∷ xs) ip =
      let (f, g) = filter_global_unicast_iff xs ip in
      (λ m. let (n, h) = f m in (there n, h), λ (m, h). g (past m, h))
    where
      past : In (ip_net ip) (other_addr ∷ xs) → In (ip_net ip) xs
      past (here e) = cc
      past (there m) = m
  filter_global_unicast_iff (ip_net i ∷ xs) ip =
      let (f, g) = filter_global_unicast_iff xs ip in
      elim (Bool-cases (nl.is_global_unicast i)) [
        | inl e ↦ rw e (λ m. kept e f m, λ (m, h). keep g h m)
        | inr e ↦ rw e (λ m. let (n, h) = f m in (there n, h), λ (m, h). skip e g h m)
      ]
    where
      same : {x y : Ip} → ip_net x ≡ ip_net y → x ≡ y
      same {x} e = ap (λ a. elim a [ ip_net z ↦ z | other_addr ↦ x ]) e

      kept :
          nl.is_global_unicast i ≡ true
          → (In ip (filter_global_unicast xs)
              → In (ip_net ip) xs × (nl.is_global_unicast ip ≡ true))
          → In ip (i ∷ filter_global_unicast xs)
          → In (ip_net ip) (ip_net i ∷ xs) × (nl.is_global_unicast ip ≡ true)
      kept e f (here q) = (here (ap ip_net q), ap nl.is_global_unicast q ∙ e)
      kept e f (there m) = let (n, h) = f m in (there n, h)

      keep :
          (In (ip_net ip) xs × (nl.is_global_unicast ip ≡ true) → In ip (filter_global_unicast xs))
          → nl.is_global_unicast ip ≡ true
          → In (ip_net ip) (ip_net i ∷ xs)
          → In ip (i ∷ filter_global_unicast xs)
      keep g h (here q) = here (same q)
      keep g h (there m) = there (g (m, h))

      skip :
          nl.is_global_unicast i ≡ false
          → (In (ip_net ip) xs × (nl.is_global_unicast ip ≡ true)
              → In ip (filter_global_unicast xs))
          → nl.is_global_unicast ip ≡ true
          → In (ip_net ip) (ip_net i ∷ xs)
          → In ip (filter_global_unicast xs)
      skip e g h (here q) = ground (arith, e, h, ap nl.is_global_unicast (same q))
      skip e g h (there m) = g (m, h)
