-- ===== src/Tests/MessageRuns.antt =====
-- The theorems on echo messages and identifiers, at two keys that start at one identifier.
use nixos_wanwatch.Prelude.{ℕ, ◌≡◌, ◌↔◌, ◌≤◌, refl, List, [], ◌∷◌, ok, arith, length, get_or, some}
use nixos_wanwatch.Prelude.Dict.{lookup, insert}
use nixos_wanwatch.Probe.Family.{v4, v6}
use nixos_wanwatch.Probe.Icmp.{echo_request_bytes, parse_echo_reply, reply_type}
use nixos_wanwatch.Probe.Icmp.Checksum.{request-IsAccepted, IsAccepted}
use nixos_wanwatch.Probe.Icmp.Wire.{reply_to, reply_roundtrip, parse_accepts_iff}
use nixos_wanwatch.Probe.Ident.{IdentKey, Idents, allocate_idents, same_ident, find_free}
use nixos_wanwatch.Probe.Ident.Total.{allocate_total, NoRepeat}

abbrev payload : List ℕ
payload = 119 ∷ 97 ∷ 110 ∷ []

request-IsAccepted_example : IsAccepted (echo_request_bytes v4 4660 7 payload)
request-IsAccepted_example =
    request-IsAccepted 4660 7 payload (omega arith) (omega arith)
      (omega arith, (omega arith, (omega arith, tt))) (omega arith)

reply_roundtrip_example :
    parse_echo_reply v6 (reply_to v6 513 (echo_request_bytes v6 4660 7 payload)) ≡ ok (4660, 7)
reply_roundtrip_example = reply_roundtrip v6 4660 7 513 payload

parse_accepts_iff_example :
    ((ident : ℕ) × (seq : ℕ) × (parse_echo_reply v4 payload ≡ ok (ident, seq)))
    ↔ ((8 ≤ length payload) × (get_or payload 0 0 ≡ reply_type v4))
parse_accepts_iff_example = parse_accepts_iff v4 payload

abbrev wan_v4 : IdentKey
wan_v4 = record { wan = "primary"; family = v4 }

abbrev wan_v6 : IdentKey
wan_v6 = record { wan = "primary"; family = v6 }

-- Both keys start at the last identifier, so the second one wraps to 0.
abbrev last_ident : IdentKey → ℕ
last_ident k = 65535

abbrev idents : Idents
idents = (wan_v4, 65535) ∷ (wan_v6, 0) ∷ []

allocated : allocate_idents last_ident (wan_v4 ∷ wan_v6 ∷ []) ≡ ok idents
unfolding allocate_idents lookup insert find_free same_ident
allocated = refl

found : lookup same_ident wan_v4 idents ≡ some 65535
unfolding lookup same_ident
found = refl

no_repeat : NoRepeat (wan_v4 ∷ wan_v6 ∷ [])
unfolding same_ident
no_repeat = ((refl, tt), (tt, tt))

allocate_total_example : (m : Idents) × (allocate_idents last_ident (wan_v4 ∷ wan_v6 ∷ []) ≡ ok m)
allocate_total_example = allocate_total last_ident (wan_v4 ∷ wan_v6 ∷ []) (omega arith) no_repeat
