-- ===== src/Probe/Icmp/Wire.antt =====
-- The wire format: what is built, and what a reply to it parses to.
use nixos_wanwatch.Prelude.{ℕ, ◌≤◌, ◌≡◌, List, [], ◌∷◌, ◌++◌, length, arith, ok, err, get_or, ◌↔◌}
use nixos_wanwatch.Probe.Family.{Family, v4, v6, other}
use nixos_wanwatch.Probe.Icmp.{
  put_u16, u16_of, reply_type, request_type, echo_request_bytes, parse_echo_reply, unexpected_type,
}

-- What a responder sends back: the request with the reply's type and a checksum of its own.
abbrev pub reply_to : Family → ℕ → List ℕ → List ℕ
reply_to family sum (kind ∷ code ∷ _ ∷ _ ∷ rest) = reply_type family ∷ code ∷ (put_u16 sum ++ rest)
reply_to family sum _ = []

-- The reply to a request carries the request's identifier and sequence number back, whatever the
-- payload and the responder's checksum.
pub reply_roundtrip :
    (family : Family) (ident seq sum : ℕ) (payload : List ℕ)
    → parse_echo_reply family (reply_to family sum (echo_request_bytes family ident seq payload))
      ≡ ok (ident, seq)
unfolding parse_echo_reply echo_request_bytes
reply_roundtrip v4 ident seq sum payload = ground arith
reply_roundtrip v6 ident seq sum payload = ground arith
reply_roundtrip (other n) ident seq sum payload = ground arith

-- A parse succeeds exactly for a message of at least 8 bytes that starts with the reply type of
-- its family, so a Pinger never takes its own request for a reply.
pub parse_accepts_iff :
    (family : Family) (bytes : List ℕ)
    → ((ident : ℕ) × (seq : ℕ) × (parse_echo_reply family bytes ≡ ok (ident, seq)))
      ↔ ((8 ≤ length bytes) × (get_or bytes 0 0 ≡ reply_type family))
unfolding parse_echo_reply
parse_accepts_iff family bytes = (
  λ (i, s, e). ground arith,
  λ (long, kind). (
    u16_of (get_or bytes 4 0) (get_or bytes 5 0),
    u16_of (get_or bytes 6 0) (get_or bytes 7 0),
    ground arith,
  ),
)

pub request_is_no_reply :
    (family : Family) (ident seq : ℕ) (payload : List ℕ)
    → parse_echo_reply family (echo_request_bytes family ident seq payload)
      ≡ err (unexpected_type (request_type family) (reply_type family))
unfolding parse_echo_reply echo_request_bytes
request_is_no_reply v4 ident seq payload = ground arith
request_is_no_reply v6 ident seq payload = ground arith
request_is_no_reply (other n) ident seq payload = ground arith
