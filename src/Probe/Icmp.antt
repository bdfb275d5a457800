-- ===== src/Probe/Icmp.antt =====
-- daemon/internal/probe/icmp.go: building and parsing echo messages. A byte is a number below 256.
pub mod Checksum
pub mod Wire
use nixos_wanwatch.Prelude.{
  ℕ, zero, suc, ◌+◌, ◌-◌, ◌*◌, ◌/◌, ◌%◌, ◌^◌, ◌≡◌, Bool, true, false, List, [], ◌∷◌, ◌++◌, ◌==◌,
  ltb, not, if◌then◌else◌, length, get_or, Result, ok, err,
}
use nixos_wanwatch.Probe.Family.{Family, v4, v6, other}

-- `binary.BigEndian.PutUint16`
abbrev pub put_u16 : ℕ → List ℕ
put_u16 n = (n / 256) ∷ (n % 256) ∷ []

abbrev pub u16_of : ℕ → ℕ → ℕ
u16_of hi lo = hi * 256 + lo

-- `uint32` addition
abbrev pub add_u32 : ℕ → ℕ → ℕ
add_u32 a b = (a + b) % 2 ^ 32

-- The big-endian words, an odd last byte padded on the right.
unfoldable pub sum_words : ℕ → List ℕ → ℕ
sum_words sum [] = sum
sum_words sum (hi ∷ []) = add_u32 sum (hi * 256)
sum_words sum (hi ∷ lo ∷ rest) = sum_words (add_u32 sum (u16_of hi lo)) rest

-- `sum = (sum & 0xFFFF) + (sum >> 16)`
abbrev pub fold_once : ℕ → ℕ
fold_once sum = sum % 2 ^ 16 + sum / 2 ^ 16

-- The loop `for sum>>16 != 0`. Two rounds are enough for a `uint32`; `Checksum.carry_ends` proves it.
unfoldable pub carry : ℕ → ℕ → ℕ
carry zero sum = sum
carry (suc fuel) sum =
    let rest = carry fuel (fold_once sum) in if sum / 2 ^ 16 == 0 then sum else rest

abbrev pub carry_rounds : ℕ
carry_rounds = 2

unfoldable pub internet_checksum : List ℕ → ℕ
unfolding sum_words carry
internet_checksum b = 2 ^ 16 - 1 - carry carry_rounds (sum_words 0 b) % 2 ^ 16

abbrev pub request_type : Family → ℕ
request_type v6 = 128
request_type _ = 8

abbrev pub reply_type : Family → ℕ
reply_type v6 = 129
reply_type _ = 0

-- The message with `sum` in its checksum field.
abbrev pub message : ℕ → ℕ → ℕ → ℕ → List ℕ → List ℕ
message kind sum ident seq payload =
    kind ∷ 0 ∷ (put_u16 sum ++ put_u16 ident ++ put_u16 seq ++ payload)

-- Only IPv4 messages get a checksum here; the kernel fills in the IPv6 one.
unfoldable pub echo_request_bytes : Family → ℕ → ℕ → List ℕ → List ℕ
unfolding internet_checksum
echo_request_bytes v4 ident seq payload =
    let blank = message (request_type v4) 0 ident seq payload in
    message (request_type v4) (internet_checksum blank) ident seq payload
echo_request_bytes family ident seq payload = message (request_type family) 0 ident seq payload

pub data ReplyError : Type 0 where
  too_short : ℕ → ReplyError
  unexpected_type : ℕ → ℕ → ReplyError

-- The identifier and the sequence number.
unfoldable pub parse_echo_reply : Family → List ℕ → Result ReplyError (ℕ × ℕ)
parse_echo_reply family bytes =
    let at = λ (i : ℕ). get_or bytes i 0 in
    if ltb (length bytes) 8
    then err (too_short (length bytes))
    else if not (at 0 == reply_type family)
    then err (unexpected_type (at 0) (reply_type family))
    else ok (u16_of (at 4) (at 5), u16_of (at 6) (at 7))
