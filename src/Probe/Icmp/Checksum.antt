-- ===== src/Probe/Icmp/Checksum.antt =====
-- The Internet checksum (internetChecksum of daemon/internal/probe/icmp.go) and the check of a receiver
-- (RFC 1071).
use nixos_wanwatch.Prelude.{
  ℕ, zero, suc, ◌+◌, ◌-◌, ◌*◌, ◌/◌, ◌%◌, ◌^◌, ◌≤◌, ◌<◌, ◌≡◌, refl, List, [], ◌∷◌, ◌==◌, length,
  arith, All, ltb, if◌then◌else◌, Bool-cases, inl, inr, ◌∙◌,
}
use nixos_wanwatch.Probe.Family.{v4}
use nixos_wanwatch.Probe.Icmp.{
  u16_of, add_u32, sum_words, fold_once, carry, carry_rounds, message, echo_request_bytes,
}

carry_done : (fuel sum : ℕ) → sum < 2 ^ 16 → carry fuel sum ≡ sum
unfolding carry
carry_done zero sum h = refl
carry_done (suc fuel) sum h = ground arith

-- One round: the sum falls by a multiple of 0xFFFF, and never to 0.
fold_once_lem :
    (sum : ℕ) → (sum ≡ fold_once sum + 65535 * (sum / 2 ^ 16)) × (0 < sum → 0 < fold_once sum)
fold_once_lem sum = (omega arith, λ p. omega arith)

-- The carry loop ends within its rounds for every `uint32`: more rounds change nothing, and the
-- result has no carry left.
pub carry_ends :
    (fuel sum : ℕ)
    → sum < 2 ^ 32
    → (carry carry_rounds sum < 2 ^ 16) × (carry (suc (suc fuel)) sum ≡ carry carry_rounds sum)
unfolding carry
carry_ends fuel sum h =
    (ground (arith), ground (arith, carry_done fuel (fold_once (fold_once sum)) (omega arith)))

-- What the loop leaves is the sum modulo 0xFFFF, and 0 only for 0.
carry_mod :
    (sum : ℕ)
    → sum < 2 ^ 32
    → (k : ℕ) × (sum ≡ carry carry_rounds sum + 65535 * k) × (0 < sum → 0 < carry carry_rounds sum)
unfolding carry
carry_mod sum h = elim (Bool-cases (sum / 2 ^ 16 == 0)) [
  | inl p ↦ (0, ground arith, λ q. ground arith)
  | inr p ↦ elim (Bool-cases (fold_once sum / 2 ^ 16 == 0)) [
    | inl q ↦ (sum / 2 ^ 16, ground arith, λ z. ground arith)
    | inr q ↦ (sum / 2 ^ 16 + fold_once sum / 2 ^ 16, ground arith, λ z. ground arith)
  ]
]

-- The sum of the words without wrapping.
abbrev word_sum : List ℕ → ℕ
word_sum [] = 0
word_sum (hi ∷ []) = hi * 256
word_sum (hi ∷ lo ∷ rest) = u16_of hi lo + word_sum rest

abbrev pub IsByte : ℕ → Type 0
IsByte b = b < 256

word_sum-le : (l : List ℕ) → All IsByte l → word_sum l ≤ 65535 * length l
word_sum-le [] h = omega arith
word_sum-le (hi ∷ []) h = omega arith
word_sum-le (hi ∷ lo ∷ rest) h = omega (arith, word_sum-le rest h.1.1)

sum_words_lem :
    (sum : ℕ) (l : List ℕ) → sum + word_sum l < 2 ^ 32 → sum_words sum l ≡ sum + word_sum l
unfolding sum_words
sum_words_lem sum [] h = omega arith
sum_words_lem sum (hi ∷ []) h = omega arith
sum_words_lem sum (hi ∷ lo ∷ rest) h =
    let e : add_u32 sum (u16_of hi lo) ≡ sum + u16_of hi lo = omega arith in
    rw e (sum_words_lem (sum + u16_of hi lo) rest (omega arith) ∙ (omega arith))

message_sum :
    (sum ident seq : ℕ) (payload : List ℕ)
    → sum < 2 ^ 16
    → ident < 2 ^ 16
    → seq < 2 ^ 16
    → All IsByte payload
    → length payload ≤ 65000
    → sum_words 0 (message 8 sum ident seq payload) ≡ 2048 + ident + seq + word_sum payload + sum
message_sum sum ident seq payload h hi hs bytes short =
    sum_words_lem 0 (message 8 sum ident seq payload) (omega (arith, word_sum-le payload bytes))
    ∙ (omega arith)

-- RFC 1071: the 16-bit words of a message, an odd last byte padded with a zero, are added with the
-- carry out of bit 15 brought around into bit 0.
abbrev pub ones_add : ℕ → ℕ → ℕ
ones_add a b = if ltb (a + b) 65536 then a + b else a + b - 65535

pub ones_sum : List ℕ → ℕ
ones_sum [] = 0
ones_sum (hi ∷ []) = 256 * hi
ones_sum (hi ∷ lo ∷ rest) = ones_add (256 * hi + lo) (ones_sum rest)

-- A receiver accepts a message whose words, with their checksum among them, sum to 0xFFFF.
abbrev pub IsAccepted : List ℕ → Type 0
IsAccepted bytes = ones_sum bytes ≡ 65535

-- The sum modulo 0xFFFF, and 0 only for 0.
ones_sum_lem :
    (l : List ℕ)
    → All IsByte l
    → (k : ℕ) × (word_sum l ≡ ones_sum l + 65535 * k)
      × (ones_sum l < 65536)
      × (0 < word_sum l → 0 < ones_sum l)
unfolding ones_sum
ones_sum_lem [] h = (0, refl, omega arith, λ p. p)
ones_sum_lem (hi ∷ []) h = (0, omega arith, omega (arith, h.0), λ p. omega (arith, p))
ones_sum_lem (hi ∷ lo ∷ rest) h =
    let (k, e, l, p) = ones_sum_lem rest h.1.1 in
    elim (Bool-cases (ltb (256 * hi + lo + ones_sum rest) 65536)) [
      | inl q ↦ (k, ground (arith, e, q), ground (arith, q), λ z. ground (arith, p, e, q, z))
      | inr q ↦
          (suc k, ground (arith, e, q), ground (arith, l, q, h.0, h.1.0), λ z. ground (arith, q))
    ]

put_u16-IsByte : (n : ℕ) → n < 2 ^ 16 → (n / 256 < 256) × (n % 256 < 256)
put_u16-IsByte n h = (omega arith, omega arith)

-- Every IPv4 echo request of at most 65000 bytes of payload passes a receiver's check by
-- RFC 1071.
pub request-IsAccepted :
    (ident seq : ℕ) (payload : List ℕ)
    → ident < 2 ^ 16
    → seq < 2 ^ 16
    → All IsByte payload
    → length payload ≤ 65000
    → IsAccepted (echo_request_bytes v4 ident seq payload)
unfolding echo_request_bytes
request-IsAccepted ident seq payload hi hs bytes short =
    let blank = sum_words 0 (message 8 0 ident seq payload) in
    let c = 2 ^ 16 - 1 - carry carry_rounds blank % 2 ^ 16 in
    let request = message 8 c ident seq payload in
    let e = message_sum 0 ident seq payload (omega arith) hi hs bytes short in
    let small : blank < 2 ^ 32 = omega (arith, e, word_sum-le payload bytes) in
    let (low, _) = carry_ends 0 blank small in
    let (k, q, _) = carry_mod blank small in
    let total : word_sum request ≡ 65535 * (k + 1) = omega (arith, e, q, low) in
    let (i, j) = put_u16-IsByte ident hi in
    let (s, t) = put_u16-IsByte seq hs in
    let (a, b) = put_u16-IsByte c (omega arith) in
    let (m, f, l, p) =
      ones_sum_lem request (omega arith, (omega arith, (a, (b, (i, (j, (s, (t, bytes)))))))) in
    multiple (ones_sum request) k m (omega (arith, f, total)) l (p (omega (arith, total)))
  where
    multiple : (t a b : ℕ) → t + 65535 * b ≡ 65535 * (a + 1) → t < 65536 → 0 < t → t ≡ 65535
    multiple t a b e small pos = omega arith
