-- ===== src/Probe/Ident.antt =====
-- daemon/internal/probe/ident.go: a distinct ICMP identifier for every WAN and Family. The start of a
-- key's search, two bytes of a SHA-256 hash, is a parameter.
pub mod Distinct
pub mod Total
use nixos_wanwatch.Prelude.{
  ℕ, zero, suc, ◌+◌, ◌%◌, ◌==◌, ltb, Bool, true, false, ◌&&◌, Option, none, some, List, [], ◌∷◌,
  String, length, Result, ok, err, ◌>>=◌, if◌then◌else◌,
}
use nixos_wanwatch.Prelude.Text.{str_eq}
use nixos_wanwatch.Prelude.Dict.{lookup, insert}
use nixos_wanwatch.Probe.Family.{Family, eq_family}

pub record IdentKey : Type 0 where
  pub wan : String
  pub family : Family

unfoldable pub same_ident : IdentKey → IdentKey → Bool
same_ident a b = str_eq a.wan b.wan && eq_family a.family b.family

abbrev pub ident_space : ℕ
ident_space = 65536

pub data IdentError : Type 0 where
  too_many : ℕ → IdentError
  duplicate_key exhausted : IdentKey → IdentError

abbrev pub Idents : Type 0
Idents = List (IdentKey × ℕ)

abbrev pub Owners : Type 0
Owners = List (ℕ × IdentKey)

abbrev pub is_taken : Option IdentKey → Bool
is_taken none = false
is_taken (some _) = true

-- The inner loop, from `offset` on with `left` offsets to go.
unfoldable pub find_free : (left : ℕ) → Owners → (start offset : ℕ) → Option ℕ
find_free zero owners start offset = none
find_free (suc left) owners start offset =
    let candidate = (start + offset) % ident_space in
    let rest = find_free left owners start (offset + 1) in
    if is_taken (lookup ◌==◌ candidate owners) then rest else some candidate

-- The identifier of a key that has `seen` before and finds `free`.
abbrev pub pick : IdentKey → Option ℕ → Option ℕ → Result IdentError ℕ
pick k (some j) free = err (duplicate_key k)
pick k none none = err (exhausted k)
pick k none (some i) = ok i

module _ (initial_ident : IdentKey → ℕ) where
  -- The outer loop, with the two maps.
  unfoldable pub allocate_from : List IdentKey → Idents → Owners → Result IdentError Idents
  allocate_from [] allocated owners = ok allocated
  allocate_from (k ∷ ks) allocated owners =
      pick k (lookup same_ident k allocated) (find_free ident_space owners (initial_ident k) 0)
      >>= λ i. allocate_from ks (insert same_ident k i allocated) (insert ◌==◌ i k owners)

  unfoldable pub allocate_idents : List IdentKey → Result IdentError Idents
  unfolding allocate_from
  allocate_idents keys =
      if ltb ident_space (length keys)
      then err (too_many (length keys))
      else allocate_from keys [] []
