-- ===== src/Config/Load.antt =====
-- Load and Parse of daemon/internal/config/config.go. The read of the file and the JSON decoder are
-- parameters: `decode` gives the first value with what follows it, and `at_end` says that nothing
-- follows.
use nixos_wanwatch.Prelude.{
  ◌≡◌, ◌↔◌, refl, Bool, true, false, String, Result, ok, err, if◌then◌else◌, arith, sym, ap, subst,
  ◌∙◌,
}
use nixos_wanwatch.Config.Types.{Config}
use nixos_wanwatch.Config.Validate.{Netip, ParseError, parse_decoded, supported_schema}
use nixos_wanwatch.Config.Validate.WellFormed.{IsWellFormed, parse_decoded_iff}

pub data LoadError (E : Type 0) : Type 0 where
  unreadable : E → LoadError E
  not_json : E → LoadError E
  trailing_data : LoadError E
  refused : ParseError → LoadError E

module _ {D E : Type 0} (net : Netip) (read_file : String → Result E D)
    (decode : D → Result E (Config × D)) (at_end : D → Bool) where
  abbrev judged : Result ParseError Config → Result (LoadError E) Config
  judged (ok c) = ok c
  judged (err e) = err (refused e)

  abbrev decoded : Result E (Config × D) → Result (LoadError E) Config
  decoded (err e) = err (not_json e)
  decoded (ok (c, rest)) =
      let v = judged (parse_decoded net c) in if at_end rest then v else err trailing_data

  unfoldable pub parse : D → Result (LoadError E) Config
  parse json = decoded (decode json)

  abbrev read : Result E D → Result (LoadError E) Config
  read (err e) = err (unreadable e)
  read (ok json) = parse json

  unfoldable pub load : String → Result (LoadError E) Config
  unfolding parse
  load path = read (read_file path)

  judged_iff :
      (b : Bool) (r : Result ParseError Config) (d : Config)
      → ((if b then judged r else err trailing_data) ≡ ok d) ↔ ((b ≡ true) × (r ≡ ok d))
  judged_iff true (ok c) d = ground arith
  judged_iff true (err e) d = ground arith
  judged_iff false r d = ground arith

  -- The text is one JSON value of a configuration that passes.
  abbrev pub IsAccepted : D → Config → Type 0
  IsAccepted json c =
      (rest : D) × (decode json ≡ ok (c, rest))
      × (at_end rest ≡ true)
      × (c.schema ≡ supported_schema)
      × IsWellFormed net c

  decoded_iff :
      (d : Config) (r : Result E (Config × D))
      → (decoded r ≡ ok d) ↔ (
          (rest : D) × (r ≡ ok (d, rest))
          × (at_end rest ≡ true)
          × (d.schema ≡ supported_schema)
          × IsWellFormed net d)
  decoded_iff d (err e) = (λ h. cc, λ (rest, h, _, _, _). cc)
  decoded_iff d (ok (c, rest)) = (
    λ h.
        let (t, q) = (judged_iff (at_end rest) (parse_decoded net c) d).0 h in
        let (same, v, w) = (parse_decoded_iff net c d).0 q in
        (
          rest,
          ap (λ c. ok (c, rest)) same,
          t,
          ap (λ (c : Config). c.schema) (sym same) ∙ v,
          subst (IsWellFormed net) same w,
        ),
    λ (rest', e, t, v, w).
        let same : d ≡ c = ap (λ r. elim r [ ok x ↦ x.0 | err _ ↦ d ]) (sym e) in
        let after : rest' ≡ rest = ap (λ r. elim r [ ok x ↦ x.1 | err _ ↦ rest' ]) (sym e) in
        (judged_iff (at_end rest) (parse_decoded net c) d).1 (
          ap at_end (sym after) ∙ t,
          (parse_decoded_iff net c d).1 (
            sym same,
            ap (λ (c : Config). c.schema) (sym same) ∙ v,
            subst (IsWellFormed net) same w,
          ),
        ),
  )

  read_iff :
      (d : Config) (r : Result E D)
      → (read r ≡ ok d) ↔ ((json : D) × (r ≡ ok json) × IsAccepted json d)
  unfolding parse
  read_iff d (err e) = (λ h. cc, λ (json, h, _). cc)
  read_iff d (ok x) = (
    λ h. (x, refl, (decoded_iff d (decode x)).0 h),
    λ (json, e, a).
        let same : json ≡ x = ap (λ r. elim r [ ok y ↦ y | err _ ↦ json ]) (sym e) in
        (decoded_iff d (decode x)).1 (subst (λ j. IsAccepted j d) same a),
  )

  -- `Load` returns a configuration exactly when the file can be read, its text is one JSON value and
  -- nothing more, its schema is the supported one and it is well-formed; it is returned as decoded.
  pub load_iff :
      (path : String) (d : Config)
      → (load path ≡ ok d) ↔ ((json : D) × (read_file path ≡ ok json) × IsAccepted json d)
  unfolding load
  load_iff path d = read_iff d (read_file path)
