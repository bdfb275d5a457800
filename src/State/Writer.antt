-- ===== src/State/Writer.antt =====
-- daemon/internal/state/state.go: Writer.Write, which replaces the State file by a temporary file
-- that it renames. The encoder and the file system are parameters over a world `W`.
use nixos_wanwatch.Prelude.{ℕ, ◌≡◌, Option, none, some, Result, ok, err}
use nixos_wanwatch.Prelude.Int.{ℤ, pos}
use nixos_wanwatch.Probe.Float.{Floats}
use nixos_wanwatch.State.{State}

abbrev pub schema_version : ℤ
schema_version = pos 1

-- The calls of encoding/json, os and time that `Write` makes: `F` is an open temporary file, and
-- `none` is success. `replace` is the rename of the temporary file to the Writer's path.
pub record Files (S W E : Type 0) : Type 1 where
  pub File : Type 0
  pub Bytes : Type 0
  pub now : W → ℕ
  pub marshal : S → Result E Bytes
  pub create_temp : W → Result E File × W
  pub write_file : File → Bytes → W → Option E × W
  pub chmod : File → W → Option E × W
  pub close : File → W → Option E × W
  pub replace : File → W → Option E × W
  pub remove : File → W → W

module _ (fl : Floats) {W E : Type 0} (fs : Files (State fl) W E) where
  abbrev stamp : Option ℕ → W → ℕ
  stamp none w = fs.now w
  stamp (some t) w = t

  -- What is encoded: the caller's time stays, and the zero time becomes now.
  pub stamped : State fl → W → State fl
  stamped s w = record s { updated_at = some (stamp s.updated_at w); schema = schema_version }

  -- The deferred clean-up of an error path.
  abbrev clean_up : fs.File → E → W → Option E × W
  clean_up f e w = (some e, fs.remove f (fs.close f w).1)

  -- One step on the temporary file, then `next`.
  abbrev step : fs.File → Option E × W → (W → Option E × W) → Option E × W
  step f (none, w) next = next w
  step f (some e, w) next = clean_up f e w

  fill : fs.Bytes → Result E fs.File × W → Option E × W
  fill bytes (err e, w) = (some e, w)
  fill bytes (ok f, w) = step f (fs.write_file f bytes w) (λ w₁.
      step f (fs.chmod f w₁)
        (λ w₂. step f (fs.close f w₂) (λ w₃. step f (fs.replace f w₃) (λ w₄. (none, w₄)))))

  abbrev encoded : Result E fs.Bytes → W → Option E × W
  encoded (err e) w = (some e, w)
  encoded (ok bytes) w = fill bytes (fs.create_temp w)

  -- `none` is success.
  pub write : State fl → W → Option E × W
  unfolding stamped fill
  write s w = encoded (fs.marshal (stamped s w)) w

  -- `reads` is what a reader finds at the path, and `stored` what an open temporary file holds. The
  -- file system promises: a write that succeeds stores its bytes in its file, a chmod and a close leave
  -- them there, a rename that succeeds shows at the path what its file holds, and nothing else changes
  -- what is at the path.
  pub record Keeps {C : Type 0} (reads : W → C) (stored : fs.File → W → C) (holds : fs.Bytes → C)
      : Type 0 where
    pub create_keeps : (w : W) → reads (fs.create_temp w).1 ≡ reads w
    pub write_keeps :
        (f : fs.File) (bytes : fs.Bytes) (w : W) → reads (fs.write_file f bytes w).1 ≡ reads w
    pub chmod_keeps : (f : fs.File) (w : W) → reads (fs.chmod f w).1 ≡ reads w
    pub close_keeps : (f : fs.File) (w : W) → reads (fs.close f w).1 ≡ reads w
    pub remove_keeps : (f : fs.File) (w : W) → reads (fs.remove f w) ≡ reads w
    pub write_stores :
        (f : fs.File) (bytes : fs.Bytes) (w : W)
        → (fs.write_file f bytes w).0 ≡ none
        → stored f (fs.write_file f bytes w).1 ≡ holds bytes
    pub chmod_stores : (f : fs.File) (w : W) → stored f (fs.chmod f w).1 ≡ stored f w
    pub close_stores : (f : fs.File) (w : W) → stored f (fs.close f w).1 ≡ stored f w
    pub failed_rename_keeps :
        (f : fs.File) (w : W) (e : E)
        → (fs.replace f w).0 ≡ some e
        → reads (fs.replace f w).1 ≡ reads w
    pub rename_shows :
        (f : fs.File) (w : W) → (fs.replace f w).0 ≡ none → reads (fs.replace f w).1 ≡ stored f w

  -- What a reader finds after a write: the old text with an error, or the new one.
  abbrev pub Atomic : {C : Type 0} → (W → C) → C → W → Option E × W → Type 0
  Atomic reads new w (none, w') = reads w' ≡ new
  Atomic reads new w (some e, w') = reads w' ≡ reads w

  abbrev pub Stands :
      {C : Type 0} → (W → C) → (fs.Bytes → C) → W → Result E fs.Bytes → Option E × W → Type 0
  Stands reads holds w (err e) (o, w') = reads w' ≡ reads w
  Stands reads holds w (ok bytes) r = Atomic reads (holds bytes) w r
