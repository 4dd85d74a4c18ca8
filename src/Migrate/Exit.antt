-- ===== src/Migrate/Exit.antt =====
-- What the exit code of cmd/migrate/main.go says of the schema.
use doki_core_backend.Prelude.{ℕ, ◌≡◌, Bool, true, false, ◌⊎◌, String, Option, none, some}
use doki_core_backend.Prelude.Int.{ℤ}
use doki_core_backend.Migrate.{
  Failure, no_change, nil_version, other, VersionReply, at_version, failed, Engine,
}

-- What a call that changes the schema answers: it has left a clean schema, or found no change.
abbrev pub Changes : {W : Type 0} → (W → Bool) → (W → Option ℕ) → W → Option Failure × W → Type 0
Changes dirty mark w (none, v) = dirty v ≡ false
Changes dirty mark w (some no_change, v) = (mark v ≡ mark w) × (dirty v ≡ dirty w)
Changes dirty mark w (some nil_version, v) = Unit
Changes dirty mark w (some other, v) = Unit

-- What reading the version tells.
abbrev Reads : {W : Type 0} → (W → Bool) → (W → Option ℕ) → W → VersionReply × W → Type 0
Reads dirty mark w (at_version n d, v) = (d ≡ dirty w) × (mark w ≡ some n)
Reads dirty mark w (failed nil_version, v) = mark w ≡ none
Reads dirty mark w (failed no_change, v) = Unit
Reads dirty mark w (failed other, v) = Unit

-- The documented behaviour of the engine: `dirty` is the dirty flag of the schema and `mark` its
-- version, where it has one. Opening, reading and closing change neither, a successful change leaves
-- no dirty flag, ErrNoChange means that nothing was changed, and ErrNilVersion that there is no
-- version.
pub record EngineLaws {W : Type 0} (engine : Engine W) (dirty : W → Bool) (mark : W → Option ℕ)
    : Type 0 where
  pub opening :
      (source dsn : String) (w : W)
      → (mark (engine.open_engine source dsn w).1 ≡ mark w)
        × (dirty (engine.open_engine source dsn w).1 ≡ dirty w)
  pub reading :
      (w : W) → (mark (engine.version w).1 ≡ mark w) × (dirty (engine.version w).1 ≡ dirty w)
  pub told : (w : W) → Reads dirty mark w (engine.version w)
  pub closing : (w : W) → (mark (engine.close w) ≡ mark w) × (dirty (engine.close w) ≡ dirty w)
  pub forcing : (n : ℤ) (w : W) → Changes dirty mark w (engine.force n w)
  pub stepping : (n : ℤ) (w : W) → Changes dirty mark w (engine.steps n w)
  pub upgrading : (w : W) → Changes dirty mark w (engine.up w)

module _ {W : Type 0} (engine : Engine W) (dirty : W → Bool) (mark : W → Option ℕ) where
  abbrev Same : W → W → Type 0
  Same w v = (mark v ≡ mark w) × (dirty v ≡ dirty w)

  -- With -version, nothing has changed, and the schema is clean or has no version; otherwise it is
  -- clean or has not changed.
  abbrev pub Leaves : Bool → W → W → Type 0
  Leaves true w v = Same w v × ((dirty v ≡ false) ⊎ (mark v ≡ none))
  Leaves false w v = (dirty v ≡ false) ⊎ Same w v
