-- ===== src/Migrate/Tests.antt =====
-- The migrations tool at a concrete engine.
use doki_core_backend.Prelude.{
  ℕ, ◌≡◌, refl, Bool, true, false, Option, none, some, ◌==◌, if◌then◌else◌,
}
use doki_core_backend.Prelude.Int.{pos, negsuc, pos_part}
use doki_core_backend.Migrate.{
  Failure, no_change, at_version, Engine, Flags, below_zero, above_zero, at_zero, commanded, opened,
  run_migrate,
}

-- A schema with a version and a dirty flag, and three migrations in all.
pub record Schema : Type 0 where
  pub at : ℕ
  pub is_dirty : Bool

abbrev lifted : ℕ → Schema → Option Failure × Schema
lifted n w = if n == 3 then (some no_change, w) else (none, record { at = 3; is_dirty = false })

abbrev three : Engine Schema
three = record {
  open_engine = λ source dsn w. (none, w);
  version = λ w. (at_version w.at w.is_dirty, w);
  force = λ n w. (none, record { at = pos_part n; is_dirty = false });
  steps = λ n w. (none, record { at = 1; is_dirty = false });
  up = λ w. lifted w.at w;
  close = λ w. w;
}

abbrev flags : Flags
flags = record {
  up_flag = false;
  down = pos 0;
  version_flag = false;
  force_to = negsuc 0;
  path = "migrations";
  dsn = "";
}

-- A negative number of steps is passed over, and the code is 0.
negative_steps :
    run_migrate three (record flags { down = negsuc 0 }) "" (record { at = 1; is_dirty = true })
    ≡ (0, record { at = 1; is_dirty = true })
unfolding run_migrate opened commanded below_zero above_zero at_zero
negative_steps = refl
