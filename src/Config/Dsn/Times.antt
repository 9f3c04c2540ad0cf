-- ===== src/Config/Dsn/Times.antt =====
-- What the driver does with the data source names of the program.
use octo_speech.Prelude.{◌≡◌, ◌⊎◌, true, Text}
use octo_speech.Config.Dsn.{Dsn, Driver, local}
use octo_speech.Config.Dsn.Parameters.{GivesLoc, Without}

-- The time zone that is asked for: that of the name, or the local one.
abbrev pub Zone : Text → Text → Text → Type 0
Zone dsn old new = (GivesLoc dsn × (new ≡ old)) ⊎ ((¬ GivesLoc dsn) × (new ≡ local))

-- The configuration that `c` is wanted to be: as `cfg`, but that times are parsed, in the zone that
-- is asked for, and without parameters that spell parseTime.
abbrev pub IsTimed : (driver : Driver) → Text → Dsn driver.Rest → Dsn driver.Rest → Type 0
IsTimed driver dsn cfg c =
    (c.parse_time ≡ true)
    × Zone dsn cfg.loc c.loc
    × Without cfg.params c.params
    × (c.rest ≡ cfg.rest)
