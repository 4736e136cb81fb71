-- ===== src/Nif/Lifecycle/Final.antt =====
-- A closed database: what the calls and drops of native/rocker/src/nif.rs do from then on.
use ex_rocket.Nif.Rocks.{Rocks}
use ex_rocket.Options.Rustler.{Rustler}
