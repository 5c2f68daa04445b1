-- ===== src/InFlight.antt =====
-- src/in_flight.rs: the registry of the requests that run, and the guards that keep them in it. The
-- concurrent map is an association list; a call holds its shard, so calls do not interleave. The
-- gauge that a guard reports to is left out. Times are milliseconds of a monotonic clock.
pub mod Guards
mod Tests
use mcpg_plugin_backend_sql.Common.{
  ℕ, ◌-◌, ◌%◌, ◌^◌, List, [], ◌∷◌, map, Option, none, some, length, if◌then◌else◌, Text, text_eq,
}
use mcpg_plugin_backend_sql.Common.Int.{ℤ}
use mcpg_plugin_backend_sql.Common.TextMaps.{lookup, insert, remove}
use mcpg_plugin_backend_sql.Params.{DriverKind}

pub data BackendId : Type 0 where
  postgres_pid : ℤ → BackendId
  mysql_connection_id sqlite_handle : ℕ → BackendId

pub record InFlightEntry : Type 0 where
  pub backend_name : Text
  pub driver : DriverKind
  pub started_at_wall : ℕ
  pub started_at_mono : ℕ
  pub backend_id : Option BackendId

abbrev pub Registry : Type 0
Registry = List (Text × InFlightEntry)

pub record InFlightSnapshot : Type 0 where
  pub request_id : Text
  pub backend_name : Text
  pub driver : DriverKind
  pub started_at_wall : ℕ
  pub age_ms : ℕ
  pub backend_id : Option BackendId

unfoldable pub len : Registry → ℕ
len reg = length reg

-- The entry is shared: a write to its cell is a write to the registry.
unfoldable pub set_backend_id : Text → BackendId → Registry → Registry
set_backend_id request_id id [] = []
set_backend_id request_id id ((k, e) ∷ reg) =
    let rest = set_backend_id request_id id reg in
    if text_eq k request_id then (k, record e { backend_id = some id }) ∷ reg else (k, e) ∷ rest

unfoldable pub id_of : Option InFlightEntry → Option BackendId
id_of none = none
id_of (some e) = e.backend_id

unfoldable pub backend_id_for : Text → Registry → Option BackendId
backend_id_for request_id reg = id_of (lookup request_id reg)

unfoldable pub snapshot_of : ℕ → Text × InFlightEntry → InFlightSnapshot
snapshot_of now_mono (k, e) = record {
  request_id = k;
  backend_name = e.backend_name;
  driver = e.driver;
  started_at_wall = e.started_at_wall;
  age_ms = (now_mono - e.started_at_mono) % 2 ^ 64;
  backend_id = e.backend_id;
}

unfoldable pub snapshot : ℕ → Registry → List InFlightSnapshot
snapshot now_mono reg = map (snapshot_of now_mono) reg

-- `InFlightGuard::register`.
unfoldable pub register : (now_wall now_mono : ℕ) → Text → Text → DriverKind → Registry → Registry
register now_wall now_mono request_id backend_name driver reg =
    insert request_id
      (record {
        backend_name = backend_name;
        driver = driver;
        started_at_wall = now_wall;
        started_at_mono = now_mono;
        backend_id = none;
      })
      reg

-- `InFlightGuard::drop`, of the guard's request.
unfoldable pub drop_guard : Text → Registry → Registry
drop_guard request_id reg = remove request_id reg
