-- ===== src/TelemetryServer/Schema.antt =====
-- The tables that the server makes when it starts, and the inserts of its statements: `main` of
-- telemetry_server/src/main.rs. SQLite is a parameter. The foreign key of `raw_id` is left out: what
-- the inserts give it is the number of the raw row just stored.
pub mod Fits
pub mod Takes
use lecoo_control_center.Base.{
  ℕ, Bool, true, false, Option, none, some, List, [], ◌∷◌, ◌++◌, ◌&&◌, ◌||◌, not, if◌then◌else◌,
}
use lecoo_control_center.Base.Text.{Text, codes, text_eq}
use lecoo_control_center.Base.Action.{Action, Outcome, ok, err, panicked, ignore, ◌>>=◌, ◌>>◌}
use lecoo_control_center.TelemetryServer.{Statement}

pub data Affinity : Type 0 where
  integer text blob datetime : Affinity

-- A column: whether it is `NOT NULL`, and whether a row that leaves it out is given a value.
pub record Column : Type 0 where
  pub name : Text
  pub affinity : Affinity
  pub not_null : Bool
  pub generated : Bool

pub record Table : Type 0 where
  pub name : Text
  pub columns : List Column

abbrev pub needed : Text → Affinity → Column
needed name affinity = record {
  name = name;
  affinity = affinity;
  not_null = true;
  generated = false;
}

-- `INTEGER PRIMARY KEY AUTOINCREMENT`
abbrev pub row_id : Column
row_id = record {
  name = codes "id";
  affinity = Affinity.integer;
  not_null = true;
  generated = true;
}

-- The columns that each event's table begins with.
abbrev pub event_columns : List Column → List Column
event_columns columns =
    row_id
    ∷ needed (codes "raw_id") Affinity.integer
    ∷ needed (codes "client_uuid") Affinity.text
    ∷ needed (codes "daemon_version") Affinity.text
    ∷ columns

abbrev pub raw_table : Table
raw_table = record {
  name = codes "raw_telemetry";
  columns =
      row_id
      ∷ record {
        name = codes "timestamp";
        affinity = Affinity.datetime;
        not_null = false;
        generated = true;
      }
      ∷ needed (codes "daemon_version") Affinity.text
      ∷ needed (codes "raw_data") Affinity.blob
      ∷ [];
}

abbrev pub motherboard_column : Column
motherboard_column = record {
  name = codes "motherboard";
  affinity = Affinity.text;
  not_null = false;
  generated = false;
}

-- The columns of startup events before `motherboard` was added.
abbrev pub old_startup_columns : List Column
old_startup_columns = event_columns (
    needed (codes "firmware") Affinity.text
    ∷ needed (codes "offset") Affinity.text
    ∷ needed (codes "cpu") Affinity.text
    ∷ needed (codes "os") Affinity.text
    ∷ [])

abbrev pub startup_table : Table
startup_table = record {
  name = codes "startup_events";
  columns = old_startup_columns ++ motherboard_column ∷ [];
}

abbrev pub status_table : Table
status_table = record {
  name = codes "status_events";
  columns = event_columns (
      needed (codes "profile") Affinity.text
      ∷ needed (codes "temp_1") Affinity.integer
      ∷ needed (codes "temp_2") Affinity.integer
      ∷ needed (codes "fan_1") Affinity.integer
      ∷ needed (codes "fan_2") Affinity.integer
      ∷ []);
}

abbrev pub panic_table : Table
panic_table = record {
  name = codes "panic_events";
  columns = event_columns (needed (codes "error_msg") Affinity.text ∷ []);
}

-- `PRAGMA journal_mode = WAL`, `CREATE TABLE IF NOT EXISTS` and `ALTER TABLE … ADD COLUMN`.
pub data Ddl : Type 0 where
  journal_wal : Ddl
  create : Table → Ddl
  add_column : Text → Column → Ddl

pub record Sqlite (S : Type 0) : Type 0 where
  pub open_file : Action S (Unit {0})
  pub run : Ddl → Action S (Unit {0})

-- `expect` and `unwrap`
abbrev pub or_panic : {A : Type 0} → Outcome A → Outcome A
or_panic (ok a) = ok a
or_panic (err e) = panicked
or_panic panicked = panicked

abbrev pub expect : {S A : Type 0} → Action S A → Action S A
expect m s = (or_panic (m s).0, (m s).1)

-- The start of the server, up to its loop. A column that is already there makes the addition fail,
-- which is dropped.
unfoldable pub prepare : {S : Type 0} → Sqlite S → Action S (Unit {0})
prepare db = do
  expect db.open_file
  expect (db.run Ddl.journal_wal)
  expect (db.run (Ddl.create raw_table))
  expect (db.run (Ddl.create startup_table))
  ignore (db.run (Ddl.add_column (codes "startup_events") motherboard_column))
  expect (db.run (Ddl.create status_table))
  expect (db.run (Ddl.create panic_table))

-- A value that a statement binds.
pub data Value : Type 0 where
  null number bytes words : Value

abbrev pub text_or_null : Option Text → Value
text_or_null none = Value.null
text_or_null (some t) = Value.words

-- The table and the columns that a statement's `INSERT` names, with what it binds to them.
unfoldable pub insert_of : Statement → Table × List (Text × Value)
insert_of (Statement.raw_telemetry version buffer) =
    (raw_table, (codes "daemon_version", Value.words) ∷ (codes "raw_data", Value.bytes) ∷ [])
insert_of (Statement.startup_event raw_id uuid version firmware offset cpu os motherboard) = (
  startup_table,
  (codes "raw_id", Value.number)
      ∷ (codes "client_uuid", Value.words)
      ∷ (codes "daemon_version", Value.words)
      ∷ (codes "firmware", Value.words)
      ∷ (codes "offset", Value.words)
      ∷ (codes "cpu", Value.words)
      ∷ (codes "os", Value.words)
      ∷ (codes "motherboard", text_or_null motherboard)
      ∷ [],
)
insert_of (Statement.status_event raw_id uuid version profile temps fans) = (
  status_table,
  (codes "raw_id", Value.number)
      ∷ (codes "client_uuid", Value.words)
      ∷ (codes "daemon_version", Value.words)
      ∷ (codes "profile", Value.words)
      ∷ (codes "temp_1", Value.number)
      ∷ (codes "temp_2", Value.number)
      ∷ (codes "fan_1", Value.number)
      ∷ (codes "fan_2", Value.number)
      ∷ [],
)
insert_of (Statement.panic_event raw_id uuid version error) = (
  panic_table,
  (codes "raw_id", Value.number)
      ∷ (codes "client_uuid", Value.words)
      ∷ (codes "daemon_version", Value.words)
      ∷ (codes "error_msg", Value.words)
      ∷ [],
)
