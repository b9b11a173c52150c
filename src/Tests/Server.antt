-- ===== src/Tests/Server.antt =====
-- The telemetry server over a database that is a list of its rows.
use lecoo_control_center.Base.{
  ℕ, ◌≡◌, ◌≢◌, refl, subst, false, Option, none, some, true, List, [], ◌∷◌, ◌++◌, arith,
  if◌then◌else◌, inl, inr,
}
use lecoo_control_center.Base.Text.{Text, codes, text_eq}
use lecoo_control_center.Base.Action.{Action, Outcome, ok, err, panicked}
use lecoo_control_center.Base.Ends.{Succeeds}
use lecoo_control_center.Base.Lists.{length}
use lecoo_control_center.Ipc.Message.{TelemetryData, TelemetryPayload}
use lecoo_control_center.TelemetryServer.{
  TelemetryDataV1, TelemetryPayloadV1, Libraries, Request, Method, Statement, answer,
}
use lecoo_control_center.TelemetryServer.Schema.{
  Column, Ddl, Sqlite, old_startup_columns, prepare, insert_of,
}
use lecoo_control_center.TelemetryServer.Schema.Fits.{has_column, fits}
use lecoo_control_center.TelemetryServer.Schema.Takes.{IsSqlite, or_columns, prepared_takes_inserts}
use lecoo_control_center.TelemetryServer.Stored.{
  Row, IsTable, is_event, IsAccounted, answer_accounts,
}

abbrev Tables : Type 0
Tables = List Row × List Statement

-- A body of one byte is an event of the first format, one of two bytes of the second.
abbrev decoded : List ℕ → Option TelemetryPayload
decoded (a ∷ []) = some (record { id = a; content = TelemetryData.panic (codes "oops") })
decoded _ = none

abbrev decoded_v1 : List ℕ → Option TelemetryPayloadV1
decoded_v1 (a ∷ b ∷ []) = some (record { id = a; content = TelemetryDataV1.panic (codes "oops") })
decoded_v1 _ = none

abbrev executed : Statement → Action Tables (Unit {0})
executed (Statement.raw_telemetry version buffer) t = (ok tt, (t.0 ++ (version, buffer) ∷ [], t.1))
executed statement t = (ok tt, (t.0, t.1 ++ statement ∷ []))

abbrev rows : Libraries Tables
rows = record {
  lock = λ t. (ok tt, t);
  execute = executed;
  last_insert_rowid = λ t. length t.0;
  decode = decoded;
  decode_v1 = decoded_v1;
  debug_profile = λ p. codes "profile";
  equiv = text_eq;
}

event_kept : (event : Statement) (t : Tables) → is_event event ≡ true → (executed event t).1.0 ≡ t.0
event_kept (Statement.raw_telemetry version buffer) t e = ground arith
event_kept (Statement.startup_event a b c d e f g h) t k = refl
event_kept (Statement.status_event a b c d e f) t k = refl
event_kept (Statement.panic_event a b c d) t k = refl

executes : (event : Statement) (t : Tables) → (executed event t).0 ≢ panicked
executes (Statement.raw_telemetry version buffer) t e = ground arith
executes (Statement.startup_event a b c d e f g h) t k = ground arith
executes (Statement.status_event a b c d e f) t k = ground arith
executes (Statement.panic_event a b c d) t k = ground arith

rows-IsTable : IsTable rows (λ t. t.0)
rows-IsTable = record {
  lock_returns = λ t. refl;
  execute_returns = executes;
  lock_keeps = λ t. refl;
  raw_added = λ version buffer t e. refl;
  raw_failed = λ version buffer t m e. ground arith;
  event_keeps = event_kept;
}

abbrev upload : Request
upload = record {
  method = Method.post;
  url = codes "/telemetry";
  headers = (codes "X-Daemon-Version", codes "0.4.0") ∷ [];
  body_length = some 2;
  body = some (5 ∷ 6 ∷ []);
}

answer_accounts_example :
    Succeeds
      (IsAccounted rows (λ t. t.0) rows-IsTable upload ([], []))
      (answer rows upload ([], []))
answer_accounts_example = answer_accounts rows (λ t. t.0) rows-IsTable upload ([], [])

-- A database as the columns of its tables.
abbrev Shape : Type 0
Shape = Text → Option (List Column)

abbrev with_column : Column → Option (List Column) → Option (List Column)
with_column c none = none
with_column c (some cs) = some (if has_column c.name cs then cs else cs ++ c ∷ [])

abbrev shaped : Ddl → Shape → Shape
shaped Ddl.journal_wal s name = s name
shaped (Ddl.create t) s name =
    if text_eq name t.name then some (or_columns (s t.name) t.columns) else s name
shaped (Ddl.add_column table c) s name =
    if text_eq name table then with_column c (s table) else s name

-- A column is refused where the table is not there or has a column of its name.
abbrev added : Column → Option (List Column) → Outcome (Unit {0})
added c none = err (codes "no such table")
added c (some cs) = if has_column c.name cs then err (codes "duplicate column name") else ok tt

abbrev answers : Ddl → Shape → Outcome (Unit {0})
answers Ddl.journal_wal s = ok tt
answers (Ddl.create t) s = ok tt
answers (Ddl.add_column table c) s = added c (s table)

abbrev shapes : Sqlite Shape
shapes = record { open_file = λ s. (ok tt, s); run = λ d s. (answers d s, shaped d s) }

added-new :
    (c : Column) (cs : List Column) → added c (some cs) ≡ ok tt → has_column c.name cs ≡ false
added-new c cs e = ground arith

added-kept :
    (c : Column) (held : Option (List Column)) → added c held ≢ ok tt → with_column c held ≡ held
added-kept c none fails = refl
added-kept c (some cs) fails = ground arith

text_eq_refl : (t : Text) → text_eq t t ≡ true
text_eq_refl [] = refl
text_eq_refl (c ∷ cs) = ground (arith, text_eq_refl cs)

shapes-IsSqlite : IsSqlite shapes (λ s. s)
shapes-IsSqlite = record {
  open_keeps = λ s. refl;
  wal_keeps = λ s. refl;
  create_makes = λ t s e. rw (text_eq_refl t.name) refl;
  create_keeps = λ t s name e. rw e refl;
  add_adds = λ table c cs s held nullable done.
      let new = added-new c cs (subst (λ o. added c o ≡ ok tt) held done) in
      (new, rw (text_eq_refl table, held, new) refl);
  add_fails = λ table c s fails. rw (text_eq_refl table) (added-kept c (s table) fails);
  add_keeps = λ table c s name e. rw e refl;
}

-- What a server from before the last column has left.
abbrev old_shape : Shape
old_shape name = if text_eq name (codes "startup_events") then some old_startup_columns else none

abbrev old_startup : Statement
old_startup =
    Statement.startup_event 1 (codes "0x07") (codes "0.3.0") (codes "IT5570-02") (codes "0x6010")
      (codes "cpu") (codes "os") none

prepared_takes_inserts_example :
    (cs : List Column) × ((prepare shapes old_shape).1 (insert_of old_startup).0.name ≡ some cs)
    × (fits cs (insert_of old_startup).1 ≡ true)
unfolding prepare
prepared_takes_inserts_example =
    prepared_takes_inserts shapes (λ s. s) shapes-IsSqlite old_shape old_startup
      (record { raw = inl refl; startup = inr refl; status = inl refl; panics = inl refl })
      (λ old. refl) refl
