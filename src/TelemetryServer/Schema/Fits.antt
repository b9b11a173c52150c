-- ===== src/TelemetryServer/Schema/Fits.antt =====
-- Which columns take the values of an insert.
use lecoo_control_center.Base.{
  ◌≡◌, refl, Bool, true, false, none, some, List, [], ◌∷◌, ◌&&◌, ◌||◌, not, if◌then◌else◌,
}
use lecoo_control_center.Base.Text.{Text, text_eq}
use lecoo_control_center.TelemetryServer.{Statement}
use lecoo_control_center.TelemetryServer.Schema.{Affinity, Column, Value, insert_of}

-- Whether a column takes a value: of its affinity, or none where it may be null.
abbrev pub accepts : Column → Value → Bool
accepts column Value.null = not column.not_null
accepts column Value.number = elim column.affinity [ Affinity.integer ↦ true | _ ↦ false ]
accepts column Value.bytes = elim column.affinity [ Affinity.blob ↦ true | _ ↦ false ]
accepts column Value.words = elim column.affinity [ Affinity.text ↦ true | _ ↦ false ]

abbrev pub has_column : Text → List Column → Bool
has_column name [] = false
has_column name (c ∷ cs) = text_eq name c.name || has_column name cs

abbrev pub binds : Text → List (Text × Value) → Bool
binds name [] = false
binds name ((n, v) ∷ rest) = text_eq name n || binds name rest

-- Every value goes to a column of the table that accepts it, and every column that must have a value
-- and is given none by the database is bound.
abbrev pub taken_by : Text → Value → List Column → Bool
taken_by name v [] = false
taken_by name v (c ∷ cs) = if text_eq name c.name then accepts c v else taken_by name v cs

abbrev pub all_taken : List (Text × Value) → List Column → Bool
all_taken [] cs = true
all_taken ((n, v) ∷ rest) cs = taken_by n v cs && all_taken rest cs

abbrev pub all_bound : List Column → List (Text × Value) → Bool
all_bound [] values = true
all_bound (c ∷ cs) values =
    (not c.not_null || c.generated || binds c.name values) && all_bound cs values

abbrev pub fits : List Column → List (Text × Value) → Bool
fits cs values = all_taken values cs && all_bound cs values

pub insert_fits : (st : Statement) → fits (insert_of st).0.columns (insert_of st).1 ≡ true
unfolding insert_of
insert_fits (Statement.raw_telemetry version buffer) = refl
insert_fits (Statement.startup_event raw_id uuid version firmware offset cpu os none) = refl
insert_fits (Statement.startup_event raw_id uuid version firmware offset cpu os (some m)) = refl
insert_fits (Statement.status_event raw_id uuid version profile temps fans) = refl
insert_fits (Statement.panic_event raw_id uuid version error) = refl
