-- ===== src/TelemetryServer/Schema/Takes.antt =====
-- The tables take the inserts, also those of a database that an older server has made.
use lecoo_control_center.Base.{
  ◌≡◌, ◌≢◌, refl, ap, ◌∙◌, sym, subst, ◌⊎◌, inl, inr, true, false, Option, none, some, List, [],
  ◌∷◌, ◌++◌, arith,
}
use lecoo_control_center.Base.Text.{Text, text_eq}
use lecoo_control_center.Base.Action.{Action, Outcome, ok, err, panicked, ignore}
use lecoo_control_center.Base.Ends.{Ends, bind-Ends, Ends-ok}
use lecoo_control_center.TelemetryServer.{Statement}
use lecoo_control_center.TelemetryServer.Schema.Fits.{has_column, fits, insert_fits}
use lecoo_control_center.TelemetryServer.Schema.{
  Column, Table, Ddl, Sqlite, raw_table, startup_table, status_table, panic_table,
  motherboard_column, old_startup_columns, expect, or_panic, prepare, insert_of,
}

abbrev pub or_columns : Option (List Column) → List Column → List Column
or_columns none cs = cs
or_columns (some held) cs = held

-- What SQLite does to its tables' columns: a table that is there is not made anew, and a column that
-- may be null is added at the end, unless the call fails, as it does for a name that is there.
pub record IsSqlite {S : Type 0} (db : Sqlite S) (columns : S → Text → Option (List Column))
    : Type 0 where
  pub open_keeps : (s : S) → columns (db.open_file s).1 ≡ columns s
  pub wal_keeps : (s : S) → columns (db.run Ddl.journal_wal s).1 ≡ columns s
  pub create_makes :
      (t : Table) (s : S)
      → (db.run (Ddl.create t) s).0 ≡ ok tt
      → columns (db.run (Ddl.create t) s).1 t.name ≡ some (or_columns (columns s t.name) t.columns)
  pub create_keeps :
      (t : Table) (s : S) (name : Text)
      → text_eq name t.name ≡ false
      → columns (db.run (Ddl.create t) s).1 name ≡ columns s name
  pub add_adds :
      (table : Text) (c : Column) (cs : List Column) (s : S)
      → columns s table ≡ some cs
      → c.not_null ≡ false
      → (db.run (Ddl.add_column table c) s).0 ≡ ok tt
      → (has_column c.name cs ≡ false)
        × (columns (db.run (Ddl.add_column table c) s).1 table ≡ some (cs ++ c ∷ []))
  pub add_fails :
      (table : Text) (c : Column) (s : S)
      → (db.run (Ddl.add_column table c) s).0 ≢ ok tt
      → columns (db.run (Ddl.add_column table c) s).1 table ≡ columns s table
  pub add_keeps :
      (table : Text) (c : Column) (s : S) (name : Text)
      → text_eq name table ≡ false
      → columns (db.run (Ddl.add_column table c) s).1 name ≡ columns s name

-- A table is not there, or has its columns.
abbrev pub IsMade : Option (List Column) → Table → Type 0
IsMade held t = (held ≡ none) ⊎ (held ≡ some t.columns)

-- What an older or a new server leaves: startup events may lack the last column.
pub record IsKnown (columns : Text → Option (List Column)) : Type 0 where
  pub raw : IsMade (columns raw_table.name) raw_table
  pub startup :
      IsMade (columns startup_table.name) startup_table
      ⊎ (columns startup_table.name ≡ some old_startup_columns)
  pub status : IsMade (columns status_table.name) status_table
  pub panics : IsMade (columns panic_table.name) panic_table

-- Every table is there with its columns.
record IsReady (columns : Text → Option (List Column)) : Type 0 where
  raw : columns raw_table.name ≡ some raw_table.columns
  startup : columns startup_table.name ≡ some startup_table.columns
  status : columns status_table.name ≡ some status_table.columns
  panics : columns panic_table.name ≡ some panic_table.columns

ready_columns :
    (columns : Text → Option (List Column)) (st : Statement)
    → IsReady columns
    → columns (insert_of st).0.name ≡ some (insert_of st).0.columns
unfolding insert_of
ready_columns columns (Statement.raw_telemetry version buffer) r = r.raw
ready_columns columns (Statement.startup_event a b c d e f g h) r = r.startup
ready_columns columns (Statement.status_event a b c d e f) r = r.status
ready_columns columns (Statement.panic_event a b c d) r = r.panics

expect-ok : {A : Type 0} (o : Outcome A) {a : A} → or_panic o ≡ ok a → o ≡ ok a
expect-ok (ok b) e = e
expect-ok (err m) e = ground arith
expect-ok panicked e = ground arith

made :
    (held : Option (List Column)) (t : Table)
    → IsMade held t
    → or_columns held t.columns ≡ t.columns
made held t (inl e) = rw e
made held t (inr e) = rw e

module _ {S : Type 0} (db : Sqlite S) (columns : S → Text → Option (List Column))
    (sqlite : IsSqlite db columns) where
  last-Ends :
      (P : Unit {0} → S → Type 0) (m : Action S (Unit {0})) (s : S)
      → ((m s).0 ≡ ok tt → P tt (m s).1)
      → Ends P (expect m s)
  last-Ends P m s k = split (m s).0 k
    where
      split : (o : Outcome (Unit {0})) → (o ≡ ok tt → P tt (m s).1) → Ends P (or_panic o, (m s).1)
      split (ok tt) k = k refl
      split (err e) k = tt
      split panicked k = tt

  -- `ALTER TABLE startup_events ADD COLUMN motherboard TEXT`
  abbrev pub addition : Action S (Unit {0})
  addition = db.run (Ddl.add_column startup_table.name motherboard_column)

  -- The state that the addition starts in.
  abbrev pub before_addition : S → S
  before_addition s =
      let s1 = (db.run Ddl.journal_wal (db.open_file s).1).1 in
      (db.run (Ddl.create startup_table) (db.run (Ddl.create raw_table) s1).1).1

  -- Startup events have all columns, or lack the last one and it is added.
  abbrev WillHave : List Column → S → Type 0
  WillHave cs s =
      (cs ≡ startup_table.columns) ⊎ ((cs ≡ old_startup_columns) × ((addition s).0 ≡ ok tt))

  startup_columns :
      (cs : List Column) (s : S)
      → columns s startup_table.name ≡ some cs
      → WillHave cs s
      → columns (addition s).1 startup_table.name ≡ some startup_table.columns
  startup_columns cs s held (inr (old, added)) =
      (sqlite.add_adds startup_table.name motherboard_column cs s held refl added).1
      ∙ ap (λ ds. some (ds ++ motherboard_column ∷ [])) old
  startup_columns cs s held (inl all) =
      split (addition s).0
        (λ ok. (sqlite.add_adds startup_table.name motherboard_column cs s held refl ok).0)
        (λ fails.
          sqlite.add_fails startup_table.name motherboard_column s fails ∙ held ∙ ap some all)
    where
      split :
          (o : Outcome (Unit {0}))
          → (o ≡ ok tt → has_column motherboard_column.name cs ≡ false)
          → (o ≢ ok tt → columns (addition s).1 startup_table.name ≡ some startup_table.columns)
          → columns (addition s).1 startup_table.name ≡ some startup_table.columns
      split (ok tt) new k =
          let e = sym (ap (has_column motherboard_column.name) all) ∙ new refl in ground arith
      split (err m) new k = k (λ e. ground arith)
      split panicked new k = k (λ e. ground arith)

  will_have :
      (held : Option (List Column)) (s : S)
      → IsMade held startup_table ⊎ (held ≡ some old_startup_columns)
      → (held ≡ some old_startup_columns → (addition s).0 ≡ ok tt)
      → WillHave (or_columns held startup_table.columns) s
  will_have held s (inl m) k = inl (made held startup_table m)
  will_have held s (inr e) k = inr (ap (λ o. or_columns o startup_table.columns) e, k e)

  -- The tables after the five statements, from a state that knows them.
  ready :
      (s : S)
      → IsKnown (columns s)
      → let s1 = (db.run (Ddl.create raw_table) s).1 in
        let s2 = (db.run (Ddl.create startup_table) s1).1 in
        let s3 = (addition s2).1 in
        let s4 = (db.run (Ddl.create status_table) s3).1 in
        (columns s startup_table.name ≡ some old_startup_columns → (addition s2).0 ≡ ok tt)
        → (db.run (Ddl.create raw_table) s).0 ≡ ok tt
        → (db.run (Ddl.create startup_table) s1).0 ≡ ok tt
        → (db.run (Ddl.create status_table) s3).0 ≡ ok tt
        → (db.run (Ddl.create panic_table) s4).0 ≡ ok tt
        → IsReady (columns (db.run (Ddl.create panic_table) s4).1)
  ready s known added e1 e2 e4 e5 =
      let s1 = (db.run (Ddl.create raw_table) s).1 in
      let s2 = (db.run (Ddl.create startup_table) s1).1 in
      let s3 = (addition s2).1 in
      let s4 = (db.run (Ddl.create status_table) s3).1 in
      let keeps = sqlite.create_keeps in
      let adds = sqlite.add_keeps startup_table.name motherboard_column s2 in
      record {
        raw =
            keeps panic_table s4 raw_table.name refl
            ∙ keeps status_table s3 raw_table.name refl
            ∙ adds raw_table.name refl
            ∙ keeps startup_table s1 raw_table.name refl
            ∙ sqlite.create_makes raw_table s e1
            ∙ ap some (made _ raw_table known.raw);
        startup =
            keeps panic_table s4 startup_table.name refl
            ∙ keeps status_table s3 startup_table.name refl
            ∙ startup_columns _ s2 (sqlite.create_makes startup_table s1 e2) (
                subst (λ held. WillHave (or_columns held startup_table.columns) s2)
                  (sym (keeps raw_table s startup_table.name refl))
                  (will_have (columns s startup_table.name) s2 known.startup added));
        status =
            keeps panic_table s4 status_table.name refl
            ∙ sqlite.create_makes status_table s3 e4
            ∙ ap (λ held. some (or_columns held status_table.columns))
                (adds status_table.name refl
                  ∙ keeps startup_table s1 status_table.name refl
                  ∙ keeps raw_table s status_table.name refl)
            ∙ ap some (made _ status_table known.status);
        panics =
            sqlite.create_makes panic_table s4 e5
            ∙ ap (λ held. some (or_columns held panic_table.columns))
                (keeps status_table s3 panic_table.name refl
                  ∙ adds panic_table.name refl
                  ∙ keeps startup_table s1 panic_table.name refl
                  ∙ keeps raw_table s panic_table.name refl)
            ∙ ap some (made _ panic_table known.panics);
      }

  -- On a database that is new or was made by this server or by one from before the last column of the
  -- startup events: where the start does not panic, and where that column is missing its addition,
  -- whose error is dropped, does not fail, the table of every statement that the server executes is
  -- there, each value that the statement binds goes to a column of the table that accepts it, and each
  -- column that must have a value gets one.
  pub prepared_takes_inserts :
      (s : S) (st : Statement)
      → IsKnown (columns s)
      → (columns s startup_table.name ≡ some old_startup_columns
          → (addition (before_addition s)).0 ≡ ok tt)
      → (prepare db s).0 ≡ ok tt
      → (cs : List Column) × (columns (prepare db s).1 (insert_of st).0.name ≡ some cs)
        × (fits cs (insert_of st).1 ≡ true)
  unfolding prepare
  prepared_takes_inserts s st known added returns = (
    (insert_of st).0.columns,
    ready_columns (columns (prepare db s).1) st
        (Ends-ok (λ _ t. IsReady (columns t)) (prepare db s) prepared returns),
    insert_fits st,
  )
    where
      P : Unit {0} → S → Type 0
      P _ t = IsReady (columns t)

      prepared : Ends P (prepare db s)
      prepared = bind-Ends P (expect db.open_file) _ s λ _ _.
          let s0 = (db.open_file s).1 in
          bind-Ends P (expect (db.run Ddl.journal_wal)) _ s0 λ _ _.
            let s1 = (db.run Ddl.journal_wal s0).1 in
            let same = sqlite.wal_keeps s0 ∙ sqlite.open_keeps s in
            bind-Ends P (expect (db.run (Ddl.create raw_table))) _ s1 λ _ e1.
              let s2 = (db.run (Ddl.create raw_table) s1).1 in
              bind-Ends P (expect (db.run (Ddl.create startup_table))) _ s2 λ _ e2.
                let s3 = (db.run (Ddl.create startup_table) s2).1 in
                bind-Ends P (ignore addition) _ s3 λ _ _.
                  let s4 = (addition s3).1 in
                  bind-Ends P (expect (db.run (Ddl.create status_table))) _ s4 λ _ e4.
                    let s5 = (db.run (Ddl.create status_table) s4).1 in
                    last-Ends P (db.run (Ddl.create panic_table)) s5 λ e5.
                      ready s1 (subst IsKnown (sym same) known)
                        (λ old. added (sym (ap (λ f. f startup_table.name) same) ∙ old))
                        (expect-ok _ e1) (expect-ok _ e2) (expect-ok _ e4) e5
