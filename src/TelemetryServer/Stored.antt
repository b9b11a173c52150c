-- ===== src/TelemetryServer/Stored.antt =====
-- What the server's answer says of the table of raw events.
use lecoo_control_center.Base.{
  ℕ, ◌≤◌, ◌==◌, ◌||◌, ◌≡◌, ◌≢◌, refl, ap, ◌∙◌, Bool, true, false, ◌⊎◌, inl, inr, Option, none, some,
  List, [], ◌∷◌, ◌++◌, ltb, if◌then◌else◌, arith,
}
use lecoo_control_center.Base.Lists.{length}
use lecoo_control_center.Base.Text.{Text}
use lecoo_control_center.Base.Action.{Outcome, ok, err, panicked, pure}
use lecoo_control_center.Base.Ends.{Succeeds, bind-Succeeds, attempt-Succeeds, if-Succeeds}
use lecoo_control_center.Ipc.Message.{TelemetryData, TelemetryPayload}
use lecoo_control_center.TelemetryServer.{
  TelemetryDataV1, TelemetryPayloadV1, event_of_v1, Statement, Libraries, Request, max_body_size,
  find_version, event_of, inserted, insert_event, parse_v1, parse, raw_inserted, store, store_body,
  answer,
}

-- A row of raw_telemetry: the version and the body.
abbrev pub Row : Type 0
Row = Text × List ℕ

-- A statement on another table.
abbrev pub is_event : Statement → Bool
is_event (Statement.raw_telemetry version buffer) = false
is_event _ = true

-- The database keeps a table of raw events: an insertion that succeeds adds its row, one that fails
-- adds none, and the other statements and the lock leave the table alone. Neither panics.
pub record IsTable {S : Type 0} (lib : Libraries S) (raw : S → List Row) : Type 0 where
  pub lock_returns : (s : S) → (lib.lock s).0 ≡ ok tt
  pub execute_returns : (statement : Statement) (s : S) → (lib.execute statement s).0 ≢ panicked
  pub lock_keeps : (s : S) → raw (lib.lock s).1 ≡ raw s
  pub raw_added :
      (version : Text) (buffer : List ℕ) (s : S)
      → (lib.execute (Statement.raw_telemetry version buffer) s).0 ≡ ok tt
      → raw (lib.execute (Statement.raw_telemetry version buffer) s).1
        ≡ raw s ++ (version, buffer) ∷ []
  pub raw_failed :
      (version : Text) (buffer : List ℕ) (s : S) (e : Text)
      → (lib.execute (Statement.raw_telemetry version buffer) s).0 ≡ err e
      → raw (lib.execute (Statement.raw_telemetry version buffer) s).1 ≡ raw s
  pub event_keeps :
      (event : Statement) (s : S) → is_event event ≡ true → raw (lib.execute event s).1 ≡ raw s

module _ {S : Type 0} (lib : Libraries S) (raw : S → List Row) (table : IsTable lib raw) where
  -- The row of an accepted request is there.
  abbrev Kept : List Row → Row → ℕ → S → Type 0
  Kept before row code s =
      ((code ≡ 201) ⊎ ((code ≡ 202) ⊎ (code ≡ 500))) × (raw s ≡ before ++ row ∷ [])

  insert-Kept :
      (before : List Row) (row : Row) (event : Statement) (s : S)
      → is_event event ≡ true
      → raw s ≡ before ++ row ∷ []
      → Succeeds (Kept before row) (insert_event lib event s)
  insert-Kept before row event s e k =
      attempt-Succeeds (Kept before row) (lib.execute event) (inserted lib) s
        (table.execute_returns event s)
        λ o calm _. coded o calm (lib.execute event s).1 (table.event_keeps event s e ∙ k)
    where
      coded :
          (o : Outcome (Unit {0}))
          → o ≢ panicked
          → (t : S) → raw t ≡ before ++ row ∷ []
          → Succeeds (Kept before row) (inserted lib o t)
      coded (ok u) c t k = (inl refl, k)
      coded (err m) c t k = (inr (inr refl), k)
      coded panicked c t k = c refl

  event-IsEvent :
      (id : ℕ) (uuid version : Text) (c : TelemetryData)
      → is_event (event_of lib id uuid version c) ≡ true
  event-IsEvent id uuid version (TelemetryData.startup f o c n m) = refl
  event-IsEvent id uuid version (TelemetryData.status p t f) = refl
  event-IsEvent id uuid version (TelemetryData.panic e) = refl

  event_v1-IsEvent :
      (id : ℕ) (uuid version : Text) (c : TelemetryDataV1)
      → is_event (event_of_v1 lib id uuid version c) ≡ true
  event_v1-IsEvent id uuid version (TelemetryDataV1.startup f o c n) = refl
  event_v1-IsEvent id uuid version (TelemetryDataV1.status p t f) = refl
  event_v1-IsEvent id uuid version (TelemetryDataV1.panic e) = refl

  parse_v1-Kept :
      (before : List Row) (row : Row) (id : ℕ) (o : Option TelemetryPayloadV1) (s : S)
      → raw s ≡ before ++ row ∷ []
      → Succeeds (Kept before row) (parse_v1 lib id row.0 o s)
  parse_v1-Kept before row id none s k = (inr (inl refl), k)
  parse_v1-Kept before row id (some p) s k =
      insert-Kept before row _ s (event_v1-IsEvent id _ row.0 p.content) k

  parse-Kept :
      (before : List Row) (row : Row) (id : ℕ) (o : Option TelemetryPayload) (s : S)
      → raw s ≡ before ++ row ∷ []
      → Succeeds (Kept before row) (parse lib id row.0 row.1 o s)
  parse-Kept before row id none s k = parse_v1-Kept before row id (lib.decode_v1 row.1) s k
  parse-Kept before row id (some p) s k =
      insert-Kept before row _ s (event-IsEvent id _ row.0 p.content) k

  -- What an answer says of the table, for the request's version and body.
  abbrev Accounts : List Row → Row → ℕ → S → Type 0
  Accounts before row code s = Kept before row code s ⊎ ((code ≡ 500) × (raw s ≡ before))

  store-Accounts :
      (version : Text) (buffer : List ℕ) (s : S)
      → Succeeds (Accounts (raw s) (version, buffer)) (store lib version buffer s)
  unfolding store
  store-Accounts version buffer s =
      let P = Accounts (raw s) (version, buffer) in
      let insert = Statement.raw_telemetry version buffer in
      let t = (lib.lock s).1 in
      bind-Succeeds P lib.lock _ s tt (table.lock_returns s) (
        attempt-Succeeds P (lib.execute insert) (raw_inserted lib version buffer) t
          (table.execute_returns insert t)
          λ o calm e.
            coded o calm (lib.execute insert t).1
              (λ f.
                table.raw_added version buffer t (e ∙ f)
                ∙ ap (λ x. x ++ (version, buffer) ∷ []) (table.lock_keeps s))
              (λ m f. table.raw_failed version buffer t m (e ∙ f) ∙ table.lock_keeps s))
    where
      widen :
          (r : Outcome ℕ × S)
          → Succeeds (Kept (raw s) (version, buffer)) r
          → Succeeds (Accounts (raw s) (version, buffer)) r
      widen (ok code, t) k = inl k
      widen (err e, t) k = k
      widen (panicked, t) k = k

      coded :
          (o : Outcome (Unit {0}))
          → o ≢ panicked
          → (t : S) → (o ≡ ok tt → raw t ≡ raw s ++ (version, buffer) ∷ [])
          → ((m : Text) → o ≡ err m → raw t ≡ raw s)
          → Succeeds (Accounts (raw s) (version, buffer)) (raw_inserted lib version buffer o t)
      coded (ok u) c t added failed =
          widen (parse lib (lib.last_insert_rowid t) version buffer (lib.decode buffer) t) (
            parse-Kept (raw s) (version, buffer) (lib.last_insert_rowid t) (lib.decode buffer) t
              (added refl))
      coded (err m) c t added failed = inr (refl, failed m refl)
      coded panicked c t added failed = absurd (c refl)

  -- The codes of an answer that comes before the database is asked.
  abbrev pub is_refusal : ℕ → Bool
  is_refusal code = (code == 200) || ((code == 404) || ((code == 413) || (code == 400)))

  abbrev pub IsAccounted : Request → S → ℕ → S → Type 0
  IsAccounted request s code t =
      ((is_refusal code ≡ true) × (t ≡ s))
      ⊎ ((buffer : List ℕ) × (request.body ≡ some buffer)
          × (length buffer ≤ max_body_size)
          × Accounts (raw s) (find_version lib request.headers, buffer) code t)

  read-IsAccounted :
      (request : Request) (s : S) (o : Option (List ℕ))
      → request.body ≡ o
      → Succeeds (IsAccounted request s) (store_body lib (find_version lib request.headers) o s)
  read-IsAccounted request s none e = inl (refl, refl)
  read-IsAccounted request s (some buffer) e =
      let version = find_version lib request.headers in
      let P = IsAccounted request s in
      if-Succeeds P (ltb max_body_size (length buffer)) _ _ s (λ large. inl (refl, refl))
        λ small. kept (ground arith) (store lib version buffer s) (store-Accounts version buffer s)
    where
      kept :
          length buffer ≤ max_body_size
          → (r : Outcome ℕ × S)
          → Succeeds (Accounts (raw s) (find_version lib request.headers, buffer)) r
          → Succeeds (IsAccounted request s) r
      kept small (ok code, t) k = inr (buffer, e, small, k)
      kept small (err m, t) k = k
      kept small (panicked, t) k = k

  -- Every request is answered. With 200, 400, 404 or 413 the database is as it was. With 201 or 202
  -- the request had a body of at most 512 KiB, and the table of raw events is the old one with exactly
  -- that body and the request's version added; with 500 it is that or the old one.
  pub answer_accounts :
      (request : Request) (s : S) → Succeeds (IsAccounted request s) (answer lib request s)
  unfolding answer
  answer_accounts request s = split _ _ _
    where
      split :
          (healthy unknown large : Bool)
          → Succeeds (IsAccounted request s) (
              (if healthy
                  then pure 200
                  else if unknown
                  then pure 404
                  else if large
                  then pure 413
                  else store_body lib (find_version lib request.headers) request.body)
                s)
      split true unknown large = inl (refl, refl)
      split false true large = inl (refl, refl)
      split false false true = inl (refl, refl)
      split false false false = read-IsAccounted request s request.body refl
