-- ===== src/Collector/Session/Writes.antt =====
-- What a whole run of `collectArchive` writes to the store.
use Prim.Native.String.{String}
use vkt7d.Common.{
  ℕ, zero, ◌≡◌, ◌==◌, refl, sym, ap, ◌∙◌, true, Bool-cases, List, [], ◌∷◌, ◌++◌, ◌||◌, inl, inr,
  append-nil, arith, if◌then◌else◌, Option, none, some,
}
use vkt7d.Errors.{Result, ok, err, M, ◌>>=◌, done}
use vkt7d.Model.{Element}
use vkt7d.Calendar.{Time, IsTime}
use vkt7d.Protocol.Frame.{byte}
use vkt7d.Protocol.Transaction.{SerialPort}
use vkt7d.Protocol.Client.{Client, set_type, active_elements, set_read_list, read_range}
use vkt7d.Storage.{Database, Statement, last}
use vkt7d.Storage.Names.{is_hourly_table, is_date_table}
use vkt7d.Collector.{filter}
use vkt7d.Collector.World.{Host, on_port, on_db}
use vkt7d.Collector.Session.{
  Job, W, Start, range_start, first_start, not_empty, started, listed, found, prepare, run_loop,
  collect_archive,
}
use vkt7d.Collector.Session.Start.{Stores, prepare-IsTime}
use vkt7d.Collector.Session.Ends.{Bounded}
use vkt7d.Collector.Session.Saves.{Logged, Saves-later, Adds, IsRead, archive_loop-Adds}

-- A query is no statement.
abbrev pub Quiet : (d : Database) → Logged d → Type 0
Quiet d l =
    (table : String) (id : ℕ) (s : d.State)
    → l.executed (d.latest_archive table id s).1 ≡ l.executed s

module _ (p : SerialPort) (d : Database) (h : Host) (c : Client) (j : Job) (l : Logged d) where
  open l use {executed}

  -- The operation executes nothing.
  abbrev Keeps : {A : Type 0} → M (W p d h c j) A → Type 0
  Keeps m = (w : W p d h c j) → executed (m w).1.db ≡ executed w.db

  after-Keeps :
      {A B : Type 0} (r : Result A × W p d h c j) (w : W p d h c j) (k : A → M (W p d h c j) B)
      → executed r.1.db ≡ executed w.db
      → ((a : A) → Keeps (k a))
      → executed (((λ _. r) >>= k) w).1.db ≡ executed w.db
  after-Keeps (ok a, w') w k same rest = rest a w' ∙ same
  after-Keeps (err e, w') w k same rest = same

  bind-Keeps :
      {A B : Type 0} (m : M (W p d h c j) A) (k : A → M (W p d h c j) B)
      → Keeps m
      → ((a : A) → Keeps (k a))
      → Keeps (m >>= k)
  bind-Keeps m k first rest w = after-Keeps (m w) w k (first w) rest

  first_start-Keeps : (o : Option Time) → Keeps (first_start p d h c j o)
  unfolding first_start
  first_start-Keeps (some t) w = refl
  first_start-Keeps none w =
      bind-Keeps (on_port (read_range p c)) (range_start p d h c j) (λ w. refl) (λ r w. refl) w

  last-keeps :
      Quiet d l
      → (table : String) (id : ℕ) (s : d.State) → executed (last d table id s).1 ≡ executed s
  unfolding last
  last-keeps quiet table id s = elim (Bool-cases (is_hourly_table table)) [
    | inl hours ↦ rw hours (quiet table id s)
    | inr other ↦ elim (Bool-cases (is_date_table table)) [
      | inl days ↦ rw (other, days) (quiet table id s)
      | inr bad ↦ rw (other, bad) refl
    ]
  ]

  not_empty-Keeps : (es : List Element) → Keeps (not_empty p d h c j es)
  not_empty-Keeps [] w = refl
  not_empty-Keeps (e ∷ es) w = refl

  prepare-Keeps : Quiet d l → Keeps (prepare p d h c j)
  unfolding prepare
  prepare-Keeps quiet =
      bind-Keeps (on_port (set_type p c (byte j.typ)))
        (λ _. on_port (active_elements p c) >>= found p d h c j) (λ w. refl)
        (λ _. bind-Keeps (on_port (active_elements p c)) (found p d h c j) (λ w. refl) found-Keeps)
    where
      started-Keeps :
          (es active : List Element) (o : Option Time) → Keeps (started p d h c j es active o)
      started-Keeps es active o =
          bind-Keeps (first_start p d h c j o) (λ t. done (t, es, active)) (first_start-Keeps o)
            (λ t w. refl)

      listed-Keeps : (active es : List Element) → Keeps (listed p d h c j active es)
      listed-Keeps active es =
          bind-Keeps (on_port (set_read_list p c es))
            (λ _. on_db (last d j.table j.id) >>= started p d h c j es active) (λ w. refl)
            (λ _.
              bind-Keeps (on_db (last d j.table j.id)) (started p d h c j es active)
                (λ w. last-keeps quiet j.table j.id w.db) (started-Keeps es active))

      found-Keeps : (fresh : List Element) → Keeps (found p d h c j fresh)
      found-Keeps fresh =
          bind-Keeps (not_empty p d h c j fresh)
            (λ active. not_empty p d h c j (filter active j.typ) >>= listed p d h c j active)
            (not_empty-Keeps fresh)
            (λ active.
              bind-Keeps (not_empty p d h c j (filter active j.typ)) (listed p d h c j active)
                (not_empty-Keeps (filter active j.typ)) (listed-Keeps active))

  run_loop-Adds :
      (bound : ℕ) (b : Bounded h bound) (turns limit : ℕ) (before : List Statement)
      (r : Result (Start p d h c j) × W p d h c j)
      → (is_hourly_table j.table || is_date_table j.table) ≡ true
      → ((start : Time) (es active : List Element) → r.0 ≡ ok (start, es, active) → IsTime start)
      → executed r.1.db ≡ before
      → Adds p d h c j l bound limit zero before (run_loop p d h c j turns limit r)
  run_loop-Adds bound b turns limit before (ok (start, es, active), w) known valid same =
      let run =
        archive_loop-Adds p d h c j l bound b known turns limit start es active w
          (valid start es active refl) in
      record {
        new = run.new;
        log = run.log ∙ ap (λ x. x ++ run.new) same;
        saves =
            Saves-later (IsRead p d h c j l bound) j bound limit zero _ run.new (omega arith)
              run.saves;
      }
  run_loop-Adds bound b turns limit before (err e, w) known valid same = record {
    new = [];
    log = same ∙ sym (append-nil before);
    saves = tt;
  }

  -- If the clock does not pass a bound while the session lasts, the times in the store exist, and a
  -- query of the database executes no statement, a
  -- run of `collectArchive` for one of the four tables writes to the store at most as many
  -- statements as the batch says, or one for a batch of none; each is the statement for one date with
  -- the values and the metadata that `readArchiveRecord` returned for that date, each date is later
  -- than the one before, and all of them lie before the bound.
  pub collect_archive-Adds :
      (bound : ℕ)
      → Bounded h bound
      → Stores p d h c j
      → Quiet d l
      → (is_hourly_table j.table || is_date_table j.table) ≡ true
      → (turns batch : ℕ) (w : W p d h c j)
      → Adds p d h c j l bound
          (if batch == 0 then 1 else batch)
          zero
          (executed w.db)
          (collect_archive p d h c j turns batch w)
  unfolding collect_archive
  collect_archive-Adds bound b stores quiet known turns batch w =
      run_loop-Adds bound b turns (if batch == 0 then 1 else batch) (executed w.db)
        (prepare p d h c j w) known
        (λ start es active e. prepare-IsTime p d h c j stores w start es active e)
        (prepare-Keeps quiet w)
