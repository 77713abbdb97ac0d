-- ===== src/Collector/Session/Saves.antt =====
-- What `collectArchive` writes to the store.
use vkt7d.Common.{
  ℕ, zero, suc, ◌≤◌, ◌<◌, ◌≡◌, refl, sym, ap, ◌∙◌, true, Bool-cases, List, [], ◌∷◌, ◌++◌,
  append-nil, append_assoc, ◌||◌, inl, inr, arith, if◌then◌else◌,
}
use vkt7d.Errors.{Result, ok, err}
use vkt7d.Model.{Element, Meta}
use vkt7d.Calendar.{Time, IsTime, stamp, after}
use vkt7d.Protocol.Transaction.{SerialPort}
use vkt7d.Protocol.Reply.{is_exception_code}
use vkt7d.Protocol.Elements.{Table}
use vkt7d.Protocol.Client.{Client}
use vkt7d.Storage.{Statement, Database, upsert_archive, midnight, save_archive}
use vkt7d.Storage.Names.{is_hourly_table, is_date_table}
use vkt7d.Storage.Encode.{encode}
use vkt7d.Collector.Archive.{Scheme, read_record}
use vkt7d.Collector.Dates.{due}
use vkt7d.Collector.Dates.Order.{next_archive_time-Advances, due-before}
use vkt7d.Collector.Session.Ends.{Bounded}
use vkt7d.Collector.World.{Host, on_port}
use vkt7d.Collector.Session.{
  Job, End, finished, stopped, ran_out, moment, W, Loop, next, fresh_list, latest, after_save,
  after_record, archive_loop,
}

-- A database whose statements can be observed.
pub record Logged (d : Database) : Type 0 where
  pub executed : d.State → List Statement
  pub exec_logs : (st : Statement) (s : d.State) → executed (d.exec st s).1 ≡ executed s ++ st ∷ []

-- The statement that stores the record of a date: its key is the date, or its day.
abbrev pub archive_statement : Job → Time → Table → Meta → Statement
archive_statement j u t m =
    upsert_archive j.table j.id (if is_hourly_table j.table then u else midnight u) m (encode t)

-- At most so many records, none before `from`, each later than the one before, and all before
-- `bound`; `IsRead` tells where a date's values and metadata come from.
abbrev pub Saves : (Time → Table → Meta → Type 0) → Job → ℕ → ℕ → ℕ → List Statement → Type 0
Saves IsRead j bound left from [] = Unit
Saves IsRead j bound zero from (st ∷ sts) = ⊥
Saves IsRead j bound (suc left) from (st ∷ sts) =
    (u : Time) × (t : Table) × (m : Meta) × (from ≤ stamp u)
    × (stamp u < bound)
    × (st ≡ archive_statement j u t m)
    × IsRead u t m
    × Saves IsRead j bound left (suc (stamp u)) sts

pub Saves-later :
    (IsRead : Time → Table → Meta → Type 0) (j : Job) (bound left from from' : ℕ)
    (sts : List Statement)
    → from ≤ from'
    → Saves IsRead j bound left from' sts
    → Saves IsRead j bound left from sts
Saves-later IsRead j bound left from from' [] h s = tt
Saves-later IsRead j bound zero from from' (st ∷ sts) h s = s
Saves-later IsRead j bound (suc left) from from' (st ∷ sts) h
      (u, t, m, late, before, is_st, read, rest) =
    (u, t, m, omega (arith, h, late), before, is_st, read, rest)

module _ (p : SerialPort) (d : Database) (h : Host) (c : Client) (j : Job) (l : Logged d)
    (bound : ℕ) where
  open l use {executed, exec_logs}

  -- `readArchiveRecord` has returned these values for the date, with a scheme of this metadata.
  abbrev pub IsRead : Time → Table → Meta → Type 0
  IsRead u t m =
      (es : List Element) × (scheme : Scheme) × (scheme' : Scheme) × (s : p.State) × ((read_record p
          c j.typ (moment u) es scheme s).0
        ≡ ok (t, scheme'))
      × (m ≡ scheme'.meta)

  -- From these executed statements the outcome has added some that are such records.
  pub record Adds (left from : ℕ) (before : List Statement) (r : End × W p d h c j) : Type 0 where
    pub new : List Statement
    pub log : executed r.1.db ≡ before ++ new
    pub saves : Saves IsRead j bound left from new

  Adds-nothing : (left from : ℕ) (e : End) (w : W p d h c j) → Adds left from (executed w.db) (e, w)
  Adds-nothing left from e w = record {
    new = [];
    log = sym (append-nil (executed w.db));
    saves = tt;
  }

  -- The rest of the loop adds such records, from the next date on.
  abbrev AddsAt : Loop p d h c j → Time → Type 0
  AddsAt again t =
      (left : ℕ) (es active : List Element) (w : W p d h c j)
      → Adds left (stamp t) (executed w.db) (again left t es active w)

  save_archive-logs :
      (u : Time) (t : Table) (m : Meta) (s : d.State)
      → (is_hourly_table j.table || is_date_table j.table) ≡ true
      → executed (save_archive d j.table j.id u t m s).1
        ≡ executed s ++ archive_statement j u t m ∷ []
  unfolding save_archive
  save_archive-logs u t m s known = elim (Bool-cases (is_hourly_table j.table)) [
    | inl hours ↦ rw hours (exec_logs _ s)
    | inr other ↦
        let days : is_date_table j.table ≡ true = rw other at known in
        rw (other, days) (exec_logs _ s)
  ]

  after_save-Adds :
      (again : Loop p d h c j) (left : ℕ) (start : Time) (es active : List Element)
      (r : Result (Unit {0}) × W p d h c j) (before : List Statement) (t : Table) (m : Meta)
      → executed r.1.db ≡ before ++ archive_statement j start t m ∷ []
      → IsRead start t m
      → stamp start < bound
      → stamp start < stamp (next p d h c j start)
      → AddsAt again (next p d h c j start)
      → Adds (suc left) (stamp start) before (after_save p d h c j again left start es active r)
  after_save-Adds again left start es active (ok u, w) before t m one read past moves ih =
      let rest = ih left es active w in
      let st = archive_statement j start t m in
      record {
        new = st ∷ rest.new;
        log = rest.log ∙ ap (λ b. b ++ rest.new) one ∙ append_assoc before (st ∷ []) rest.new;
        saves = (
          start,
          t,
          m,
          omega arith,
          past,
          refl,
          read,
          Saves-later IsRead j bound left (suc (stamp start)) (stamp (next p d h c j start))
              rest.new moves rest.saves,
        );
      }
  after_save-Adds again left start es active (err e, w) before t m one read past moves ih = record {
    new = archive_statement j start t m ∷ [];
    log = one;
    saves = (start, t, m, omega arith, past, refl, read, tt);
  }

  after_record-Adds :
      (again : Loop p d h c j) (left : ℕ) (start : Time) (es active : List Element)
      (r : Result (Table × Scheme) × W p d h c j)
      → (is_hourly_table j.table || is_date_table j.table) ≡ true
      → ((t : Table) (scheme : Scheme) → r.0 ≡ ok (t, scheme) → IsRead start t scheme.meta)
      → stamp start < bound
      → stamp start < stamp (next p d h c j start)
      → AddsAt again (next p d h c j start)
      → Adds
          (suc left)
          (stamp start)
          (executed r.1.db)
          (after_record p d h c j again left start es active r)
  unfolding after_record
  after_record-Adds again left start es active (ok (t, scheme), w) known read past moves ih =
      after_save-Adds again left start (fresh_list p d h c j scheme.active es)
        (latest p d h c j scheme.active active) _ (executed w.db) t scheme.meta
        (save_archive-logs start t scheme.meta w.db known) (read t scheme refl) past moves ih
  after_record-Adds again left start es active (err e, w) known read past moves ih =
      elim (Bool-cases (is_exception_code e 3)) [
        | inr other ↦ rw other (Adds-nothing (suc left) (stamp start) stopped w)
        | inl missing ↦ elim (Bool-cases (after (next p d h c j start) start)) [
          | inr stays ↦ rw (missing, stays) (Adds-nothing (suc left) (stamp start) stopped w)
          | inl later ↦
              let rest = ih (suc left) es active w in
              rw (missing, later)
                (record {
                  new = rest.new;
                  log = rest.log;
                  saves =
                      Saves-later IsRead j bound (suc left) (stamp start)
                        (stamp (next p d h c j start)) rest.new (omega (arith, moves)) rest.saves;
                })
        ]
      ]

  -- The loop of `collectArchive` stores, for a table that exists and a clock that stays within the
  -- bound: nothing but records of this archive, at most as many as the batch, each under a later
  -- date than the one before, none before the start and none that lies ahead of the clock, and each
  -- with the values and the metadata that `readArchiveRecord` returned for its date.
  pub archive_loop-Adds :
      Bounded h bound
      → (is_hourly_table j.table || is_date_table j.table) ≡ true
      → (turns left : ℕ) (start : Time) (es active : List Element) (w : W p d h c j) → IsTime start
      → Adds left
          (stamp start)
          (executed w.db)
          (archive_loop p d h c j turns left start es active w)
  unfolding archive_loop
  archive_loop-Adds b known zero left start es active w valid =
      Adds-nothing left (stamp start) ran_out w
  archive_loop-Adds b known (suc turns) zero start es active w valid =
      Adds-nothing zero (stamp start) finished w
  archive_loop-Adds b known (suc turns) (suc left) start es active w valid =
      let h1 = (h.cancelled w.host).1 in
      let now = (h.now h1).0 in
      let w' = record w { host = (h.now h1).1 } in
      elim (Bool-cases (h.cancelled w.host).0) [
        | inl stop ↦
            rw stop (Adds-nothing (suc left) (stamp start) stopped (record w { host = h1 }))
        | inr goes_on ↦ elim (Bool-cases (due start j.typ now)) [
          | inr later ↦ rw (goes_on, later) (Adds-nothing (suc left) (stamp start) finished w')
          | inl is_due ↦
              let past = due-before start now j.typ (b.exists h1) (b.year h1) is_due in
              let advance = next_archive_time-Advances start j.typ j.report_day valid in
              rw (goes_on, is_due)
                (after_record-Adds (archive_loop p d h c j turns) left start es active
                  (on_port
                    (read_record p c j.typ (moment start) es
                      (record { active = active; meta = w.meta }))
                    w')
                  known
                  (λ t scheme same.
                    (es, record { active = active; meta = w.meta }, scheme, w.port, same, refl))
                  (omega (arith, past, b.not_later h1)) advance.1
                  (λ left' es' active' w''.
                    archive_loop-Adds b known turns left' (next p d h c j start) es' active' w''
                      advance.0))
        ]
      ]
