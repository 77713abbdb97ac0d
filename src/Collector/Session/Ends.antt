-- ===== src/Collector/Session/Ends.antt =====
-- `collectArchive` ends by itself: its cursor passes the clock.
use vkt7d.Common.{
  ℕ, zero, suc, ◌+◌, ◌≤◌, ◌<◌, ◌≡◌, ◌≢◌, ◌==◌, refl, Bool-cases, List, inl, inr, arith,
  if◌then◌else◌,
}
use vkt7d.Errors.{Result, ok, err}
use vkt7d.Model.{Element}
use vkt7d.Calendar.{Time, IsTime, stamp, after}
use vkt7d.Protocol.Transaction.{SerialPort}
use vkt7d.Protocol.Reply.{is_exception_code}
use vkt7d.Protocol.Elements.{Table}
use vkt7d.Protocol.Client.{Client}
use vkt7d.Storage.{Database}
use vkt7d.Collector.Archive.{Scheme}
use vkt7d.Collector.Dates.{due}
use vkt7d.Collector.Dates.Order.{next_archive_time-Advances, due-before}
use vkt7d.Collector.World.{Host}
use vkt7d.Collector.Session.{
  Job, ran_out, W, Loop, next, fresh_list, latest, after_save, after_record, archive_loop, prepare,
  Start, run_loop, collect_archive,
}
use vkt7d.Collector.Session.Start.{Stores, prepare-IsTime}

-- The clock shows times that exist, and does not pass `bound` while the session lasts.
pub record Bounded (h : Host) (bound : ℕ) : Type 0 where
  pub exists : (s : h.State) → IsTime (h.now s).0
  pub year : (s : h.State) → 1 ≤ (h.now s).0.month
  pub not_later : (s : h.State) → stamp (h.now s).0 ≤ bound

module _ (p : SerialPort) (d : Database) (h : Host) (c : Client) (j : Job) where
  -- The rest of the loop ends, whatever is left, at the next date.
  abbrev EndsAt : Loop p d h c j → Time → Type 0
  EndsAt again t =
      (left : ℕ) (es active : List Element) (w : W p d h c j)
      → (again left t es active w).0 ≢ ran_out

  after_save-ends :
      (again : Loop p d h c j) (left : ℕ) (start : Time) (es active : List Element)
      (r : Result (Unit {0}) × W p d h c j)
      → EndsAt again (next p d h c j start)
      → (after_save p d h c j again left start es active r).0 ≢ ran_out
  after_save-ends again left start es active (ok u, w) ih = ih left es active w
  after_save-ends again left start es active (err e, w) ih = λ x. cc

  after_record-ends :
      (again : Loop p d h c j) (left : ℕ) (start : Time) (es active : List Element)
      (r : Result (Table × Scheme) × W p d h c j)
      → EndsAt again (next p d h c j start)
      → (after_record p d h c j again left start es active r).0 ≢ ran_out
  unfolding after_record
  after_record-ends again left start es active (ok (t, scheme), w) ih =
      after_save-ends again left start (fresh_list p d h c j scheme.active es)
        (latest p d h c j scheme.active active) _ ih
  after_record-ends again left start es active (err e, w) ih =
      elim (Bool-cases (is_exception_code e 3)) [
        | inr other ↦ rw other (λ x. cc)
        | inl missing ↦ elim (Bool-cases (after (next p d h c j start) start)) [
          | inr stays ↦ rw (missing, stays) (λ x. cc)
          | inl moves ↦ rw (missing, moves) (ih (suc left) es active w)
        ]
      ]

  archive_loop-ends :
      (bound : ℕ) (b : Bounded h bound) (turns : ℕ) (left : ℕ) (start : Time)
      (es active : List Element) (w : W p d h c j)
      → IsTime start
      → 1 ≤ turns
      → bound < stamp start + turns
      → (archive_loop p d h c j turns left start es active w).0 ≢ ran_out
  unfolding archive_loop
  archive_loop-ends bound b zero left start es active w valid one far = absurd (omega arith)
  archive_loop-ends bound b (suc turns) zero start es active w valid one far = λ x. cc
  archive_loop-ends bound b (suc turns) (suc left) start es active w valid one far =
      let h1 = (h.cancelled w.host).1 in
      let now = (h.now h1).0 in
      elim (Bool-cases (h.cancelled w.host).0) [
        | inl stop ↦ rw stop (λ x. cc)
        | inr goes_on ↦ elim (Bool-cases (due start j.typ now)) [
          | inr later ↦ rw (goes_on, later) (λ x. cc)
          | inl is_due ↦
              let past = due-before start now j.typ (b.exists h1) (b.year h1) is_due in
              let advance = next_archive_time-Advances start j.typ j.report_day valid in
              let early = b.not_later h1 in
              rw (goes_on, is_due)
                (after_record-ends (archive_loop p d h c j turns) left start es active _
                  (λ left' es' active' w'.
                    archive_loop-ends bound b turns left' (next p d h c j start) es' active' w'
                      advance.0 (omega (arith, past, early, far))
                      (omega (arith, past, early, far, advance.1))))
        ]
      ]

  run_loop-ends :
      (bound : ℕ) (b : Bounded h bound) (turns limit : ℕ)
      (r : Result (Start p d h c j) × W p d h c j)
      → ((start : Time) (es active : List Element) → r.0 ≡ ok (start, es, active) → IsTime start)
      → bound < turns
      → (run_loop p d h c j turns limit r).0 ≢ ran_out
  run_loop-ends bound b turns limit (ok (start, es, active), w) valid far =
      archive_loop-ends bound b turns limit start es active w (valid start es active refl)
        (omega (arith, far)) (omega (arith, far))
  run_loop-ends bound b turns limit (err e, w) valid far = λ x. cc

  -- If the clock shows times that exist and does not pass some bound while the session lasts, and
  -- the times in the store exist, `collectArchive` ends by itself: with more turns than the bound
  -- they are never used up. Records that are missing do not count against the batch, and still it
  -- ends, since each one moves the cursor on and what lies behind the clock is not read.
  pub collect_archive-ends :
      (bound : ℕ)
      → Bounded h bound
      → Stores p d h c j
      → (turns batch : ℕ) (w : W p d h c j) → bound < turns
      → (collect_archive p d h c j turns batch w).0 ≢ ran_out
  unfolding collect_archive
  collect_archive-ends bound b stores turns batch w far =
      run_loop-ends bound b turns (if batch == 0 then 1 else batch) (prepare p d h c j w)
        (λ start es active e. prepare-IsTime p d h c j stores w start es active e) far
