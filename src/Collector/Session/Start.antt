-- ===== src/Collector/Session/Start.antt =====
-- What `collectArchive` starts with is a time that exists.
use vkt7d.Common.{
  ℕ, ◌+◌, ◌≡◌, ◌==◌, refl, ap, Bool-cases, Option, none, some, List, inl, inr, if◌then◌else◌,
}
use vkt7d.Errors.{M, bind-ok, Result, ok, err, ◌>>=◌, done}
use vkt7d.Model.{Element}
use vkt7d.Calendar.{Time, IsTime, date, repeated, hours_before, day_before, months_before}
use vkt7d.Calendar.Valid.{date-IsTime, hours_before-IsTime, day_before-IsTime, repeated-IsTime}
use vkt7d.Protocol.{hourly}
use vkt7d.Protocol.Transaction.{SerialPort}
use vkt7d.Protocol.Client.{Client, read_range, set_type, set_read_list, active_elements}
use vkt7d.Protocol.Frame.{byte}
use vkt7d.Collector.{filter}
use vkt7d.Storage.{Database, Row, row, no_rows, query_failed, optional, local_result, last}
use vkt7d.Storage.Names.{is_hourly_table, is_date_table}
use vkt7d.Collector.Dates.{is_report_type, parse_start}
use Prim.Native.String.{String}
use vkt7d.Collector.Dates.Start.{IsTime-if, months_before-IsTime, parse_start-IsTime}
use vkt7d.Collector.Dates.Order.{next_archive_time-Advances}
use vkt7d.Collector.World.{Host, on_port, on_db}
use vkt7d.Collector.Session.{
  Start, Job, overlapped, W, next, first_start, range_start, prepare, started, listed, found,
  not_empty,
}

overlapped-IsTime : (j : Job) (t : Time) → IsTime t → IsTime (overlapped j t)
unfolding overlapped
overlapped-IsTime j t valid =
    let hours = hours_before t j.overlap in
    let months = months_before t j.overlap in
    let days = repeated j.overlap day_before t in
    let back =
      IsTime-if (is_report_type j.typ) months days (months_before-IsTime t j.overlap)
        (repeated-IsTime j.overlap day_before t (λ u _. day_before-IsTime u) valid) in
    IsTime-if (j.overlap == 0) t
      (if j.typ == hourly then hours else if is_report_type j.typ then months else days) valid
      (IsTime-if (j.typ == hourly) hours (if is_report_type j.typ then months else days)
        (hours_before-IsTime t j.overlap valid) back)

abbrev begins : Time → Result (Time × List Element × List Element) → Time
begins default (ok (t, es, active)) = t
begins default (err e) = default

local-IsTime : (r : Row Time) (t : Time) → local_result (optional r) ≡ ok (some t) → IsTime t
local-IsTime (row u) t e =
    let same : date u.month (u.day + 1) u.second ≡ t = cc in
    rw⁻¹ same (date-IsTime u.month (u.day + 1) u.second)
local-IsTime no_rows t e = cc
local-IsTime (query_failed x) t e = cc

stored-IsTime :
    (r : Row Time) (t : Time)
    → ((u : Time) → r ≡ row u → IsTime u)
    → optional r ≡ ok (some t)
    → IsTime t
stored-IsTime (row u) t valid e = let same : u ≡ t = cc in rw⁻¹ same (valid u refl)
stored-IsTime no_rows t valid e = cc
stored-IsTime (query_failed x) t valid e = cc

module _ (p : SerialPort) (d : Database) (h : Host) (c : Client) (j : Job) where
  -- The store gives times that exist.
  abbrev pub Stores : Type 0
  Stores =
      (table : String) (id : ℕ) (s : d.State) (t : Time)
      → (d.latest_archive table id s).0 ≡ row t
      → IsTime t

  first_start-IsTime :
      (o : Option Time) (w : W p d h c j) (start : Time)
      → ((t : Time) → o ≡ some t → IsTime t)
      → (first_start p d h c j o w).0 ≡ ok start
      → IsTime start
  unfolding first_start
  first_start-IsTime (some t) w start valid e =
      let later = (next_archive_time-Advances t j.typ j.report_day (valid t refl)).0 in
      let same : overlapped j (next p d h c j t) ≡ start = cc in
      rw⁻¹ same (overlapped-IsTime j (next p d h c j t) later)
  first_start-IsTime none w start valid e =
      let range = on_port (read_range p c) w in
      let (r, _, parsed) = bind-ok range.0 range.1 (range_start p d h c j) start e in
      let now = (h.now range.1.host).0 in
      let same : parse_start r j.typ j.report_day now ≡ start = cc in
      rw⁻¹ same (parse_start-IsTime r j.typ j.report_day now)

  last-IsTime :
      Stores
      → (table : String) (id : ℕ) (s : d.State) (t : Time) → (last d table id s).0 ≡ ok (some t)
      → IsTime t
  unfolding last
  last-IsTime stores table id s t e =
      let r = (d.latest_archive table id s).0 in
      elim (Bool-cases (is_hourly_table table)) [
        | inl hours ↦ local-IsTime r t (rw hours at e)
        | inr other ↦ elim (Bool-cases (is_date_table table)) [
          | inl days ↦
              stored-IsTime r t (λ u same. stores table id s u same) (rw (other, days) at e)
          | inr bad ↦ absurd (cc (rw (other, bad) at e))
        ]
      ]

  -- Every result without an error has the property.
  abbrev Gives : {A : Type 0} → (A → Type 0) → M (W p d h c j) A → Type 0
  Gives {A} P m = (w : W p d h c j) (a : A) → (m w).0 ≡ ok a → P a

  bind-Gives :
      {A B : Type 0} (P : A → Type 0) (Q : B → Type 0) (m : M (W p d h c j) A)
      (k : A → M (W p d h c j) B)
      → Gives P m
      → ((a : A) → P a → Gives Q (k a))
      → Gives Q (m >>= k)
  bind-Gives P Q m k first rest w b e =
      let (a, gave, later) = bind-ok (m w).0 (m w).1 k b e in
      rest a (first w a gave) (m w).1 b later

  abbrev Anything : {A : Type 0} → A → Type 0
  Anything a = Unit

  abbrev Begins : Start p d h c j → Type 0
  Begins x = IsTime x.0

  abbrev IsStored : Option Time → Type 0
  IsStored none = Unit
  IsStored (some t) = IsTime t

  -- From an operation of which nothing is known.
  next-Gives :
      {A : Type 0} (m : M (W p d h c j) A) (k : A → M (W p d h c j) (Start p d h c j))
      → ((a : A) → Gives Begins (k a))
      → Gives Begins (m >>= k)
  next-Gives m k rest = bind-Gives Anything Begins m k (λ w a e. tt) (λ a u. rest a)

  last-Gives : Stores → Gives IsStored (on_db (last d j.table j.id))
  last-Gives stores w none e = tt
  last-Gives stores w (some t) e = last-IsTime stores j.table j.id w.db t e

  first_start-Gives : (o : Option Time) → IsStored o → Gives IsTime (first_start p d h c j o)
  first_start-Gives none exists w t e = first_start-IsTime none w t (λ u none_some. cc) e
  first_start-Gives (some u) exists w t e =
      first_start-IsTime (some u) w t (λ v same. let is : u ≡ v = cc in rw⁻¹ is exists) e

  started-Gives :
      (es active : List Element) (o : Option Time)
      → IsStored o
      → Gives Begins (started p d h c j es active o)
  started-Gives es active o exists =
      bind-Gives IsTime Begins (first_start p d h c j o) (λ t. done (t, es, active))
        (first_start-Gives o exists)
        (λ t valid w x e. let same : t ≡ x.0 = ap (begins t) e in rw⁻¹ same valid)

  listed-Gives : Stores → (active es : List Element) → Gives Begins (listed p d h c j active es)
  listed-Gives stores active es =
      next-Gives (on_port (set_read_list p c es))
        (λ _. on_db (last d j.table j.id) >>= started p d h c j es active)
        (λ _.
          bind-Gives IsStored Begins (on_db (last d j.table j.id)) (started p d h c j es active)
            (last-Gives stores) (started-Gives es active))

  found-Gives : Stores → (fresh : List Element) → Gives Begins (found p d h c j fresh)
  found-Gives stores fresh =
      next-Gives (not_empty p d h c j fresh)
        (λ active. not_empty p d h c j (filter active j.typ) >>= listed p d h c j active)
        (λ active.
          next-Gives (not_empty p d h c j (filter active j.typ)) (listed p d h c j active)
            (listed-Gives stores active))

  pub prepare-IsTime :
      Stores
      → (w : W p d h c j) (start : Time) (es active : List Element)
      → (prepare p d h c j w).0 ≡ ok (start, es, active)
      → IsTime start
  unfolding prepare
  prepare-IsTime stores w start es active =
      next-Gives (on_port (set_type p c (byte j.typ)))
        (λ _. on_port (active_elements p c) >>= found p d h c j)
        (λ _. next-Gives (on_port (active_elements p c)) (found p d h c j) (found-Gives stores)) w
        (start, es, active)
