-- ===== src/Collector/Archive.antt =====
-- collector.go: `readArchiveRecord`, one record of an archive, read in chunks. The device may say at
-- any chunk that the record belongs to another measurement scheme; then the list of active elements
-- is read again, and the whole record once more.
pub mod Gathered
use Prim.Native.String.{String}
use vkt7d.Common.{
  ℕ, zero, suc, ◌==◌, Bool, true, false, ◌&&◌, if◌then◌else◌, Option, none, some, List, [], ◌∷◌,
  Bytes,
}
use vkt7d.Errors.{
  Error, exception, refused, wrapped, Result, ok, err, M, ◌>>=◌, ◌>>◌, fail, done, attempt, wrap,
}
use vkt7d.Model.{Meta, Element, Value}
use vkt7d.Model.Table.{put}
use vkt7d.Protocol.{current}
use vkt7d.Protocol.Frame.{byte}
use vkt7d.Protocol.Transaction.{SerialPort}
use vkt7d.Protocol.Reply.{is_exception_code}
use vkt7d.Protocol.Elements.{Table, parse_elements}
use vkt7d.Protocol.Client.{
  Client, Moment, is_daily_like, set_type, set_date, set_read_list, read_data, active_elements,
  read_scheme, read_active_db,
}
use vkt7d.Collector.{filter}
use vkt7d.Collector.Split.{split_archive_read_list}

-- What is returned with a record: the active elements and the scheme it belongs to.
pub record Scheme : Type 0 where
  pub active : List Element
  pub meta : Meta

-- `for name, value := range values { result[name] = value }`. The names of a map differ, so the
-- order makes no difference.
unfoldable pub merge : Table → Table → Table
merge result [] = result
merge result ((name, value) ∷ values) = merge (put name value result) values

module _ {S : Type 0} where
  -- After an operation on a chunk: go on, or stop. A changed scheme ends the record with `none`. An
  -- exception of code 3 passes unwrapped where the source tests for it.
  unfoldable pub on_step :
      {A : Type 0} → Bool → Result A → (A → M S (Option Table)) → M S (Option Table)
  on_step tests_date (ok a) go = go a
  on_step tests_date (err e) go =
      if tests_date && is_exception_code e 3
      then fail e
      else if is_exception_code e 5
      then done none
      else fail (wrapped e)

  unfoldable pub on_values : Result Table → (Table → M S (Option Table)) → M S (Option Table)
  on_values (ok values) go = go values
  on_values (err e) go = fail (wrapped e)

module _ (p : SerialPort) (c : Client) (typ : ℕ) (when : Moment) where
  open p use {State}

  -- The loop over the chunks, with what they have given so far.
  unfoldable pub read_chunks : List (List Element) → Table → M State (Option Table)
  read_chunks [] result = done (some result)
  read_chunks (chunk ∷ chunks) result = do
    listed ← attempt (set_read_list p c chunk)
    on_step false listed λ _. do
      dated ← attempt (set_date p c when (is_daily_like typ))
      on_step true dated λ _. do
        data_read ← attempt (read_data p c)
        on_step true data_read λ d.
            on_values (parse_elements chunk d typ)
              λ values. read_chunks chunks (merge result values)

  abbrev meta_of : ℕ × ℕ × ℕ → ℕ × ℕ × ℕ → ℕ × ℕ × ℕ → Meta
  meta_of s1 s2 db = record {
    scheme_tv1 = some s1.0;
    scheme_tv2 = some s2.0;
    active_db = some db.0;
  }

  -- The scheme metadata, and the archive type and the read list selected again.
  unfoldable pub restore : List Element → List Element → M State Scheme
  restore fresh [] = fail refused
  restore fresh (e ∷ es) = do
    wrap (set_type p c current)
    s1 ← wrap (read_scheme p c 1)
    s2 ← wrap (read_scheme p c 2)
    db ← wrap (read_active_db p c)
    wrap (set_type p c (byte typ))
    wrap (set_read_list p c (e ∷ es))
    done (record { active = fresh; meta = meta_of s1 s2 db })

  unfoldable pub refresh : M State Scheme
  refresh = do fresh ← active_elements p c; restore fresh (filter fresh typ)

  -- What follows a pass over the chunks: the record, or another attempt with the fresh scheme.
  unfoldable pub concluded :
      (List Element → Scheme → M State (Table × Scheme))
      → Scheme
      → Option Table
      → M State (Table × Scheme)
  concluded again scheme (some result) = done (result, scheme)
  concluded again scheme none = do fresh ← refresh; again (filter fresh.active typ) fresh

  unfoldable pub chunked :
      (List Element → Scheme → M State (Table × Scheme))
      → Scheme
      → List (List Element)
      → M State (Table × Scheme)
  chunked again scheme [] = fail refused
  chunked again scheme (chunk ∷ chunks) = read_chunks (chunk ∷ chunks) [] >>= concluded again scheme

  -- The loop, with this many attempts left.
  unfoldable pub record_attempts : ℕ → List Element → Scheme → M State (Table × Scheme)
  record_attempts zero es scheme = fail (exception 5 3)
  record_attempts (suc left) es scheme =
      chunked (record_attempts left) scheme (split_archive_read_list es)

  unfoldable pub read_record : List Element → Scheme → M State (Table × Scheme)
  read_record es scheme = record_attempts 2 es scheme
