-- ===== src/Collector/Archive/Gathered.antt =====
-- What a record that is returned consists of, and which scheme it belongs to.
use vkt7d.Common.{
  ℕ, zero, suc, ◌≡◌, refl, ap, ◌∙◌, Bool, true, false, ◌&&◌, Bool-cases, Option, none, some, List,
  [], ◌∷◌, Bytes, inl, inr,
}
use vkt7d.Errors.{bind-ok, Result, ok, err, M}
use vkt7d.Model.{Element}
use vkt7d.Protocol.Transaction.{SerialPort}
use vkt7d.Protocol.Reply.{is_exception_code}
use vkt7d.Protocol.Elements.{Table, parse_elements}
use vkt7d.Protocol.Client.{Client, Moment, set_read_list, set_date, read_data, is_daily_like}
use vkt7d.Collector.{filter}
use vkt7d.Collector.Split.{split_archive_read_list}
use vkt7d.Collector.Archive.{
  Scheme, merge, on_step, on_values, read_chunks, concluded, chunked, record_attempts, refresh,
  read_record,
}

-- From `s`, for each chunk one after the other: its list is accepted, then the date, and the data
-- that `ReadData` then gives parses by the chunk's elements; the values of all chunks, put into the
-- map in order, are the result.
module _ (p : SerialPort) (c : Client) (typ : ℕ) (when : Moment) where
  abbrev pub Gathered : List (List Element) → Table → Table → p.State → Type 0
  Gathered [] result whole s = whole ≡ result
  Gathered (chunk ∷ chunks) result whole s =
      let s1 = (set_read_list p c chunk s).1 in
      let s2 = (set_date p c when (is_daily_like typ) s1).1 in
      let s3 = (read_data p c s2).1 in
      (d : Bytes) × (values : Table) × ((a : Unit {0}) × ((set_read_list p c chunk s).0 ≡ ok a))
      × ((a : Unit {0}) × ((set_date p c when (is_daily_like typ) s1).0 ≡ ok a))
      × ((read_data p c s2).0 ≡ ok d)
      × (parse_elements chunk d typ ≡ ok values)
      × Gathered chunks (merge result values) whole s3

module _ {S : Type 0} where
  on_step-some :
      {A : Type 0} (tests : Bool) (r : Result A) (go : A → M S (Option Table)) (s : S) (t : Table)
      → (on_step tests r go s).0 ≡ ok (some t)
      → (a : A) × (r ≡ ok a) × ((go a s).0 ≡ ok (some t))
  unfolding on_step
  on_step-some tests (ok a) go s t e = (a, refl, e)
  on_step-some tests (err x) go s t e = elim (Bool-cases (tests && is_exception_code x 3)) [
    | inl date ↦ absurd (cc (rw date at e))
    | inr other ↦ elim (Bool-cases (is_exception_code x 5)) [
      | inl changed ↦ absurd (cc (rw (other, changed) at e))
      | inr failed ↦ absurd (cc (rw (other, failed) at e))
    ]
  ]

  on_values-some :
      (r : Result Table) (go : Table → M S (Option Table)) (s : S) (t : Table)
      → (on_values r go s).0 ≡ ok (some t)
      → (values : Table) × (r ≡ ok values) × ((go values s).0 ≡ ok (some t))
  unfolding on_values
  on_values-some (ok values) go s t e = (values, refl, e)
  on_values-some (err x) go s t e = cc

module _ (p : SerialPort) (c : Client) (typ : ℕ) (when : Moment) where
  open p use {State}

  read_chunks-Gathered :
      (chunks : List (List Element)) (result t : Table) (s : State)
      → (read_chunks p c typ when chunks result s).0 ≡ ok (some t)
      → Gathered p c typ when chunks result t s
  unfolding read_chunks
  read_chunks-Gathered [] result t s e = cc
  read_chunks-Gathered (chunk ∷ chunks) result t s e =
      let s1 = (set_read_list p c chunk s).1 in
      let (a, took_list, listed) = on_step-some false (set_read_list p c chunk s).0 _ s1 t e in
      let s2 = (set_date p c when (is_daily_like typ) s1).1 in
      let (b, took_date, dated) =
        on_step-some true (set_date p c when (is_daily_like typ) s1).0 _ s2 t listed in
      let s3 = (read_data p c s2).1 in
      let (d, given, got) = on_step-some true (read_data p c s2).0 _ s3 t dated in
      let (values, parsed, rest) = on_values-some (parse_elements chunk d typ) _ s3 t got in
      (
        d,
        values,
        (a, took_list),
        (b, took_date),
        given,
        parsed,
        read_chunks-Gathered chunks (merge result values) t s3 rest,
      )

  -- The record is gathered from `s` on by the list, with its scheme; or the meter said on the way that
  -- the scheme has changed, the fresh scheme was read from there on, and the record is gathered
  -- behind it, by the elements for the archive's type among the fresh ones.
  pub data Recorded : List Element → Scheme → State → Table → Scheme → Type 0 where
    at_once :
        (es : List Element) (scheme : Scheme) (s : State) (t : Table)
        → Gathered p c typ when (split_archive_read_list es) [] t s
        → Recorded es scheme s t scheme
    behind_change :
        (es : List Element) (scheme fresh scheme' : Scheme) (s s1 s2 : State) (t : Table)
        → read_chunks p c typ when (split_archive_read_list es) [] s ≡ (ok none, s1)
        → refresh p c typ when s1 ≡ (ok fresh, s2)
        → Recorded (filter fresh.active typ) fresh s2 t scheme'
        → Recorded es scheme s t scheme'

  concluded-Recorded :
      (es : List Element) (scheme scheme' : Scheme) (t : Table) (s0 : State) (o : Option Table)
      (s : State) (again : List Element → Scheme → M State (Table × Scheme))
      → read_chunks p c typ when (split_archive_read_list es) [] s0 ≡ (ok o, s)
      → ((fs : List Element) (fresh : Scheme) (s' : State)
          → (again fs fresh s').0 ≡ ok (t, scheme')
          → Recorded fs fresh s' t scheme')
      → (concluded p c typ when again scheme o s).0 ≡ ok (t, scheme')
      → Recorded es scheme s0 t scheme'
  unfolding concluded
  concluded-Recorded es scheme scheme' t s0 (some r) s again pass ih e =
      let same : (r ≡ t) × (scheme ≡ scheme') = (cc, cc) in
      let whole = read_chunks-Gathered (split_archive_read_list es) [] r s0 (ap (λ x. x.0) pass) in
      rw⁻¹ same.1 (rw⁻¹ same.0 (at_once es scheme s0 r whole))
  concluded-Recorded es scheme scheme' t s0 none s again pass ih e =
      let r = refresh p c typ when s in
      let (fresh, is_fresh, rest) =
        bind-ok r.0 r.1 (λ fresh. again (filter fresh.active typ) fresh) (t, scheme') e in
      behind_change es scheme fresh scheme' s0 s r.1 t pass (λ i. (is_fresh i, r.1))
        (ih (filter fresh.active typ) fresh r.1 rest)

  chunked-Recorded :
      (es : List Element) (scheme scheme' : Scheme) (t : Table) (chunks : List (List Element))
      (s : State) (again : List Element → Scheme → M State (Table × Scheme))
      → split_archive_read_list es ≡ chunks
      → ((fs : List Element) (fresh : Scheme) (s' : State)
          → (again fs fresh s').0 ≡ ok (t, scheme')
          → Recorded fs fresh s' t scheme')
      → (chunked p c typ when again scheme chunks s).0 ≡ ok (t, scheme')
      → Recorded es scheme s t scheme'
  unfolding chunked
  chunked-Recorded es scheme scheme' t [] s again split ih e = cc
  chunked-Recorded es scheme scheme' t (chunk ∷ chunks) s again split ih e =
      let pass = read_chunks p c typ when (chunk ∷ chunks) [] s in
      let (o, found, rest) = bind-ok pass.0 pass.1 (concluded p c typ when again scheme) _ e in
      concluded-Recorded es scheme scheme' t s o pass.1 again
        (ap (λ x. read_chunks p c typ when x [] s) split ∙ (λ i. (found i, pass.1))) ih rest

  record_attempts-Recorded :
      (left : ℕ) (es : List Element) (scheme scheme' : Scheme) (t : Table) (s : State)
      → (record_attempts p c typ when left es scheme s).0 ≡ ok (t, scheme')
      → Recorded es scheme s t scheme'
  unfolding record_attempts
  record_attempts-Recorded zero es scheme scheme' t s e = cc
  record_attempts-Recorded (suc left) es scheme scheme' t s e =
      chunked-Recorded es scheme scheme' t (split_archive_read_list es) s
        (record_attempts p c typ when left) refl
        (λ fs fresh s' e'. record_attempts-Recorded left fs fresh scheme' t s' e') e

  -- A record that is returned was gathered in this run, chunk by chunk: the meter accepted the chunk's
  -- list and then the date, and the data that `ReadData` then gave parses by the chunk's elements.
  -- The chunks are those of the list that was asked for, and the scheme is the one given; or, if the
  -- meter said on the way that the scheme has changed, those of the elements for this archive among
  -- the active ones of the fresh scheme, which was read before and is returned.
  pub read_record-Recorded :
      (es : List Element) (scheme scheme' : Scheme) (t : Table) (s : State)
      → (read_record p c typ when es scheme s).0 ≡ ok (t, scheme')
      → Recorded es scheme s t scheme'
  unfolding read_record
  read_record-Recorded es scheme scheme' t s e = record_attempts-Recorded 2 es scheme scheme' t s e
