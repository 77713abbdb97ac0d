-- ===== src/Storage/Properties.antt =====
-- `SaveProperties` is one transaction, over names that the switch of `propertyAddress` knows.
use Prim.Native.String.{String}
use vkt7d.Common.{ℕ, ◌≡◌, refl, sym, ◌∙◌, Option, none, some, List, [], ◌∷◌, append-nil}
use vkt7d.Errors.{Error, refused, ok, err, M, ◌>>◌}
use vkt7d.Model.{Value}
use vkt7d.Protocol.Elements.{Table}
use vkt7d.Storage.{
  Statement, upsert_property, Database, in_transaction, property_rows, save_property,
  save_properties,
}
use vkt7d.Storage.Names.{property_address}
use vkt7d.Storage.Encode.{numeric_of}
use vkt7d.Storage.Commit.{
  Transactions, Run, Body, Body-then, Body-exec, rolled_back, WholeOrNothing, after_begin,
}

-- The statements of `SaveProperties`, if every name is a property.
abbrev pub with_row :
    ℕ → String → Value → Option ℕ → Option (List Statement) → Option (List Statement)
with_row id name x (some address) (some sts) =
    some (upsert_property id address name x.value (numeric_of x.value) x.raw ∷ sts)
with_row id name x _ _ = none

abbrev pub property_plan : ℕ → Table → Option (List Statement)
property_plan id [] = some []
property_plan id ((name, x) ∷ v) = with_row id name x (property_address name) (property_plan id v)

module _ (d : Database) {Content : Type 0} (t : Transactions d Content) where
  open t use {
    stored, pending, applied, begin_opens, begin_keeps, exec_adds, exec_keeps, commit_stores,
    rollback_keeps,
  }

  -- The body for a plan; with no plan it fails unseen.
  abbrev Planned : Option (List Statement) → d.State → (Run d t) → Type 0
  Planned (some sts) s r = Body d t sts s r
  Planned none s r = (stored r.1 ≡ stored s) × ((e : Error) × (r.0 ≡ err e))

  fails_later :
      (r : Run d t) (k : M d.State (Unit {0})) (s : d.State)
      → stored r.1 ≡ stored s
      → (stored (k r.1).1 ≡ stored r.1) × ((e : Error) × ((k r.1).0 ≡ err e))
      → Planned none s (((λ _. r) >> k) s)
  fails_later (ok u, s') k s same (same', (e, failed)) = (same' ∙ same, (e, failed))
  fails_later (err e, s') k s same later = (same, (e, refl))

  property-Planned :
      (id : ℕ) (name : String) (x : Value) (a : Option ℕ) (plan : Option (List Statement))
      (s : d.State) (k : M d.State (Unit {0}))
      → ((s' : d.State) → Planned plan s' (k s'))
      → Planned (with_row id name x a plan) s ((save_property d id name x a >> k) s)
  property-Planned id name x none plan s k ih = (refl, (refused, refl))
  property-Planned id name x (some a) none s k ih =
      let st = upsert_property id a name x.value (numeric_of x.value) x.raw in
      fails_later (d.tx_exec st s) k s (exec_keeps st s) (ih (d.tx_exec st s).1)
  property-Planned id name x (some a) (some sts) s k ih =
      let st = upsert_property id a name x.value (numeric_of x.value) x.raw in
      Body-then d t (st ∷ []) sts s (d.tx_exec st s) k (Body-exec d t st s) (ih (d.tx_exec st s).1)

  property_rows-Planned :
      (id : ℕ) (v : Table) (s : d.State) → Planned (property_plan id v) s (property_rows d id v s)
  unfolding property_rows
  property_rows-Planned id [] s = record {
    unseen = refl;
    added = λ e. sym (append-nil (pending s));
  }
  property_rows-Planned id ((name, x) ∷ v) s =
      property-Planned id name x (property_address name) (property_plan id v) s
        (property_rows d id v) (λ s'. property_rows-Planned id v s')

  -- The plan as a whole or not at all; with no plan an error, and nothing changed.
  abbrev pub Saved : Option (List Statement) → d.State → (Run d t) → Type 0
  Saved (some sts) s r = WholeOrNothing d t sts s r
  Saved none s r = (e : Error) × (r.0 ≡ err e) × (stored r.1 ≡ stored s)

  transaction-Saved :
      (plan : Option (List Statement)) (s : d.State) (m : M d.State (Unit {0}))
      → ((s' : d.State) → Planned plan s' (m s'))
      → Saved plan s (in_transaction d m s)
  unfolding in_transaction
  transaction-Saved (some sts) s m h =
      after_begin d t sts s m (d.begin s) (begin_keeps s) (begin_opens s) h
  transaction-Saved none s m h = opened (d.begin s) (begin_keeps s)
    where
      refused_body :
          (r : Run d t) (s1 : d.State)
          → stored s1 ≡ stored s
          → Planned none s1 r
          → Saved none s (rolled_back d t (((λ _. r) >> d.commit) s1))
      refused_body (ok u, s2) s1 same (same', (e, failed)) = cc
      refused_body (err e, s2) s1 same (same', (e', failed)) =
          (e, refl, rollback_keeps s2 ∙ same' ∙ same)

      opened :
          (r : Run d t)
          → stored r.1 ≡ stored s
          → Saved none s (((λ _. r) >> (λ s'. rolled_back d t ((m >> d.commit) s'))) s)
      opened (ok u, s1) same = refused_body (m s1) s1 same (h s1)
      opened (err e, s1) same = (e, refl, same)

  -- `SaveProperties` is whole or nothing: if every name is a property, either all rows are written
  -- under their addresses and there is no error, or there is one and what others see is as before, or
  -- the commit failed and all rows are written all the same.
  -- A name that is no property is an error, and nothing of the map is stored.
  pub save_properties-Saved :
      (id : ℕ) (v : Table) (s : d.State) → Saved (property_plan id v) s (save_properties d id v s)
  unfolding save_properties
  save_properties-Saved id v s =
      transaction-Saved (property_plan id v) s (property_rows d id v)
        (λ s'. property_rows-Planned id v s')
