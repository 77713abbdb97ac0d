-- ===== src/Storage/Commit.antt =====
-- A transaction of the store happens whole or not at all.
use vkt7d.Common.{
  ℕ, ◌≡◌, refl, sym, ap, ap₂, ◌∙◌, List, [], ◌∷◌, ◌++◌, append-nil, append_assoc, ◌⊎◌, inl, inr,
}
use vkt7d.Errors.{Error, Result, ok, err, M, ◌>>◌}
use vkt7d.Model.{Element}
use vkt7d.Storage.{
  Statement, delete_active, Database, active_rows, in_transaction, exec_all, upsert_active,
}

abbrev pub all_applied : {X : Type 0} → (X → Statement → X) → X → List Statement → X
all_applied f x [] = x
all_applied f x (st ∷ sts) = all_applied f (f x st) sts

-- What PostgreSQL documents of a transaction: its statements count when it is committed, all of
-- them and in order, and before that nobody sees one. An error of the commit leaves it open whether
-- the server has committed, but not whether a part of the statements counts. `Content` is what others
-- see, and `applied` is what a statement does to it.
pub record Transactions (d : Database) (Content : Type 0) : Type 0 where
  pub stored : d.State → Content
  pub pending : d.State → List Statement
  pub applied : Content → Statement → Content
  pub begin_opens : (s : d.State) → (d.begin s).0 ≡ ok tt → pending (d.begin s).1 ≡ []
  pub begin_keeps : (s : d.State) → stored (d.begin s).1 ≡ stored s
  pub exec_adds :
      (st : Statement) (s : d.State)
      → (d.tx_exec st s).0 ≡ ok tt
      → pending (d.tx_exec st s).1 ≡ pending s ++ st ∷ []
  pub exec_keeps : (st : Statement) (s : d.State) → stored (d.tx_exec st s).1 ≡ stored s
  pub commit_stores :
      (s : d.State)
      → (d.commit s).0 ≡ ok tt
      → stored (d.commit s).1 ≡ all_applied applied (stored s) (pending s)
  pub commit_fails :
      (s : d.State) (e : Error)
      → (d.commit s).0 ≡ err e
      → (stored (d.commit s).1 ≡ stored s)
        ⊎ (stored (d.commit s).1 ≡ all_applied applied (stored s) (pending s))
  pub rollback_keeps : (s : d.State) → stored (d.rollback s) ≡ stored s

module _ (d : Database) {Content : Type 0} (t : Transactions d Content) where
  open t use {
    stored, pending, applied, begin_opens, begin_keeps, exec_adds, exec_keeps, commit_stores,
    commit_fails, rollback_keeps,
  }

  abbrev pub Run : Type 0
  Run = Result (Unit {0}) × d.State

  -- The body of a transaction: nobody sees it, and if it succeeds it has added these statements.
  pub record Body (sts : List Statement) (s : d.State) (r : Run) : Type 0 where
    pub unseen : stored r.1 ≡ stored s
    pub added : r.0 ≡ ok tt → pending r.1 ≡ pending s ++ sts

  pub Body-exec : (st : Statement) (s : d.State) → Body (st ∷ []) s (d.tx_exec st s)
  Body-exec st s = record { unseen = exec_keeps st s; added = exec_adds st s }

  pub Body-then :
      (xs ys : List Statement) (s : d.State) (r : Run) (k : M d.State (Unit {0}))
      → Body xs s r
      → Body ys r.1 (k r.1)
      → Body (xs ++ ys) s (((λ _. r) >> k) s)
  Body-then xs ys s (ok u, s') k f g = record {
    unseen = g.unseen ∙ f.unseen;
    added = λ e. g.added e ∙ ap (λ l. l ++ ys) (f.added refl) ∙ append_assoc (pending s) xs ys;
  }
  Body-then xs ys s (err e, s') k f g = record { unseen = f.unseen; added = λ x. cc }

  exec_all-Body : (sts : List Statement) (s : d.State) → Body sts s (exec_all d sts s)
  unfolding exec_all
  exec_all-Body [] s = record { unseen = refl; added = λ e. sym (append-nil (pending s)) }
  exec_all-Body (st ∷ sts) s =
      Body-then (st ∷ []) sts s (d.tx_exec st s) (exec_all d sts) (Body-exec st s)
        (exec_all-Body sts (d.tx_exec st s).1)

  -- All the statements took effect and there is no error, or there is one and nothing changed, or
  -- the commit itself reported one, and all of them took effect all the same.
  pub data WholeOrNothing (sts : List Statement) (s : d.State) (r : Run) : Type 0 where
    whole : r.0 ≡ ok tt → stored r.1 ≡ all_applied applied (stored s) sts → WholeOrNothing sts s r
    nothing : (e : Error) → r.0 ≡ err e → stored r.1 ≡ stored s → WholeOrNothing sts s r
    in_doubt :
        (e : Error) (s' : d.State)
        → (d.commit s').0 ≡ err e
        → r.0 ≡ err e
        → stored r.1 ≡ all_applied applied (stored s) sts
        → WholeOrNothing sts s r

  abbrev pub rolled_back : Run → Run
  rolled_back (r, s) = (r, d.rollback s)

  after_commit :
      (sts : List Statement) (s s' : d.State) (r : Run)
      → stored s' ≡ stored s
      → pending s' ≡ sts
      → d.commit s' ≡ r
      → WholeOrNothing sts s (rolled_back r)
  after_commit sts s s' (ok u, s'') same all is_r =
      let stores = commit_stores s' (ap (λ x. x.0) is_r) in
      whole refl (
        rollback_keeps s''
        ∙ sym (ap (λ x. stored x.1) is_r)
        ∙ stores
        ∙ ap₂ (λ x l. all_applied applied x l) same all)
  after_commit sts s s' (err e, s'') same all is_r =
      let failed = ap (λ x. x.0) is_r in
      let there = rollback_keeps s'' ∙ sym (ap (λ x. stored x.1) is_r) in
      elim (commit_fails s' e failed) [
        | inl lost ↦ nothing e refl (there ∙ lost ∙ same)
        | inr done_yet ↦
            in_doubt e s' failed refl
              (there ∙ done_yet ∙ ap₂ (λ x l. all_applied applied x l) same all)
      ]

  after_body :
      (sts : List Statement) (s s1 : d.State) (r : Run)
      → stored s1 ≡ stored s
      → pending s1 ≡ []
      → Body sts s1 r
      → WholeOrNothing sts s (rolled_back (((λ _. r) >> d.commit) s1))
  after_body sts s s1 (ok u, s2) same fresh b =
      after_commit sts s s2 (d.commit s2) (b.unseen ∙ same)
        (b.added refl ∙ ap (λ l. l ++ sts) fresh) refl
  after_body sts s s1 (err e, s2) same fresh b =
      nothing e refl (rollback_keeps s2 ∙ b.unseen ∙ same)

  pub after_begin :
      (sts : List Statement) (s : d.State) (m : M d.State (Unit {0})) (r : Run)
      → stored r.1 ≡ stored s
      → (r.0 ≡ ok tt → pending r.1 ≡ [])
      → ((s' : d.State) → Body sts s' (m s'))
      → WholeOrNothing sts s (((λ _. r) >> (λ s'. rolled_back ((m >> d.commit) s'))) s)
  after_begin sts s m (ok u, s1) same fresh b = after_body sts s s1 (m s1) same (fresh refl) (b s1)
  after_begin sts s m (err e, s1) same fresh b = nothing e refl same

  -- On a database with these laws, `UpsertActive` is whole or nothing: either it reports no error, and
  -- the list of the device was deleted and every element of the new one written, in order; or it
  -- reports one, and what others see in the database is as before; or its commit failed, and all of
  -- it has been written all the same.
  pub upsert_active-WholeOrNothing :
      (id : ℕ) (es : List Element) (s : d.State)
      → WholeOrNothing (delete_active id ∷ active_rows id es) s (upsert_active d id es s)
  unfolding upsert_active in_transaction
  upsert_active-WholeOrNothing id es s =
      after_begin (delete_active id ∷ active_rows id es) s
        (d.tx_exec (delete_active id) >> exec_all d (active_rows id es)) (d.begin s) (begin_keeps s)
        (begin_opens s)
        (λ s'.
          Body-then (delete_active id ∷ []) (active_rows id es) s' (d.tx_exec (delete_active id) s')
            (exec_all d (active_rows id es)) (Body-exec (delete_active id) s')
            (exec_all-Body (active_rows id es) (d.tx_exec (delete_active id) s').1))
