-- ===== src/Exec/Keeps.antt =====
-- What a call keeps of the database, on success and on error alike.
use bytefetch.Prelude.{
  List, [], ◌∷◌, Bool, true, false, ◌≡◌, refl, sym, subst, ◌∙◌, arith, if◌then◌else◌,
}
use bytefetch.Store.Db.{Db}
use bytefetch.Exec.{
  Error, Result, ok, err, World, Exec, pure, raise, run_on, statement, ignore, on_ok, ◌>>=◌, query,
  update, ping, commit, end_tx, begin_tx, in_tx,
}

-- Whatever the faults, a call that begins at a database with the property ends at one.
pub record Keeps {A : Type 0} (P : Db → Type 0) (m : Exec A) : Type 0 where
  pub run : (w : World) → P w.db → P (m w).1.db

module _ {A : Type 0} {P : Db → Type 0} where
  pub pure-Keeps : (a : A) → Keeps P (pure a)
  unfolding pure
  pure-Keeps a = record { run = λ w h. h }

  pub raise-Keeps : (e : Error) → Keeps P (raise {A = A} e)
  unfolding raise
  raise-Keeps e = record { run = λ w h. h }

  run_on-Keeps :
      (f : Db → Result A × Db) (db : Db) (faults : List Bool)
      → ((d : Db) → P d → P (f d).1)
      → P db
      → P (run_on f db faults).1.db
  unfolding run_on
  run_on-Keeps f db [] k h = k db h
  run_on-Keeps f db (true ∷ faults) k h = h
  run_on-Keeps f db (false ∷ faults) k h = k db h

  pub statement-Keeps :
      (f : Db → Result A × Db) → ((d : Db) → P d → P (f d).1) → Keeps P (statement f)
  unfolding statement
  statement-Keeps f k = record { run = λ w h. run_on-Keeps f w.db w.faults k h }

  pub query-Keeps : (f : Db → A) → Keeps P (query f)
  unfolding query
  query-Keeps f = statement-Keeps (λ db. (ok (f db), db)) (λ d h. h)

  pub ignore-Keeps : (m : Exec A) → Keeps P m → Keeps P (ignore m)
  unfolding ignore
  ignore-Keeps m k = record { run = k.run }

  pub if-Keeps :
      (b : Bool) (m n : Exec A)
      → (b ≡ true → Keeps P m)
      → (b ≡ false → Keeps P n)
      → Keeps P (if b then m else n)
  if-Keeps true m n k l = k refl
  if-Keeps false m n k l = l refl

pub update-Keeps : {P : Db → Type 0} (f : Db → Db) → ((d : Db) → P d → P (f d)) → Keeps P (update f)
unfolding update
update-Keeps f k = statement-Keeps (λ db. (ok tt, f db)) k

module _ {A B : Type 0} {P : Db → Type 0} where
  on_ok-db :
      (f : A → Exec B) (r : Result A) (w : World)
      → ((a : A) → Keeps P (f a))
      → P w.db
      → P (on_ok f r w).1.db
  on_ok-db f (ok a) w k h = (k a).run w h
  on_ok-db f (err e) w k h = h

  pub bind-Keeps :
      (m : Exec A) (f : A → Exec B) → Keeps P m → ((a : A) → Keeps P (f a)) → Keeps P (m >>= f)
  unfolding ◌>>=◌
  bind-Keeps m f km kf = record { run = λ w h. on_ok-db f (m w).0 (m w).1 kf (km.run w h) }

-- `BeginTx` and `Commit` leave the database alone.
ping-db : (w : World) → (ping w).1.db ≡ w.db
unfolding ping
ping-db w = (query-Keeps {P = λ d. d ≡ w.db} (λ db. tt)).run w refl

module _ {A : Type 0} (P : Db → Type 0) where
  commit-Keeps :
      (saved : Db) (a : A) (r : Result Unit × World)
      → P saved
      → P r.1.db
      → P (commit saved a r).1.db
  unfolding commit
  commit-Keeps saved a (ok _, w) hs h = h
  commit-Keeps saved a (err e, w) hs h = hs

  end_tx-Keeps : (saved : Db) (r : Result A × World) → P saved → P r.1.db → P (end_tx saved r).1.db
  unfolding end_tx
  end_tx-Keeps saved (err e, w) hs h = hs
  end_tx-Keeps saved (ok a, w) hs h = commit-Keeps saved a (ping w) hs (subst P (sym (ping-db w)) h)

  begin_tx-Keeps :
      (body : Exec A) (r : Result Unit × World) → Keeps P body → P r.1.db → P (begin_tx body r).1.db
  unfolding begin_tx
  begin_tx-Keeps body (ok _, w) k h = end_tx-Keeps w.db (body w) h (k.run w h)
  begin_tx-Keeps body (err e, w) k h = h

module _ {A : Type 0} {P : Db → Type 0} where
  -- A transaction keeps what its body keeps.
  pub in_tx-Keeps : (body : Exec A) → Keeps P body → Keeps P (in_tx body)
  unfolding in_tx
  in_tx-Keeps body k = record {
    run = λ w h. begin_tx-Keeps P body (ping w) k (subst P (sym (ping-db w)) h);
  }

-- One rule for each way to build a call.
pub ruleset keeps_rules =
    (pure-Keeps, raise-Keeps, query-Keeps, ignore-Keeps, if-Keeps, bind-Keeps, in_tx-Keeps)

module _ {A : Type 0} where
  end_tx-eq-err :
      (saved : Db) (r : Result A × World) {e : Error}
      → (end_tx saved r).0 ≡ err e
      → (end_tx saved r).1.db ≡ saved
  unfolding end_tx commit
  end_tx-eq-err saved (err e, w) h = refl
  end_tx-eq-err saved (ok a, w) h = ground arith

  begin_tx-eq-err :
      (body : Exec A) (r : Result Unit × World) {e : Error}
      → (begin_tx body r).0 ≡ err e
      → (begin_tx body r).1.db ≡ r.1.db
  unfolding begin_tx
  begin_tx-eq-err body (ok _, w) h = end_tx-eq-err w.db (body w) h
  begin_tx-eq-err body (err e, w) h = refl

  -- A transaction that ends in an error leaves the database as it was.
  pub in_tx-eq-err :
      (body : Exec A) (w : World) {e : Error}
      → (in_tx body w).0 ≡ err e
      → (in_tx body w).1.db ≡ w.db
  unfolding in_tx
  in_tx-eq-err body w h = begin_tx-eq-err body (ping w) h ∙ ping-db w
