-- ===== src/Exec/Steps.antt =====
-- How a call goes on after another.
use bytefetch.Prelude.{◌≡◌, refl, ap, []}
use bytefetch.Store.Db.{Db}
use bytefetch.Exec.{
  Error, Result, ok, err, World, Exec, on_ok, ◌>>=◌, ping, in_tx, begin_tx, end_tx, commit,
}

module _ {A B : Type 0} (m : Exec A) (f : A → Exec B) (w : World) where
  pub bind-ok : {a : A} {w' : World} → m w ≡ (ok a, w') → (m >>= f) w ≡ f a w'
  unfolding ◌>>=◌
  bind-ok e = ap (λ (r : Result A × World). on_ok f r.0 r.1) e

  pub bind-err : {e : Error} {w' : World} → m w ≡ (err e, w') → (m >>= f) w ≡ (err e, w')
  unfolding ◌>>=◌
  bind-err e = ap (λ (r : Result A × World). on_ok f r.0 r.1) e

module _ {A : Type 0} (body : Exec A) (db : Db) where
  pub in_tx-ok :
      {a : A} {db' : Db}
      → body (record { db = db; faults = [] }) ≡ (ok a, record { db = db'; faults = [] })
      → in_tx body (record { db = db; faults = [] }) ≡ (ok a, record { db = db'; faults = [] })
  unfolding in_tx begin_tx end_tx commit ping
  in_tx-ok h = ap (end_tx db) h

  pub in_tx-err :
      {e : Error} {db' : Db}
      → body (record { db = db; faults = [] }) ≡ (err e, record { db = db'; faults = [] })
      → in_tx body (record { db = db; faults = [] }) ≡ (err e, record { db = db; faults = [] })
  unfolding in_tx begin_tx end_tx ping
  in_tx-err h = ap (end_tx db) h

-- What a call that went on after another has done.
module _ {A B : Type 0} (m : Exec A) (f : A → Exec B) (w : World) (b : B) (w' : World) where
  pub bind-inv :
      (m >>= f) w ≡ (ok b, w') → (a : A) × (v : World) × (m w ≡ (ok a, v)) × (f a v ≡ (ok b, w'))
  unfolding ◌>>=◌
  bind-inv h = from_pair (m w).0 (m w).1 refl h
    where
      from_pair :
          (r : Result A) (v : World)
          → m w ≡ (r, v)
          → on_ok f r v ≡ (ok b, w')
          → (a : A) × (v : World) × (m w ≡ (ok a, v)) × (f a v ≡ (ok b, w'))
      from_pair (ok a) v e k = (a, v, e, k)
      from_pair (err e) v e' k = cc k
