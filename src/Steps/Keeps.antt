-- ===== src/Steps/Keeps.antt =====
-- What a chain of steps keeps true of the tables, whatever fails on the way.
use service_of_import.Prelude.{ℕ, Option, none, some}
use service_of_import.Errors.{Exn, Result, ok, raised}
use service_of_import.Database.{Db}
use service_of_import.Steps.{
  World, Outside, Step, and_then, ◌>>=◌, ◌>>◌, called, assert_lock_alive, lock_answer, committed,
  transaction, execute,
}

module _ {κ} (P : Db → Type κ) where
  abbrev pub Keeps {ℓ} : {A : Type ℓ} → Step A → Type κ
  Keeps m = (w : World) → P w.db → P (m w).1.db

  pub and_then-keeps {ℓ ℓ'} :
      {A : Type ℓ} {B : Type ℓ'} (r : Result A × World) (f : A → Step B)
      → P r.1.db
      → ((a : A) → Keeps (f a))
      → P (and_then r f).1.db
  and_then-keeps (ok a, w) f h k = k a w h
  and_then-keeps (raised e, w) f h k = h

  pub bind-Keeps {ℓ ℓ'} :
      {A : Type ℓ} {B : Type ℓ'} (m : Step A) (f : A → Step B)
      → Keeps m
      → ((a : A) → Keeps (f a))
      → Keeps (m >>= f)
  bind-Keeps m f h k w p = and_then-keeps (m w) f (h w p) k

  lock_answer-keeps : (o : Option Exn) (w : World) → P w.db → P (lock_answer o w).1.db
  lock_answer-keeps none w h = h
  lock_answer-keeps (some e) w h = h

  pub assert_lock_alive-Keeps : (out : Outside) → Keeps (assert_lock_alive out)
  unfolding assert_lock_alive
  assert_lock_alive-Keeps out w h = lock_answer-keeps (out.fault w.calls) (called w) h

  committed-keeps {ℓ} :
      {A : Type ℓ} (o : Option Exn) (r : A × Db) (w : World)
      → P w.db
      → P r.1
      → P (committed o r w).1.db
  committed-keeps none r w h k = k
  committed-keeps (some e) r w h k = h

  pub transaction-keeps {ℓ} :
      {A : Type ℓ} (out : Outside) (block : ℕ → Db → A × Db) (w : World)
      → P w.db
      → P (block (out.now w.calls) w.db).1
      → P (transaction out block w).1.db
  unfolding transaction
  transaction-keeps out block w h k =
      committed-keeps (out.fault w.calls) (block (out.now w.calls) w.db) (called w) h k

  pub transaction-Keeps {ℓ} :
      {A : Type ℓ} (out : Outside) (block : ℕ → Db → A × Db)
      → ((now : ℕ) (db : Db) → P db → P (block now db).1)
      → Keeps (transaction out block)
  unfolding transaction
  transaction-Keeps out block h w p =
      committed-keeps (out.fault w.calls) (block (out.now w.calls) w.db) (called w) p
        (h (out.now w.calls) w.db p)

  -- The check of the lock, then a statement.
  pub guarded-Keeps {ℓ} :
      {B : Type ℓ} (out : Outside) (statement : ℕ → Db → Db) (k : Step B)
      → ((now : ℕ) (db : Db) → P db → P (statement now db))
      → Keeps k
      → Keeps (assert_lock_alive out >> (execute out statement >> k))
  guarded-Keeps out statement k h keeps =
      bind-Keeps (assert_lock_alive out) (λ (u : Unit {0}). execute out statement >> k)
        (assert_lock_alive-Keeps out)
        (λ u.
          bind-Keeps (execute out statement) (λ (u : Unit {0}). k) (transaction-Keeps out _ h)
            (λ u. keeps))
