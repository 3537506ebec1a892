-- ===== src/Steps.antt =====
-- Code that meets the database and the lock connection. Committed transactions outlive an exception,
-- so a step returns the world also when it raises.
pub mod Keeps
use service_of_import.Prelude.{ℕ, ◌+◌, Option, none, some, ◌≡◌}
use service_of_import.Errors.{Exn, Result, ok, raised, lock_connection_lost}
use service_of_import.Database.{Db}
use service_of_import.Effects.{Eff}
unfoldable pub use service_of_import.Effects.{pure, raise, and_then, ◌>>=◌, ◌>>◌}

-- The tables, and how many calls to the outside were made.
pub record World : Type 0 where
  pub db : Db
  pub calls : ℕ

-- What each call to the outside meets: an exception or none, and the instant.
pub record Outside : Type 0 where
  pub fault : ℕ → Option Exn
  pub now : ℕ → ℕ

-- No call to the outside fails.
abbrev pub IsQuiet : Outside → Type 0
IsQuiet out = (n : ℕ) → out.fault n ≡ none

abbrev pub Step {ℓ} : Type ℓ → Type ℓ
Step A = Eff World A

abbrev pub called : World → World
called w = record w { calls = w.calls + 1 }

abbrev pub lock_answer : Option Exn → World → Result (Unit {0}) × World
lock_answer none w = (ok tt, w)
lock_answer (some e) w = (raised lock_connection_lost, w)

-- `ensure_lock_connection_alive`
unfoldable pub assert_lock_alive : Outside → Step (Unit {0})
assert_lock_alive out w = lock_answer (out.fault w.calls) (called w)

abbrev pub committed {ℓ} : {A : Type ℓ} → Option Exn → A × Db → World → Result A × World
committed none r w = (ok r.0, record w { db = r.1 })
committed (some e) r w = (raised e, w)

-- `with session_factory() as session, session.begin()`: all of the block, or nothing and an
-- exception.
unfoldable pub transaction {ℓ} : {A : Type ℓ} → Outside → (ℕ → Db → A × Db) → Step A
transaction out block w = committed (out.fault w.calls) (block (out.now w.calls) w.db) (called w)

abbrev pub execute : Outside → (ℕ → Db → Db) → Step (Unit {0})
execute out statement = transaction out (λ now db. (tt, statement now db))
