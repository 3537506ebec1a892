-- ===== src/Errors.antt =====
-- app/errors.py and the exceptions of the services: one constructor for each class that the code
-- raises or catches, and a result type for code that may raise. Responses has what a client is told.
pub mod Responses
use Prim.Native.Nat.{ℕ}
use mathlib.Core.List.{List}

-- The code of an error response, as code points.
abbrev pub Code : Type 0
Code = List ℕ

pub data Exn : Type 0 where
  -- app/errors.py
  file_too_large storage_unavailable dependency_unavailable object_not_found : Exn
  report_not_found warehouse_not_found product_not_found : Exn
  report_persistence original_object_missing : Exn
  -- app/services
  lock_connection_lost report_not_ready validation_incomplete : Exn
  -- Python, the database driver, and whatever a hook raises
  value_error index_error database_error hook_error : Exn
  -- botocore: any error of the client, and an error response of the service with its code
  boto_core_error : Exn
  client_error : Code → Exn

pub data Result {ℓ} (A : Type ℓ) : Type ℓ where
  ok : A → Result A
  raised : Exn → Result A

infixl 10 ◌>>=◌ ◌>>◌
abbrev pub ◌>>=◌ {ℓ κ} : {A : Type ℓ} {B : Type κ} → Result A → (A → Result B) → Result B
ok a >>= f = f a
raised e >>= f = raised e

abbrev pub ◌>>◌ {ℓ} : {B : Type ℓ} → Result (Unit {0}) → Result B → Result B
m >> k = m >>= λ _. k
