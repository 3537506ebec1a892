-- ===== src/Stocks/Balances.antt =====
-- The statements on `stock_balances`: the quantity at a primary key before and after.
use service_of_import.Prelude.{
  ℕ, ◌≡◌, refl, Bool, true, false, ◌&&◌, not, Option, none, some, List, [], ◌∷◌, map, any, is_some,
  arith, if◌then◌else◌, Bool-cases, inl, inr,
}
use service_of_import.Errors.{ok}
use service_of_import.Database.{CatalogueRow, StockBalance, ReportStagingRow}
use service_of_import.Stocks.{
  Pair, is_pair, balance_of, put_balance, put_balances, zeroed, same_pair, differs, is_missing,
  is_affected,
}

abbrev pub or_else {ℓ} : {A : Type ℓ} → Option A → Option A → Option A
or_else none b = b
or_else (some a) b = some a

-- The quantity of the last pair with these ids.
unfoldable pub pair_quantity : ℕ → ℕ → List Pair → Option ℕ
pair_quantity w p [] = none
pair_quantity w p (x ∷ xs) =
    or_else (pair_quantity w p xs) (if is_pair w p x then some x.quantity else none)

balance_of-put_balance :
    (now w p : ℕ) (x : Pair) (bs : List StockBalance)
    → balance_of w p (put_balance now x bs)
      ≡ (if is_pair w p x then some x.quantity else balance_of w p bs)
unfolding balance_of put_balance
balance_of-put_balance now w p x [] = ground arith
balance_of-put_balance now w p x (b ∷ bs) = ground (arith, balance_of-put_balance now w p x bs)

pub balance_of-put_balances :
    (now w p : ℕ) (touched xs : List Pair) (bs bs' : List StockBalance)
    → put_balances now touched xs bs ≡ ok bs'
    → balance_of w p bs' ≡ or_else (pair_quantity w p xs) (balance_of w p bs)
unfolding put_balances pair_quantity
balance_of-put_balances now w p touched [] bs bs' h = ground arith
balance_of-put_balances now w p touched (x ∷ xs) bs bs' h =
    let old = balance_of x.warehouse_id x.product_id bs in
    let touched' = if is_some old && not (differs old x.quantity) then touched else x ∷ touched in
    elim (Bool-cases (any (same_pair x) touched)) [
      | inl e ↦ absurd (ground arith)
      | inr e ↦ ground (
        arith,
        balance_of-put_balance now w p x bs,
        balance_of-put_balances now w p touched' xs (put_balance now x bs) bs' (ground arith),
      )
    ]

pub any-is_pair : (w p : ℕ) (xs : List Pair) → any (is_pair w p) xs ≡ is_some (pair_quantity w p xs)
unfolding any pair_quantity
any-is_pair w p [] = refl
any-is_pair w p (x ∷ xs) = ground (arith, any-is_pair w p xs)

abbrev pub zeroed_if : Bool → Option ℕ → Option ℕ
zeroed_if b none = none
zeroed_if true (some q) = some 0
zeroed_if false (some q) = some q

pub balance_of-zero_missing :
    (now w p : ℕ) (ws : List CatalogueRow) (ss : List ReportStagingRow) (pairs : List Pair)
    (bs : List StockBalance)
    → balance_of w p (map (λ b. if is_missing ws ss pairs b then zeroed now b else b) bs)
      ≡ zeroed_if
          (is_affected ws ss w && not (is_some (pair_quantity w p pairs)))
          (balance_of w p bs)
unfolding balance_of is_missing
balance_of-zero_missing now w p ws ss pairs [] = refl
balance_of-zero_missing now w p ws ss pairs (b ∷ bs) = grind (
  arith,
  balance_of-zero_missing now w p ws ss pairs bs,
  any-is_pair b.warehouse_id b.product_id pairs,
)
