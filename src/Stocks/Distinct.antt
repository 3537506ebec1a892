-- ===== src/Stocks/Distinct.antt =====
-- The upsert of balances changes no row twice when no two staging rows are of one warehouse and
-- product.
use service_of_import.Prelude.{
  ℕ, ◌≡◌, refl, ◌∙◌, Bool, true, false, ◌&&◌, not, Option, none, some, List, [], ◌∷◌, All, any,
  is_some, arith, if◌then◌else◌, Option-cases, inl, inr,
}
use service_of_import.Errors.{ok}
use service_of_import.Database.{Catalogue, StockBalance, ReportStagingRow}
use service_of_import.Stocks.{
  Pair, explicit_pairs, id_of, join_ids, put_balance, put_balances, balance_of, same_pair, differs,
}
use service_of_import.Stocks.Catalogues.{IsCatalogue}
use service_of_import.Stocks.Balances.{pair_quantity}
use service_of_import.Stocks.Resolve.{row_quantity, pair_quantity-explicit_pairs}

-- No two rows are of the same warehouse and product.
abbrev pub IsDistinct : List ReportStagingRow → Type 0
IsDistinct [] = Unit
IsDistinct (s ∷ ss) = (row_quantity s.warehouse_code s.sku ss ≡ none) × IsDistinct ss

abbrev pub IsDistinctPairs : List Pair → Type 0
IsDistinctPairs [] = Unit
IsDistinctPairs (x ∷ xs) =
    (pair_quantity x.warehouse_id x.product_id xs ≡ none) × IsDistinctPairs xs

abbrev pub Untouched : List Pair → List Pair → Type 0
Untouched touched xs = All (λ x. any (same_pair x) touched ≡ false) xs

Untouched-cons :
    (touched xs : List Pair) (x : Pair)
    → Untouched touched xs
    → pair_quantity x.warehouse_id x.product_id xs ≡ none
    → Untouched (x ∷ touched) xs
unfolding pair_quantity any
Untouched-cons touched [] x h e = tt
Untouched-cons touched (y ∷ ys) x h e =
    elim (Option-cases (pair_quantity x.warehouse_id x.product_id ys)) [
      | inl f ↦ (ground (arith, h.0), Untouched-cons touched ys x h.1 f)
      | inr (q, f) ↦ absurd (ground arith)
    ]

Untouched-if :
    (touched xs : List Pair) (x : Pair) (b : Bool)
    → Untouched touched xs
    → pair_quantity x.warehouse_id x.product_id xs ≡ none
    → Untouched (if b then touched else x ∷ touched) xs
Untouched-if touched xs x true h e = h
Untouched-if touched xs x false h e = Untouched-cons touched xs x h e

pub put_balances_distinct :
    (now : ℕ) (touched xs : List Pair) (bs : List StockBalance)
    → IsDistinctPairs xs
    → Untouched touched xs
    → (bs' : List StockBalance) × (put_balances now touched xs bs ≡ ok bs')
unfolding put_balances
put_balances_distinct now touched [] bs h u = (bs, refl)
put_balances_distinct now touched (x ∷ xs) bs h u =
    let old = balance_of x.warehouse_id x.product_id bs in
    let unchanged = is_some old && not (differs old x.quantity) in
    let (bs', e) =
      put_balances_distinct now (if unchanged then touched else x ∷ touched) xs
        (put_balance now x bs) h.1 (Untouched-if touched xs x unchanged u.1 h.0) in
    (bs', rw u.0 e)

pub Untouched-nil : (xs : List Pair) → Untouched [] xs
unfolding any
Untouched-nil [] = tt
Untouched-nil (x ∷ xs) = (refl, Untouched-nil xs)

module _ (ws ps : Catalogue) where
  IsDistinctPairs-join_ids :
      (s : ReportStagingRow) (ss : List ReportStagingRow) (a b : Option ℕ)
      → IsCatalogue ws
      → IsCatalogue ps
      → id_of s.warehouse_code ws.rows ≡ a
      → id_of s.sku ps.rows ≡ b
      → row_quantity s.warehouse_code s.sku ss ≡ none
      → IsDistinctPairs (explicit_pairs ws.rows ps.rows ss)
      → IsDistinctPairs (join_ids a b s.quantity (explicit_pairs ws.rows ps.rows ss))
  IsDistinctPairs-join_ids s ss none b hw hp ea eb e h = h
  IsDistinctPairs-join_ids s ss (some w) none hw hp ea eb e h = h
  IsDistinctPairs-join_ids s ss (some w) (some p) hw hp ea eb e h =
      (pair_quantity-explicit_pairs ws ps s.warehouse_code s.sku w p ss hw hp ea eb ∙ e, h)

  pub explicit_pairs-IsDistinctPairs :
      (ss : List ReportStagingRow)
      → IsCatalogue ws
      → IsCatalogue ps
      → IsDistinct ss
      → IsDistinctPairs (explicit_pairs ws.rows ps.rows ss)
  unfolding explicit_pairs
  explicit_pairs-IsDistinctPairs [] hw hp d = tt
  explicit_pairs-IsDistinctPairs (s ∷ ss) hw hp d =
      IsDistinctPairs-join_ids s ss (id_of s.warehouse_code ws.rows) (id_of s.sku ps.rows) hw hp
        refl refl d.0 (explicit_pairs-IsDistinctPairs ss hw hp d.1)
