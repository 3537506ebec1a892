-- ===== src/Paging.antt =====
-- Pages of an ordered selection: ORDER BY, LIMIT and OFFSET as app/services/reports.py and
-- app/services/read_api.py use them, and a client that reads one page after another.
pub mod Order
pub mod Sorting
pub mod Walk
pub mod Returns
use service_of_import.Prelude.{
  ℕ, zero, suc, ◌+◌, ◌*◌, Bool, true, false, List, [], ◌∷◌, ◌++◌, take, drop, filter, count,
  if◌then◌else◌,
}
use service_of_import.Effects.{Eff, pure, ◌>>=◌}
use service_of_import.Steps.{World}

pub record Page {ℓ} (A : Type ℓ) : Type ℓ where
  pub items : List A
  pub total : ℕ
  pub limit : ℕ
  pub offset : ℕ

-- `ORDER BY`, by a comparison, in the call with this number: the order of tied rows is up to the
-- database, and may differ from call to call.
abbrev pub Sort {ℓ} : Type ℓ → Type ℓ
Sort A = (A → A → Bool) → ℕ → List A → List A

module _ {ℓ} {A : Type ℓ} where
  -- `before x y`: the order lets `x` stand in front of `y`.
  unfoldable pub insert_by : (A → A → Bool) → A → List A → List A
  insert_by before x [] = x ∷ []
  insert_by before x (y ∷ ys) =
      let rest = insert_by before x ys in if before x y then x ∷ (y ∷ ys) else y ∷ rest

  unfoldable pub order_by : (A → A → Bool) → List A → List A
  unfolding insert_by
  order_by before [] = []
  order_by before (x ∷ xs) = insert_by before x (order_by before xs)

  -- A sort that keeps tied rows in the order of the table.
  abbrev pub stable : Sort A
  stable before call rows = order_by before rows

  -- `LIMIT` and `OFFSET`
  abbrev pub paged : ℕ → ℕ → List A → List A
  paged limit offset rows = take limit (drop offset rows)

  -- The page of the rows that pass the filters, with their number.
  abbrev pub selected : (A → Bool) → (List A → List A) → ℕ → ℕ → List A → Page A
  selected keep sort limit offset rows = record {
    items = paged limit offset (sort (filter keep rows));
    total = count keep rows;
    limit = limit;
    offset = offset;
  }

  -- The first `n` pages, each of which a request lists.
  unfoldable pub walk : (ℕ → Eff World (Page A)) → ℕ → ℕ → Eff World (List (Page A))
  walk list limit zero = pure []
  walk list limit (suc n) =
      walk list limit n >>= λ pages. list (n * limit) >>= λ page. pure (pages ++ page ∷ [])

  abbrev pub all_items : List (Page A) → List A
  all_items [] = []
  all_items (page ∷ pages) = page.items ++ all_items pages
