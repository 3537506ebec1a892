-- ===== src/Paging/Returns.antt =====
-- A client that reads page after page comes to the end when no call to the outside fails.
use service_of_import.Prelude.{ℕ, zero, suc, ◌*◌, ◌≡◌, refl, ap, ◌∙◌, List, [], ◌∷◌, ◌++◌}
use service_of_import.Errors.{Result, ok}
use service_of_import.Database.{Db}
use service_of_import.Effects.{Eff, pure, ◌>>=◌, and_then}
use service_of_import.Steps.{World, Outside, IsQuiet, committed, called, transaction}
use service_of_import.Paging.{Page, walk}
use service_of_import.Paging.Walk.{IsWalk}

abbrev pub Returns : {A : Type 0} → Result A × World → Type 0
Returns {A} r = (a : A) × (w : World) × (r ≡ (ok a, w))

-- All pages are read, and they are the rows that match, as IsWalk has it.
abbrev pub Walks :
    {A : Type 0}
    → (A → A → Type 0)
    → (A → Type 0)
    → List A
    → ℕ
    → Result (List (Page A)) × World
    → Type 0
Walks {A} Before Matches rows limit r =
    (pages : List (Page A)) × (w : World) × (r ≡ (ok pages, w))
    × IsWalk Before Matches rows limit pages

module _ {A : Type 0} where
  pub transaction-Returns :
      (out : Outside) (quiet : IsQuiet out) (f : Db → A) (w : World)
      → Returns (transaction out (λ now db. (f db, db)) w)
  unfolding transaction
  transaction-Returns out quiet f w = (
    f w.db,
    record (called w) { db = w.db },
    ap (λ fault. committed fault (f w.db, w.db) (called w)) (quiet w.calls),
  )

  walk-Returns :
      (list : ℕ → Eff World (Page A)) (limit : ℕ)
      → ((offset : ℕ) (w : World) → Returns (list offset w))
      → (n : ℕ) (w : World) → Returns (walk list limit n w)
  unfolding walk
  walk-Returns list limit returns zero w = ([], w, refl)
  walk-Returns list limit returns (suc n) w =
      let (pages, w1, read) = walk-Returns list limit returns n w in
      let (page, w2, listed) = returns (n * limit) w1 in
      (
        pages ++ page ∷ [],
        w2,
        ap (λ r. and_then r (λ pages. list (n * limit) >>= λ page. pure (pages ++ page ∷ []))) read
            ∙ ap (λ r. and_then r (λ page. pure (pages ++ page ∷ []))) listed,
      )

  pub walk-Walks :
      {Before : A → A → Type 0} {Matches : A → Type 0} {rows : List A}
      (list : ℕ → Eff World (Page A)) (limit n : ℕ) (w : World)
      → ((offset : ℕ) (w : World) → Returns (list offset w))
      → ((w' : World) (pages : List (Page A))
          → walk list limit n w ≡ (ok pages, w')
          → IsWalk Before Matches rows limit pages)
      → Walks Before Matches rows limit (walk list limit n w)
  walk-Walks list limit n w returns is_walk =
      let (pages, w', read) = walk-Returns list limit returns n w in
      (pages, w', read, is_walk w' pages read)
