-- ===== src/Paging/Walk.antt =====
-- A client that reads page after page sees each row of the selection once, in order.
use service_of_import.Prelude.{
  ℕ, zero, suc, ◌+◌, ◌*◌, ◌≤◌, ◌≡◌, refl, sym, ap, ap₂, ◌∙◌, subst, Bool, true, List, [], ◌∷◌, ◌++◌,
  take, drop, filter, count, All, All-append, length, length-take, take_all, take_zero,
  append_assoc, append-nil, arith, Bool-cases, inl, inr, Option-cases,
}
use mathlib.Core.List.{Memᴰ}
use mathlib.Core.List.Permᴰ
use service_of_import.Errors.{Result, ok}
use service_of_import.Database.{Db}
use service_of_import.Effects.{Eff, pure, ◌>>=◌, and_then-ok}
use service_of_import.Steps.{World, Outside, transaction}
use service_of_import.Paging.{Page, Sort, selected, walk, all_items}
use service_of_import.Paging.Order.{
  IsOrder, IsOrdered, IsKeyed, IsSort, mem-perm, length-perm, mem-filter, filter-mem,
  filter-IsOrdered, IsOrdered-perm, IsOrdered-and, IsOrdered-unique,
}

-- A transaction that only reads.
pub transaction_reads :
    {A : Type 0} (out : Outside) (f : Db → A) (a : A) (w w' : World)
    → transaction out (λ now db. (f db, db)) w ≡ (ok a, w')
    → (a ≡ f w.db) × (w'.db ≡ w.db)
unfolding transaction
transaction_reads out f a w w' h = elim (Option-cases (out.fault w.calls)) [
  | inr (e, broken) ↦ absurd (ground arith)
  | inl quiet ↦ (ground arith, ground arith)
]

module _ {A : Type 0} where
  count-eq_filter : (p : A → Bool) (xs : List A) → count p xs ≡ length (filter p xs)
  unfolding count filter
  count-eq_filter p [] = refl
  count-eq_filter p (x ∷ xs) = elim (Bool-cases (p x)) [
    | inl e ↦ rw e (omega (arith, count-eq_filter p xs))
    | inr e ↦ rw e (omega (arith, count-eq_filter p xs))
  ]

  take-nil : (n : ℕ) → take {A = A} n [] ≡ []
  unfolding take
  take-nil zero = refl
  take-nil (suc n) = refl

  take-drop-add : (m n : ℕ) (xs : List A) → take m xs ++ take n (drop m xs) ≡ take (m + n) xs
  unfolding take drop
  take-drop-add zero n [] = ap (λ k. take k []) (omega arith)
  take-drop-add zero n (x ∷ xs) = ap (λ k. take k (x ∷ xs)) (omega arith)
  take-drop-add (suc m) n [] = take-nil n ∙ sym (take-nil (suc m + n))
  take-drop-add (suc m) n (x ∷ xs) =
      let e : suc (m + n) ≡ suc m + n = omega arith in
      ap (λ l. x ∷ l) (take-drop-add m n xs) ∙ ap (λ k. take k (x ∷ xs)) e

  all_items_snoc :
      (pages : List (Page A)) (page : Page A)
      → all_items (pages ++ page ∷ []) ≡ all_items pages ++ page.items
  all_items_snoc [] page = append-nil page.items
  all_items_snoc (p ∷ pages) page =
      ap (λ l. p.items ++ l) (all_items_snoc pages page)
      ∙ sym (append_assoc p.items (all_items pages) page.items)

  length-filter_le : (p : A → Bool) (xs : List A) → length (filter p xs) ≤ length xs
  unfolding filter
  length-filter_le p [] = omega arith
  length-filter_le p (x ∷ xs) = elim (Bool-cases (p x)) [
    | inl e ↦ rw e (omega (arith, length-filter_le p xs))
    | inr e ↦ rw e (omega (arith, length-filter_le p xs))
  ]

  -- The pages tell the number of the rows that match and hold at most `limit` rows each; together they
  -- hold these rows and no others, each before all that follow it, so that none is there twice.
  pub record IsWalk (Before : A → A → Type 0) (Matches : A → Type 0) (rows : List A) (limit : ℕ)
      (pages : List (Page A)) : Type 0 where
    pub totals :
        All (λ (p : Page A). (p.total ≡ length (all_items pages)) × (length p.items ≤ limit)) pages
    pub sound : (r : A) → Memᴰ r (all_items pages) → Memᴰ r rows × Matches r
    pub complete : (r : A) → Memᴰ r rows → Matches r → Memᴰ r (all_items pages)
    pub in_order : IsOrdered Before (all_items pages)

  -- What a filter and a comparison stand for, in rows whose keys are distinct.
  pub record IsQuery {K : Type 0} (key : A → K) (keep : A → Bool) (before : A → A → Bool)
      (Before : A → A → Type 0) (Matches : A → Type 0) : Type 0 where
    pub order : IsOrder before
    pub strict : (x y : A) → ¬ (key x ≡ key y) → before x y ≡ true → Before x y
    pub asymm : (x y : A) → Before x y → Before y x → ⊥
    pub matches : (r : A) → keep r ≡ true → Matches r
    pub kept : (r : A) → Matches r → keep r ≡ true

  module _ (keep : A → Bool) (sort : ℕ → List A → List A) (rows : Db → List A) (limit : ℕ)
      (list : ℕ → Eff World (Page A))
      (reads : (offset : ℕ) (w w' : World) (page : Page A)
        → list offset w ≡ (ok page, w')
        → (page ≡ selected keep (sort w.calls) limit offset (rows w.db)) × (w'.db ≡ w.db)) where
    walk-items :
        (n : ℕ) (w w' : World) (pages : List (Page A))
        → ((call call' : ℕ)
            → sort call (filter keep (rows w.db)) ≡ sort call' (filter keep (rows w.db)))
        → walk list limit n w ≡ (ok pages, w')
        → All
            (λ (p : Page A).
              (p.total ≡ length (filter keep (rows w.db))) × (length p.items ≤ limit))
            pages
          × (all_items pages ≡ take (n * limit) (sort 0 (filter keep (rows w.db))))
          × (w'.db ≡ w.db)
    unfolding walk
    walk-items zero w w' pages alike h =
        let none_yet : pages ≡ [] = ground arith in
        (
          subst
              (λ ps.
                All
                  (λ (p : Page A).
                    (p.total ≡ length (filter keep (rows w.db))) × (length p.items ≤ limit))
                  ps)
              (sym none_yet) tt,
          ap all_items none_yet
              ∙ sym (take_zero (sort 0 (filter keep (rows w.db))))
              ∙ ap (λ k. take k (sort 0 (filter keep (rows w.db)))) (omega arith),
          ground arith,
        )
    walk-items (suc n) w w' pages alike h =
        let sorted = sort 0 (filter keep (rows w.db)) in
        let (front, w1, run, h1) =
          and_then-ok (walk list limit n w)
            (λ pages. list (n * limit) >>= λ page. pure (pages ++ page ∷ [])) h in
        let (page, w2, read, h2) =
          and_then-ok (list (n * limit) w1) (λ page. pure (front ++ page ∷ [])) h1 in
        let (totals, items, same) = walk-items n w w1 front alike run in
        let (shape, same2) = reads (n * limit) w1 w2 page read in
        let grown : pages ≡ front ++ page ∷ [] = ground arith in
        let shape' : page ≡ selected keep (sort 0) limit (n * limit) (rows w.db) =
          shape
          ∙ ap (λ (db : Db). selected keep (sort w1.calls) limit (n * limit) (rows db)) same
          ∙ ap
              (λ l. record {
                items = take limit (drop (n * limit) l);
                total = count keep (rows w.db);
                limit = limit;
                offset = n * limit;
              })
              (alike w1.calls 0) in
        (
          subst
              (λ ps.
                All
                  (λ (p : Page A).
                    (p.total ≡ length (filter keep (rows w.db))) × (length p.items ≤ limit))
                  ps)
              (sym grown)
              (All-append
                (λ (p : Page A).
                  (p.total ≡ length (filter keep (rows w.db))) × (length p.items ≤ limit))
                front (page ∷ []) totals
                (
                  (
                    ap (λ (p : Page A). p.total) shape' ∙ count-eq_filter keep (rows w.db),
                    omega (
                      arith,
                      ap (λ (p : Page A). length p.items) shape',
                      length-take limit (drop (n * limit) sorted),
                    ),
                  ),
                  tt,
                )),
          ap all_items grown
              ∙ all_items_snoc front page
              ∙ ap₂ (λ a b. a ++ b) items (ap (λ (p : Page A). p.items) shape')
              ∙ take-drop-add (n * limit) limit sorted
              ∙ ap (λ k. take k sorted) (grind arith),
          ground (arith, same, same2, ap (λ (x : Result (List (Page A)) × World). x.1) h2),
        )

  module _ {K : Type 0} {key : A → K} {keep : A → Bool} {before : A → A → Bool}
      {Before : A → A → Type 0} {Matches : A → Type 0}
      (query : IsQuery key keep before Before Matches) (sort : Sort A) (is_sort : IsSort sort) where
    sort-IsOrdered :
        (call : ℕ) (xs : List A) → IsKeyed key xs → IsOrdered Before (sort before call xs)
    sort-IsOrdered call xs keyed =
        IsOrdered-and (sort before call xs) (λ x y b d. query.strict x y d b)
          (is_sort.sorts before call xs query.order)
          (IsOrdered-perm (λ x y. ¬ (key x ≡ key y)) (λ x y d e. d (sym e))
            (Permᴰ.symm (is_sort.permutes before call xs)) keyed)

    -- Where the keys are distinct, no rows are tied, and each call sorts alike.
    sort_alike : (xs : List A) → IsKeyed key xs → (m n : ℕ) → sort before m xs ≡ sort before n xs
    sort_alike xs keyed m n =
        let d = is_sort.permutes before m xs in
        let e = is_sort.permutes before n xs in
        IsOrdered-unique Before query.asymm (sort before m xs) (sort before n xs)
          (sort-IsOrdered m xs keyed) (sort-IsOrdered n xs keyed)
          (λ a i. mem-perm a (Permᴰ.symm e) (mem-perm a d i))
          (λ a i. mem-perm a (Permᴰ.symm d) (mem-perm a e i))

    pub walk-IsWalk :
        (rows : Db → List A) (limit : ℕ) (list : ℕ → Eff World (Page A))
        → ((offset : ℕ) (w w' : World) (page : Page A)
            → list offset w ≡ (ok page, w')
            → (page ≡ selected keep (sort before w.calls) limit offset (rows w.db))
              × (w'.db ≡ w.db))
        → (n : ℕ) (w w' : World) (pages : List (Page A)) → IsKeyed key (rows w.db)
        → length (rows w.db) ≤ n * limit
        → walk list limit n w ≡ (ok pages, w')
        → IsWalk Before Matches (rows w.db) limit pages
    walk-IsWalk rows limit list reads n w w' pages keyed enough h =
        let found = filter keep (rows w.db) in
        let keyed' = filter-IsOrdered (λ x y. ¬ (key x ≡ key y)) keep (rows w.db) keyed in
        let (totals, items, same) =
          walk-items keep (sort before) rows limit list reads n w w' pages (sort_alike found keyed')
            h in
        let perm = is_sort.permutes before 0 found in
        let size = length-perm perm in
        let whole : all_items pages ≡ sort before 0 found =
          items
          ∙ take_all (n * limit) (sort before 0 found)
              (omega (arith, size, enough, length-filter_le keep (rows w.db))) in
        record {
          totals =
              subst (λ k. All (λ (p : Page A). (p.total ≡ k) × (length p.items ≤ limit)) pages)
                (sym (ap length whole ∙ size)) totals;
          sound = λ r m.
              let (there, kept) =
                mem-filter keep (rows w.db) r (mem-perm r perm (subst (Memᴰ r) whole m)) in
              (there, query.matches r kept);
          complete = λ r m matches. subst (Memᴰ r) (sym whole) (
              mem-perm r (Permᴰ.symm perm)
                (filter-mem keep (rows w.db) r (query.kept r matches) m));
          in_order = subst (IsOrdered Before) (sym whole) (sort-IsOrdered 0 found keyed');
        }
