-- ===== src/Stocks/Catalogues.antt =====
-- The upsert of a catalogue: the ids of its keys before and after.
use service_of_import.Prelude.{
  ℕ, ◌+◌, ◌≤◌, ◌<◌, Text, text_eq, text_eq_iff, ◌≡◌, refl, sym, ◌∙◌, Bool, true, false, ◌||◌, ◌⊎◌,
  false, Option, none, some, List, [], ◌∷◌, any, arith, if◌then◌else◌, Option-cases, Bool-cases,
  inl, inr,
}
use service_of_import.Database.{Catalogue, CatalogueRow}
use service_of_import.Stocks.{Named, add_distinct, distinct_on, upsert_row, upsert, id_of}

-- Every id was taken from the sequence, and no two keys have the same.
pub record IsCatalogue (c : Catalogue) : Type 0 where
  pub below : (k : Text) (i : ℕ) → id_of k c.rows ≡ some i → i < c.next_id
  pub injective : (j k : Text) (i : ℕ) → id_of j c.rows ≡ some i → id_of k c.rows ≡ some i → j ≡ k

abbrev or_new : Option ℕ → Bool → ℕ → Option ℕ
or_new (some i) b n = some i
or_new none b n = if b then some n else none

id_of-upsert_row :
    (now n : ℕ) (r : Named) (rows : List CatalogueRow) (k : Text)
    → id_of k (upsert_row now n r rows) ≡ or_new (id_of k rows) (text_eq r.key k) n
unfolding id_of upsert_row
id_of-upsert_row now n r [] k = refl
id_of-upsert_row now n r (x ∷ xs) k = ground (
  arith,
  id_of-upsert_row now n r xs k,
  text_eq_iff x.key r.key,
  text_eq_iff x.key k,
  text_eq_iff r.key k,
)

abbrev upsert_one : ℕ → Named → Catalogue → Catalogue
upsert_one now r c = record { rows = upsert_row now c.next_id r c.rows; next_id = c.next_id + 1 }

upsert_one-IsCatalogue :
    (now : ℕ) (r : Named) (c : Catalogue) → IsCatalogue c → IsCatalogue (upsert_one now r c)
upsert_one-IsCatalogue now r c h = record {
  below = λ k i e. ground (arith, id_of-upsert_row now c.next_id r c.rows k, h.below k i);
  injective = λ j k i e f. ground (
    arith,
    id_of-upsert_row now c.next_id r c.rows k,
    id_of-upsert_row now c.next_id r c.rows j,
    h.below k i,
    h.below j i,
    h.injective j k i,
    text_eq_iff r.key k,
    text_eq_iff r.key j,
  );
}

pub upsert-IsCatalogue :
    (now : ℕ) (rs : List Named) (c : Catalogue) → IsCatalogue c → IsCatalogue (upsert now rs c)
unfolding upsert
upsert-IsCatalogue now [] c h = h
upsert-IsCatalogue now (r ∷ rs) c h =
    upsert-IsCatalogue now rs (upsert_one now r c) (upsert_one-IsCatalogue now r c h)

pub next_id-upsert_le :
    (now : ℕ) (rs : List Named) (c : Catalogue) → c.next_id ≤ (upsert now rs c).next_id
unfolding upsert
next_id-upsert_le now [] c = omega arith
next_id-upsert_le now (r ∷ rs) c = omega (arith, next_id-upsert_le now rs (upsert_one now r c))

pub id_of-upsert_kept :
    (now : ℕ) (rs : List Named) (c : Catalogue) (k : Text) (i : ℕ)
    → id_of k c.rows ≡ some i
    → id_of k (upsert now rs c).rows ≡ some i
unfolding upsert
id_of-upsert_kept now [] c k i e = e
id_of-upsert_kept now (r ∷ rs) c k i e =
    id_of-upsert_kept now rs (upsert_one now r c) k i
      (ground (arith, id_of-upsert_row now c.next_id r c.rows k))

-- A key that had no id has got a fresh one.
pub id_of-upsert_fresh :
    (now : ℕ) (rs : List Named) (c : Catalogue) (k : Text) (i : ℕ)
    → id_of k c.rows ≡ none
    → id_of k (upsert now rs c).rows ≡ some i
    → c.next_id ≤ i
unfolding upsert
id_of-upsert_fresh now [] c k i e f = absurd (ground arith)
id_of-upsert_fresh now (r ∷ rs) c k i e f =
    elim (Option-cases (id_of k (upsert_row now c.next_id r c.rows))) [
      | inl e' ↦ ground (arith, id_of-upsert_fresh now rs (upsert_one now r c) k i e' f)
      | inr (n, e') ↦ ground (
        arith,
        id_of-upsert_kept now rs (upsert_one now r c) k n e',
        id_of-upsert_row now c.next_id r c.rows k,
      )
    ]

abbrev pub has_key : Text → List Named → Bool
has_key k rs = any (λ r. text_eq r.key k) rs

pub id_of-upsert_given :
    (now : ℕ) (rs : List Named) (c : Catalogue) (k : Text)
    → has_key k rs ≡ true
    → (i : ℕ) × (id_of k (upsert now rs c).rows ≡ some i)
unfolding upsert any
id_of-upsert_given now [] c k h = absurd (ground arith)
id_of-upsert_given now (r ∷ rs) c k h =
    elim (Option-cases (id_of k (upsert_row now c.next_id r c.rows))) [
      | inl e ↦
          id_of-upsert_given now rs (upsert_one now r c) k
            (ground (arith, id_of-upsert_row now c.next_id r c.rows k))
      | inr (n, e) ↦ (n, id_of-upsert_kept now rs (upsert_one now r c) k n e)
    ]

has_key-add_distinct :
    (k : Text) (r : Named) (rs : List Named)
    → has_key k (add_distinct r rs) ≡ (text_eq r.key k || has_key k rs)
unfolding add_distinct any
has_key-add_distinct k r [] = refl
has_key-add_distinct k r (x ∷ xs) = ground (
  arith,
  has_key-add_distinct k r xs,
  text_eq_iff x.key r.key,
  text_eq_iff x.key k,
  text_eq_iff r.key k,
)

pub has_key-distinct_on : (k : Text) (rs : List Named) → has_key k (distinct_on rs) ≡ has_key k rs
unfolding distinct_on any
has_key-distinct_on k [] = refl
has_key-distinct_on k (r ∷ rs) =
    ground (arith, has_key-add_distinct k r (distinct_on rs), has_key-distinct_on k rs)

module _ (now : ℕ) (rs : List Named) (c : Catalogue) (k : Text) where
  pub id_of-upsert-none :
      id_of k (upsert now (distinct_on rs) c).rows ≡ none
      → (id_of k c.rows ≡ none) × (has_key k rs ≡ false)
  id_of-upsert-none e = elim (Option-cases (id_of k c.rows)) [
    | inr (i, f) ↦ absurd (ground (arith, id_of-upsert_kept now (distinct_on rs) c k i f))
    | inl f ↦ elim (Bool-cases (has_key k rs)) [
      | inr g ↦ (f, g)
      | inl g ↦
          let given = id_of-upsert_given now (distinct_on rs) c k (has_key-distinct_on k rs ∙ g) in
          absurd (ground (arith, given.1))
    ]
  ]

  -- An id that a key has after an upsert is the one that it had, or a fresh one.
  pub id_of-upsert-cases :
      (i : ℕ)
      → id_of k (upsert now (distinct_on rs) c).rows ≡ some i
      → (id_of k c.rows ≡ some i) ⊎ ((id_of k c.rows ≡ none) × (c.next_id ≤ i))
  id_of-upsert-cases i e = elim (Option-cases (id_of k c.rows)) [
    | inl f ↦ inr (f, id_of-upsert_fresh now (distinct_on rs) c k i f e)
    | inr (j, f) ↦ inl (f ∙ sym (id_of-upsert_kept now (distinct_on rs) c k j f) ∙ e)
  ]
