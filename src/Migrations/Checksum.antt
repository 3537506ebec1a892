-- ===== src/Migrations/Checksum.antt =====
-- The second revision and back again.
use service_of_import.Prelude.{
  Text, codes, text_eq, text_eq_refl, Bool, true, false, ◌&&◌, ◌||◌, List, [], ◌∷◌, ◌++◌, map, any,
  ◌≡◌, refl, ap, ap₂, ◌∙◌, if◌then◌else◌, arith, Bool-cases, inl, inr,
}
use service_of_import.Errors.{ok, ◌>>=◌}
use service_of_import.Migrations.Operations.{
  Table, Schema, Column, Constraint, check, has_name, is_column, is_constraint, in_table,
  change_table, without, add_column, drop_column, create_check_constraint, drop_constraint, string,
}
use service_of_import.Migrations.{column, add_checksum, drop_checksum}
use service_of_import.Migrations.Roundtrip.{step}

without-snoc :
    {A : Type 0} (p : A → Bool) (xs : List A) (y : A)
    → any p xs ≡ false
    → p y ≡ true
    → without p (xs ++ y ∷ []) ≡ xs
unfolding without any
without-snoc p [] y h k = rw k refl
without-snoc p (x ∷ xs) y h k = elim (Bool-cases (p x)) [
  | inl e ↦ absurd (ground arith)
  | inr e ↦ rw e (ap (λ l. x ∷ l) (without-snoc p xs y (ground arith) k))
]

any-snoc :
    {A : Type 0} (p : A → Bool) (xs : List A) (y : A) → p y ≡ true → any p (xs ++ y ∷ []) ≡ true
unfolding any
any-snoc p [] y k = rw k refl
any-snoc p (x ∷ xs) y k = ground (arith, any-snoc p xs y k)

module _ (n : Text) (f : Table → Table) (same : (t : Table) → (f t).name ≡ t.name) where
  abbrev changed : List Table → List Table
  changed ts = map (λ t. if has_name n t then f t else t) ts

  any-changed :
      (q : Table → Bool) (ts : List Table)
      → any (λ t. has_name n t && q t) (changed ts) ≡ any (λ t. has_name n t && q (f t)) ts
  unfolding any
  any-changed q [] = refl
  any-changed q (t ∷ ts) = elim (Bool-cases (has_name n t)) [
    | inl e ↦
        let named : has_name n (f t) ≡ true = ap (λ m. text_eq m n) (same t) ∙ e in
        rw (e, named) (ap (λ b. q (f t) || b) (any-changed q ts))
    | inr e ↦ rw e (rw e (any-changed q ts))
  ]

  any_named : (ts : List Table) → any (has_name n) (changed ts) ≡ any (has_name n) ts
  unfolding any
  any_named [] = refl
  any_named (t ∷ ts) = elim (Bool-cases (has_name n t)) [
    | inl e ↦
        let named : has_name n (f t) ≡ true = ap (λ m. text_eq m n) (same t) ∙ e in
        rw (e, named) refl
    | inr e ↦ rw e (rw e (any_named ts))
  ]

  any_always :
      (q : Table → Bool) (ts : List Table)
      → ((t : Table) → q (f t) ≡ true)
      → any (has_name n) ts ≡ true
      → any (λ t. has_name n t && q (f t)) ts ≡ true
  unfolding any
  any_always q [] always h = h
  any_always q (t ∷ ts) always h = elim (Bool-cases (has_name n t)) [
    | inl e ↦ rw (e, always t) refl
    | inr e ↦ rw e (any_always q ts always (ground arith))
  ]

  -- A change and its inverse.
  changed_back :
      (g : Table → Table) (q : Table → Bool) (ts : List Table)
      → ((t : Table) → q t ≡ false → g (f t) ≡ t)
      → any (λ t. has_name n t && q t) ts ≡ false
      → map (λ t. if has_name n t then g t else t) (changed ts) ≡ ts
  unfolding any
  changed_back g q [] back h = refl
  changed_back g q (t ∷ ts) back h = elim (Bool-cases (has_name n t)) [
    | inl e ↦
        let named : has_name n (f t) ≡ true = ap (λ m. text_eq m n) (same t) ∙ e in
        rw (e, named)
          (ap₂ (λ a b. a ∷ b) (back t (ground arith)) (changed_back g q ts back (ground arith)))
    | inr e ↦ rw e (rw e (ap (λ b. t ∷ b) (changed_back g q ts back (ground arith))))
  ]

-- A schema with the table, but without the column and the constraint.
pub record IsBefore (s : Schema) : Type 0 where
  pub table : any (has_name (codes "reports")) s.tables ≡ true
  pub no_column :
      in_table (codes "reports") (λ t. any (is_column (codes "checksum_sha256")) t.columns) s
      ≡ false
  pub no_constraint :
      in_table
        (codes "reports")
        (λ t. any (is_constraint (codes "ck_reports_checksum_sha256_format")) t.constraints)
        s
      ≡ false

abbrev checksum : Column
checksum = column (codes "checksum_sha256") (string 64) true

abbrev format : Constraint
format =
    check (codes "ck_reports_checksum_sha256_format") (codes "checksum_sha256 ~ '^[0-9a-f]{64}$'")

abbrev with_column : Table → Table
with_column t = record t { columns = t.columns ++ checksum ∷ [] }

abbrev with_format : Table → Table
with_format t = record t { constraints = t.constraints ++ format ∷ [] }

abbrev with_both : Schema → Schema
with_both s =
    change_table (codes "reports") with_format (change_table (codes "reports") with_column s)

add_checksum_before : (s : Schema) → IsBefore s → add_checksum s ≡ ok (with_both s)
unfolding add_checksum add_column create_check_constraint
add_checksum_before s h =
    let fresh =
      any-changed (codes "reports") with_column (λ t. refl)
        (λ t. any (is_constraint (codes "ck_reports_checksum_sha256_format")) t.constraints)
        s.tables in
    rw (h.table, h.no_column)
      (rw (any_named (codes "reports") with_column (λ t. refl) s.tables, fresh)
        (rw (h.table, h.no_constraint) refl))

drop_checksum_both : (s : Schema) → IsBefore s → drop_checksum (with_both s) ≡ ok s
unfolding drop_checksum drop_column drop_constraint
drop_checksum_both s h =
    let n = codes "reports" in
    let has_format : Table → Bool =
      λ t. any (is_constraint (codes "ck_reports_checksum_sha256_format")) t.constraints in
    let has_checksum : Table → Bool = λ t. any (is_column (codes "checksum_sha256")) t.columns in
    let middle = changed n with_column (λ t. refl) s.tables in
    let named : any (has_name n) middle ≡ true =
      any_named n with_column (λ t. refl) s.tables ∙ h.table in
    let there : any (λ t. has_name n t && has_format t) (changed n with_format (λ t. refl) middle)
        ≡ true =
      any-changed n with_format (λ t. refl) has_format middle
      ∙ any_always n with_format (λ t. refl) has_format middle
          (λ t.
            any-snoc (is_constraint (codes "ck_reports_checksum_sha256_format")) t.constraints
              format (text_eq_refl (codes "ck_reports_checksum_sha256_format")))
          named in
    let there' : any (λ t. has_name n t && has_checksum t) middle ≡ true =
      any-changed n with_column (λ t. refl) has_checksum s.tables
      ∙ any_always n with_column (λ t. refl) has_checksum s.tables
          (λ t.
            any-snoc (is_column (codes "checksum_sha256")) t.columns checksum
              (text_eq_refl (codes "checksum_sha256")))
          h.table in
    let gone =
      changed_back n with_format (λ t. refl)
        (λ t. record t {
          constraints =
              without (is_constraint (codes "ck_reports_checksum_sha256_format")) t.constraints;
        })
        has_format middle
        (λ t k.
          ap (λ cs. record t { constraints = cs })
            (without-snoc (is_constraint (codes "ck_reports_checksum_sha256_format")) t.constraints
              format k (text_eq_refl (codes "ck_reports_checksum_sha256_format"))))
        (any-changed n with_column (λ t. refl) has_format s.tables ∙ h.no_constraint) in
    let gone' =
      changed_back n with_column (λ t. refl)
        (λ t. record t { columns = without (is_column (codes "checksum_sha256")) t.columns })
        has_checksum s.tables
        (λ t k.
          ap (λ cs. record t { columns = cs })
            (without-snoc (is_column (codes "checksum_sha256")) t.columns checksum k
              (text_eq_refl (codes "checksum_sha256"))))
        h.no_column in
    rw (there, gone) (rw (there', gone') refl)

-- On a schema with the table of reports, but without the column and the constraint, the upgrade of the
-- second revision succeeds, and its downgrade then gives back exactly this schema.
pub add_checksum-drop_checksum :
    (s : Schema) → IsBefore s → (add_checksum s >>= drop_checksum) ≡ ok s
add_checksum-drop_checksum s h =
    step drop_checksum (add_checksum_before s h) ∙ drop_checksum_both s h
