-- ===== src/Csv/Records/Machine.antt =====
-- What the splitter promises, without chunks, pieces and limits: a machine that reads one character
-- at a time and yields the whole text of each logical record.
use service_of_import.Prelude.{
  arith, ℕ, Text, ◌≡◌, refl, Bool, true, false, ◌&&◌, List, [], ◌∷◌, ◌++◌, append_assoc, ap, sym,
  ◌∙◌, leb, length, take, ltb, ◌==◌, if◌then◌else◌,
}
use service_of_import.Csv.Issue.{LogicalCsvRecord}
use service_of_import.Csv.Records.{
  Flags, record_start, is_special, normal_flags, special_flags, Limits,
}

pub record Machine : Type 0 where
  pub text : Text
  pub flags : Flags
  pub skip_lf : Bool

abbrev pub machine_start : Machine
machine_start = record { text = []; flags = record_start; skip_lf = false }

-- A character that is no skipped LF.
unfoldable pub take_char : ℕ → Machine → Machine × List Text
take_char c m =
    let (f, is_boundary) = special_flags c m.flags in
    if is_special c
    then (if is_boundary
        then (
          record { text = []; flags = record_start; skip_lf = c == 13 },
          (m.text ++ c ∷ []) ∷ [],
        )
        else (record { text = m.text ++ c ∷ []; flags = f; skip_lf = false }, []))
    else (record { text = m.text ++ c ∷ []; flags = normal_flags m.flags; skip_lf = false }, [])

unfoldable pub feed : ℕ → Machine → Machine × List Text
feed c m = if m.skip_lf && c == 10 then (record m { skip_lf = false }, []) else take_char c m

unfoldable pub feed_all : Machine → Text → Machine × List Text
feed_all m [] = (m, [])
feed_all m (c ∷ s) = let (m', ys) = feed c m in let (m'', zs) = feed_all m' s in (m'', ys ++ zs)

-- The texts of the logical records of a text.
unfoldable pub close : Machine → List Text
close m = if length m.text == 0 then [] else m.text ∷ []

unfoldable pub split_records : Text → List Text
split_records s = let (m, ys) = feed_all machine_start s in ys ++ close m

-- What is kept of a record's text: all of it, or its preview.
unfoldable pub bounded_record : Limits → Text → LogicalCsvRecord
bounded_record limits t = record {
  text =
      if leb (length t) limits.max_record_chars
      then t
      else take limits.preview_chars (take limits.max_record_chars t);
  char_count = length t;
  truncated = ltb limits.max_record_chars (length t);
}

pub feed_all-append :
    (m : Machine) (s t : Text)
    → feed_all m (s ++ t)
      ≡ ((feed_all (feed_all m s).0 t).0, (feed_all m s).1 ++ (feed_all (feed_all m s).0 t).1)
unfolding feed_all
feed_all-append m [] t = refl
feed_all-append m (c ∷ s) t =
    ap (λ (r : Machine × List Text). (r.0, (feed c m).1 ++ r.1)) (feed_all-append (feed c m).0 s t)
    ∙ ap (λ (l : List Text). ((feed_all (feed_all (feed c m).0 s).0 t).0, l))
        (sym (append_assoc (feed c m).1 _ _))

-- The ways of one character through the machine.
module _ (c : ℕ) (m : Machine) where
  pub feed_skipped : (m.skip_lf && c == 10) ≡ true → feed c m ≡ (record m { skip_lf = false }, [])
  unfolding feed
  feed_skipped e = rw e

  pub feed_normal :
      is_special c ≡ false
      → feed c m
        ≡ (record { text = m.text ++ c ∷ []; flags = normal_flags m.flags; skip_lf = false }, [])
  unfolding feed take_char
  feed_normal e =
      let no_skip : (m.skip_lf && c == 10) ≡ false = unfold is_special in ground arith in
      rw (no_skip, e)

  pub feed_inside :
      (m.skip_lf && c == 10) ≡ false
      → is_special c ≡ true
      → (special_flags c m.flags).1 ≡ false
      → feed c m ≡ (
        record { text = m.text ++ c ∷ []; flags = (special_flags c m.flags).0; skip_lf = false },
        [],
      )
  unfolding feed take_char
  feed_inside no_skip e inside = rw (no_skip, e, inside)

  pub feed_boundary :
      (m.skip_lf && c == 10) ≡ false
      → is_special c ≡ true
      → (special_flags c m.flags).1 ≡ true
      → feed c m
        ≡ (record { text = []; flags = record_start; skip_lf = c == 13 }, (m.text ++ c ∷ []) ∷ [])
  unfolding feed take_char
  feed_boundary no_skip e ends = rw (no_skip, e, ends)
