-- ===== src/S3/Memory.antt =====
-- A source and a service in memory, which meet the assumptions.
use service_of_import.Prelude.{
  ℕ, zero, suc, ◌+◌, ◌<◌, Text, text_eq, text_eq_refl, ◌≡◌, refl, sym, ap, ap₂, subst, ◌∙◌, ◌&&◌,
  Option, none, some, List, [], ◌∷◌, ◌++◌, take, drop, take-append-drop, length-take, arith,
  if◌then◌else◌, append-nil,
}
use service_of_import.Errors.{Result, ok, raised, client_error}
use service_of_import.S3.{
  Bytes, Stream, IsStream, IsSound, Client, View, IsS3, IsAvailable, Part, Body, IsBody, joined,
}

-- A file, as what is left of it.
abbrev pub file : Stream Bytes
file = record { read = λ n r. (ok (take n r), drop n r) }

take-eq_nil : (n : ℕ) (r : Bytes) → 0 < n → take n r ≡ [] → r ≡ []
unfolding take
take-eq_nil zero r h e = absurd (omega arith)
take-eq_nil (suc n) [] h e = refl
take-eq_nil (suc n) (x ∷ r) h e = cc

read-take : (n : ℕ) (r b r' : Bytes) → file.read n r ≡ (ok b, r') → (take n r ≡ b) × (drop n r ≡ r')
read-take n r b r' h = (ground arith, ground arith)

pub file-IsStream : IsStream file (λ r. r)
file-IsStream = record {
  piece = λ n r r' b h.
      let (front, rest) = read-take n r b r' h in
      sym (take-append-drop n r) ∙ ap (λ x. x ++ drop n r) front ∙ ap (λ x. b ++ x) rest;
  end = λ n r r' h e.
      let (front, rest) = read-take n r [] r' e in
      sym rest
      ∙ ap (λ x. x ++ drop n r) (sym front)
      ∙ take-append-drop n r
      ∙ take-eq_nil n r h front;
}

pub file-IsSound : IsSound file
file-IsSound n r = (take n r, drop n r, refl, omega (arith, length-take n r))

pub record State : Type 0 where
  pub objects : Text → Text → Option Bytes
  pub uploads : Text → Option (List Part)
  pub started : ℕ

abbrev pub set_object : Text → Text → Option Bytes → State → State
set_object b k o s = record s {
  objects = λ b' k'. if text_eq b b' && text_eq k k' then o else s.objects b' k';
}

abbrev pub set_upload : Text → Option (List Part) → State → State
set_upload id o s = record s { uploads = λ id'. if text_eq id id' then o else s.uploads id' }

abbrev added : Text → ℕ → Bytes → Option (List Part) → State → Result Text × State
added id n body none s = (raised (client_error []), s)
added id n body (some ps) s = (
  ok (n ∷ []),
  set_upload id
      (some (ps ++ record { tag = record { etag = n ∷ []; part_number = n }; body = body } ∷ [])) s,
)

abbrev finished : Text → Text → Text → Option (List Part) → State → Result (Unit {0}) × State
finished b k id none s = (raised (client_error []), s)
finished b k id (some ps) s = (ok tt, set_object b k (some (joined ps)) (set_upload id none s))

abbrev served : Option Bytes → State → Result Body × State
served none s = (raised (client_error []), s)
served (some text) s = (ok (record { reads = ok text ∷ [] }), s)

abbrev pub memory : Client State
memory = record {
  put_object = λ b k body s. (ok tt, set_object b k (some body) s);
  create_multipart_upload = λ b k s. (
    ok (s.started ∷ []),
    set_upload (s.started ∷ []) (some []) (record s { started = s.started + 1 }),
  );
  upload_part = λ b k id n body s. added id n body (s.uploads id) s;
  complete_multipart_upload = λ b k id parts s. finished b k id (s.uploads id) s;
  abort_multipart_upload = λ b k id s. (ok tt, set_upload id none s);
  get_object = λ b k s. served (s.objects b k) s;
  delete_object = λ b k s. (ok tt, set_object b k none s);
  head_bucket = λ b s. (ok tt, s);
}

abbrev pub view : View State
view = record { object_at = λ b k s. s.objects b k; parts_of = λ id s. s.uploads id }

one_read-IsBody : (text : Bytes) → IsBody (ok text ∷ []) text
one_read-IsBody [] = refl
one_read-IsBody (c ∷ text) = ([], sym (append-nil (c ∷ text)), refl)

set_object_same : (b k : Text) (o : Option Bytes) (s : State) → (set_object b k o s).objects b k ≡ o
set_object_same b k o s = rw (text_eq_refl b, text_eq_refl k) refl

set_upload_same :
    (id : Text) (o : Option (List Part)) (s : State) → (set_upload id o s).uploads id ≡ o
set_upload_same id o s = rw (text_eq_refl id) refl

pub memory-IsS3 : IsS3 memory view
memory-IsS3 = record {
  put = λ b k body s s' h.
      let e : set_object b k (some body) s ≡ s' = ground arith in
      ap (view.object_at b k) (sym e) ∙ set_object_same b k (some body) s;
  create = λ b k id s s' h.
      let same : s.started ∷ [] ≡ id = ground arith in
      let e : set_upload (s.started ∷ []) (some []) (record s { started = s.started + 1 }) ≡ s' =
        ground arith in
      ap₂ view.parts_of (sym same) (sym e)
      ∙ set_upload_same (s.started ∷ []) (some []) (record s { started = s.started + 1 });
  upload = λ b k id etag n body ps s s' o h.
      let h' : added id n body (some ps) s ≡ (ok etag, s') =
        subst (λ x. added id n body x s ≡ (ok etag, s')) o h in
      let same : n ∷ [] ≡ etag = ground arith in
      let part : Part = record { tag = record { etag = n ∷ []; part_number = n }; body = body } in
      let e : set_upload id (some (ps ++ part ∷ [])) s ≡ s' = ground arith in
      ap (view.parts_of id) (sym e)
      ∙ set_upload_same id (some (ps ++ part ∷ [])) s
      ∙ ap
          (λ t.
            some (ps ++ record { tag = record { etag = t; part_number = n }; body = body } ∷ []))
          same;
  complete = λ b k id ps s s' o h.
      let h' : finished b k id (some ps) s ≡ (ok tt, s') =
        subst (λ x. finished b k id x s ≡ (ok tt, s')) o h in
      let e : set_object b k (some (joined ps)) (set_upload id none s) ≡ s' = ground arith in
      (
        ap (view.object_at b k) (sym e)
            ∙ set_object_same b k (some (joined ps)) (set_upload id none s),
        ap (view.parts_of id) (sym e) ∙ set_upload_same id none s,
      );
  abort = λ b k id s s' h.
      let e : set_upload id none s ≡ s' = ground arith in
      ap (view.parts_of id) (sym e) ∙ set_upload_same id none s;
  get = λ b k text body s s' o h.
      let h' : served (some text) s ≡ (ok body, s') = subst (λ x. served x s ≡ (ok body, s')) o h in
      let e : ok text ∷ [] ≡ body.reads = ground arith in
      subst (λ reads. IsBody reads text) e (one_read-IsBody text);
  delete = λ b k s s' h.
      let e : set_object b k none s ≡ s' = ground arith in
      ap (view.object_at b k) (sym e) ∙ set_object_same b k none s;
}

pub memory-IsAvailable : IsAvailable memory view
memory-IsAvailable = record {
  put = λ b k body s. (set_object b k (some body) s, refl);
  create = λ b k s. (
    s.started ∷ [],
    set_upload (s.started ∷ []) (some []) (record s { started = s.started + 1 }),
    refl,
  );
  upload = λ b k id n body ps s o. (
    n ∷ [],
    set_upload id
        (some (ps ++ record { tag = record { etag = n ∷ []; part_number = n }; body = body } ∷ []))
        s,
    rw o refl,
  );
  complete = λ b k id ps s o some_parts complete.
      (set_object b k (some (joined ps)) (set_upload id none s), rw o refl);
  abort = λ b k id s. (set_upload id none s, refl);
}

abbrev pub empty_service : State
empty_service = record { objects = λ b k. none; uploads = λ id. none; started = 0 }
