-- ===== src/Csv/ChunkReader/Tests.antt =====
-- A read of three bytes in two chunks, into a larger buffer.
use service_of_import.Prelude.{ℕ, ◌≡◌, refl, List, [], ◌∷◌, take, drop}
use service_of_import.Errors.{Result, ok}
use service_of_import.Effects.{pure}
use service_of_import.S3.{Bytes}
use service_of_import.Csv.ChunkReader.{ChunkReader, readinto, IsRead, readinto-IsRead}

abbrev chunks : List (Result Bytes)
chunks = ok [] ∷ ok (8 ∷ []) ∷ []

abbrev end : ChunkReader
end = record { current = []; chunks = [] }

read_three : readinto {W = ℕ} (pure tt) 5 (6 ∷ 7 ∷ []) chunks 0 ≡ (ok (6 ∷ 7 ∷ 8 ∷ [], end), 0)
unfolding readinto take drop
read_three = refl

readinto-IsRead_example : IsRead 5 (6 ∷ 7 ∷ 8 ∷ []) (6 ∷ 7 ∷ 8 ∷ []) end
readinto-IsRead_example =
    readinto-IsRead (pure tt) 5 (6 ∷ 7 ∷ []) chunks 0 0 (6 ∷ 7 ∷ 8 ∷ []) end read_three
