-- ===== src/Executor/Bytes/Examples.antt =====
-- Five bytes in three chunks, one of them empty.
use vereda.Common.{◌≡◌, refl, true, false, [], ◌∷◌, if◌then◌else◌}
use vereda.Executor.Bytes.{Reading, bytes, reason, read_bytes}
use vereda.Executor.Bytes.Whole.{concat, read_bytes-concat}

abbrev reading : Reading
reading = record {
  has_body = true;
  chunks = (1 ∷ 2 ∷ []) ∷ [] ∷ (3 ∷ 4 ∷ 5 ∷ []) ∷ [];
  breaks = false;
  aborted_then = false;
}

whole : read_bytes reading ≡ bytes (1 ∷ 2 ∷ 3 ∷ 4 ∷ 5 ∷ [])
unfolding read_bytes
whole = refl

-- A reader that was cancelled reports that it is done.
cut_short : read_bytes (record reading { chunks = (1 ∷ []) ∷ []; aborted_then = true }) ≡ reason
unfolding read_bytes
cut_short = refl

read_bytes-concat_example :
    read_bytes reading ≡ bytes (if reading.has_body then concat reading.chunks else [])
read_bytes-concat_example = read_bytes-concat reading refl refl
