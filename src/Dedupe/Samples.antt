-- ===== src/Dedupe/Samples.antt =====
-- The deduper of internal/ingest/dedupe.go at concrete inputs.
use omni_logging.Common.{◌≤◌, ◌≡◌, refl, true, false, [], ◌∷◌, arith, Text, codes, same, length}
use omni_logging.Dedupe.{Seen, max_dedupe_entries, find, fresh, put, seen}
use omni_logging.Dedupe.Window.{length-seen, seen_all, HasRoom, retry_recognised}

abbrev batch_a : Text
batch_a = codes "a"

abbrev batch_b : Text
batch_b = codes "b"

abbrev one_batch : Seen
one_batch = (batch_b, 5) ∷ []

length-seen_example : length (seen batch_a 7 one_batch).0 ≤ max_dedupe_entries
length-seen_example = length-seen batch_a 7 one_batch (omega arith)

first_delivery : (seen batch_a 7 one_batch).1 ≡ false
unfolding seen fresh find same
first_delivery = refl

room : HasRoom ((batch_a, 7) ∷ (batch_b, 9) ∷ []) one_batch
unfolding seen fresh find put same
room = (omega arith, (omega arith, tt))

-- Another batch arrives between the two deliveries.
retry_recognised_example :
    (seen batch_a 1000 (seen_all ((batch_b, 9) ∷ []) (seen batch_a 7 one_batch).0)).1 ≡ true
retry_recognised_example =
    retry_recognised b'a' [] 7 1000 one_batch ((batch_b, 9) ∷ []) first_delivery
      (λ e. absurd (grind (arith, e)), tt) room (omega arith)
