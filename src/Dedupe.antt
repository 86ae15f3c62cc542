-- ===== src/Dedupe.antt =====
-- The batch deduper (internal/ingest/dedupe.go): an association list from batch IDs to the time of
-- their delivery, in nanoseconds. A difference of two times is a signed number, as `time.Duration` is.
pub mod Window
mod Samples
use omni_logging.Common.{
  ℕ, zero, suc, ◌+◌, ◌*◌, ◌/◌, ◌^◌, Bool, true, false, not, Option, none, some, List, [], ◌∷◌, leb,
  if◌then◌else◌, Text, same, length, keep,
}
use omni_logging.Common.Int.{ℤ, pos, negsuc, sub_ℕ, pos_part, neg_part, ltb_ℤ, leb_ℤ, ◌+ℤ◌}

abbrev pub Seen : Type 0
Seen = List (Text × ℕ)

-- Ten minutes.
abbrev pub dedupe_ttl : ℕ
dedupe_ttl = 600 * 10 ^ 9

abbrev pub max_dedupe_entries : ℕ
max_dedupe_entries = 50000

abbrev pub age : ℕ → ℕ → ℤ
age now at = sub_ℕ now at

-- d.seen[id]
unfoldable pub find : Text → Seen → Option ℕ
find id [] = none
find id ((j, at) ∷ d) = if same j id then some at else find id d

-- d.seen[id] = at
unfoldable pub put : Text → ℕ → Seen → Seen
put id at [] = (id, at) ∷ []
put id at ((j, t) ∷ d) = if same j id then (j, at) ∷ d else (j, t) ∷ put id at d

-- Go's division of a signed number by two, which rounds towards zero.
abbrev pub half : ℤ → ℤ
half (pos n) = pos (n / 2)
half (negsuc n) = sub_ℕ 0 (suc n / 2)

-- The loop of `medianAge` over the rest of the entries.
unfoldable pub age_range : ℕ → Seen → ℤ → ℤ → ℤ × ℤ
age_range now [] oldest newest = (oldest, newest)
age_range now ((j, at) ∷ d) oldest newest =
    let a = age now at in
    age_range now d (if ltb_ℤ oldest a then a else oldest) (if ltb_ℤ a newest then a else newest)

unfoldable pub median_age : Seen → ℕ → ℤ
unfolding age_range ◌+ℤ◌
median_age [] now = pos 0
median_age ((j, at) ∷ d) now =
    let (oldest, newest) = age_range now d (age now at) (age now at) in half (oldest +ℤ newest)

-- The entries younger than a cutoff.
abbrev pub younger : ℕ → ℤ → Text × ℕ → Bool
younger now cutoff (j, at) = not (leb_ℤ cutoff (age now at))

unfoldable pub evict_locked : ℕ → Seen → Seen
unfolding median_age
evict_locked now d =
    let live = keep (younger now (pos dedupe_ttl)) d in
    if not (leb max_dedupe_entries (length live))
    then live
    else keep (younger now (median_age live now)) live

-- Whether the ID was delivered within the window.
unfoldable pub fresh : ℕ → Option ℕ → Bool
fresh now none = false
fresh now (some at) = ltb_ℤ (age now at) (pos dedupe_ttl)

-- `Seen`: an empty ID is never a duplicate, and is not remembered.
unfoldable pub seen : Text → ℕ → Seen → Seen × Bool
unfolding evict_locked find put fresh
seen [] now d = (d, false)
seen (c ∷ cs) now d =
    let id = c ∷ cs in
    if fresh now (find id d)
    then (d, true)
    else (put id now (if leb max_dedupe_entries (length d) then evict_locked now d else d), false)
