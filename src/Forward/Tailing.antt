-- ===== src/Forward/Tailing.antt =====
-- The reading side of internal/forward/forward.go: `tail` follows a file by polling it, and `send` gathers the lines
-- into batches. The file system is an argument: what `os.Stat` and the reading of the file give at each poll. A tail
-- that the end of the context stops in the middle of a poll is left out.
use omni_logging.Common.{
  ℕ, ◌+◌, Bool, true, not, ◌||◌, Option, none, some, List, [], ◌∷◌, ◌++◌, if◌then◌else◌, ltb, leb,
  ◌==◌, Bytes, length, drop,
}
use omni_logging.Common.Strings.{trim_left}
use mathlib.Core.List.{reverse}

-- Where a tail stands: the offset, and the identity of the file that it belongs to.
pub record Tail : Type 0 where
  pub offset : ℕ
  pub known : Option ℕ

-- `os.Stat`: the file that the path leads to, and its size.
pub record Stat : Type 0 where
  pub identity : ℕ
  pub size : ℕ

-- One poll: the stat, and what the open file holds by the time it is read to its end.
pub record Poll : Type 0 where
  pub stat : Option Stat
  pub content : Option Bytes

unfoldable pub start_tail : Bool → Option Stat → Tail
start_tail from_start none = record { offset = 0; known = none }
start_tail from_start (some fi) = record {
  offset = if from_start then 0 else fi.size;
  known = some fi.identity;
}

-- strings.TrimRight(line, "\r\n")
unfoldable pub trim_line : Bytes → Bytes
unfolding trim_left
trim_line line = reverse (trim_left (λ c. c == 13 || c == 10) (reverse line))

unfoldable pub emit : Bytes → List Bytes
emit [] = []
emit (c ∷ line) = (c ∷ line) ∷ []

-- The loop over `ReadString('\n')` behind what is read of a line: the lines that it emits, and the bytes of the
-- complete ones.
unfoldable pub scan_lines : Bytes → Bytes → List Bytes × ℕ
unfolding trim_line emit
scan_lines cur [] = ([], 0)
scan_lines cur (c ∷ rest) =
    let next = scan_lines [] rest in
    let more = scan_lines (cur ++ c ∷ []) rest in
    if c == 10
    then (emit (trim_line (cur ++ c ∷ [])) ++ next.0, length (cur ++ c ∷ []) + next.1)
    else more

-- The reading of an open file from the offset on.
unfoldable pub read_lines : Tail → Bytes → Tail × List Bytes
unfolding scan_lines
read_lines t content =
    let (lines, n) = scan_lines [] (drop t.offset content) in
    (record t { offset = t.offset + n }, lines)

unfoldable pub same_file : Option ℕ → ℕ → Bool
same_file none identity = true
same_file (some known) identity = known == identity

-- The offset in the file that is there now: 0 where it was rotated or truncated.
unfoldable pub located : Tail → Stat → Tail
unfolding same_file
located t fi = record {
  offset = if not (same_file t.known fi.identity) || ltb fi.size t.offset then 0 else t.offset;
  known = some fi.identity;
}

unfoldable pub read_opened : Tail → Option Bytes → Tail × List Bytes
unfolding read_lines
read_opened t none = (t, [])
read_opened t (some content) = read_lines t content

unfoldable pub poll_found : Tail → Stat → Option Bytes → Tail × List Bytes
unfolding read_opened
poll_found t fi content =
    let read = read_opened t content in if fi.size == t.offset then (t, []) else read

-- One round of the loop of `tail`: where the tail stands behind it, and the lines that it sends.
unfoldable pub poll_on : Tail → Option Stat → Option Bytes → Tail × List Bytes
unfolding poll_found located
poll_on t none content = (t, [])
poll_on t (some fi) content = poll_found (located t fi) fi content

unfoldable pub poll : Tail → Poll → Tail × List Bytes
unfolding poll_on
poll t p = poll_on t p.stat p.content

-- What wakes `send`: a line, the ticker, the end of the lines or that of the context.
pub data SendEvent : Type 0 where
  line : Bytes → SendEvent
  tick closed cancelled : SendEvent

unfoldable pub flush : List Bytes → List (List Bytes)
flush [] = []
flush (l ∷ ls) = (l ∷ ls) ∷ []

-- `send`, from a batch on: the batches that it delivers, and the one that it still holds.
unfoldable pub send : ℕ → List Bytes → List SendEvent → List (List Bytes) × List Bytes
unfolding flush
send size batch [] = ([], batch)
send size batch (line l ∷ es) =
    let full = send size [] es in
    let more = send size (batch ++ l ∷ []) es in
    if leb size (length (batch ++ l ∷ []))
    then (flush (batch ++ l ∷ []) ++ full.0, full.1)
    else more
send size batch (tick ∷ es) = let rest = send size [] es in (flush batch ++ rest.0, rest.1)
send size batch (closed ∷ es) = (flush batch, [])
send size batch (cancelled ∷ es) = (flush batch, [])
