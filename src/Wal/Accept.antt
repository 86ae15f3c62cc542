-- ===== src/Wal/Accept.antt =====
-- The whole of `Append` of internal/wal/wal.go, from the rotation to the fsync.
use omni_logging.Common.{
  ℕ, suc, ◌+◌, ◌≤◌, ◌<◌, ◌^◌, ◌≡◌, refl, ap, subst, ◌∙◌, true, false, ◌&&◌, Option, none, some, [],
  ◌∷◌, ◌++◌, arith, if-elim, Bytes, length, take, keep, keep-append, lt→ltb, if◌then◌else◌,
}
use omni_logging.Wal.Record.{encode_record, max_record_bytes}
use omni_logging.Wal.Log.{
  Wal, Answers, sync_record, write_record, ensure_active, rotate_if_full, append, all_records,
  beyond, pending, needs_rotation, rotate_locked, open_new_segment_locked,
}
use omni_logging.Wal.Append.{
  IsValid, Unchanged, Grown, Outcome, Unchanged-short, Grown-grow, Unchanged-shrink,
  rotate_if_full-Unchanged, ensure_active-Opened,
}

abbrev record_of : Wal → Bytes → Bytes
record_of w payload = encode_record (record { seq = w.next_seq; payload = payload })

Unchanged-trans : (w u v : Wal) → Unchanged w u → Unchanged u v → Unchanged w v
Unchanged-trans w u v a b = record {
  valid = b.valid;
  next_seq = b.next_seq ∙ a.next_seq;
  checkpoint = b.checkpoint ∙ a.checkpoint;
  records = b.records ∙ a.records;
}

Outcome-trans :
    (payload : Bytes) (w u : Wal) (r : Wal × Option ℕ)
    → Unchanged w u
    → Outcome payload u r
    → Outcome payload w r
Outcome-trans payload w u (v, none) a o = Unchanged-trans w u v a o
Outcome-trans payload w u (v, some seq) a (e, g) = (
  e ∙ a.next_seq,
  record {
    valid = g.valid;
    next_seq = g.next_seq ∙ ap (λ n. suc n) a.next_seq;
    checkpoint = g.checkpoint ∙ a.checkpoint;
    records = g.records ∙ λ i. a.records i ++ record { seq = a.next_seq i; payload = payload } ∷ [];
  },
)

write_record-Outcome :
    (io : Answers) (payload : Bytes) (w : Wal)
    → io.truncated ≡ true
    → length payload ≤ max_record_bytes
    → w.next_seq + 1 < 2 ^ 64
    → IsValid w
    → w.active ≡ true
    → Outcome payload w (write_record io w.next_seq (record_of w payload) w)
write_record-Outcome io payload w rollback small room v is_open = go io.cut_short refl
  where
    go :
        (c : Option ℕ)
        → io.cut_short ≡ c
        → Outcome payload w (write_record io w.next_seq (record_of w payload) w)
    go (some k) e =
        unfold write_record in
        rw (e, write_record)
          (Unchanged-short io rollback w v is_open room (take k (record_of w payload)))
    go none e =
        unfold write_record sync_record in
        rw (e, write_record)
          (if-elim (Outcome payload w) (w.sync_on_append && (if io.synced then false else true))
            (λ _. Unchanged-shrink io rollback w v is_open room (record_of w payload))
            (λ _. (refl, Grown-grow io rollback w v is_open room payload small)))

-- Behind the rotation.
append_open-Outcome :
    (io : Answers) (payload : Bytes) (w : Wal)
    → io.truncated ≡ true
    → length payload ≤ max_record_bytes
    → w.next_seq + 1 < 2 ^ 64
    → IsValid w
    → Outcome payload w (
        let (u, opened) = ensure_active io.created w.next_seq w in
        if opened then write_record io w.next_seq (record_of w payload) u else (u, none))
append_open-Outcome io payload w rollback small room v =
    let found = ensure_active-Opened io.created w v in
    let u : Wal = (ensure_active io.created w.next_seq w).0 in
    let same = found.0 in
    if-elim (Outcome payload w) (ensure_active io.created w.next_seq w).1
      (λ e.
        subst
          (λ n.
            Outcome payload w
              (write_record io n (encode_record (record { seq = n; payload = payload })) u))
          same.next_seq
          (Outcome-trans payload w u _ same (
            write_record-Outcome io payload u rollback small (omega (arith, same.next_seq))
              same.valid (found.1 e))))
      (λ _. same)

-- A call of `Append` whose rollback, if it needs one, succeeds keeps the invariant on every branch. If
-- it returns a number, that is the next one, and the log holds one more record, last, under it; if it
-- returns an error, the records, the next number and the checkpoint are what they were. The payload is
-- at most 64 MiB and the next number is below the uint64 limit.
pub append-Outcome :
    (io : Answers) (payload : Bytes) (w : Wal)
    → io.truncated ≡ true
    → length payload ≤ max_record_bytes
    → w.next_seq + 1 < 2 ^ 64
    → IsValid w
    → Outcome payload w (append io payload w)
unfolding append
append-Outcome io payload w rollback small room v =
    let len : ℕ = length (record_of w payload) in
    let u : Wal = (rotate_if_full io.rotated len w).0 in
    let same = rotate_if_full-Unchanged io.rotated len w v in
    if-elim (Outcome payload w) (rotate_if_full io.rotated len w).1
      (λ e.
        subst
          (λ n. Outcome payload w (
            let (x, opened) = ensure_active io.created n u in
            if opened
            then write_record io n (encode_record (record { seq = n; payload = payload })) x
            else (x, none)))
          same.next_seq
          (Outcome-trans payload w u _ same (
            append_open-Outcome io payload u rollback small (omega (arith, same.next_seq))
              same.valid)))
      (λ _. same)

append_returns :
    (io : Answers) (payload : Bytes) (w : Wal)
    → io.rotated ≡ true
    → io.created ≡ true
    → io.cut_short ≡ none
    → io.synced ≡ true
    → (append io payload w).1 ≡ some w.next_seq
unfolding append rotate_if_full ensure_active write_record sync_record rotate_locked needs_rotation
    open_new_segment_locked
append_returns io payload w rotated created whole synced = ground arith

-- An accepted record is the last one that `Replay` visits; a refused one changes nothing it visits.
abbrev pub PendingOutcome : Bytes → Wal → Wal × Option ℕ → Type 0
PendingOutcome payload w (v, none) = pending v ≡ pending w
PendingOutcome payload w (v, some seq) =
    pending v ≡ pending w ++ record { seq = w.next_seq; payload = payload } ∷ []

pending_of_Outcome :
    (payload : Bytes) (w : Wal) (r : Wal × Option ℕ)
    → IsValid w
    → Outcome payload w r
    → PendingOutcome payload w r
unfolding pending
pending_of_Outcome payload w (v, none) _ u = λ i. keep (beyond (u.checkpoint i)) (u.records i)
pending_of_Outcome payload w (v, some seq) valid (_, g) =
    (λ i. keep (beyond (g.checkpoint i)) (g.records i))
    ∙ keep-append (beyond w.checkpoint) (all_records w.segments) _
    ∙ rw (lt→ltb w.checkpoint w.next_seq valid.applied)

-- A record that `Append` accepts is the last one that `Replay` visits, behind those it visited before; a
-- refused one changes nothing that it visits. The rollback, if it is needed, succeeds, the payload is
-- at most 64 MiB, the next number is below the uint64 limit, and the log is valid.
pub append-pending :
    (io : Answers) (payload : Bytes) (w : Wal)
    → io.truncated ≡ true
    → length payload ≤ max_record_bytes
    → w.next_seq + 1 < 2 ^ 64
    → IsValid w
    → PendingOutcome payload w (append io payload w)
append-pending io payload w rollback small room v =
    pending_of_Outcome payload w (append io payload w) v
      (append-Outcome io payload w rollback small room v)

-- What an append that is accepted leaves.
abbrev pub Accepted : Bytes → Wal → Wal × Option ℕ → Type 0
Accepted payload w r =
    (r.1 ≡ some w.next_seq)
    × Grown payload w r.0
    × (pending r.0 ≡ pending w ++ record { seq = w.next_seq; payload = payload } ∷ [])

Accepted-Outcome :
    (payload : Bytes) (w : Wal) (r : Wal × Option ℕ)
    → r.1 ≡ some w.next_seq
    → Outcome payload w r
    → PendingOutcome payload w r
    → Accepted payload w r
Accepted-Outcome payload w (v, none) e o p = absurd (cc)
Accepted-Outcome payload w (v, some seq) e (_, g) p = (e, g, p)

-- Where no call of the operating system fails, `Append` to a valid log accepts the record, with a
-- rotation or without: it returns the next number, the records of the log are those of before and
-- this one last, the next number is one more, and a replay visits the record last, behind those that
-- it would have visited. The payload is at most 64 MiB, and the next number below the uint64 limit.
pub append-accepts :
    (io : Answers) (payload : Bytes) (w : Wal)
    → io.rotated ≡ true
    → io.created ≡ true
    → io.cut_short ≡ none
    → io.truncated ≡ true
    → io.synced ≡ true
    → length payload ≤ max_record_bytes
    → w.next_seq + 1 < 2 ^ 64
    → IsValid w
    → Accepted payload w (append io payload w)
append-accepts io payload w rotated created whole rollback synced small room v =
    Accepted-Outcome payload w (append io payload w)
      (append_returns io payload w rotated created whole synced)
      (append-Outcome io payload w rollback small room v)
      (append-pending io payload w rollback small room v)
