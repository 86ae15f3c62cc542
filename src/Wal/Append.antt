-- ===== src/Wal/Append.antt =====
-- `Append` of internal/wal/wal.go on every branch: rotation, creation, a short write, a failed sync.
use omni_logging.Common.{
  ℕ, suc, ◌+◌, ◌-◌, ◌%◌, ◌≤◌, ◌<◌, ◌^◌, ◌≡◌, ◌≢◌, refl, sym, ap, ◌∙◌, Bool, true, false, Option,
  none, some, List, [], ◌∷◌, ◌++◌, arith, if-elim, Bytes, length, take, length-append, take-append,
}
use omni_logging.Wal.Record.{Record, encode_record, max_record_bytes}
use omni_logging.Wal.Scan.{Fits}
use omni_logging.Wal.Log.{
  Segment, Wal, Answers, in_last, truncate, rotate_locked, open_new_segment_locked, needs_rotation,
  ensure_active, rotate_if_full, last_size, all_records, read_checkpoint,
}
use omni_logging.Wal.Chain.{Chain, Chain-new, Chain-write, all_records-new, all_records-write}

-- The invariant of the log: whole records in increasing order, a next number above all of them and
-- above the checkpoint, an active segment whose length is known, and a checkpoint's file that is not
-- ahead.
pub record IsValid (w : Wal) : Type 0 where
  pub chain : Chain w.segments w.next_seq
  pub bounded : w.next_seq < 2 ^ 64
  pub applied : w.checkpoint < w.next_seq
  pub opened : w.active ≡ true → (w.segments ≢ []) × (last_size w.segments ≡ w.active_size)
  pub saved : read_checkpoint w.checkpoint_file ≤ w.checkpoint

-- The same records, numbers and checkpoint.
pub record Unchanged (w v : Wal) : Type 0 where
  pub valid : IsValid v
  pub next_seq : v.next_seq ≡ w.next_seq
  pub checkpoint : v.checkpoint ≡ w.checkpoint
  pub records : all_records v.segments ≡ all_records w.segments

-- One more record, under the number that the caller gets.
pub record Grown (payload : Bytes) (w v : Wal) : Type 0 where
  pub valid : IsValid v
  pub next_seq : v.next_seq ≡ suc w.next_seq
  pub checkpoint : v.checkpoint ≡ w.checkpoint
  pub records :
      all_records v.segments
      ≡ all_records w.segments ++ record { seq = w.next_seq; payload = payload } ∷ []

abbrev pub Outcome : Bytes → Wal → Wal × Option ℕ → Type 0
Outcome payload w (v, none) = Unchanged w v
Outcome payload w (v, some seq) = (seq ≡ w.next_seq) × Grown payload w v

in_last-ne-nil : (f : Bytes → Bytes) (ss : List Segment) → ss ≢ [] → in_last f ss ≢ []
unfolding in_last
in_last-ne-nil f [] h = absurd (h refl)
in_last-ne-nil f (s ∷ []) h = cc
in_last-ne-nil f (s ∷ t ∷ ss) h = cc

last_size-write :
    (x : Bytes) (ss : List Segment)
    → ss ≢ []
    → last_size (in_last (λ c. c ++ x) ss) ≡ last_size ss + length x
unfolding last_size in_last
last_size-write x [] h = absurd (h refl)
last_size-write x (s ∷ []) h = length-append s.content x
last_size-write x (s ∷ t ∷ []) h = last_size-write x (t ∷ []) (cc)
last_size-write x (s ∷ t ∷ u ∷ ss) h = last_size-write x (t ∷ u ∷ ss) (cc)

-- Cutting the active file back to its old length undoes a write, complete or not.
cut_back :
    (x : Bytes) (n : ℕ) (ss : List Segment)
    → n ≡ last_size ss
    → in_last (λ c. take n (c ++ x)) ss ≡ ss
unfolding last_size in_last
cut_back x n [] e = refl
cut_back x n (s ∷ []) e = ap (λ c. record s { content = c } ∷ []) (take-append s.content x n e)
cut_back x n (s ∷ t ∷ ss) e = ap (λ r. s ∷ r) (cut_back x n (t ∷ ss) e)

in_last-in_last :
    (f g : Bytes → Bytes) (ss : List Segment) → in_last f (in_last g ss) ≡ in_last (λ c. f (g c)) ss
unfolding in_last
in_last-in_last f g [] = refl
in_last-in_last f g (s ∷ []) = refl
in_last-in_last f g (s ∷ t ∷ []) = refl
in_last-in_last f g (s ∷ t ∷ u ∷ ss) = ap (λ r. s ∷ r) (in_last-in_last f g (t ∷ u ∷ ss))

last_size-new :
    (ss : List Segment) (start : ℕ)
    → (ss ++ record { start_seq = start; content = [] } ∷ [] ≢ [])
      × (last_size (ss ++ record { start_seq = start; content = [] } ∷ []) ≡ 0)
unfolding last_size
last_size-new [] start = (cc, refl)
last_size-new (s ∷ []) start = (cc, refl)
last_size-new (s ∷ t ∷ ss) start = (cc, (last_size-new (t ∷ ss) start).1)

pub Unchanged-refl : (w : Wal) → IsValid w → Unchanged w w
Unchanged-refl w v = record { valid = v; next_seq = refl; checkpoint = refl; records = refl }

Unchanged-retired :
    (w : Wal) → IsValid w → Unchanged w (record w { active = false; active_size = 0 })
Unchanged-retired w v = record {
  valid = record {
    chain = v.chain;
    bounded = v.bounded;
    applied = v.applied;
    opened = λ p. cc;
    saved = v.saved;
  };
  next_seq = refl;
  checkpoint = refl;
  records = refl;
}

pub rotate_if_full-Unchanged :
    (ok : Bool) (len : ℕ) (w : Wal) → IsValid w → Unchanged w (rotate_if_full ok len w).0
unfolding rotate_if_full rotate_locked
rotate_if_full-Unchanged ok len w v =
    if-elim (λ (r : Wal × Bool). Unchanged w r.0) (needs_rotation len w)
      (λ _.
        if-elim (λ (r : Wal × Bool). Unchanged w r.0) w.active (λ _. Unchanged-retired w v)
          (λ _. Unchanged-refl w v))
      (λ _. Unchanged-refl w v)

Unchanged-new :
    (w : Wal)
    → IsValid w
    → Unchanged w (record w {
      active = true;
      active_size = 0;
      segments = w.segments ++ record { start_seq = w.next_seq; content = [] } ∷ [];
    })
Unchanged-new w v = record {
  valid = record {
    chain = Chain-new w.segments w.next_seq v.chain;
    bounded = v.bounded;
    applied = v.applied;
    opened = λ p. last_size-new w.segments w.next_seq;
    saved = v.saved;
  };
  next_seq = refl;
  checkpoint = refl;
  records = all_records-new w.segments w.next_seq;
}

-- With a segment open, or one created.
abbrev pub Opened : Wal → Wal × Bool → Type 0
Opened w (v, ok) = Unchanged w v × (ok ≡ true → v.active ≡ true)

pub ensure_active-Opened :
    (ok : Bool) (w : Wal) → IsValid w → Opened w (ensure_active ok w.next_seq w)
unfolding ensure_active open_new_segment_locked
ensure_active-Opened ok w v =
    if-elim (Opened w) w.active (λ e. (Unchanged-refl w v, λ _. e))
      (λ _.
        if-elim (Opened w) ok (λ _. (Unchanged-new w v, λ _. refl))
          (λ _. (Unchanged-refl w v, λ h. cc)))

-- The state behind a complete write.
abbrev pub grow : Bytes → Wal → Wal
grow rec w = record w {
  segments = in_last (λ c. c ++ rec) w.segments;
  active_size = w.active_size + length rec;
  next_seq = (w.next_seq + 1) % 2 ^ 64;
}

-- The state behind the rollback of a complete write.
abbrev pub shrink : Answers → ℕ → Wal → Wal
shrink io len w = record w {
  active_size = w.active_size - len;
  next_seq = (w.next_seq + 2 ^ 64 - 1) % 2 ^ 64;
  segments = in_last (truncate io.truncated (w.active_size - len)) w.segments;
}

module _ (io : Answers) (rollback : io.truncated ≡ true) (w : Wal) (v : IsValid w)
    (is_open : w.active ≡ true) (room : w.next_seq + 1 < 2 ^ 64) where
  -- A write that failed part of the way, cut off.
  pub Unchanged-short :
      (part : Bytes)
      → Unchanged w (record w {
        segments = in_last (λ c. truncate io.truncated w.active_size (c ++ part)) w.segments;
      })
  unfolding truncate
  Unchanged-short part =
      let same = cut_back part w.active_size w.segments (sym (v.opened is_open).1) in
      rw (rollback, same) (Unchanged-refl w v)

  pub Grown-grow :
      (payload : Bytes)
      → length payload ≤ max_record_bytes
      → Grown payload w (grow (encode_record (record { seq = w.next_seq; payload = payload })) w)
  Grown-grow payload small =
      let r : Record = record { seq = w.next_seq; payload = payload } in
      let fits : Fits r = record { seq_lt = v.bounded; payload_le = small } in
      let some_segment = (v.opened is_open).0 in
      let next : (w.next_seq + 1) % 2 ^ 64 ≡ suc w.next_seq = omega arith in
      record {
        valid = record {
          chain = rw next (Chain-write w.segments r some_segment fits v.chain);
          bounded = omega arith;
          applied = omega (arith, v.applied);
          opened = λ _. (
            in_last-ne-nil (λ c. c ++ encode_record r) w.segments some_segment,
            last_size-write (encode_record r) w.segments some_segment
                ∙ ap (λ n. n + length (encode_record r)) (v.opened is_open).1,
          );
          saved = v.saved;
        };
        next_seq = next;
        checkpoint = refl;
        records = all_records-write w.segments r some_segment fits v.chain;
      }

  -- A record that was written and could not be synced, cut off.
  pub Unchanged-shrink : (rec : Bytes) → Unchanged w (shrink io (length rec) (grow rec w))
  unfolding truncate
  Unchanged-shrink rec =
      let size : w.active_size + length rec - length rec ≡ w.active_size = omega arith in
      let back : ((w.next_seq + 1) % 2 ^ 64 + 2 ^ 64 - 1) % 2 ^ 64 ≡ w.next_seq =
        omega (arith, v.bounded) in
      let undone =
        in_last-in_last (truncate true w.active_size) (λ c. c ++ rec) w.segments
        ∙ cut_back rec w.active_size w.segments (sym (v.opened is_open).1) in
      rw (rollback, size, back) (rw undone (Unchanged-refl w v))
