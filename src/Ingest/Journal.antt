-- ===== src/Ingest/Journal.antt =====
-- The write-ahead log as ingest sees it: operations and laws, with the log of internal/wal/wal.go as
-- an instance.
use omni_logging.Common.{
  ℕ, suc, ◌+◌, ◌≤◌, ◌<◌, ◌^◌, ◌≡◌, Bool, true, Option, none, some, List, [], ◌∷◌, ◌++◌, arith,
  Bytes, length, keep, Any, ltb, if-elim, ◌⊎◌, inl, inr, sym, subst,
}
use omni_logging.Wal.Record.{Record, max_record_bytes}
use omni_logging.Wal.Log.{Wal, Answers, beyond, append, set_checkpoint, pending}
use omni_logging.Wal.Append.{IsValid, Outcome}
use omni_logging.Wal.Accept.{PendingOutcome, append-Outcome, append-pending}
use omni_logging.Wal.Checkpoint.{set_checkpoint-Advanced}
use omni_logging.Wal.Reopen.{IsTorn, reopen, reopen-Reopened}

-- What an append promises of the state behind it.
abbrev pub Appended {ℓ} :
    {S : Type ℓ} → (S → Type ℓ) → (S → ℕ) → (S → List Record) → Bytes → S → S × Option ℕ → Type ℓ
Appended Good next left payload s (s', none) = Good s' × (next s' ≡ next s) × (left s' ≡ left s)
Appended Good next left payload s (s', some seq) =
    Good s'
    × (seq ≡ next s)
    × (next s' ≡ suc (next s))
    × (left s' ≡ left s ++ record { seq = next s; payload = payload } ∷ [])

-- `Admissible` says what an append relies on: a rollback that works, a payload that a scan accepts,
-- and a number that fits. `Torn` says what a crash may leave behind the files of the log, among which
-- there may be one that was just created, and `reopen` is the log that the next process opens on them.
pub record Journal (S A : Type 0) : Type 1 where
  pub Good : S → Type 0
  pub Admissible : A → Bytes → S → Type 0
  pub next_seq : S → ℕ
  pub left : S → List Record
  pub append : A → Bytes → S → S × Option ℕ
  pub set_checkpoint : Bool → ℕ → S → S × Bool
  pub append_law :
      (io : A) (payload : Bytes) (s : S)
      → Good s
      → Admissible io payload s
      → Appended Good next_seq left payload s (append io payload s)
  pub checkpoint_law :
      (written : Bool) (seq : ℕ) (s : S)
      → Good s
      → seq < next_seq s
      → Good (set_checkpoint written seq s).0
        × (next_seq (set_checkpoint written seq s).0 ≡ next_seq s)
        × (left (set_checkpoint written seq s).0 ≡ keep (beyond seq) (left s))
  pub checkpoint_done : (seq : ℕ) (s : S) → (set_checkpoint true seq s).1 ≡ true
  pub Torn : Bytes → S → Type 0
  pub reopen : Bool → Bytes → S → S
  pub reopen_law :
      (created : Bool) (part : Bytes) (s : S)
      → Good s
      → Torn part s
      → (P : Record → Type 0) → Any P (left s)
      → Any P (left (reopen created part s))

abbrev pub Admissible : Answers → Bytes → Wal → Type 0
Admissible io payload w =
    (io.truncated ≡ true) × (length payload ≤ max_record_bytes) × (w.next_seq + 1 < 2 ^ 64)

Appended-Outcome :
    (payload : Bytes) (w : Wal) (r : Wal × Option ℕ)
    → Outcome payload w r
    → PendingOutcome payload w r
    → Appended IsValid (λ (v : Wal). v.next_seq) pending payload w r
Appended-Outcome payload w (v, none) u p = (u.valid, u.next_seq, p)
Appended-Outcome payload w (v, some seq) (e, g) p = (g.valid, e, g.next_seq, p)

pub wal-append_law :
    (io : Answers) (payload : Bytes) (w : Wal)
    → IsValid w
    → Admissible io payload w
    → Appended IsValid (λ (v : Wal). v.next_seq) pending payload w (append io payload w)
wal-append_law io payload w v (rollback, small, room) =
    Appended-Outcome payload w (append io payload w)
      (append-Outcome io payload w rollback small room v)
      (append-pending io payload w rollback small room v)

pub wal-checkpoint_law :
    (written : Bool) (seq : ℕ) (w : Wal)
    → IsValid w
    → seq < w.next_seq
    → IsValid (set_checkpoint written seq w).0
      × ((set_checkpoint written seq w).0.next_seq ≡ w.next_seq)
      × (pending (set_checkpoint written seq w).0 ≡ keep (beyond seq) (pending w))
wal-checkpoint_law written seq w v below =
    let a = set_checkpoint-Advanced written seq w v below in (a.valid, a.next_seq, a.left)

pub wal-checkpoint_done : (seq : ℕ) (w : Wal) → (set_checkpoint true seq w).1 ≡ true
unfolding set_checkpoint
wal-checkpoint_done seq w = ground arith

Any-keep :
    (P : Record → Type 0) (cp : ℕ) (rs : List Record) → Any P (keep (beyond cp) rs) → Any P rs
Any-keep P cp [] h = absurd h
Any-keep P cp (r ∷ rs) h =
    if-elim (λ xs. Any P xs → P r ⊎ Any P rs) (ltb cp r.seq)
      (λ _ m. elim m [ inl here ↦ inl here | inr rest ↦ inr (Any-keep P cp rs rest) ])
      (λ _ m. inr (Any-keep P cp rs m)) h

pub wal-reopen_law :
    (created : Bool) (part : Bytes) (w : Wal)
    → IsValid w
    → IsTorn part w
    → (P : Record → Type 0) → Any P (pending w)
    → Any P (pending (reopen created part w))
wal-reopen_law created part w v t P m =
    Any-keep P w.checkpoint (pending (reopen created part w))
      (subst (λ rs. Any P rs) (sym (reopen-Reopened created part w v t).pending_kept) m)

-- The log of internal/wal/wal.go.
abbrev pub wal_journal : Journal Wal Answers
wal_journal = record {
  Good = IsValid;
  Admissible = Admissible;
  next_seq = λ w. w.next_seq;
  left = pending;
  append = append;
  set_checkpoint = set_checkpoint;
  append_law = wal-append_law;
  checkpoint_law = wal-checkpoint_law;
  checkpoint_done = wal-checkpoint_done;
  Torn = IsTorn;
  reopen = reopen;
  reopen_law = wal-reopen_law;
}
