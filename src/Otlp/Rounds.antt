-- ===== src/Otlp/Rounds.antt =====
-- The loops over the fields of a message (internal/otlp/logs.go) come to an end: the fuel that they are
-- given is enough, and the loop is what its body makes of the next field.
use omni_logging.Common.{
  ℕ, zero, suc, ◌≤◌, ◌<◌, ◌≡◌, refl, ap, ◌∙◌, Bool, true, false, Option, none, some, arith,
  if◌then◌else◌, if-elim, ◌>>=◌, OnSuccess, OnSuccess-map, OnSuccess-then, Bytes, length,
  length-append,
}
use omni_logging.Otlp.{done, tag, skip, bytes}
use omni_logging.Otlp.Fields.{Handler, each_field_on, each_field, skipped}
use omni_logging.Otlp.Progress.{
  IsBehind, skip-IsBehind, tag-IsBehind, bytes-IsFramed, IsBehind-frame,
}

IsBehind-shorter : (buf rest : Bytes) → IsBehind buf rest → length rest < length buf
IsBehind-shorter buf rest h =
    omega (arith, ap length h.whole, length-append h.read rest, h.some_read)

-- The body never stands before the field that it was given.
abbrev pub IsForward : {S : Type 0} → Handler S → Type 0
IsForward {S} h =
    (s : S) (field wire : ℕ) (buf : Bytes)
    → OnSuccess (λ (r : S × Bytes). length r.1 ≤ length buf) (h s field wire buf)

pub skipped-forward :
    {S : Type 0} (s : S) (wire : ℕ) (buf : Bytes)
    → OnSuccess (λ (r : S × Bytes). length r.1 ≤ length buf) (skipped s wire buf)
unfolding skipped
skipped-forward {S} s wire buf = behind (skip wire buf) (skip-IsBehind wire buf)
  where
    behind :
        (o : Option Bytes)
        → OnSuccess (IsBehind buf) o
        → OnSuccess (λ (r : S × Bytes). length r.1 ≤ length buf) (o >>= λ rest. some (s, rest))
    behind none h = tt
    behind (some rest) h = omega (arith, IsBehind-shorter buf rest h)

pub bytes-forward :
    (buf : Bytes) → OnSuccess (λ (r : Bytes × Bytes). length r.1 ≤ length buf) (bytes buf)
bytes-forward buf =
    OnSuccess-map (bytes buf)
      (λ r f. omega (arith, IsBehind-shorter buf r.1 (IsBehind-frame buf r.0 r.1 f)))
      (bytes-IsFramed buf)

tag-shorter : (buf : Bytes) → OnSuccess (λ (r : ℕ × ℕ × Bytes). length r.2 < length buf) (tag buf)
tag-shorter buf = OnSuccess-map (tag buf) (λ r h. IsBehind-shorter buf r.2 h.2) (tag-IsBehind buf)

done_iff : (buf : Bytes) → done buf ≡ false → 0 < length buf
unfolding done
done_iff buf h = ground arith

done_empty : (buf : Bytes) → length buf ≤ 0 → done buf ≡ true
unfolding done
done_empty buf h = ground arith

-- A body that skips the field, or reads its payload and goes on behind it.
pub framed-forward :
    {S X : Type 0} (b : Bool) (s : S) (wire : ℕ) (f : Bytes → Option X) (g : Bytes → X → S)
    (buf : Bytes)
    → OnSuccess
        (λ (r : S × Bytes). length r.1 ≤ length buf)
        (if b
          then skipped s wire buf
          else (do (payload, behind) ← bytes buf; x ← f payload; some (g payload x, behind)))
framed-forward {S} {X} b s wire f g buf =
    if-elim (OnSuccess (λ (r : S × Bytes). length r.1 ≤ length buf)) b
      (λ _. skipped-forward s wire buf)
      (λ _.
        OnSuccess-then (λ (r : S × Bytes). length r.1 ≤ length buf) (bytes buf)
          (λ (r : Bytes × Bytes). f r.0 >>= λ (x : X). some (g r.0 x, r.1)) (bytes-forward buf)
          (λ r k. read (f r.0) (λ x. g r.0 x) r.1 k))
  where
    read :
        (o : Option X) (g : X → S) (behind : Bytes)
        → length behind ≤ length buf
        → OnSuccess (λ (r : S × Bytes). length r.1 ≤ length buf) (o >>= λ x. some (g x, behind))
    read none g behind k = tt
    read (some x) g behind k = k

-- Two continuations that agree on what a result can be agree behind it.
pub bind-agree :
    {A B : Type 0} (P : A → Type 0) (f g : A → Option B)
    → ((a : A) → P a → f a ≡ g a)
    → (o : Option A) → OnSuccess P o
    → (o >>= f) ≡ (o >>= g)
bind-agree P f g h none k = refl
bind-agree P f g h (some a) k = h a k

-- One round of a loop whose later rounds are `again`.
abbrev pub round : {S : Type 0} → Handler S → (S → Bytes → Option S) → S → Bytes → Option S
round h again s buf =
    if done buf
    then some s
    else (do (field, wire, rest) ← tag buf; (next, behind) ← h s field wire rest; again next behind)

module _ {S : Type 0} (h : Handler S) (forward : IsForward h) where
  round-agree :
      (f g : S → Bytes → Option S) (s : S) (buf : Bytes)
      → ((t : S) (behind : Bytes) → length behind < length buf → f t behind ≡ g t behind)
      → round h f s buf ≡ round h g s buf
  round-agree f g s buf same =
      ap (λ (o : Option S). if done buf then some s else o)
        (bind-agree (λ r. length r.2 < length buf)
          (λ (r : ℕ × ℕ × Bytes). h s r.0 r.1 r.2 >>= λ (t : S × Bytes). f t.0 t.1)
          (λ (r : ℕ × ℕ × Bytes). h s r.0 r.1 r.2 >>= λ (t : S × Bytes). g t.0 t.1)
          (λ r k.
            bind-agree (λ t. length t.1 ≤ length r.2) (λ (t : S × Bytes). f t.0 t.1)
              (λ (t : S × Bytes). g t.0 t.1) (λ t j. same t.0 t.1 (omega (arith, j, k)))
              (h s r.0 r.1 r.2) (forward s r.0 r.1 r.2))
          (tag buf) (tag-shorter buf))

  -- Any fuel that has a round for each byte gives the same answer.
  pub each_field_on-fuel :
      (n m : ℕ) (s : S) (buf : Bytes)
      → length buf ≤ n
      → length buf ≤ m
      → each_field_on n h s buf ≡ each_field_on m h s buf
  unfolding each_field_on
  each_field_on-fuel zero zero s buf p q = refl
  each_field_on-fuel zero (suc m) s buf p q = rw (done_empty buf p) refl
  each_field_on-fuel (suc n) zero s buf p q = rw (done_empty buf q) refl
  each_field_on-fuel (suc n) (suc m) s buf p q =
      round-agree (each_field_on n h) (each_field_on m h) s buf
        (λ t behind k. each_field_on-fuel n m t behind (omega (arith, k)) (omega (arith, k)))

  -- The loop, as the code has it: nothing is left, or the next field is read and the loop goes on
  -- behind it.
  pub each_field-loop : (s : S) (buf : Bytes) → each_field h s buf ≡ round h (each_field h) s buf
  unfolding each_field each_field_on
  each_field-loop s buf =
      each_field_on-fuel (length buf) (suc (length buf)) s buf (omega arith) (omega arith)
      ∙ round-agree (each_field_on (length buf) h) (each_field h) s buf (λ t behind k.
        each_field_on-fuel (length buf) (length behind) t behind (omega (arith, k)) (omega arith))
