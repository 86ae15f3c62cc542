-- ===== src/Dedupe/Window.antt =====
-- The window and the size of the deduper (internal/ingest/dedupe.go).
use omni_logging.Common.{
  ℕ, suc, ◌+◌, ◌≤◌, ◌<◌, ◌≡◌, ◌≢◌, refl, sym, ◌∙◌, ◌⊎◌, inl, inr, Bool, true, false, not, some,
  List, [], ◌∷◌, arith, leb, if◌then◌else◌, if-elim, Bool-cases, leb→le, leb→lt, Text, same,
  same_iff, length, keep, All, Any, Any-map,
}
use omni_logging.Common.Int.{ℤ, pos, ◌≤ℤ◌, ltb_ℤ, leb_ℤ, ◌+ℤ◌}
use omni_logging.Dedupe.{
  Seen, dedupe_ttl, max_dedupe_entries, age, find, put, half, age_range, median_age, younger,
  evict_locked, fresh, seen,
}

length-put : (id : Text) (at : ℕ) (d : Seen) → length (put id at d) ≤ suc (length d)
unfolding put
length-put id at [] = omega arith
length-put id at ((j, t) ∷ d) = ground (arith, length-put id at d)

length-keep : {A : Type 0} (p : A → Bool) (xs : List A) → length (keep p xs) ≤ length xs
length-keep p [] = omega arith
length-keep p (x ∷ xs) = ground (arith, length-keep p xs)

-- A filter that drops an element shortens the list.
length-keep-lt :
    {A : Type 0} (p : A → Bool) (xs : List A)
    → Any (λ x. p x ≡ false) xs
    → length (keep p xs) < length xs
length-keep-lt p (x ∷ xs) (inl h) = rw h (omega (arith, length-keep p xs))
length-keep-lt p (x ∷ xs) (inr m) = ground (arith, length-keep-lt p xs m)
length-keep-lt p [] m = absurd m

-- The oldest age stands in the list or is the one to begin with, and is no less than the newest.
age_range_oldest :
    (now : ℕ) (d : Seen) (oldest newest : ℤ)
    → newest ≤ℤ oldest
    → ((age_range now d oldest newest).1 ≤ℤ (age_range now d oldest newest).0)
      × (((age_range now d oldest newest).0 ≡ oldest)
          ⊎ Any (λ (e : Text × ℕ). age now e.1 ≡ (age_range now d oldest newest).0) d)
unfolding age_range
age_range_oldest now [] oldest newest h = (h, inl refl)
age_range_oldest now ((j, at) ∷ d) oldest newest h =
    let a : ℤ = age now at in
    let top : ℤ = if ltb_ℤ oldest a then a else oldest in
    let low : ℤ = if ltb_ℤ a newest then a else newest in
    let (order, place) = age_range_oldest now d top low (ground arith) in
    (
      order,
      elim place [
        | inl start ↦ elim (Bool-cases (ltb_ℤ oldest a)) [
          | inl e ↦ inr (inl (sym (start ∙ rw e)))
          | inr e ↦ inl (start ∙ rw e)
        ]
        | inr m ↦ inr (inr m)
      ],
    )

half-le : (a b : ℤ) → b ≤ℤ a → half (a +ℤ b) ≤ℤ a
unfolding ◌+ℤ◌
half-le a b h = ground arith

-- Some entry is as old as the cutoff.
median_age_reached :
    (now : ℕ) (d : Seen)
    → 0 < length d
    → Any (λ (e : Text × ℕ). younger now (median_age d now) e ≡ false) d
unfolding median_age
median_age_reached now [] h = absurd (omega arith)
median_age_reached now ((j, at) ∷ d) h =
    let a : ℤ = age now at in
    let (order, place) = age_range_oldest now d a a (omega arith) in
    let (oldest, newest) = age_range now d a a in
    let cut : half (oldest +ℤ newest) ≤ℤ oldest = half-le oldest newest order in
    elim place [
      | inl start ↦ inl (
          old_enough a (half (oldest +ℤ newest))
            (cut_at a oldest (half (oldest +ℤ newest)) (sym start) cut))
      | inr m ↦ inr (
          Any-map d
            (λ e same_age.
              old_enough (age now e.1) (half (oldest +ℤ newest))
                (cut_at (age now e.1) oldest (half (oldest +ℤ newest)) same_age cut))
            m)
    ]
  where
    cut_at : (x y c : ℤ) → x ≡ y → c ≤ℤ y → c ≤ℤ x
    cut_at x y c e h = rw e h

    old_enough : (x c : ℤ) → c ≤ℤ x → not (leb_ℤ c x) ≡ false
    old_enough x c h = ground arith

evict_locked-lt :
    (now : ℕ) (d : Seen)
    → length d ≤ max_dedupe_entries
    → length (evict_locked now d) < max_dedupe_entries
unfolding evict_locked
evict_locked-lt now d h =
    let live : Seen = keep (younger now (pos dedupe_ttl)) d in
    let fewer : length live ≤ length d = length-keep (younger now (pos dedupe_ttl)) d in
    if-elim (λ (x : Seen). length x < max_dedupe_entries)
      (not (leb max_dedupe_entries (length live))) (λ room. ground arith)
      (λ full. omega (
        arith,
        length-keep-lt (younger now (median_age live now)) live
            (median_age_reached now live (ground arith)),
      ))

-- A table within its limit stays within it, whatever the ID and the times.
pub length-seen :
    (id : Text) (now : ℕ) (d : Seen)
    → length d ≤ max_dedupe_entries
    → length (seen id now d).0 ≤ max_dedupe_entries
unfolding seen
length-seen [] now d h = h
length-seen (c ∷ cs) now d h =
    if-elim (λ (r : Seen × Bool). length r.0 ≤ max_dedupe_entries) (fresh now (find (c ∷ cs) d))
      (λ _. h)
      (λ _.
        if-elim (λ (x : Seen). length (put (c ∷ cs) now x) ≤ max_dedupe_entries)
          (leb max_dedupe_entries (length d))
          (λ _.
            omega (arith, evict_locked-lt now d h, length-put (c ∷ cs) now (evict_locked now d)))
          (λ room.
            omega (arith, leb→lt max_dedupe_entries (length d) room, length-put (c ∷ cs) now d)))

find-put_self : (id : Text) (at : ℕ) (d : Seen) → find id (put id at d) ≡ some at
unfolding find put
find-put_self id at [] = rw (same_iff id id).1 refl
find-put_self id at ((j, t) ∷ d) = elim (Bool-cases (same j id)) [
  | inl e ↦ rw (e, e)
  | inr e ↦ rw (e, e) (find-put_self id at d)
]

find-put_ne : (id j : Text) (at : ℕ) (d : Seen) → id ≢ j → find j (put id at d) ≡ find j d
unfolding find put
find-put_ne id j at [] h = ground (arith, same_iff id j)
find-put_ne id j at ((k, t) ∷ d) h =
    ground (arith, same_iff id j, same_iff k id, same_iff k j, find-put_ne id j at d h)

-- A delivery of another batch, below the limit, keeps what is remembered of this one.
find-seen_ne :
    (id j : Text) (now : ℕ) (d : Seen)
    → id ≢ j
    → length d < max_dedupe_entries
    → (find j (seen id now d).0 ≡ find j d) × (length (seen id now d).0 ≤ suc (length d))
unfolding seen
find-seen_ne [] j now d h room = (refl, omega arith)
find-seen_ne (c ∷ cs) j now d h room =
    if-elim (λ (r : Seen × Bool). (find j r.0 ≡ find j d) × (length r.0 ≤ suc (length d)))
      (fresh now (find (c ∷ cs) d)) (λ _. (refl, omega arith))
      (λ _.
        if-elim
          (λ (x : Seen).
            (find j (put (c ∷ cs) now x) ≡ find j d)
            × (length (put (c ∷ cs) now x) ≤ suc (length d)))
          (leb max_dedupe_entries (length d))
          (λ full. absurd (omega (arith, leb→le max_dedupe_entries (length d) full)))
          (λ _. (find-put_ne (c ∷ cs) j now d h, length-put (c ∷ cs) now d)))

-- Deliveries one after another, each an ID and a time.
abbrev pub seen_all : List (Text × ℕ) → Seen → Seen
seen_all [] d = d
seen_all ((id, now) ∷ rest) d = seen_all rest (seen id now d).0

-- The table is below its limit whenever one of the batches arrives.
abbrev pub HasRoom : List (Text × ℕ) → Seen → Type 0
HasRoom [] d = Unit
HasRoom ((id, now) ∷ rest) d = (length d < max_dedupe_entries) × HasRoom rest (seen id now d).0

find-seen_all :
    (j : Text) (reqs : List (Text × ℕ)) (d : Seen)
    → All (λ (q : Text × ℕ). q.0 ≢ j) reqs
    → HasRoom reqs d
    → find j (seen_all reqs d) ≡ find j d
find-seen_all j [] d _ _ = refl
find-seen_all j ((id, now) ∷ rest) d (h, hs) (room, more) =
    find-seen_all j rest (seen id now d).0 hs more ∙ (find-seen_ne id j now d h room).0

seen_recorded :
    (c : ℕ) (cs : Text) (at : ℕ) (d : Seen)
    → (seen (c ∷ cs) at d).1 ≡ false
    → length d < max_dedupe_entries
    → (find (c ∷ cs) (seen (c ∷ cs) at d).0 ≡ some at)
      × (length (seen (c ∷ cs) at d).0 ≤ suc (length d))
unfolding seen
seen_recorded c cs at d first room =
    if-elim
      (λ (r : Seen × Bool).
        r.1 ≡ false → (find (c ∷ cs) r.0 ≡ some at) × (length r.0 ≤ suc (length d)))
      (fresh at (find (c ∷ cs) d)) (λ _ f. cc)
      (λ _ _.
        if-elim
          (λ (x : Seen).
            (find (c ∷ cs) (put (c ∷ cs) at x) ≡ some at)
            × (length (put (c ∷ cs) at x) ≤ suc (length d)))
          (leb max_dedupe_entries (length d))
          (λ full. absurd (omega (arith, leb→le max_dedupe_entries (length d) full)))
          (λ _. (find-put_self (c ∷ cs) at d, length-put (c ∷ cs) at d)))
      first

fresh_soon : (at now : ℕ) → now < at + dedupe_ttl → fresh now (some at) ≡ true
unfolding fresh
fresh_soon at now h = ground arith

seen_recognised :
    (c : ℕ) (cs : Text) (at now : ℕ) (d : Seen)
    → find (c ∷ cs) d ≡ some at
    → now < at + dedupe_ttl
    → (seen (c ∷ cs) now d).1 ≡ true
unfolding seen
seen_recognised c cs at now d e soon = rw (e, fresh_soon at now soon)

-- A batch ID, not empty, that was just delivered, and delivered again less than ten minutes later, is
-- recognised, whatever other batches arrive in between, as long as the table is below its limit when
-- the first delivery and each of those batches arrive.
pub retry_recognised :
    (c : ℕ) (cs : Text) (at now : ℕ) (d : Seen) (between : List (Text × ℕ))
    → (seen (c ∷ cs) at d).1 ≡ false
    → All (λ (q : Text × ℕ). q.0 ≢ c ∷ cs) between
    → HasRoom ((c ∷ cs, at) ∷ between) d
    → now < at + dedupe_ttl
    → (seen (c ∷ cs) now (seen_all between (seen (c ∷ cs) at d).0)).1 ≡ true
retry_recognised c cs at now d between first others (room, more) soon =
    let id = c ∷ cs in
    let kept = seen_recorded c cs at d first room in
    let found : find id (seen_all between (seen id at d).0) ≡ some at =
      find-seen_all id between (seen id at d).0 others more ∙ kept.0 in
    seen_recognised c cs at now (seen_all between (seen id at d).0) found soon
