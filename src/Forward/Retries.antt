-- ===== src/Forward/Retries.antt =====
-- How often `post` of internal/forward/forward.go tries, and how long it waits in between.
use omni_logging.Common.{
  ℕ, zero, suc, ◌+◌, ◌-◌, ◌*◌, ◌%◌, ◌^◌, ◌≤◌, ◌<◌, ◌≡◌, ◌≢◌, refl, sym, ap, ◌∙◌, Bool-cases, ◌⊎◌,
  inl, inr, Bool, true, false, ◌&&◌, Option, none, some, List, [], ◌∷◌, arith, if◌then◌else◌,
  if-elim, OnSuccess, ltb, leb, leb→lt, leb→le, ltb→lt, ltb→le, ◌==◌, length,
}
use native.Mathlib.Nat.{pow-suc, pow-le-pow_right, zero-add, suc-add}
use omni_logging.Forward.Delivery.{
  Outcome, delivered, transient, permanent, abandoned, Round, attempt_outcome, base_backoff,
  max_backoff, capped, backoff_for, conclude, post_from, post,
}

-- Whatever the two delays and the attempt are, the wait is above zero and at most the limit.
pub backoff_for-IsWithin :
    (backoff limit attempt : ℕ)
    → 0 < limit
    → (0 < backoff_for backoff limit attempt) × (backoff_for backoff limit attempt ≤ limit)
unfolding backoff_for capped
backoff_for-IsWithin backoff limit attempt positive = ground arith

-- An attempt that is no last one goes on only where it is transient.
abbrev pub EndsWithin : List Round → ℕ → Option (Outcome × List Round) → Type 0
EndsWithin rounds n none = ⊥
EndsWithin rounds n (some (o, rest)) = length rounds ≤ length rest + n

conclude-ends :
    (o : Outcome) (last : Bool) (rounds rest : List Round) (n : ℕ)
    (again : Option (Outcome × List Round))
    → length rounds ≤ length rest + n
    → (last ≡ false → EndsWithin rounds n again)
    → EndsWithin rounds n (conclude o last rest again)
unfolding conclude
conclude-ends delivered last rounds rest n again h k = h
conclude-ends permanent last rounds rest n again h k = h
conclude-ends abandoned last rounds rest n again h k = h
conclude-ends transient true rounds rest n again h k = h
conclude-ends transient false rounds rest n again h k = k refl

EndsWithin-cons :
    (r : Round) (rounds : List Round) (n : ℕ) (o : Option (Outcome × List Round))
    → EndsWithin rounds n o
    → EndsWithin (r ∷ rounds) (suc n) o
EndsWithin-cons r rounds n none h = h
EndsWithin-cons r rounds n (some (o, rest)) h = omega (arith, h)

post_from-ends :
    (n attempt : ℕ) (rounds : List Round)
    → attempt + n ≡ 6
    → n < length rounds
    → EndsWithin rounds (suc n) (post_from false attempt rounds)
unfolding post_from
post_from-ends n attempt [] e h = absurd (omega (arith, h))
post_from-ends zero attempt (r ∷ rs) e h =
    if-elim (EndsWithin (r ∷ rs) 1) (ltb 1 attempt && r.cancelled) (λ _. omega arith)
      (λ _.
        conclude-ends (attempt_outcome r.response) (leb 6 attempt) (r ∷ rs) rs 1
          (post_from false (attempt + 1) rs) (omega arith)
          (λ k. absurd (omega (arith, leb→lt 6 attempt k))))
post_from-ends (suc n) attempt (r ∷ rs) e h =
    if-elim (EndsWithin (r ∷ rs) (suc (suc n))) (ltb 1 attempt && r.cancelled) (λ _. omega arith)
      (λ _.
        conclude-ends (attempt_outcome r.response) (leb 6 attempt) (r ∷ rs) rs (suc (suc n))
          (post_from false (attempt + 1) rs) (omega arith)
          (λ _.
            EndsWithin-cons r rs (suc n) (post_from false (attempt + 1) rs)
              (post_from-ends n (attempt + 1) rs (omega arith) (omega arith))))

-- Without a spool a batch is posted to its end in six attempts at most, however each of them goes.
pub post-EndsWithin :
    (rounds : List Round) → 6 ≤ length rounds → EndsWithin rounds 6 (post false rounds)
unfolding post
post-EndsWithin rounds h = post_from-ends 5 1 rounds refl (omega arith)

abbrev IsSettled : Outcome × List Round → Type 0
IsSettled r = r.0 ≢ transient

conclude-IsSettled :
    (o : Outcome) (rest : List Round) (again : Option (Outcome × List Round))
    → OnSuccess IsSettled again
    → OnSuccess IsSettled (conclude o false rest again)
unfolding conclude
conclude-IsSettled delivered rest again h = cc
conclude-IsSettled permanent rest again h = cc
conclude-IsSettled abandoned rest again h = cc
conclude-IsSettled transient rest again h = h

post_from-IsSettled :
    (attempt : ℕ) (rounds : List Round) → OnSuccess IsSettled (post_from true attempt rounds)
unfolding post_from
post_from-IsSettled attempt [] = tt
post_from-IsSettled attempt (r ∷ rs) =
    if-elim (OnSuccess IsSettled) (ltb 1 attempt && r.cancelled) (λ _. cc)
      (λ _.
        conclude-IsSettled (attempt_outcome r.response) rs (post_from true (attempt + 1) rs)
          (post_from-IsSettled (attempt + 1) rs))

-- With a spool a batch is never given up as undeliverable: it is delivered, refused for good, or
-- abandoned at the end of the context, and tried again until then.
pub post-IsSettled : (rounds : List Round) → OnSuccess IsSettled (post true rounds)
unfolding post
post-IsSettled rounds = post_from-IsSettled 1 rounds

-- 500 ms, doubled before each further attempt.
pub doubled : ℕ → ℕ
doubled zero = base_backoff
doubled (suc k) = 2 * doubled k

doubled_lem : (k : ℕ) → doubled k ≡ base_backoff * 2 ^ k
unfolding doubled
doubled_lem zero = refl
doubled_lem (suc k) = omega (arith, doubled_lem k, pow-suc 2 k)

pow_add : (k n : ℕ) → 2 ^ (k + n) ≡ 2 ^ k * 2 ^ n
pow_add zero n = omega (arith, ap (λ (m : ℕ). 2 ^ m) (zero-add n))
pow_add (suc k) n =
    ap (λ (m : ℕ). 2 ^ m) (suc-add k n)
    ∙ omega (arith, pow_add k n, pow-suc 2 (k + n), ap (λ (m : ℕ). m * 2 ^ n) (pow-suc 2 k))

capped_high : (d : ℕ) → max_backoff < d → capped max_backoff d ≡ max_backoff
unfolding capped
capped_high d h = ground arith

capped_none : (d : ℕ) → d ≡ 0 → capped max_backoff d ≡ max_backoff
unfolding capped
capped_none d h = ground arith

capped_low : (d : ℕ) → 0 < d → d ≤ max_backoff → capped max_backoff d ≡ d
unfolding capped
capped_low d positive h = ground arith

high_bits : (x y : ℕ) → x ≡ 2 ^ 35 * y → (x % 2 ^ 64 ≡ 0) ⊎ (2 ^ 35 ≤ x % 2 ^ 64)
high_bits x y h = elim (Bool-cases (x % 2 ^ 64 == 0)) [
  | inl e ↦ inl (grind (arith, e))
  | inr e ↦ inr (omega (arith, h, (ne e)))
]
  where
    ne : {d : ℕ} → (d == 0) ≡ false → 0 < d
    ne e = ground arith

-- Where the product does not fit 64 bits it is 0 or far above 30 s, since its low bits are 0.
delay_far : (k : ℕ) → 35 ≤ k → capped max_backoff (base_backoff * 2 ^ k % 2 ^ 64) ≡ max_backoff
delay_far k h =
    elim (high_bits (base_backoff * 2 ^ k) (base_backoff * 2 ^ (k - 35)) (product k h)) [
      | inl e ↦ capped_none (base_backoff * 2 ^ k % 2 ^ 64) e
      | inr e ↦ capped_high (base_backoff * 2 ^ k % 2 ^ 64) (omega (arith, e))
    ]
  where
    product : (k : ℕ) → 35 ≤ k → base_backoff * 2 ^ k ≡ 2 ^ 35 * (base_backoff * 2 ^ (k - 35))
    product k h = omega (arith, pow_add 35 (k - 35), ap (λ (m : ℕ). 2 ^ m) (back k h))
      where
        back : (k : ℕ) → 35 ≤ k → 35 + (k - 35) ≡ k
        back k h = omega arith

delay_near :
    (k : ℕ) → 6 ≤ k → k ≤ 34 → capped max_backoff (base_backoff * 2 ^ k % 2 ^ 64) ≡ max_backoff
delay_near k low high = capped_high (base_backoff * 2 ^ k % 2 ^ 64) (
    omega (
      arith,
      pow-le-pow_right {n = 2} (omega arith) low,
      pow-le-pow_right {n = 2} (omega arith) high,
    ))

delay_first :
    (k : ℕ) → k ≤ 5 → capped max_backoff (base_backoff * 2 ^ k % 2 ^ 64) ≡ base_backoff * 2 ^ k
delay_first k h =
    let least : 1 ≤ 2 ^ k = pow-le-pow_right {n = 2} (omega arith) {i = 0} (omega arith) in
    let most : 2 ^ k ≤ 32 = pow-le-pow_right {n = 2} (omega arith) {j = 5} h in
    capped_low (base_backoff * 2 ^ k % 2 ^ 64) (omega (arith, least, most))
      (omega (arith, least, most))
    ∙ omega (arith, least, most)

-- With the two delays of the program the wait is 500 ms, doubles five times, and is 30 s from the seventh
-- attempt on, however many there are: where the product leaves 64 bits nothing shorter comes of it.
pub backoff_for-doubled :
    (k : ℕ)
    → backoff_for base_backoff max_backoff (k + 1) ≡ (if ltb k 6 then doubled k else max_backoff)
unfolding backoff_for
backoff_for-doubled k =
    ap (λ (m : ℕ). capped max_backoff (base_backoff * 2 ^ m % 2 ^ 64)) (back k)
    ∙ if-elim (λ d. capped max_backoff (base_backoff * 2 ^ k % 2 ^ 64) ≡ d) (ltb k 6)
        (λ h. delay_first k (omega (arith, ltb→lt k 6 h)) ∙ sym (doubled_lem k))
        (λ h. late k (ltb→le k 6 h))
  where
    back : (k : ℕ) → k + 1 - 1 ≡ k
    back k = omega arith

    late : (k : ℕ) → 6 ≤ k → capped max_backoff (base_backoff * 2 ^ k % 2 ^ 64) ≡ max_backoff
    late k h = elim (Bool-cases (leb k 34)) [
      | inl e ↦ delay_near k h (leb→le k 34 e)
      | inr e ↦ delay_far k (omega (arith, leb→lt k 34 e))
    ]
