-- ===== src/Tail/Publishing.antt =====
-- What `Publish` of internal/tail/hub.go delivers, drops and evicts.
use omni_logging.Common.{
  ℕ, zero, suc, ◌+◌, ◌-◌, ◌≤◌, ◌<◌, ◌≡◌, refl, sym, ap, ◌∙◌, inl, inr, Bool, true, false, not, leb,
  ◌&&◌, ◌||◌, List, [], ◌∷◌, ◌++◌, length-take, append-nil, append_assoc, arith, ltb, ◌==◌, if-elim,
  Bool-cases, ltb→lt, ltb→le, length, length-append, keep, take, All,
}
use omni_logging.Tail.{Subscriber, Delivery, Fanout, deliver, deliver_all, publish_subs}

-- A registered subscriber: its channel holds no more than its capacity, and it is below the limit.
pub record IsActive {E Q : Type 0} (max_drops : ℕ) (s : Subscriber E Q) : Type 0 where
  pub fits : length s.channel ≤ s.capacity
  pub below : 0 < max_drops → s.dropped < max_drops

abbrev empty : {A : Type 0} → List A
empty = []

take_nil : {A : Type 0} (n : ℕ) → take n [] ≡ empty {A = A}
take_nil zero = refl
take_nil (suc n) = refl

module _ {E Q : Type 0} (matches : Q → E → Bool) (es : List E) where
  -- The places that are left in a subscriber's channel, and the events that it asks for and that find
  -- none.
  abbrev pub room : Subscriber E Q → ℕ
  room s = s.capacity - length s.channel

  abbrev pub excess : Subscriber E Q → ℕ
  excess s = length (keep (matches s.query) es) - room s

  -- A subscriber behind some events: those that it asks for have come to its channel, in order, as
  -- many as there was room for, and the others are counted.
  abbrev pub served : Subscriber E Q → Subscriber E Q
  served s = record s {
    channel = s.channel ++ take (room s) (keep (matches s.query) es);
    dropped = s.dropped + excess s;
  }

  abbrev pub all_served : List (Subscriber E Q) → List (Subscriber E Q)
  all_served [] = []
  all_served (s ∷ ss) = served s ∷ all_served ss

  abbrev pub all_excess : List (Subscriber E Q) → ℕ
  all_excess [] = 0
  all_excess (s ∷ ss) = excess s + all_excess ss

-- The drops of a subscriber have reached the limit, if there is one.
abbrev pub is_over : {E Q : Type 0} → ℕ → Subscriber E Q → Bool
is_over max_drops s = ltb 0 max_drops && leb max_drops s.dropped

abbrev pub all_evicted : {E Q : Type 0} → List (Subscriber E Q) → List (Subscriber E Q)
all_evicted [] = []
all_evicted (s ∷ ss) = record s { evicted = true } ∷ all_evicted ss

-- What the delivery of some events makes of a subscriber.
pub record Delivered {E Q : Type 0} (matches : Q → E → Bool) (es : List E) (d d' : Delivery E Q)
    : Type 0 where
  pub sub : d'.sub ≡ served matches es d.sub
  pub total : d'.total ≡ d.total + excess matches es d.sub

module _ {E Q : Type 0} (matches : Q → E → Bool) (max_drops : ℕ) where
  deliver_cases :
      (e : E) (d : Delivery E Q) (P : Delivery E Q → Type 0)
      → (matches d.sub.query e ≡ false → P d)
      → (matches d.sub.query e ≡ true
          → length d.sub.channel < d.sub.capacity
          → P (record d { sub = record (d.sub) { channel = d.sub.channel ++ e ∷ [] } }))
      → (matches d.sub.query e ≡ true
          → d.sub.capacity ≤ length d.sub.channel
          → P (record {
            sub = record (d.sub) { dropped = d.sub.dropped + 1 };
            total = d.total + 1;
            slow = d.slow || (ltb 0 max_drops && (d.sub.dropped + 1 == max_drops));
          }))
      → P (deliver matches max_drops e d)
  unfolding deliver
  deliver_cases e d P skip room full = elim (Bool-cases (matches d.sub.query e)) [
    | inr m ↦ rw m (skip m)
    | inl m ↦ rw m (
        if-elim P (ltb (length d.sub.channel) d.sub.capacity)
          (λ t. room m (ltb→lt (length d.sub.channel) d.sub.capacity t))
          (λ t. full m (ltb→le (length d.sub.channel) d.sub.capacity t)))
  ]

  room_step :
      {A : Type 0} (xs ys : List A) (cap : ℕ) (e : A)
      → length xs < cap
      → (xs ++ e ∷ []) ++ take (cap - length (xs ++ e ∷ [])) ys
        ≡ xs ++ take (cap - length xs) (e ∷ ys)
  room_step xs ys cap e h =
      let n : cap - length xs ≡ suc (cap - length (xs ++ e ∷ [])) =
        omega (arith, length-append xs (e ∷ [])) in
      append_assoc xs (e ∷ []) (take (cap - length (xs ++ e ∷ [])) ys)
      ∙ ap (λ k. xs ++ take k (e ∷ ys)) (sym n)

  full_step :
      {A : Type 0} (xs ys : List A) (cap : ℕ) (e : A)
      → cap ≤ length xs
      → xs ++ take (cap - length xs) ys ≡ xs ++ take (cap - length xs) (e ∷ ys)
  full_step xs ys cap e h = let n : cap - length xs ≡ 0 = omega arith in rw n

  -- Events go to the channel in order until it is full; the matching ones behind are dropped and
  -- counted, once for the subscriber and once for the hub; what does not match changes nothing.
  deliver_all-Delivered :
      (es : List E) (d : Delivery E Q) → Delivered matches es d (deliver_all matches max_drops es d)
  unfolding deliver_all
  deliver_all-Delivered [] d = record {
    sub = λ i. record (d.sub) {
      channel = no_more d.sub.channel (room matches empty d.sub) i;
      dropped = nothing d.sub.dropped (room matches empty d.sub) i;
    };
    total = omega arith;
  }
    where
      no_more : (xs : List E) (k : ℕ) → xs ≡ xs ++ take k []
      no_more xs k = sym (ap (λ t. xs ++ t) (take_nil k) ∙ append-nil xs)

      nothing : (n k : ℕ) → n ≡ n + (0 - k)
      nothing n k = omega arith
  deliver_all-Delivered (e ∷ es) d =
      let ih = deliver_all-Delivered es in
      deliver_cases e d
        (λ (x : Delivery E Q). Delivered matches (e ∷ es) d (deliver_all matches max_drops es x))
        (λ m. record { sub = rw m (ih d).sub; total = rw m (ih d).total })
        (λ m free.
          let s : Subscriber E Q = record (d.sub) { channel = d.sub.channel ++ e ∷ [] } in
          let h = ih (record d { sub = s }) in
          let n : excess matches es s
              ≡ suc (length (keep (matches d.sub.query) es)) - room matches es d.sub =
            omega (arith, length-append d.sub.channel (e ∷ [])) in
          record {
            sub = rw m (
                h.sub ∙ λ i. record (d.sub) {
                  channel =
                      room_step d.sub.channel (keep (matches d.sub.query) es) d.sub.capacity e free
                        i;
                  dropped = d.sub.dropped + n i;
                });
            total = rw m (h.total ∙ ap (λ k. d.total + k) n);
          })
        (λ m full.
          let s : Subscriber E Q = record (d.sub) { dropped = d.sub.dropped + 1 } in
          let h = ih (record {
            sub = s;
            total = d.total + 1;
            slow = d.slow || (ltb 0 max_drops && (d.sub.dropped + 1 == max_drops));
          }) in
          let n : d.sub.dropped + 1 + excess matches es d.sub
              ≡ d.sub.dropped
                + (suc (length (keep (matches d.sub.query) es)) - room matches es d.sub) =
            omega arith in
          record {
            sub = rw m (
                h.sub ∙ λ i. record (d.sub) {
                  channel =
                      full_step d.sub.channel (keep (matches d.sub.query) es) d.sub.capacity e full
                        i;
                  dropped = n i;
                });
            total = rw m (h.total ∙ omega (arith, n));
          })

  -- The mark for eviction is set exactly when the drops reach the limit.
  abbrev Watched : Delivery E Q → Type 0
  Watched d =
      (d.slow ≡ false → 0 < max_drops → d.sub.dropped < max_drops)
      × (d.slow ≡ true → (0 < max_drops) × (max_drops ≤ d.sub.dropped))

  deliver_all-Watched :
      (es : List E) (d : Delivery E Q) → Watched d → Watched (deliver_all matches max_drops es d)
  unfolding deliver_all deliver
  deliver_all-Watched [] d h = h
  deliver_all-Watched (e ∷ es) d h =
      deliver_all-Watched es (deliver matches max_drops e d) (ground arith)

  -- The mark as a test of the drops.
  Watched-is_over : (d : Delivery E Q) → Watched d → d.slow ≡ is_over max_drops d.sub
  Watched-is_over d h = ground arith

  pub record Published (es : List E) (total : ℕ) (ss : List (Subscriber E Q)) (f : Fanout E Q)
      : Type 0 where
    pub stay : f.stay ≡ keep (λ s. not (is_over max_drops s)) (all_served matches es ss)
    pub gone : f.gone ≡ all_evicted (keep (is_over max_drops) (all_served matches es ss))
    pub counted : f.total ≡ total + all_excess matches es ss
    pub active : All (IsActive max_drops) f.stay

  deliver_all-IsActive :
      (es : List E) (total : ℕ) (s : Subscriber E Q)
      → IsActive max_drops s
      → (let d =
            deliver_all matches max_drops es (record { sub = s; total = total; slow = false }) in
          (length d.sub.channel ≤ d.sub.capacity) × Watched d)
  deliver_all-IsActive es total s a =
      let d0 : Delivery E Q = record { sub = s; total = total; slow = false } in
      let h = deliver_all-Delivered es d0 in
      let rest = keep (matches s.query) es in
      (
        rw h.sub (
            omega (
              arith,
              length-append s.channel (take (s.capacity - length s.channel) rest),
              length-take (s.capacity - length s.channel) rest,
              a.fits,
            )),
        deliver_all-Watched es d0 (λ _ p. a.below p, λ f. cc),
      )

  -- To each subscriber within its limits a `Publish` sends the events that it asks for, in order, as
  -- many as its channel has room for; every other one of them is counted as a drop of the subscriber
  -- and of the hub. Exactly the subscribers whose drops have reached the limit are evicted; the others
  -- stay, in order and within their limits.
  pub publish_subs-Published :
      (es : List E) (total : ℕ) (ss : List (Subscriber E Q))
      → All (IsActive max_drops) ss
      → Published es total ss (publish_subs matches max_drops es total ss)
  unfolding publish_subs
  publish_subs-Published es total [] _ = record {
    stay = refl;
    gone = refl;
    counted = omega arith;
    active = tt;
  }
  publish_subs-Published es total (s ∷ ss) (a, rest) =
      let d0 : Delivery E Q = record { sub = s; total = total; slow = false } in
      let d = deliver_all matches max_drops es d0 in
      let h = deliver_all-Delivered es d0 in
      let one = deliver_all-IsActive es total s a in
      let over : d.slow ≡ is_over max_drops (served matches es s) =
        Watched-is_over d one.1 ∙ ap (is_over max_drops) h.sub in
      let ih = publish_subs-Published es d.total ss rest in
      if-elim (λ (f : Fanout E Q). Published es total (s ∷ ss) f) d.slow
        (λ slow.
          let o = sym over ∙ slow in
          record {
            stay = rw o ih.stay;
            gone = rw o (λ i. record (h.sub i) { evicted = true } ∷ ih.gone i);
            counted = omega (arith, h.total, ih.counted);
            active = ih.active;
          })
        (λ quick.
          let o = sym over ∙ quick in
          record {
            stay = rw o (λ i. h.sub i ∷ ih.stay i);
            gone = rw o ih.gone;
            counted = omega (arith, h.total, ih.counted);
            active = (record { fits = one.0; below = one.1.0 quick }, ih.active);
          })
