-- ===== src/Model/Levels.antt =====
-- What a normalized event has: `ParseLevel` and `Normalize` of internal/model, and `EventFromJSON`.
use omni_logging.Common.{
  ◌≡◌, refl, subst, inl, inr, true, false, Option, none, some, List, [], ◌∷◌, if-elim, Option-cases,
  arith, Text, Bytes,
}
use omni_logging.Common.Int.{ℤ, pos, negsuc, ◌+ℤ◌, ◌≤ℤ◌, ◌<ℤ◌, ltb_ℤ}
use omni_logging.Common.Strings.{Unicode, trim_space, lower}
use omni_logging.Query.{is_empty}
use omni_logging.Model.{
  LogEvent, Moment, is_level, is_among, level_of_word, parse_level, is_zero, default_time,
  default_level, default_id, normalize, zero_time, debug_words, info_words, warn_words, error_words,
  fatal_words,
}
use omni_logging.Model.Ids.{new_id_at}
use omni_logging.Model.Json.{
  Decoder, Decoded, decoded, event_from_json, event_from_fields, event_at, event_of,
  max_future_skew, get, time_keys, parse_timestamp,
}

abbrev Known : Text → Type 0
Known l = is_level l ≡ true

IsLevel-word : (w : Text) → is_level (level_of_word w) ≡ true
unfolding level_of_word is_level
IsLevel-word w =
    if-elim Known (is_among w debug_words) (λ _. refl)
      (λ _.
        if-elim Known (is_among w info_words) (λ _. refl)
          (λ _.
            if-elim Known (is_among w warn_words) (λ _. refl)
              (λ _.
                if-elim Known (is_among w error_words) (λ _. refl)
                  (λ _. if-elim Known (is_among w fatal_words) (λ _. refl) (λ _. refl)))))

-- Whatever the text is, the level that is made of it is one of the five.
pub IsLevel-parse : (u : Unicode) (s : Text) → is_level (parse_level u s) ≡ true
unfolding parse_level
IsLevel-parse u s = IsLevel-word (lower u (trim_space u s))

IsLevel-default : (u : Unicode) (l : Text) → is_level (default_level u l) ≡ true
unfolding default_level
IsLevel-default u l =
    if-elim (λ x. is_level x ≡ true) (is_level l) (λ h. h) (λ _. IsLevel-parse u l)

-- What every stored event has.
pub record IsNormal (e : LogEvent) : Type 0 where
  pub has_id : is_empty e.id ≡ false
  pub has_level : is_level e.level ≡ true
  pub is_received : is_zero e.received_at ≡ false
  pub is_dated : is_zero e.timestamp ≡ false

IsNormal-time : (t other : ℤ) → is_zero other ≡ false → is_zero (default_time t other) ≡ false
unfolding default_time
IsNormal-time t other h = if-elim (λ x. is_zero x ≡ false) (is_zero t) (λ _. h) (λ k. k)

IsNormal-id : (now : Moment) (i : Text) → is_empty (default_id now i) ≡ false
unfolding default_id is_empty new_id_at
IsNormal-id now [] = refl
IsNormal-id now (c ∷ i) = refl

pub normalize-IsNormal :
    (u : Unicode) (now : Moment) (e : LogEvent)
    → is_zero now.at ≡ false
    → IsNormal (normalize u now e)
unfolding normalize
normalize-IsNormal u now e h = record {
  has_id = IsNormal-id now e.id;
  has_level = IsLevel-default u e.level;
  is_received = IsNormal-time e.received_at now.at h;
  is_dated =
      IsNormal-time e.timestamp (default_time e.received_at now.at)
        (IsNormal-time e.received_at now.at h);
}

-- The event of a producer's object, at the time when it is read.
pub record IsIngested (now : Moment) (e : LogEvent) : Type 0 where
  pub own_id : e.id ≡ new_id_at now.unix_milli now.random
  pub received : e.received_at ≡ now.at
  pub near : e.timestamp ≤ℤ now.at +ℤ max_future_skew
  pub normal : IsNormal e

near_now : (t : ℤ) → t ≤ℤ t +ℤ max_future_skew
unfolding ◌+ℤ◌
near_now t = ground arith

near_default :
    (t at : ℤ)
    → ltb_ℤ (at +ℤ max_future_skew) t ≡ false
    → default_time t at ≤ℤ at +ℤ max_future_skew
unfolding default_time
near_default t at h =
    if-elim (λ x. x ≤ℤ at +ℤ max_future_skew) (is_zero t) (λ _. near_now at) (λ _. ground arith)

is_zero_not : (t : ℤ) → zero_time <ℤ t → is_zero t ≡ false
unfolding is_zero
is_zero_not (pos n) h = ground arith
is_zero_not (negsuc n) h = refl

zero_near : (t : ℤ) → zero_time <ℤ t → ltb_ℤ (t +ℤ max_future_skew) zero_time ≡ false
unfolding ◌+ℤ◌
zero_near t h = ground arith

module _ {R : Type 0} (j : Decoder R) (u : Unicode) where
  event_of-IsIngested :
      (now : Moment) (fields : List (Text × R)) (t : ℤ)
      → is_zero now.at ≡ false
      → ltb_ℤ (now.at +ℤ max_future_skew) t ≡ false
      → IsIngested now (normalize u now (event_of j u fields t))
  unfolding normalize event_of default_id
  event_of-IsIngested now fields t h k = record {
    own_id = refl;
    received = refl;
    near = near_default t now.at k;
    normal = normalize-IsNormal u now (event_of j u fields t) h;
  }

  -- What holds of the event that was decoded, if there is one.
  abbrev OnDecoded : (LogEvent → Type 0) → Decoded → Type 0
  OnDecoded P (decoded e) = P e
  OnDecoded P _ = Unit

  event_at-IsIngested :
      (now : Moment) (fields : List (Text × R)) (t : Option ℤ)
      → is_zero now.at ≡ false
      → OnDecoded (IsIngested now) (event_at j u now fields t)
  unfolding event_at
  event_at-IsIngested now fields none h = tt
  event_at-IsIngested now fields (some t) h =
      if-elim (OnDecoded (IsIngested now)) (ltb_ℤ (now.at +ℤ max_future_skew) t) (λ _. tt)
        (λ k. event_of-IsIngested now fields t h k)

  event_from_fields-IsIngested :
      (now : Moment) (fields : List (Text × R))
      → zero_time <ℤ now.at
      → OnDecoded (IsIngested now) (event_from_fields j u now fields)
  unfolding event_from_fields
  event_from_fields-IsIngested now fields h = elim (Option-cases (get time_keys fields)) [
    | inl e ↦
        rw (OnDecoded, e)
          (event_of-IsIngested now fields zero_time (is_zero_not now.at h) (zero_near now.at h))
    | inr (v, e) ↦
        rw (OnDecoded, e)
          (event_at-IsIngested now fields (parse_timestamp j u v) (is_zero_not now.at h))
  ]

  event_from_json_all :
      (now : Moment) (bytes : Bytes)
      → zero_time <ℤ now.at
      → OnDecoded (IsIngested now) (event_from_json j u now bytes)
  unfolding event_from_json
  event_from_json_all now bytes h = elim (Option-cases (j.object bytes)) [
    | inl e ↦ rw (OnDecoded, e) tt
    | inr (fields, e) ↦ rw (OnDecoded, e) (event_from_fields-IsIngested now fields h)
  ]

  -- Whatever a producer's JSON object holds, an event that is made of it has an ID that the server gave
  -- it, is received now, is dated at most 24 hours from now, and is normal: its level is one of the five
  -- and no time is missing. The clock stands behind Go's zero time.
  pub event_from_json-IsIngested :
      (now : Moment) (bytes : Bytes) (e : LogEvent)
      → zero_time <ℤ now.at
      → event_from_json j u now bytes ≡ decoded e
      → IsIngested now e
  event_from_json-IsIngested now bytes e h k =
      subst (OnDecoded (IsIngested now)) k (event_from_json_all now bytes h)
