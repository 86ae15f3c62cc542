-- ===== src/Otlp/Mapping.antt =====
-- How the fields of an OTLP record become those of an event (internal/otlp/logs.go): `severityToLevel`, and the
-- attributes that `finishEvent` merges.
use omni_logging.Common.{
  ℕ, ◌≤◌, ◌<◌, ◌≡◌, refl, sym, ap, ◌∙◌, inl, inr, Bool, true, false, Option, none, some, [], ◌∷◌,
  arith, Text, if◌then◌else◌, if-elim, Bool-cases, leb, ◌==◌, same, same_iff,
}
use omni_logging.Common.Strings.{Unicode}
use omni_logging.Common.Maps.{get_entry, set_entry}
use omni_logging.Model.{
  rank, is_level, level_debug, level_info, level_warn, level_error, level_fatal,
}
use omni_logging.Model.Levels.{IsLevel-parse}
use omni_logging.Query.{is_empty}
use omni_logging.Otlp.Values.{AnyValue}
use omni_logging.Otlp.Records.{Attributes, severity_to_level, fill_unless, fill_entry, fill_entries}

-- The level of a severity number above 0.
abbrev band : ℕ → Text
band n =
    if leb n 4
    then level_debug
    else if leb n 8
    then level_debug
    else if leb n 12
    then level_info
    else if leb n 16
    then level_warn
    else if leb n 20
    then level_error
    else level_fatal

band_rank : ℕ → ℕ
band_rank n =
    if leb n 8 then 0 else if leb n 12 then 1 else if leb n 16 then 2 else if leb n 20 then 3 else 4

severity-band : (u : Unicode) (n : ℕ) (t : Text) → 0 < n → severity_to_level u n t ≡ band n
unfolding severity_to_level
severity-band u n t positive =
    if-elim (λ l. l ≡ band n) (n == 0) (λ z. absurd (grind (arith, z, positive))) (λ _. refl)

-- What holds of the five levels holds of that of a number.
band-elim :
    (P : Text → Type 0) (n : ℕ)
    → P level_debug
    → P level_info
    → P level_warn
    → P level_error
    → P level_fatal
    → P (band n)
band-elim P n d i w e f =
    if-elim P (leb n 4) (λ _. d)
      (λ _.
        if-elim P (leb n 8) (λ _. d)
          (λ _.
            if-elim P (leb n 12) (λ _. i)
              (λ _. if-elim P (leb n 16) (λ _. w) (λ _. if-elim P (leb n 20) (λ _. e) (λ _. f)))))

rank-band : (n : ℕ) → rank (band n) ≡ band_rank n
unfolding band_rank rank
rank-band n =
    if-elim (λ l. rank l ≡ band_rank n) (leb n 4) (λ h. ground (arith, h))
      (λ _.
        if-elim (λ l. rank l ≡ band_rank n) (leb n 8) (λ h. ground (arith, h))
          (λ a.
            if-elim (λ l. rank l ≡ band_rank n) (leb n 12) (λ h. ground (arith, h))
              (λ b.
                if-elim (λ l. rank l ≡ band_rank n) (leb n 16) (λ h. ground (arith, h))
                  (λ d.
                    if-elim (λ l. rank l ≡ band_rank n) (leb n 20) (λ h. ground (arith, h))
                      (λ h. ground (arith, h))))))

band_rank_mono : (n m : ℕ) → n ≤ m → band_rank n ≤ band_rank m
unfolding band_rank
band_rank_mono n m h = ground arith

-- The level is one of the five whatever a record says. Where a severity number is there the text decides
-- nothing, and a number above another never gives a lower level.
pub severity_to_level-IsLevel :
    (u : Unicode) (n m : ℕ) (s t : Text)
    → 0 < n
    → n ≤ m
    → (is_level (severity_to_level u 0 s) ≡ true)
      × (is_level (severity_to_level u n s) ≡ true)
      × (severity_to_level u n s ≡ severity_to_level u n t)
      × (rank (severity_to_level u n s) ≤ rank (severity_to_level u m t))
unfolding severity_to_level is_level
severity_to_level-IsLevel u n m s t positive le = (
  by_text s,
  ap is_level (severity-band u n s positive)
      ∙ band-elim (λ l. is_level l ≡ true) n refl refl refl refl refl,
  severity-band u n s positive ∙ sym (severity-band u n t positive),
  omega (
    arith,
    ap rank (severity-band u n s positive),
    ap rank (severity-band u m t (omega arith)),
    rank-band n,
    rank-band m,
    band_rank_mono n m le,
  ),
)
  where
    by_text : (s : Text) → is_level (severity_to_level u 0 s) ≡ true
    by_text s = if-elim (λ l. is_level l ≡ true) (is_empty s) (λ _. refl) (λ _. IsLevel-parse u s)

-- Two keys that stand at one entry are the same key.
apart : (i j k : Text) → same i j ≡ false → same i k ≡ true → same j k ≡ false
apart i j k ne e = elim (Bool-cases (same j k)) [
  | inl h ↦ absurd (cc ((same_iff i j).1 ((same_iff i k).0 e ∙ sym ((same_iff j k).0 h)), ne))
  | inr h ↦ h
]

same_branch :
    {A : Type 0} (b : Bool) (x y z : A)
    → (if b then x else y) ≡ (if b then x else if b then z else y)
same_branch true x y z = refl
same_branch false x y z = refl

get-set_entry :
    (k j : Text) (v : AnyValue) (m : Attributes)
    → get_entry k (set_entry j v m) ≡ (if same j k then some v else get_entry k m)
unfolding get_entry set_entry
get-set_entry k j v [] = refl
get-set_entry k j v ((i, x) ∷ m) = elim (Bool-cases (same i j)) [
  | inl e ↦
      rw (e, sym ((same_iff i j).0 e)) (same_branch (same i k) (some v) (get_entry k m) (some x))
  | inr e ↦
      rw (e, get-set_entry k j v m)
        (elim (Bool-cases (same i k)) [ inl h ↦ rw (h, apart i j k e h) refl | inr h ↦ rw h refl ])
]

-- An attribute of the record, and where it has none that of the resource.
pub or_else : Option AnyValue → Option AnyValue → Option AnyValue
or_else none o = o
or_else (some v) o = some v

or_else-none : (o : Option AnyValue) → or_else o none ≡ o
unfolding or_else
or_else-none none = refl
or_else-none (some v) = refl

or_else-if :
    (o : Option AnyValue) (b : Bool) (v : AnyValue) (p : Option AnyValue)
    → or_else (or_else o (if b then some v else none)) p ≡ or_else o (if b then some v else p)
unfolding or_else
or_else-if none true v p = refl
or_else-if none false v p = refl
or_else-if (some w) b v p = refl

get-fill_unless :
    (o : Option AnyValue) (k j : Text) (v : AnyValue) (m : Attributes)
    → get_entry j m ≡ o
    → get_entry k (fill_unless o j v m)
      ≡ or_else (get_entry k m) (if same j k then some v else none)
unfolding fill_unless or_else
get-fill_unless none k j v m e = elim (Bool-cases (same j k)) [
  | inl h ↦ rw (get-set_entry k j v m, h, sym ((same_iff j k).0 h), e) refl
  | inr h ↦ rw (get-set_entry k j v m, h) (sym (or_else-none (get_entry k m)))
]
get-fill_unless (some w) k j v m e = elim (Bool-cases (same j k)) [
  | inl h ↦ rw (sym ((same_iff j k).0 h), e) refl
  | inr h ↦ rw h (sym (or_else-none (get_entry k m)))
]

-- Whatever the keys are, an attribute of the event is the one that its record has under the key, and where the
-- record has none it is the one of the resource.
pub fill_entries-get :
    (resource m : Attributes) (k : Text)
    → get_entry k (fill_entries resource m) ≡ or_else (get_entry k m) (get_entry k resource)
unfolding fill_entries fill_entry get_entry
fill_entries-get [] m k = sym (or_else-none (get_entry k m))
fill_entries-get ((j, v) ∷ resource) m k =
    fill_entries-get resource (fill_entry j v m) k
    ∙ rw (get-fill_unless (get_entry j m) k j v m refl)
        (or_else-if (get_entry k m) (same j k) v (get_entry k resource))
