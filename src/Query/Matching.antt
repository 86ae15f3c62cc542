-- ===== src/Query/Matching.antt =====
-- What the matching of internal/query/match.go means.
use omni_logging.Common.{
  ◌≤◌, ◌≡◌, ◌↔◌, refl, sym, ap, subst, ◌∙◌, Bool, true, false, not, ◌&&◌, Option, none, some, List,
  [], ◌∷◌, ◌++◌, if◌then◌else◌, if-elim, le→ltb, ltb→lt, arith, ltb, Text, same, same_iff,
  has_prefix, length, length-append,
}
use omni_logging.Query.{eq, neq, Filter}
use omni_logging.Query.Match.{
  Event, Engine, bool_equal, norm, equal_to, present_matches, value_matches, actual_of,
  filter_matches,
}
use omni_logging.Query.Phrase.{phrase_at, contains_from, contains_tokens}

value_matches-neq :
    {F : Type 0} (g : Engine F) (f : Filter) (a : Option Text)
    → value_matches g (record f { op = neq }) a ≡ not (value_matches g (record f { op = eq }) a)
unfolding value_matches present_matches equal_to
value_matches-neq g f none = refl
value_matches-neq g f (some actual) =
    if_not (bool_equal g.unicode actual (norm g.unicode f.field f.value))
      (same actual (norm g.unicode f.field f.value))
  where
    if_not : (b s : Bool) → (if b then false else not s) ≡ not (if b then true else s)
    if_not true s = refl
    if_not false s = refl

-- `!=` and `=` on one field and value are opposites on every event, an absent attribute included.
pub filter_matches-neq :
    {F : Type 0} (g : Engine F) (f : Filter) (e : Event)
    → filter_matches g (record f { op = neq }) e ≡ not (filter_matches g (record f { op = eq }) e)
unfolding filter_matches
filter_matches-neq g f e = value_matches-neq g f (actual_of f.field f.attr_key e)

-- A list of tokens holds a phrase: somewhere its words stand one behind the other, and the last one
-- begins the token that stands there.
pub record HasPhrase (have front : List Text) (last : Text) : Type 0 where
  pub before : List Text
  pub word : Text
  pub after : List Text
  pub place : have ≡ before ++ (front ++ word ∷ after)
  pub begins : has_prefix word last ≡ true

-- The same at the front.
record PhraseAt (have front : List Text) (last : Text) : Type 0 where
  word : Text
  after : List Text
  place : have ≡ front ++ word ∷ after
  begins : has_prefix word last ≡ true

and_true : (a b : Bool) → (a && b) ≡ true → (a ≡ true) × (b ≡ true)
and_true true b h = (refl, h)
and_true false b h = absurd (grind (arith, h))

phrase_at-cons :
    (h f : Text) (hs fs : List Text) (last : Text)
    → phrase_at (h ∷ hs) (f ∷ (fs ++ last ∷ [])) ≡ (same h f && phrase_at hs (fs ++ last ∷ []))
unfolding phrase_at
phrase_at-cons h f hs [] last = refl
phrase_at-cons h f hs (x ∷ fs) last = refl

phrase_at-PhraseAt :
    (have front : List Text) (last : Text)
    → phrase_at have (front ++ last ∷ []) ≡ true
    → PhraseAt have front last
unfolding phrase_at
phrase_at-PhraseAt [] [] last h = absurd (grind (arith, h))
phrase_at-PhraseAt [] (f ∷ fs) last h = absurd (grind (arith, h))
phrase_at-PhraseAt (w ∷ hs) [] last h = record { word = w; after = hs; place = refl; begins = h }
phrase_at-PhraseAt (w ∷ hs) (f ∷ fs) last h =
    let both =
      and_true (same w f) (phrase_at hs (fs ++ last ∷ []))
        (sym (phrase_at-cons w f hs fs last) ∙ h) in
    let r = phrase_at-PhraseAt hs fs last both.1 in
    record {
      word = r.word;
      after = r.after;
      place = λ i. (same_iff w f).0 both.0 i ∷ r.place i;
      begins = r.begins;
    }

phrase_at_found :
    (front : List Text) (last word : Text) (after : List Text)
    → has_prefix word last ≡ true
    → phrase_at (front ++ word ∷ after) (front ++ last ∷ []) ≡ true
unfolding phrase_at
phrase_at_found [] last word after b = b
phrase_at_found (f ∷ fs) last word after b =
    phrase_at-cons f f (fs ++ word ∷ after) fs last
    ∙ ap (λ t. t && phrase_at (fs ++ word ∷ after) (fs ++ last ∷ [])) ((same_iff f f).1 refl)
    ∙ phrase_at_found fs last word after b

-- A phrase is not longer than what holds it.
length-place :
    (before front : List Text) (last word : Text) (after : List Text)
    → length (front ++ last ∷ []) ≤ length (before ++ (front ++ word ∷ after))
length-place before front last word after = omega (
  arith,
  length-append before (front ++ word ∷ after),
  length-append front (word ∷ after),
  length-append front (last ∷ []),
)

HasPhrase-front :
    (have front : List Text) (last : Text) → PhraseAt have front last → HasPhrase have front last
HasPhrase-front have front last p = record {
  before = [];
  word = p.word;
  after = p.after;
  place = p.place;
  begins = p.begins;
}

HasPhrase-cons :
    (w : Text) (hs front : List Text) (last : Text)
    → HasPhrase hs front last
    → HasPhrase (w ∷ hs) front last
HasPhrase-cons w hs front last p = record {
  before = w ∷ p.before;
  word = p.word;
  after = p.after;
  place = λ i. w ∷ p.place i;
  begins = p.begins;
}

contains_from-HasPhrase :
    (have front : List Text) (last : Text)
    → contains_from have (front ++ last ∷ []) ≡ true
    → HasPhrase have front last
unfolding contains_from
contains_from-HasPhrase [] front last h = absurd (grind (arith, h))
contains_from-HasPhrase (w ∷ hs) front last h =
    let later = contains_from-HasPhrase hs front last in
    if-elim (λ b. b ≡ true → HasPhrase (w ∷ hs) front last)
      (ltb (length (w ∷ hs)) (length (front ++ last ∷ []))) (λ _ f. absurd (grind (arith, f)))
      (λ _.
        if-elim (λ b. b ≡ true → HasPhrase (w ∷ hs) front last)
          (phrase_at (w ∷ hs) (front ++ last ∷ []))
          (λ p _. HasPhrase-front (w ∷ hs) front last (phrase_at-PhraseAt (w ∷ hs) front last p))
          (λ _ r. HasPhrase-cons w hs front last (later r)))
      h

-- A phrase at the front is found there.
contains_from_front :
    (have want : List Text)
    → phrase_at have want ≡ true
    → length want ≤ length have
    → contains_from have want ≡ true
unfolding contains_from phrase_at
contains_from_front [] [] p h = absurd (grind (arith, p))
contains_from_front [] (w ∷ ws) p h = absurd (grind (arith, p))
contains_from_front (x ∷ hs) want p h = rw (le→ltb (length (x ∷ hs)) (length want) h, p) refl

contains_from_found :
    (before front : List Text) (last word : Text) (after : List Text)
    → has_prefix word last ≡ true
    → contains_from (before ++ (front ++ word ∷ after)) (front ++ last ∷ []) ≡ true
unfolding contains_from
contains_from_found [] front last word after b =
    contains_from_front (front ++ word ∷ after) (front ++ last ∷ [])
      (phrase_at_found front last word after b) (length-place [] front last word after)
contains_from_found (x ∷ before) front last word after b =
    let rest = contains_from_found before front last word after b in
    if-elim (λ t. t ≡ true)
      (ltb (length (x ∷ before ++ (front ++ word ∷ after))) (length (front ++ last ∷ [])))
      (λ short.
        absurd (omega (arith, ltb→lt _ _ short, length-place (x ∷ before) front last word after)))
      (λ _.
        if-elim (λ t. t ≡ true)
          (phrase_at (x ∷ before ++ (front ++ word ∷ after)) (front ++ last ∷ [])) (λ _. refl)
          (λ _. rest))

-- A text's tokens contain the words of a term exactly when they stand somewhere one behind the other,
-- all but the last in full, and the last at the beginning of a token.
pub contains_tokens-HasPhrase :
    (have front : List Text) (last : Text)
    → (contains_tokens have (front ++ last ∷ []) ≡ true) ↔ HasPhrase have front last
unfolding contains_tokens
contains_tokens-HasPhrase have front last = (
  λ h.
      if-elim (λ b. b ≡ true → HasPhrase have front last)
        (ltb (length have) (length (front ++ last ∷ []))) (λ _ f. absurd (grind (arith, f)))
        (λ _ r. contains_from-HasPhrase have front last r) h,
  λ p.
      subst
        (λ t.
          (if ltb (length t) (length (front ++ last ∷ []))
            then false
            else contains_from t (front ++ last ∷ []))
          ≡ true)
        (sym p.place)
        (rw (le→ltb _ _ (length-place p.before front last p.word p.after))
          (contains_from_found p.before front last p.word p.after p.begins)),
)
