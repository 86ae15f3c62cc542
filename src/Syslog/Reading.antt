-- ===== src/Syslog/Reading.antt =====
-- Structured data that is written as RFC5424 says, read back by the functions of Elements.
use omni_logging.Common.{
  ℕ, ◌≡◌, refl, sym, ap, ◌∙◌, false, some, List, [], ◌∷◌, ◌++◌, map, append-nil, append_assoc,
  if◌then◌else◌, Text, All,
}
use omni_logging.Common.Int.{ℤ, pos, ◌+ℤ◌, ◌-ℤ◌}
use omni_logging.Common.Strings.{Unicode}
use omni_logging.Query.{is_empty}
use omni_logging.Syslog.Elements.{
  Quotes, outside, plain, sign_of, drop_space, starts_with, Halves, split_from, open_at,
  elements_from, split_elements, Element,
}
use omni_logging.Syslog.Quoting.{
  in_quotes, IsClear, IsClear-append, IsClear-quotes, IsNameChar, IsClear-name,
}

-- ' id key="value" key="value"' without the ID.
abbrev pub written_params : List (Text × Text) → Text
written_params [] = []
written_params ((k, v) ∷ ps) = 32 ∷ k ++ (b'=' ∷ (in_quotes v ++ written_params ps))

abbrev pub written_element : Element → Text
written_element e = e.id ++ written_params e.params

-- The elements one behind the other, each in brackets.
abbrev pub written : List Element → Text
written [] = []
written (e ∷ es) = b'[' ∷ written_element e ++ (b']' ∷ written es)

abbrev halves : Text → Text → Halves
halves d m = record { data_part = d; message = m }

split_from-plain :
    (q p : Quotes) (depth : ℤ) (before : Text) (c : ℕ) (s : Text)
    → sign_of q c ≡ plain p
    → split_from q depth before (c ∷ s) ≡ split_from p depth (before ++ c ∷ []) s
unfolding split_from
split_from-plain q p depth before c s e = rw (split_from, e) refl

elements_from-plain :
    (q p : Quotes) (cur : Text) (c : ℕ) (s : Text)
    → sign_of q c ≡ plain p
    → elements_from q (some cur) (c ∷ s) ≡ elements_from p (some (cur ++ c ∷ [])) s
unfolding elements_from
elements_from-plain q p cur c s e = rw (elements_from, e) refl

split_from-clear :
    (q r : Quotes) (depth : ℤ) (before s t : Text)
    → IsClear q s r
    → split_from q depth before (s ++ t) ≡ split_from r depth (before ++ s) t
unfolding split_from
split_from-clear q r depth before [] t h = λ i. split_from (h i) depth (sym (append-nil before) i) t
split_from-clear q r depth before (c ∷ s) t (p, e, h) =
    split_from-plain q p depth before c (s ++ t) e
    ∙ split_from-clear p r depth (before ++ c ∷ []) s t h
    ∙ ap (λ b. split_from r depth b t) (append_assoc before (c ∷ []) s)

elements_from-clear :
    (q r : Quotes) (cur s t : Text)
    → IsClear q s r
    → elements_from q (some cur) (s ++ t) ≡ elements_from r (some (cur ++ s)) t
unfolding elements_from
elements_from-clear q r cur [] t h = λ i. elements_from (h i) (some (sym (append-nil cur) i)) t
elements_from-clear q r cur (c ∷ s) t (p, e, h) =
    elements_from-plain q p cur c (s ++ t) e
    ∙ elements_from-clear p r (cur ++ c ∷ []) s t h
    ∙ ap (λ b. elements_from r (some b) t) (append_assoc cur (c ∷ []) s)

module _ (u : Unicode) where
  -- An element that can be written: its names are not empty, and of the characters of names.
  pub record IsWritable (e : Element) : Type 0 where
    pub id_chars : All (IsNameChar u) e.id
    pub has_id : is_empty e.id ≡ false
    pub key_chars : All (λ (p : Text × Text). All (IsNameChar u) p.0) e.params

  IsClear-params :
      (ps : List (Text × Text))
      → All (λ (p : Text × Text). All (IsNameChar u) p.0) ps
      → IsClear outside (written_params ps) outside
  unfolding sign_of
  IsClear-params [] _ = refl
  IsClear-params ((k, v) ∷ ps) (h, hs) = (
    outside,
    refl,
    IsClear-append outside outside outside k (b'=' ∷ (in_quotes v ++ written_params ps))
        (IsClear-name u k h)
        (
          outside,
          refl,
          IsClear-append outside outside outside (in_quotes v) (written_params ps)
              (IsClear-quotes v) (IsClear-params ps hs),
        ),
  )

  IsClear-element : (e : Element) → IsWritable e → IsClear outside (written_element e) outside
  IsClear-element e h =
      IsClear-append outside outside outside e.id (written_params e.params)
        (IsClear-name u e.id h.id_chars) (IsClear-params e.params h.key_chars)

  bracketed-append :
      (before s : Text)
      → ((before ++ (b'[' ∷ [])) ++ s) ++ (b']' ∷ []) ≡ before ++ (b'[' ∷ s ++ (b']' ∷ []))
  bracketed-append before s =
      append_assoc (before ++ (b'[' ∷ [])) s (b']' ∷ [])
      ∙ append_assoc before (b'[' ∷ []) (s ++ (b']' ∷ []))

  -- The loop of splitStructuredData over one element.
  split_from-element :
      (e : Element) (before rest : Text)
      → IsWritable e
      → split_from outside (pos 0) before (b'[' ∷ written_element e ++ (b']' ∷ rest)) ≡ (
          if starts_with b'[' rest
          then split_from outside (pos 0) (before ++ (b'[' ∷ written_element e ++ (b']' ∷ []))) rest
          else record {
            data_part = before ++ (b'[' ∷ written_element e ++ (b']' ∷ []));
            message = drop_space rest;
          })
  unfolding split_from sign_of ◌+ℤ◌ ◌-ℤ◌
  split_from-element e before rest h =
      split_from-clear outside outside (pos 1) (before ++ (b'[' ∷ [])) (written_element e)
        (b']' ∷ rest) (IsClear-element e h)
      ∙ ap
          (λ (b : Text).
            if starts_with b'[' rest
            then split_from outside (pos 0) b rest
            else record { data_part = b; message = drop_space rest })
          (bracketed-append before (written_element e))

  written-append :
      (e : Element) (es : List Element) (t : Text)
      → written (e ∷ es) ++ t ≡ b'[' ∷ written_element e ++ (b']' ∷ (written es ++ t))
  written-append e es t =
      ap (λ s. b'[' ∷ s) (append_assoc (written_element e) (b']' ∷ written es) t)

  -- The loop of splitStructuredData ends behind the last element.
  pub split_from-written :
      (e : Element) (es : List Element) (before msg : Text)
      → All IsWritable (e ∷ es)
      → split_from outside (pos 0) before (written (e ∷ es) ++ (32 ∷ msg))
        ≡ record { data_part = before ++ written (e ∷ es); message = msg }
  unfolding starts_with drop_space
  split_from-written e [] before msg (h, _) =
      ap (split_from outside (pos 0) before) (written-append e [] (32 ∷ msg))
      ∙ split_from-element e before (32 ∷ msg) h
  split_from-written e (e' ∷ es) before msg (h, hs) =
      ap (split_from outside (pos 0) before) (written-append e (e' ∷ es) (32 ∷ msg))
      ∙ split_from-element e before (written (e' ∷ es) ++ (32 ∷ msg)) h
      ∙ split_from-written e' es (before ++ (b'[' ∷ written_element e ++ (b']' ∷ []))) msg hs
      ∙ ap (λ b. halves b msg)
          (append_assoc before (b'[' ∷ written_element e ++ (b']' ∷ [])) (written (e' ∷ es))
            ∙ ap (λ b. before ++ (b'[' ∷ b))
                (append_assoc (written_element e) (b']' ∷ []) (written (e' ∷ es))))

  pub split_elements-written :
      (es : List Element) → All IsWritable es → split_elements (written es) ≡ map written_element es
  unfolding split_elements elements_from sign_of open_at
  split_elements-written [] _ = refl
  split_elements-written (e ∷ es) (h, hs) =
      elements_from-clear outside outside [] (written_element e) (b']' ∷ written es)
        (IsClear-element e h)
      ∙ ap (λ ts. written_element e ∷ ts) (split_elements-written es hs)
