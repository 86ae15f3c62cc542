-- ===== src/Syslog/Params.antt =====
-- The parameters of one element of structured data: `splitElementID` of internal/syslog/parse.go.
use mathlib.Core.List.{reverse, reverse-append, reverse-reverse}
use omni_logging.Common.{
  ℕ, zero, suc, ◌<◌, ◌≤◌, ◌≡◌, refl, sym, ap, subst, ◌∙◌, Bool, true, false, none, some, List, [],
  ◌∷◌, ◌++◌, append-nil, append_assoc, ◌==◌, arith, Text, All, All-map, length, length-append,
}
use omni_logging.Common.Strings.{Unicode, trim, trim_left, trim_space, cut_at}
use omni_logging.Common.Maps.{set_entry, set_entries}
use omni_logging.Query.{is_empty}
use omni_logging.Syslog.Elements.{params_from, Element, element_of, split_element_id}
use omni_logging.Syslog.Quoting.{in_quotes, escape, read_quoted-in_quotes, IsNameChar}
use omni_logging.Syslog.Reading.{written_params, written_element, IsWritable}

-- The text of a name ends where a sign stands that names do not have.
pub cut_at-name :
    (sep : ℕ) (before s t : Text)
    → All (λ c. (c == sep) ≡ false) s
    → (sep == sep) ≡ true
    → cut_at sep before (s ++ sep ∷ t) ≡ some (before ++ s, t)
unfolding cut_at
cut_at-name sep before [] t _ r = rw (r, append-nil before) refl
cut_at-name sep before (c ∷ s) t (h, hs) r = rw h (
    cut_at-name sep (before ++ c ∷ []) s t hs r
    ∙ ap (λ b. some (b, t)) (append_assoc before (c ∷ []) s))

cut_at-none :
    (sep : ℕ) (before s : Text) → All (λ c. (c == sep) ≡ false) s → cut_at sep before s ≡ none
unfolding cut_at
cut_at-none sep before [] _ = refl
cut_at-none sep before (c ∷ s) (h, hs) = rw h (cut_at-none sep (before ++ c ∷ []) s hs)

length-params : (ps : List (Text × Text)) → length ps ≤ length (written_params ps)
length-params [] = omega arith
length-params ((k, v) ∷ ps) = omega (
  arith,
  length-params ps,
  length-append k (b'=' ∷ (in_quotes v ++ written_params ps)),
  length-append (in_quotes v) (written_params ps),
)

length-behind :
    (k v : Text) (ps : List (Text × Text))
    → length ps < length (k ++ (b'=' ∷ (in_quotes v ++ written_params ps)))
length-behind k v ps = omega (
  arith,
  length-params ps,
  length-append k (b'=' ∷ (in_quotes v ++ written_params ps)),
  length-append (in_quotes v) (written_params ps),
)

-- A text whose last character is none that is trimmed.
abbrev EndsIn : (ℕ → Bool) → Text → Type 0
EndsIn p s = (init : Text) × (c : ℕ) × (s ≡ init ++ c ∷ []) × (p c ≡ false)

EndsIn-append : (p : ℕ → Bool) (s t : Text) → EndsIn p t → EndsIn p (s ++ t)
EndsIn-append p s t (init, c, e, h) =
    (s ++ init, c, ap (λ x. s ++ x) e ∙ sym (append_assoc s init (c ∷ [])), h)

trim_left-keeps : (p : ℕ → Bool) (c : ℕ) (s : Text) → p c ≡ false → trim_left p (c ∷ s) ≡ c ∷ s
unfolding trim_left
trim_left-keeps p c s h = rw h refl

reverse-last : (init : Text) (c : ℕ) → reverse (init ++ c ∷ []) ≡ c ∷ reverse init
reverse-last init c = reverse-append init (c ∷ [])

trim_keeps :
    (p : ℕ → Bool) (c : ℕ) (s : Text) → p c ≡ false → EndsIn p (c ∷ s) → trim p (c ∷ s) ≡ c ∷ s
unfolding trim
trim_keeps p c s h (init, d, e, k) =
    let back : reverse (c ∷ s) ≡ d ∷ reverse init = ap reverse e ∙ reverse-last init d in
    ap (λ t. reverse (trim_left p (reverse t))) (trim_left-keeps p c s h)
    ∙ ap (λ t. reverse (trim_left p t)) back
    ∙ ap reverse (trim_left-keeps p d (reverse init) k)
    ∙ ap reverse (sym back)
    ∙ reverse-reverse (c ∷ s)

abbrev elem_with : Text → List (Text × Text) → Element
elem_with id ps = record { id = id; params = ps }

module _ (u : Unicode) where
  -- Leading spaces: a key has none.
  trim_left-key :
      (s t : Text)
      → All (IsNameChar u) s
      → trim_left (λ c. c == 32) (s ++ (b'=' ∷ t)) ≡ s ++ (b'=' ∷ t)
  unfolding trim_left
  trim_left-key [] t _ = refl
  trim_left-key (c ∷ s) t (h, hs) = rw h.no_blank refl

  params_from-read :
      (fuel : ℕ) (params : List (Text × Text)) (key value : Text) (s rest : Text)
      → trim_left (λ c. c == 32) s ≡ key ++ (b'=' ∷ (in_quotes value ++ rest))
      → All (IsNameChar u) key
      → params_from (suc fuel) params s ≡ params_from fuel (set_entry key value params) rest
  unfolding params_from
  params_from-read fuel params key value s rest e h =
      let cut : cut_at b'=' [] (key ++ (b'=' ∷ (in_quotes value ++ rest)))
          ≡ some (key, in_quotes value ++ rest) =
        cut_at-name b'=' [] key (in_quotes value ++ rest)
          (All-map key (λ c (k : IsNameChar u c). k.no_equals) h) refl in
      rw (params_from, e, cut, read_quoted-in_quotes value rest) refl

  -- The loop of splitElementID reads the parameters that are written, with one round of fuel for each
  -- and one more.
  params_from-written :
      (fuel : ℕ) (acc ps : List (Text × Text))
      → All (λ (p : Text × Text). All (IsNameChar u) p.0) ps
      → length ps < fuel
      → params_from fuel acc (written_params ps) ≡ set_entries ps acc
  unfolding params_from set_entries trim_left cut_at
  params_from-written zero acc ps _ h = absurd (omega arith)
  params_from-written (suc fuel) acc [] _ h = refl
  params_from-written (suc fuel) acc ((k, v) ∷ ps) (h, hs) l =
      params_from-read fuel acc k v (written_params ((k, v) ∷ ps)) (written_params ps)
        (trim_left-key k (in_quotes v ++ written_params ps) h) h
      ∙ params_from-written fuel (set_entry k v acc) ps hs (omega (arith, l))

  no_blanks : (s : Text) → All (IsNameChar u) s → All (λ c. (c == 32) ≡ false) s
  no_blanks s h = All-map s (λ c (k : IsNameChar u c). k.no_blank) h

  element_of-written :
      (id : Text) (ps : List (Text × Text))
      → All (IsNameChar u) id
      → All (λ (p : Text × Text). All (IsNameChar u) p.0) ps
      → element_of (id ++ written_params ps) ≡ record { id = id; params = set_entries ps [] }
  unfolding element_of set_entries
  element_of-written id [] h _ =
      ap element_of (append-nil id) ∙ rw (element_of, cut_at-none 32 [] id (no_blanks id h)) refl
  element_of-written id ((k, v) ∷ ps) h (n, ns) =
      let rest : Text = k ++ (b'=' ∷ (in_quotes v ++ written_params ps)) in
      let cut : cut_at 32 [] (id ++ 32 ∷ rest) ≡ some (id, rest) =
        cut_at-name 32 [] id rest (no_blanks id h) refl in
      let first : params_from (suc (length rest)) [] rest
          ≡ params_from (length rest) (set_entry k v []) (written_params ps) =
        params_from-read (length rest) [] k v rest (written_params ps)
          (trim_left-key k (in_quotes v ++ written_params ps) n) n in
      let others : params_from (length rest) (set_entry k v []) (written_params ps)
          ≡ set_entries ps (set_entry k v []) =
        params_from-written (length rest) (set_entry k v []) ps ns (length-behind k v ps) in
      rw (element_of, cut) (ap (elem_with id) (first ∙ others))

  EndsIn-quotes : (v : Text) → u.is_space b'"' ≡ false → EndsIn u.is_space (in_quotes v)
  EndsIn-quotes v q = (b'"' ∷ escape v, b'"', refl, q)

  EndsIn-params :
      (p : Text × Text) (ps : List (Text × Text))
      → u.is_space b'"' ≡ false
      → EndsIn u.is_space (written_params (p ∷ ps))
  EndsIn-params (k, v) [] q = EndsIn-append u.is_space (32 ∷ k) (b'=' ∷ (in_quotes v ++ [])) (
      EndsIn-append u.is_space (b'=' ∷ []) (in_quotes v ++ [])
        (subst (EndsIn u.is_space) (sym (append-nil (in_quotes v))) (EndsIn-quotes v q)))
  EndsIn-params (k, v) (p ∷ ps) q =
      EndsIn-append u.is_space (32 ∷ k) (b'=' ∷ (in_quotes v ++ written_params (p ∷ ps))) (
        EndsIn-append u.is_space (b'=' ∷ in_quotes v) (written_params (p ∷ ps))
          (EndsIn-params p ps q))

  EndsIn-name : (c : ℕ) (s : Text) → All (IsNameChar u) (c ∷ s) → EndsIn u.is_space (c ∷ s)
  EndsIn-name c [] (h, _) = ([], c, refl, h.no_space)
  EndsIn-name c (d ∷ s) (h, hs) = EndsIn-append u.is_space (c ∷ []) (d ∷ s) (EndsIn-name d s hs)

  EndsIn-element :
      (c : ℕ) (s : Text) (ps : List (Text × Text))
      → All (IsNameChar u) (c ∷ s)
      → u.is_space b'"' ≡ false
      → EndsIn u.is_space ((c ∷ s) ++ written_params ps)
  EndsIn-element c s [] h q =
      subst (EndsIn u.is_space) (sym (append-nil (c ∷ s))) (EndsIn-name c s h)
  EndsIn-element c s (p ∷ ps) h q =
      EndsIn-append u.is_space (c ∷ s) (written_params (p ∷ ps)) (EndsIn-params p ps q)

  trim_space-element :
      (id : Text) (ps : List (Text × Text))
      → All (IsNameChar u) id
      → is_empty id ≡ false
      → u.is_space b'"' ≡ false
      → trim_space u (id ++ written_params ps) ≡ id ++ written_params ps
  unfolding trim_space is_empty
  trim_space-element [] ps _ n q = absurd (grind (arith, n))
  trim_space-element (c ∷ s) ps (h, hs) n q =
      trim_keeps u.is_space c (s ++ written_params ps) h.no_space (EndsIn-element c s ps (h, hs) q)

  -- An element that is written is read as its ID and its parameters, where of two with one key the last
  -- one counts.
  pub split_element_id-written :
      (e : Element)
      → IsWritable u e
      → u.is_space b'"' ≡ false
      → split_element_id u (written_element e)
        ≡ record { id = e.id; params = set_entries e.params [] }
  unfolding split_element_id
  split_element_id-written e h q =
      ap element_of (trim_space-element e.id e.params h.id_chars h.has_id q)
      ∙ element_of-written e.id e.params h.id_chars h.key_chars
