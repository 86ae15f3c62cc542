-- ===== src/Query/Cuts.antt =====
-- Cutting text: `SplitPipeline` of internal/query/agg.go and `splitOp` of internal/query/parse.go.
use omni_logging.Common.{
  ℕ, suc, ◌+◌, ◌≡◌, refl, sym, ap, ◌⊎◌, inl, inr, subst, ◌∙◌, Bool, true, false, not, ◌&&◌, ◌||◌,
  Option, none, some, List, [], ◌∷◌, ◌++◌, append_assoc, append-nil, arith, if-elim, if◌then◌else◌,
  ◌==◌, ==_iff, Text, codes, All, All-append,
}
use omni_logging.Query.Lexer.{bar, quote_char, split_pipeline_from, split_pipeline}
use omni_logging.Query.Filters.{
  Sign, eq_sign, neq_sign, gt_sign, gte_sign, lt_sign, lte_sign, match_sign, Split, sign_at,
  split_op_from, split_op,
}

-- Stages written one behind the other with a bar between them.
abbrev pub join_bar : List Text → Text
join_bar [] = []
join_bar (s ∷ []) = s
join_bar (s ∷ t ∷ ts) = s ++ bar ∷ join_bar (t ∷ ts)

-- Whether a text that begins in or outside quotes ends in them.
abbrev pub ends_in_quote : Bool → Text → Bool
ends_in_quote q [] = q
ends_in_quote q (c ∷ s) = ends_in_quote (if c == quote_char then not q else q) s

-- The bars outside quotes.
abbrev pub bars : Bool → Text → ℕ
bars q [] = 0
bars q (c ∷ s) =
    let rest = bars (if c == quote_char then not q else q) s in
    if c == bar && not q then suc rest else rest

join_bar-snoc :
    (parts : List Text) (b c : Text)
    → join_bar (parts ++ b ∷ c ∷ []) ≡ join_bar (parts ++ b ∷ []) ++ bar ∷ c
join_bar-snoc [] b c = refl
join_bar-snoc (p ∷ []) b c = sym (append_assoc p (bar ∷ b) (bar ∷ c))
join_bar-snoc (p ∷ q ∷ ps) b c =
    ap (λ t. p ++ bar ∷ t) (join_bar-snoc (q ∷ ps) b c)
    ∙ sym (append_assoc p (bar ∷ join_bar (q ∷ ps ++ b ∷ [])) (bar ∷ c))

join_bar-grow :
    (parts : List Text) (b : Text) (r : ℕ) (e : Text)
    → join_bar (parts ++ ((b ++ r ∷ []) ++ e) ∷ []) ≡ join_bar (parts ++ (b ++ r ∷ e) ∷ [])
join_bar-grow parts b r e = ap (λ t. join_bar (parts ++ t ∷ [])) (append_assoc b (r ∷ []) e)

-- The last stage may be cut off the joined text at any place.
join_bar-last :
    (parts : List Text) (b t : Text)
    → join_bar (parts ++ (b ++ t) ∷ []) ≡ join_bar (parts ++ b ∷ []) ++ t
join_bar-last [] b t = refl
join_bar-last (p ∷ []) b t = sym (append_assoc p (bar ∷ b) t)
join_bar-last (p ∷ q ∷ ps) b t =
    ap (λ x. p ++ bar ∷ x) (join_bar-last (q ∷ ps) b t)
    ∙ sym (append_assoc p (bar ∷ join_bar (q ∷ ps ++ b ∷ [])) t)

-- A stage that ends at a bar.
join_bar-cut :
    (parts : List Text) (b e : Text)
    → join_bar ((parts ++ b ∷ []) ++ e ∷ []) ≡ join_bar (parts ++ (b ++ bar ∷ e) ∷ [])
join_bar-cut parts b e =
    ap (λ t. join_bar t) (append_assoc parts (b ∷ []) (e ∷ []))
    ∙ join_bar-snoc parts b e
    ∙ sym (join_bar-last parts b (bar ∷ e))

and-left : (a b : Bool) → (a && b) ≡ true → a ≡ true
and-left true b h = refl
and-left false b h = h

and-right : (a b : Bool) → (a && b) ≡ true → b ≡ true
and-right true b h = h
and-right false b h = absurd (grind arith)

not-true : (q : Bool) → not q ≡ true → false ≡ q
not-true false h = refl
not-true true h = absurd (grind arith)

is_bar : (r : ℕ) (q : Bool) → (r == bar && not q) ≡ true → r ≡ bar
is_bar r q h = (==_iff r bar).0 (and-left (r == bar) (not q) h)

split_pipeline_from-join :
    (e : Text) (parts : List Text) (b : Text) (q : Bool)
    → join_bar (split_pipeline_from e parts b q) ≡ join_bar (parts ++ (b ++ e) ∷ [])
unfolding split_pipeline_from
split_pipeline_from-join [] parts b q = ap (λ t. join_bar (parts ++ t ∷ [])) (sym (append-nil b))
split_pipeline_from-join (r ∷ e) parts b q =
    if-elim (λ t. join_bar t ≡ join_bar (parts ++ (b ++ r ∷ e) ∷ [])) (r == quote_char)
      (λ _. split_pipeline_from-join e parts (b ++ r ∷ []) (not q) ∙ join_bar-grow parts b r e)
      (λ _.
        if-elim (λ t. join_bar t ≡ join_bar (parts ++ (b ++ r ∷ e) ∷ [])) (r == bar && not q)
          (λ h.
            split_pipeline_from-join e (parts ++ b ∷ []) [] q
            ∙ join_bar-cut parts b e
            ∙ ap (λ c. join_bar (parts ++ (b ++ c ∷ e) ∷ [])) (sym (is_bar r q h)))
          (λ _. split_pipeline_from-join e parts (b ++ r ∷ []) q ∙ join_bar-grow parts b r e))

bars-append : (b t : Text) (q : Bool) → bars q (b ++ t) ≡ bars q b + bars (ends_in_quote q b) t
bars-append [] t q = omega arith
bars-append (c ∷ b) t q =
    let rest = bars-append b t (if c == quote_char then not q else q) in ground (arith, rest)

ends_in_quote-append :
    (b t : Text) (q : Bool) → ends_in_quote q (b ++ t) ≡ ends_in_quote (ends_in_quote q b) t
ends_in_quote-append [] t q = refl
ends_in_quote-append (c ∷ b) t q = ends_in_quote-append b t _

-- No bar of a stage stands outside quotes.
abbrev pub IsStage : Text → Type 0
IsStage s = bars false s ≡ 0

-- A character other than a bar outside quotes keeps a stage one.
IsStage-grow :
    (b : Text) (r : ℕ) (q : Bool)
    → IsStage b
    → ends_in_quote false b ≡ q
    → (r == bar && not q) ≡ false
    → IsStage (b ++ r ∷ [])
IsStage-grow b r q h i d =
    bars-append b (r ∷ []) false
    ∙ (λ k. h k + bars (i k) (r ∷ []))
    ∙ if-elim (λ n. 0 + n ≡ 0) (r == bar && not q) (λ e. absurd (grind (arith, e, d)))
        (λ _. omega arith)

ends_in_quote-grow :
    (b : Text) (r : ℕ) (q : Bool)
    → ends_in_quote false b ≡ q
    → ends_in_quote false (b ++ r ∷ []) ≡ (if r == quote_char then not q else q)
ends_in_quote-grow b r q i =
    ends_in_quote-append b (r ∷ []) false ∙ ap (λ p. if r == quote_char then not p else p) i

quote_is_no_bar : (r : ℕ) (q : Bool) → (r == quote_char) ≡ true → (r == bar && not q) ≡ false
quote_is_no_bar r q c = ground arith

-- A stage that ends at a bar: the quotes that it opens are closed.
abbrev pub IsClosed : Text → Type 0
IsClosed s = IsStage s × (ends_in_quote false s ≡ false)

-- One stage at least, and all but the last closed.
abbrev pub IsSplit : List Text → Type 0
IsSplit [] = ⊥
IsSplit (s ∷ []) = IsStage s
IsSplit (s ∷ t ∷ ts) = IsClosed s × IsSplit (t ∷ ts)

IsSplit-snoc :
    (parts : List Text) (b : Text) → All IsClosed parts → IsStage b → IsSplit (parts ++ b ∷ [])
IsSplit-snoc [] b _ h = h
IsSplit-snoc (s ∷ []) b (k, _) h = (k, h)
IsSplit-snoc (s ∷ t ∷ ts) b (k, ks) h = (k, IsSplit-snoc (t ∷ ts) b ks h)

split_pipeline_from-IsSplit :
    (e : Text) (parts : List Text) (b : Text) (q : Bool)
    → All IsClosed parts
    → IsStage b
    → ends_in_quote false b ≡ q
    → IsSplit (split_pipeline_from e parts b q)
unfolding split_pipeline_from
split_pipeline_from-IsSplit [] parts b q hs h _ = IsSplit-snoc parts b hs h
split_pipeline_from-IsSplit (r ∷ e) parts b q hs h i =
    if-elim IsSplit (r == quote_char)
      (λ c.
        split_pipeline_from-IsSplit e parts (b ++ r ∷ []) (not q) hs
          (IsStage-grow b r q h i (quote_is_no_bar r q c)) (ends_in_quote-grow b r q i ∙ rw c refl))
      (λ c.
        if-elim IsSplit (r == bar && not q)
          (λ d.
            let outside = not-true q (and-right (r == bar) (not q) d) in
            split_pipeline_from-IsSplit e (parts ++ b ∷ []) [] q
              (All-append IsClosed parts (b ∷ []) hs ((h, i ∙ sym outside), tt)) refl outside)
          (λ d.
            split_pipeline_from-IsSplit e parts (b ++ r ∷ []) q hs (IsStage-grow b r q h i d)
              (ends_in_quote-grow b r q i ∙ rw c refl)))

-- `SplitPipeline` cuts at the bars outside quotes and nowhere else: the stages with bars between them
-- are the expression again, no stage keeps a bar outside its quotes, and every stage but the last
-- closes the quotes that it opens, so that the bar behind it stands outside quotes.
pub split_pipeline_lem : (e : Text) → (join_bar (split_pipeline e) ≡ e) × IsSplit (split_pipeline e)
unfolding split_pipeline
split_pipeline_lem e =
    (split_pipeline_from-join e [] [] false, split_pipeline_from-IsSplit e [] [] false tt refl refl)

-- A sign as it is written.
abbrev pub sign_text : Sign → Text
sign_text eq_sign = codes "="
sign_text neq_sign = codes "!="
sign_text gt_sign = codes ">"
sign_text gte_sign = codes ">="
sign_text lt_sign = codes "<"
sign_text lte_sign = codes "<="
sign_text match_sign = codes "=~"

-- No character that is a sign by itself.
abbrev pub IsPlain : ℕ → Type 0
IsPlain c = (c == b'=' || (c == b'<' || c == b'>')) ≡ false

-- A key of some length, plain behind its first character.
abbrev pub IsKey : Text → Type 0
IsKey [] = ⊥
IsKey (c ∷ key) = All IsPlain key

-- What a token is cut into: a key, a sign and a value in that order, or nothing where no sign stands
-- behind its first character.
abbrev pub IsCut : Text → Option Split → Type 0
IsCut tok none = (tok ≡ []) ⊎ IsKey tok
IsCut tok (some s) = IsKey s.key × (tok ≡ s.key ++ (sign_text s.sign ++ s.val))

-- The sign at a place behind a key.
abbrev IsSignAt : Text → Text → Option Split → Type 0
IsSignAt key t none = Unit
IsSignAt key t (some s) = (s.key ≡ key) × (t ≡ sign_text s.sign ++ s.val)

sign_at-IsSignAt : (key : Text) (c : ℕ) (rest : Text) → IsSignAt key (c ∷ rest) (sign_at key c rest)
unfolding sign_at
sign_at-IsSignAt key c [] = ground arith
sign_at-IsSignAt key c (d ∷ rest) = ground arith

sign_at-IsPlain : (key : Text) (c : ℕ) (rest : Text) → sign_at key c rest ≡ none → IsPlain c
unfolding sign_at
sign_at-IsPlain key c [] h = ground arith
sign_at-IsPlain key c (d ∷ rest) h = ground arith

choose_sign :
    (first : ℕ) (key : Text) (c : ℕ) (rest : Text) (o more : Option Split)
    → sign_at (first ∷ key) c rest ≡ o
    → All IsPlain key
    → (sign_at (first ∷ key) c rest ≡ none → IsCut (first ∷ (key ++ c ∷ rest)) more)
    → IsCut (first ∷ (key ++ c ∷ rest)) (elim o [ some s ↦ some s | none ↦ more ])
choose_sign first key c rest none more e h next = next e
choose_sign first key c rest (some s) more e h next =
    let (k, v) =
      subst (IsSignAt (first ∷ key) (c ∷ rest)) e (sign_at-IsSignAt (first ∷ key) c rest) in
    (subst IsKey (sym k) h, λ i. sym k i ++ v i)

split_op_from-IsCut :
    (first : ℕ) (key rest : Text)
    → All IsPlain key
    → IsCut (first ∷ (key ++ rest)) (split_op_from (first ∷ key) rest)
unfolding split_op_from
split_op_from-IsCut first key [] h = inr (subst (All IsPlain) (sym (append-nil key)) h)
split_op_from-IsCut first key (c ∷ rest) h =
    choose_sign first key c rest (sign_at (first ∷ key) c rest) _ refl h (λ e.
      subst (λ t. IsCut (first ∷ t) (split_op_from (first ∷ (key ++ c ∷ [])) rest))
        (append_assoc key (c ∷ []) rest)
        (split_op_from-IsCut first (key ++ c ∷ []) rest
          (All-append IsPlain key (c ∷ []) h (sign_at-IsPlain (first ∷ key) c rest e, tt))))

-- A filter token is cut at the first sign behind its first character: if `splitOp` finds one, the key
-- is not empty, has no sign behind its first character, and key, sign and value in that order are the
-- token; if it finds none, there is none behind the token's first character.
pub split_op-IsCut : (tok : Text) → IsCut tok (split_op tok)
unfolding split_op
split_op-IsCut [] = inl refl
split_op-IsCut (c ∷ rest) = split_op_from-IsCut c [] rest tt
