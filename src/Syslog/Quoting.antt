-- ===== src/Syslog/Quoting.antt =====
-- Structured data as RFC5424 writes it, and its characters under the flags of the loops in
-- internal/syslog/parse.go.
use omni_logging.Common.{
  ℕ, ◌≡◌, refl, sym, ap, subst, ◌∙◌, Bool, true, false, ◌||◌, [], ◌∷◌, ◌++◌, append-nil,
  append_assoc, if◌then◌else◌, if-elim, ◌==◌, arith, Text, All,
}
use omni_logging.Common.Strings.{Unicode}
use omni_logging.Syslog.Elements.{Quotes, outside, plain, sign_of, quoted, read_from, read_quoted}

abbrev pub is_special : ℕ → Bool
is_special c = c == b'"' || c == b'\\' || c == b']'

-- A value with a backslash before each quote, backslash and closing bracket.
abbrev pub escape : Text → Text
escape [] = []
escape (c ∷ s) = if is_special c then b'\\' ∷ c ∷ escape s else c ∷ escape s

abbrev pub in_quotes : Text → Text
in_quotes v = b'"' ∷ escape v ++ (b'"' ∷ [])

abbrev pub inside : Quotes
inside = record { in_quote = true; escaped = false }

read_from-plain :
    (c : ℕ) (value s : Text)
    → is_special c ≡ false
    → read_from false value (c ∷ s) ≡ read_from false (value ++ c ∷ []) s
unfolding read_from
read_from-plain c value s h = ground arith

read_from-escaped :
    (c : ℕ) (value s : Text)
    → read_from false value (b'\\' ∷ c ∷ s) ≡ read_from false (value ++ c ∷ []) s
unfolding read_from
read_from-escaped c value s = refl

read_from-escape :
    (v value rest : Text)
    → read_from false value (escape v ++ (b'"' ∷ rest)) ≡ quoted (value ++ v) rest
unfolding read_from
read_from-escape [] value rest = ap (λ t. quoted t rest) (sym (append-nil value))
read_from-escape (c ∷ v) value rest =
    let more : read_from false (value ++ c ∷ []) (escape v ++ (b'"' ∷ rest))
        ≡ quoted (value ++ c ∷ v) rest =
      read_from-escape v (value ++ c ∷ []) rest
      ∙ ap (λ t. quoted t rest) (append_assoc value (c ∷ []) v) in
    if-elim (λ t. read_from false value (t ++ (b'"' ∷ rest)) ≡ quoted (value ++ c ∷ v) rest)
      (is_special c) (λ h. read_from-escaped c value (escape v ++ (b'"' ∷ rest)) ∙ more)
      (λ h. read_from-plain c value (escape v ++ (b'"' ∷ rest)) h ∙ more)

-- Any value that is written in quotes is read back, and what follows it is left.
pub read_quoted-in_quotes : (v rest : Text) → read_quoted (in_quotes v ++ rest) ≡ quoted v rest
unfolding read_quoted
read_quoted-in_quotes v rest =
    ap (read_from false []) (append_assoc (escape v) (b'"' ∷ []) rest) ∙ read_from-escape v [] rest

-- A text that holds no bracket of its own, with the flags before and behind it.
abbrev pub IsClear : Quotes → Text → Quotes → Type 0
IsClear q [] r = q ≡ r
IsClear q (c ∷ s) r = (p : Quotes) × (sign_of q c ≡ plain p) × IsClear p s r

pub IsClear-append :
    (q p r : Quotes) (s t : Text) → IsClear q s p → IsClear p t r → IsClear q (s ++ t) r
IsClear-append q p r [] t h k = subst (λ x. IsClear x t r) (sym h) k
IsClear-append q p r (c ∷ s) t (x, e, h) k = (x, e, IsClear-append x p r s t h k)

sign_of-escape : sign_of inside b'\\' ≡ plain (record inside { escaped = true })
unfolding sign_of
sign_of-escape = refl

sign_of-escaped : (c : ℕ) → sign_of (record inside { escaped = true }) c ≡ plain inside
unfolding sign_of
sign_of-escaped c = refl

sign_of-value : (c : ℕ) → is_special c ≡ false → sign_of inside c ≡ plain inside
unfolding sign_of
sign_of-value c h = ground arith

IsClear-escape : (v : Text) → IsClear inside (escape v) inside
IsClear-escape [] = refl
IsClear-escape (c ∷ v) =
    if-elim (λ t. IsClear inside t inside) (is_special c)
      (λ h. (
        record inside { escaped = true },
        sign_of-escape,
        (inside, sign_of-escaped c, IsClear-escape v),
      ))
      (λ h. (inside, sign_of-value c h, IsClear-escape v))

pub IsClear-quotes : (v : Text) → IsClear outside (in_quotes v) outside
unfolding sign_of
IsClear-quotes v = (
  inside,
  refl,
  IsClear-append inside inside outside (escape v) (b'"' ∷ []) (IsClear-escape v)
      (outside, refl, refl),
)

-- The characters of the names in structured data that the parser reads back: RFC5424 forbids spaces, the
-- equals sign, the closing bracket and the quote.
pub record IsNameChar (u : Unicode) (c : ℕ) : Type 0 where
  pub no_space : u.is_space c ≡ false
  pub no_blank : (c == 32) ≡ false
  pub no_equals : (c == b'=') ≡ false
  pub no_quote : (c == b'"') ≡ false
  pub no_escape : (c == b'\\') ≡ false
  pub no_opening : (c == b'[') ≡ false
  pub no_closing : (c == b']') ≡ false

sign_of-name : (u : Unicode) (c : ℕ) → IsNameChar u c → sign_of outside c ≡ plain outside
unfolding sign_of
sign_of-name u c h = rw (h.no_escape, h.no_quote, h.no_opening, h.no_closing) refl

pub IsClear-name : (u : Unicode) (s : Text) → All (IsNameChar u) s → IsClear outside s outside
IsClear-name u [] _ = refl
IsClear-name u (c ∷ s) (h, hs) = (outside, sign_of-name u c h, IsClear-name u s hs)
