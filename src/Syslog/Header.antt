-- ===== src/Syslog/Header.antt =====
-- Messages as RFC5424 writes them, read by `Parse` of internal/syslog/parse.go.
use omni_logging.Common.{
  ℕ, suc, ◌≤◌, ◌≡◌, refl, ap, ◌∙◌, true, false, ◌&&◌, List, [], ◌∷◌, ◌++◌, leb, ◌==◌, length, arith,
  Text, All,
}
use omni_logging.Common.Strings.{Unicode, trim_left}
use omni_logging.Query.{is_empty}
use omni_logging.Syslog.{itoa, behind_digits, is_rfc5424}
use omni_logging.Syslog.Elements.{Element}
use omni_logging.Syslog.Message.{Fields, take_fields}
use omni_logging.Syslog.Reading.{written, IsWritable}
use omni_logging.Syslog.Params.{cut_at-name}

-- A message of RFC5424 with its structured data.
pub record Message : Type 0 where
  pub pri : ℕ
  pub version : Text
  pub stamp : Text
  pub host : Text
  pub app : Text
  pub process : Text
  pub id : Text
  pub first : Element
  pub others : List Element
  pub body : Text

abbrev pub elements : Message → List Element
elements m = m.first ∷ m.others

-- Words with a space behind each.
abbrev pub spaced : List Text → Text → Text
spaced [] rest = rest
spaced (w ∷ ws) rest = w ++ 32 ∷ spaced ws rest

abbrev pub header_words : Message → List Text
header_words m = m.version ∷ m.stamp ∷ m.host ∷ m.app ∷ m.process ∷ m.id ∷ []

abbrev pub data_and_body : Message → Text
data_and_body m = written (elements m) ++ (32 ∷ m.body)

abbrev pub behind_pri : Message → Text
behind_pri m = spaced (header_words m) (data_and_body m)

-- The message as a line.
abbrev pub line_of : Message → Text
line_of m = b'<' ∷ itoa m.pri ++ (b'>' ∷ behind_pri m)

abbrev pub IsDigit : ℕ → Type 0
IsDigit c = (leb b'0' c && leb c b'9') ≡ true

abbrev pub IsWord : Text → Type 0
IsWord w = All (λ c. (c == 32) ≡ false) w

-- A message that can be written: its version is a number, its words hold no spaces.
pub record IsSendable (u : Unicode) (m : Message) : Type 0 where
  pub in_range : m.pri ≤ 191
  pub digits : All IsDigit m.version
  pub has_version : is_empty m.version ≡ false
  pub words : All IsWord (header_words m)
  pub writable : All (IsWritable u) (elements m)

take_fields-spaced :
    (w : Text) (rest : Text) (n : ℕ)
    → IsWord w
    → take_fields (suc n) (w ++ 32 ∷ rest) ≡ record {
      fields = w ∷ (take_fields n rest).fields;
      remainder = (take_fields n rest).remainder;
    }
unfolding take_fields
take_fields-spaced w rest n h = rw (take_fields, cut_at-name 32 [] w rest h refl) refl

behind_digits-word : (s rest : Text) → All IsDigit s → behind_digits (s ++ 32 ∷ rest) ≡ 32 ∷ rest
unfolding behind_digits trim_left
behind_digits-word [] rest _ = refl
behind_digits-word (c ∷ s) rest (h, hs) = rw h (behind_digits-word s rest hs)

pub is_rfc5424-version :
    (v rest : Text) → All IsDigit v → is_empty v ≡ false → is_rfc5424 (v ++ 32 ∷ rest) ≡ true
unfolding is_rfc5424 is_empty
is_rfc5424-version [] rest _ n = absurd (grind (arith, n))
is_rfc5424-version (c ∷ s) rest (h, hs) n = rw (h, behind_digits-word s rest hs) refl

abbrev put_field : Text → Fields → Fields
put_field w f = record { fields = w ∷ f.fields; remainder = f.remainder }

pub take_fields_all :
    (ws : List Text) (rest : Text)
    → All IsWord ws
    → take_fields (length ws) (spaced ws rest) ≡ record { fields = ws; remainder = rest }
unfolding take_fields
take_fields_all [] rest _ = refl
take_fields_all (w ∷ ws) rest (h, hs) =
    take_fields-spaced w (spaced ws rest) (length ws) h
    ∙ ap (put_field w) (take_fields_all ws rest hs)
