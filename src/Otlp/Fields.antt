-- ===== src/Otlp/Fields.antt =====
-- The loops of internal/otlp/logs.go over the fields of a message: `for !r.done()` with a tag and what is
-- done with the field. A loop runs on fuel, and every round takes a byte of the message at least.
use omni_logging.Common.{
  ℕ, zero, suc, ◌⊎◌, inl, inr, Option, none, some, if◌then◌else◌, ◌>>=◌, Bytes, length,
}
use omni_logging.Otlp.{done, tag, skip}

-- What is done with a field: its number, its wire type and the bytes behind its tag.
abbrev pub Handler : Type 0 → Type 0
Handler S = S → ℕ → ℕ → Bytes → Option (S × Bytes)

-- What is done with a field where the loop may return: an answer, or the bytes behind the field.
abbrev pub Probe : Type 0 → Type 0
Probe R = ℕ → ℕ → Bytes → Option (R ⊎ Bytes)

module _ {S : Type 0} where
  unfoldable pub each_field_on : ℕ → Handler S → S → Bytes → Option S
  unfolding done
  each_field_on zero h s buf = if done buf then some s else none
  each_field_on (suc n) h s buf = if done buf then some s else (do
    (field, wire, rest) ← tag buf
    (next, behind) ← h s field wire rest
    each_field_on n h next behind)

  unfoldable pub each_field : Handler S → S → Bytes → Option S
  unfolding each_field_on
  each_field h s buf = each_field_on (length buf) h s buf

  unfoldable pub skipped : S → ℕ → Bytes → Option (S × Bytes)
  unfolding skip
  skipped s wire buf = do behind ← skip wire buf; some (s, behind)

module _ {R : Type 0} where
  -- The answer of the first field that has one, if a field has.
  unfoldable pub first_field_on : ℕ → Probe R → Bytes → Option (Option R)
  unfolding done
  first_field_on zero p buf = if done buf then some none else none
  first_field_on (suc n) p buf = if done buf then some none else (do
    (field, wire, rest) ← tag buf
    found ← p field wire rest
    elim found [ inl r ↦ some (some r) | inr behind ↦ first_field_on n p behind ])

  unfoldable pub first_field : Probe R → Bytes → Option (Option R)
  unfolding first_field_on
  first_field p buf = first_field_on (length buf) p buf

  unfoldable pub passed : ℕ → Bytes → Option (R ⊎ Bytes)
  unfolding skip
  passed wire buf = do behind ← skip wire buf; some (inr behind)
