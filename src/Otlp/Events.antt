-- ===== src/Otlp/Events.antt =====
-- What `DecodeProtobuf` of internal/otlp/logs.go makes of a request: its events, their levels and their
-- attributes.
use omni_logging.Common.{
  ℕ, zero, suc, ◌+◌, ◌≡◌, refl, false, not, ◌||◌, Option, none, some, List, [], ◌∷◌, ◌++◌, Text,
  Bytes, if◌then◌else◌, if-elim, ◌>>=◌, OnSuccess, OnSuccess-bind, OnSuccess-then, ltb, ◌==◌,
  length, All, All-append,
}
use omni_logging.Common.Strings.{Unicode}
use omni_logging.Model.{LogEvent, Moment, is_zero}
use omni_logging.Model.Levels.{IsNormal, normalize-IsNormal}
use omni_logging.Otlp.{done, tag, skip, bytes}
use omni_logging.Otlp.Fields.{Handler, each_field_on, each_field, skipped}
use omni_logging.Otlp.Values.{Codec}
use omni_logging.Otlp.Rounds.{IsForward, framed-forward, each_field-loop}
use omni_logging.Otlp.Records.{
  Attributes, Draft, empty_draft, draft_event, finish_event, record_field, decode_log_record,
}
use omni_logging.Otlp.Logs.{
  decode_records, decode_scope_logs, decode_scopes, decode_resource_logs, request_field,
  decode_protobuf, scope_field, resource_field,
}

OnSuccess-always : {A : Type 0} (P : A → Type 0) (o : Option A) → ((a : A) → P a) → OnSuccess P o
OnSuccess-always P none h = tt
OnSuccess-always P (some a) h = h a

-- What every round of a loop keeps holds where the loop ends.
each_field_on-keeps :
    {S : Type 0} (P : S → Type 0) (h : Handler S)
    → ((s : S) (field wire : ℕ) (buf : Bytes)
        → P s
        → OnSuccess (λ (r : S × Bytes). P r.0) (h s field wire buf))
    → (n : ℕ) (s : S) (buf : Bytes) → P s
    → OnSuccess P (each_field_on n h s buf)
unfolding each_field_on
each_field_on-keeps P h keeps zero s buf p = if-elim (OnSuccess P) (done buf) (λ _. p) (λ _. tt)
each_field_on-keeps {S} P h keeps (suc n) s buf p =
    if-elim (OnSuccess P) (done buf) (λ _. p)
      (λ _.
        OnSuccess-bind P (tag buf)
          (λ (r : ℕ × ℕ × Bytes). h s r.0 r.1 r.2 >>= λ (t : S × Bytes). each_field_on n h t.0 t.1)
          (λ r.
            OnSuccess-then P (h s r.0 r.1 r.2) (λ (t : S × Bytes). each_field_on n h t.0 t.1)
              (keeps s r.0 r.1 r.2 p) (λ t q. each_field_on-keeps P h keeps n t.0 t.1 q)))

skipped-keeps :
    {S : Type 0} (P : S → Type 0) (s : S) (wire : ℕ) (buf : Bytes)
    → P s
    → OnSuccess (λ (r : S × Bytes). P r.0) (skipped s wire buf)
unfolding skipped
skipped-keeps {S} P s wire buf p =
    OnSuccess-bind (λ (r : S × Bytes). P r.0) (skip wire buf) (λ (rest : Bytes). some (s, rest))
      (λ _. p)

module _ (c : Codec) (u : Unicode) (now : Moment) (clock : is_zero now.at ≡ false) where
  finish_event-IsNormal :
      (resource : Attributes) (scope_name : Text) (d : Draft)
      → IsNormal (finish_event c u now resource scope_name d)
  unfolding finish_event
  finish_event-IsNormal resource scope_name d =
      normalize-IsNormal u now (draft_event c u resource scope_name d) clock

  decode_log_record-IsNormal :
      (resource : Attributes) (scope_name : Text) (depth : ℕ) (b : Bytes)
      → OnSuccess IsNormal (decode_log_record c u now resource scope_name depth b)
  unfolding decode_log_record
  decode_log_record-IsNormal resource scope_name depth b =
      OnSuccess-bind IsNormal (each_field (record_field c u depth) empty_draft b)
        (λ (d : Draft). some (finish_event c u now resource scope_name d))
        (λ d. finish_event-IsNormal resource scope_name d)

  decode_records-IsNormal :
      (resource : Attributes) (scope_name : Text) (depth : ℕ) (recs : List Bytes)
      → OnSuccess (All IsNormal) (decode_records c u now resource scope_name depth recs)
  unfolding decode_records
  decode_records-IsNormal resource scope_name depth [] = tt
  decode_records-IsNormal resource scope_name depth (rec ∷ recs) =
      OnSuccess-then (All IsNormal) (decode_log_record c u now resource scope_name depth rec)
        (λ (e : LogEvent). do
          es ← decode_records c u now resource scope_name depth recs
          some (e ∷ es))
        (decode_log_record-IsNormal resource scope_name depth rec)
        (λ e p.
          OnSuccess-then (All IsNormal) (decode_records c u now resource scope_name depth recs)
            (λ (es : List LogEvent). some (e ∷ es))
            (decode_records-IsNormal resource scope_name depth recs) (λ es q. (p, q)))

  decode_scope_logs-IsNormal :
      (resource : Attributes) (depth : ℕ) (b : Bytes)
      → OnSuccess (All IsNormal) (decode_scope_logs c u now resource depth b)
  unfolding decode_scope_logs
  decode_scope_logs-IsNormal resource depth b =
      if-elim (OnSuccess (All IsNormal)) (ltb 16 depth) (λ _. tt)
        (λ _.
          OnSuccess-bind (All IsNormal) (each_field (scope_field c u) ([], []) b)
            (λ (r : Text × List Bytes). decode_records c u now resource r.0 (depth + 1) r.1)
            (λ r. decode_records-IsNormal resource r.0 (depth + 1) r.1))

  decode_scopes-IsNormal :
      (resource : Attributes) (depth : ℕ) (scopes : List Bytes)
      → OnSuccess (All IsNormal) (decode_scopes c u now resource depth scopes)
  unfolding decode_scopes
  decode_scopes-IsNormal resource depth [] = tt
  decode_scopes-IsNormal resource depth (scope ∷ scopes) =
      OnSuccess-then (All IsNormal) (decode_scope_logs c u now resource depth scope)
        (λ (es : List LogEvent). do
          more ← decode_scopes c u now resource depth scopes
          some (es ++ more))
        (decode_scope_logs-IsNormal resource depth scope)
        (λ es p.
          OnSuccess-then (All IsNormal) (decode_scopes c u now resource depth scopes)
            (λ (more : List LogEvent). some (es ++ more))
            (decode_scopes-IsNormal resource depth scopes)
            (λ more q. All-append IsNormal es more p q))

  decode_resource_logs-IsNormal :
      (depth : ℕ) (b : Bytes) → OnSuccess (All IsNormal) (decode_resource_logs c u now depth b)
  unfolding decode_resource_logs
  decode_resource_logs-IsNormal depth b =
      if-elim (OnSuccess (All IsNormal)) (ltb 16 depth) (λ _. tt)
        (λ _.
          OnSuccess-bind (All IsNormal) (each_field (resource_field c u depth) ([], []) b)
            (λ (r : Attributes × List Bytes). decode_scopes c u now r.0 (depth + 1) r.1)
            (λ r. decode_scopes-IsNormal r.0 (depth + 1) r.1))

  request_field-keeps :
      (out : List LogEvent) (field wire : ℕ) (buf : Bytes)
      → All IsNormal out
      → OnSuccess
          (λ (r : List LogEvent × Bytes). All IsNormal r.0)
          (request_field c u now out field wire buf)
  unfolding request_field
  request_field-keeps out field wire buf p =
      if-elim (OnSuccess (λ (r : List LogEvent × Bytes). All IsNormal r.0))
        (not (field == 1) || not (wire == 2)) (λ _. skipped-keeps (All IsNormal) out wire buf p)
        (λ _.
          OnSuccess-bind (λ (r : List LogEvent × Bytes). All IsNormal r.0) (bytes buf)
            (λ (r : Bytes × Bytes). do
              events ← decode_resource_logs c u now 0 r.0
              some (out ++ events, r.1))
            (λ r.
              OnSuccess-then (λ (r : List LogEvent × Bytes). All IsNormal r.0)
                (decode_resource_logs c u now 0 r.0)
                (λ (events : List LogEvent). some (out ++ events, r.1))
                (decode_resource_logs-IsNormal 0 r.0)
                (λ events q. All-append IsNormal out events p q)))

  -- Whatever bytes are sent, every event of a request that is read is normal: it has an ID, one of the five
  -- levels, and both of its times. The clock does not stand at Go's zero time.
  pub decode_protobuf-IsNormal : (b : Bytes) → OnSuccess (All IsNormal) (decode_protobuf c u now b)
  unfolding decode_protobuf each_field
  decode_protobuf-IsNormal b =
      each_field_on-keeps (All IsNormal) (request_field c u now) request_field-keeps (length b) [] b
        tt

request_field-IsForward :
    (c : Codec) (u : Unicode) (now : Moment) → IsForward (request_field c u now)
unfolding request_field
request_field-IsForward c u now out field wire buf =
    framed-forward (not (field == 1) || not (wire == 2)) out wire (decode_resource_logs c u now 0)
      (λ _ events. out ++ events) buf

-- The reading of a request ends, and is the loop of the code: where nothing is left the events are
-- those gathered so far, and otherwise the next field is read and the loop goes on behind it. The fuel
-- decides nothing.
pub decode_protobuf-loop :
    (c : Codec) (u : Unicode) (now : Moment) (b : Bytes)
    → (decode_protobuf c u now b ≡ each_field (request_field c u now) [] b)
      × ((out : List LogEvent) (buf : Bytes)
          → each_field (request_field c u now) out buf ≡ (
              if done buf then some out else (do
                (field, wire, rest) ← tag buf
                (next, behind) ← request_field c u now out field wire rest
                each_field (request_field c u now) next behind)))
unfolding decode_protobuf
decode_protobuf-loop c u now b = (
  refl,
  λ out buf. each_field-loop (request_field c u now) (request_field-IsForward c u now) out buf,
)
