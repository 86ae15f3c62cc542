-- ===== src/Pipeline/Kept.antt =====
-- What no pipeline changes of an event: Apply of internal/pipeline.
use omni_logging.Common.{
  ◌≡◌, refl, ◌∙◌, true, Option, none, some, List, [], ◌∷◌, if◌then◌else◌, if-elim, OnSuccess,
  OnSuccess-bind, Text, codes, same,
}
use omni_logging.Common.Strings.{Unicode, lower, trim_space}
use omni_logging.Query.Match.{Engine}
use omni_logging.Model.{LogEvent, is_level, is_among, parse_level}
use omni_logging.Model.Levels.{IsLevel-parse}
use omni_logging.Pipeline.{
  StageSpec, Tools, Work, extract_grok, extract_regexp, read_timestamp, set_level, set_service,
  move, discard, fill, Stage, Pipeline,
}
use omni_logging.Pipeline.Stages.{
  read_field, write_attr, put_capture, put_captures, match_grok, match_regexp, time_of, work_on,
  apply_stage, Applied, apply_stages,
}
use omni_logging.Pipeline.Set.{Set, Enriched, applies_to, apply_pipelines, apply}

-- What an event keeps.
pub record IsEnriched (e later : LogEvent) : Type 0 where
  pub id : later.id ≡ e.id
  pub received_at : later.received_at ≡ e.received_at
  pub raw : later.raw ≡ e.raw
  pub level : is_level e.level ≡ true → is_level later.level ≡ true

IsEnriched-refl : (e : LogEvent) → IsEnriched e e
IsEnriched-refl e = record { id = refl; received_at = refl; raw = refl; level = λ h. h }

IsEnriched-trans : (a b c : LogEvent) → IsEnriched a b → IsEnriched b c → IsEnriched a c
IsEnriched-trans a b c h k = record {
  id = k.id ∙ h.id;
  received_at = k.received_at ∙ h.received_at;
  raw = k.raw ∙ h.raw;
  level = λ l. k.level (h.level l);
}

module _ (u : Unicode) (tools : Tools) where
  IsEnriched-write :
      (key value : Text) (e : LogEvent) → IsEnriched e (write_attr u tools key value e)
  unfolding write_attr
  IsEnriched-write key value e = record {
    id = refl;
    received_at = refl;
    raw = refl;
    level = λ h. h;
  }

  IsEnriched-level :
      (value : Text) (e : LogEvent) → IsEnriched e (record e { level = parse_level u value })
  IsEnriched-level value e = record {
    id = refl;
    received_at = refl;
    raw = refl;
    level = λ _. IsLevel-parse u value;
  }

  IsEnriched-capture :
      (name value : Text) (e : LogEvent) → IsEnriched e (put_capture u tools name value e)
  unfolding put_capture
  IsEnriched-capture name value e =
      if-elim (IsEnriched e) (same (lower u name) (codes "message"))
        (λ _. record { id = refl; received_at = refl; raw = refl; level = λ h. h })
        (λ _.
          if-elim (IsEnriched e) (same (lower u name) (codes "service"))
            (λ _. record { id = refl; received_at = refl; raw = refl; level = λ h. h })
            (λ _.
              if-elim (IsEnriched e) (is_among (lower u name) (codes "source" ∷ codes "host" ∷ []))
                (λ _. record { id = refl; received_at = refl; raw = refl; level = λ h. h })
                (λ _.
                  if-elim (IsEnriched e) (same (lower u name) (codes "level"))
                    (λ _. IsEnriched-level value e) (λ _. IsEnriched-write name value e))))

  IsEnriched-captures :
      (fields : List (Text × Text)) (e : LogEvent) → IsEnriched e (put_captures u tools fields e)
  unfolding put_captures
  IsEnriched-captures [] e = IsEnriched-refl e
  IsEnriched-captures ((name, value) ∷ fields) e =
      IsEnriched-trans e (put_capture u tools name value e)
        (put_captures u tools ((name, value) ∷ fields) e) (IsEnriched-capture name value e)
        (IsEnriched-captures fields (put_capture u tools name value e))

  IsEnriched-work :
      (w : Work) (s : StageSpec) (e : LogEvent) (field : Option Text)
      → OnSuccess (IsEnriched e) (work_on u tools w s e field)
  unfolding work_on
  IsEnriched-work (extract_grok g) s e field = OnSuccess-bind (IsEnriched e) field _ (λ v.
      OnSuccess-bind (IsEnriched e) (match_grok g v) _
        (λ fields. IsEnriched-captures (tools.map_order fields) e))
  IsEnriched-work (extract_regexp re) s e field = OnSuccess-bind (IsEnriched e) field _ (λ v.
      OnSuccess-bind (IsEnriched e) (match_regexp re v) _
        (λ fields. IsEnriched-captures (tools.map_order fields) e))
  IsEnriched-work (read_timestamp layouts) s e field = OnSuccess-bind (IsEnriched e) field _ (λ v.
      OnSuccess-bind (IsEnriched e) (time_of u tools e.received_at layouts (trim_space u v)) _
        (λ t. record { id = refl; received_at = refl; raw = refl; level = λ h. h }))
  IsEnriched-work set_level s e field =
      OnSuccess-bind (IsEnriched e) field _ (λ v. IsEnriched-level v e)
  IsEnriched-work set_service s e field =
      OnSuccess-bind (IsEnriched e) field _
        (λ v. record { id = refl; received_at = refl; raw = refl; level = λ h. h })
  IsEnriched-work move s e field =
      OnSuccess-bind (IsEnriched e) field _
        (λ v. record { id = refl; received_at = refl; raw = refl; level = λ h. h })
  IsEnriched-work discard s e field = record {
    id = refl;
    received_at = refl;
    raw = refl;
    level = λ h. h;
  }
  IsEnriched-work fill s e field = IsEnriched-write _ s.value e

  IsEnriched-stages :
      (sts : List Stage) (e : LogEvent) → IsEnriched e (apply_stages u tools sts e).event
  unfolding apply_stages
  IsEnriched-stages [] e = IsEnriched-refl e
  IsEnriched-stages (st ∷ sts) e =
      (elim (apply_stage u tools st e)
          as (λ o.
            OnSuccess (IsEnriched e) o
            → IsEnriched e
                (elim o as (λ _. Applied) [
                  | some e' ↦ apply_stages u tools sts e'
                  | none ↦
                      if st.spec.fail_pipeline
                      then record { event = e; failed = true }
                      else apply_stages u tools sts e
                ]).event) [
                  | some e' ↦ λ h.
                      IsEnriched-trans e e' (apply_stages u tools sts e').event h
                        (IsEnriched-stages sts e')
                  | none ↦ λ _.
                      if-elim (λ (x : Applied). IsEnriched e x.event) st.spec.fail_pipeline
                        (λ _. IsEnriched-refl e) (λ _. IsEnriched-stages sts e)
                ])
        (IsEnriched-work st.work st.spec e (read_field u e st.spec.field))

module _ {F : Type 0} (g : Engine F) (tools : Tools) where
  IsEnriched-pipelines :
      (ps : List Pipeline) (x : Enriched) → IsEnriched x.event (apply_pipelines g tools ps x).event
  unfolding apply_pipelines
  IsEnriched-pipelines [] x = IsEnriched-refl x.event
  IsEnriched-pipelines (p ∷ ps) x =
      if-elim (λ (y : Enriched). IsEnriched x.event (apply_pipelines g tools ps y).event)
        (applies_to g tools p x.event)
        (λ _.
          IsEnriched-trans x.event (apply_stages g.unicode tools p.stages x.event).event _
            (IsEnriched-stages g.unicode tools p.stages x.event) (IsEnriched-pipelines ps _))
        (λ _. IsEnriched-pipelines ps x)

  -- Whatever pipelines are installed, and whether they match, fail or not, the event that Apply gives back has
  -- the ID, the receipt time and the raw line of the one it got, and one of the five levels if that had one.
  pub apply-IsEnriched : (s : Set) (e : LogEvent) → IsEnriched e (apply g tools s e).event
  unfolding apply
  apply-IsEnriched s e = IsEnriched-pipelines s.compiled (record { event = e; set = s })
