-- ===== src/Pipeline/Rehearsal.antt =====
-- The dry run of internal/pipeline/set.go against the pipelines that are installed.
use omni_logging.Common.{
  ◌≡◌, refl, sym, ap, ◌∙◌, Bool, true, false, not, Option, none, some, ◌>>=◌, List, [], ◌∷◌,
  if◌then◌else◌, Text, arith, All,
}
use omni_logging.Query.Match.{Engine}
use omni_logging.Query.Parse.{Host}
use omni_logging.Model.{LogEvent}
use omni_logging.Pipeline.{Spec, Tools, Pipeline, compile}
use omni_logging.Pipeline.Stages.{apply_stages}
use omni_logging.Pipeline.Set.{
  Set, Enriched, compile_enabled, compile_all, sort_stable, replace, applies_to, apply_pipelines,
  apply, TestResult, test_pipelines, test,
}

compile_all-enabled :
    (host : Host) (tools : Tools) (specs : List Spec)
    → All (λ (s : Spec). s.enabled ≡ true) specs
    → compile_enabled host tools specs ≡ compile_all host tools specs
unfolding compile_enabled compile_all
compile_all-enabled host tools [] _ = refl
compile_all-enabled host tools (s ∷ ss) (h, hs) =
    ap
      (λ b.
        if not b
        then compile_enabled host tools ss
        else compile host tools s
          >>= (λ p. compile_enabled host tools ss >>= (λ ps. some (p ∷ ps))))
      h
    ∙ ap (λ rest. compile host tools s >>= (λ p. rest >>= (λ ps. some (p ∷ ps))))
        (compile_all-enabled host tools ss hs)

module _ {F : Type 0} (g : Engine F) (tools : Tools) where
  either_way :
      (ps : List Pipeline) (b : Bool) (r r' : TestResult) (x x' : Enriched)
      → (test_pipelines g tools ps r).event ≡ (apply_pipelines g tools ps x).event
      → (test_pipelines g tools ps r').event ≡ (apply_pipelines g tools ps x').event
      → (test_pipelines g tools ps (if b then r else r')).event
        ≡ (apply_pipelines g tools ps (if b then x else x')).event
  either_way ps true r r' x x' h k = h
  either_way ps false r r' x x' h k = k

  test_pipelines-apply :
      (ps : List Pipeline) (e : LogEvent) (matched errors : List Text) (s : Set)
      → (test_pipelines g tools ps (record { event = e; matched = matched; errors = errors })).event
        ≡ (apply_pipelines g tools ps (record { event = e; set = s })).event
  unfolding test_pipelines apply_pipelines
  test_pipelines-apply [] e matched errors s = refl
  test_pipelines-apply (p ∷ ps) e matched errors s =
      either_way ps (applies_to g tools p e) _ _ _ _
        (test_pipelines-apply ps (apply_stages g.unicode tools p.stages e).event _ _ _)
        (test_pipelines-apply ps e matched errors s)

  -- What a set makes of an event that it installs the specifications for.
  abbrev pub installed : Host → List Spec → Set → LogEvent → LogEvent
  installed host specs set e = (apply g tools (replace host tools specs set).0 e).event

  event_or : LogEvent → Option TestResult → LogEvent
  event_or e none = e
  event_or e (some r) = r.event

  compiled-installed :
      (host : Host) (specs : List Spec) (set : Set) (e : LogEvent) (r : TestResult)
      (o : Option (List Pipeline))
      → compile_enabled host tools specs ≡ o
      → (o >>= (λ ps. some (
          test_pipelines g tools
            (sort_stable ps)
            (record { event = e; matched = []; errors = [] }))))
        ≡ some r
      → ((replace host tools specs set).1 ≡ true) × (r.event ≡ installed host specs set e)
  unfolding replace apply event_or
  compiled-installed host specs set e r none c h = absurd (grind (arith, h))
  compiled-installed host specs set e r (some ps) c h =
      let done : replace host tools specs set
          ≡ (record set { compiled = sort_stable ps; warned = [] }, true) =
        rw (replace, c) refl in
      (
        ap (λ (q : Set × Bool). q.1) done,
        sym (ap (event_or e) h)
            ∙ test_pipelines-apply (sort_stable ps) e [] []
                (record set { compiled = sort_stable ps; warned = [] })
            ∙ ap (λ (q : Set × Bool). (apply g tools q.0 e).event) (sym done),
      )

  -- Where every specification is enabled and a dry run gives a result, Replace succeeds on them, and Apply then
  -- gives the event that the dry run gives, whatever was installed before, as long as Go walks the maps
  -- of the captures and of the attributes in the same order in both runs: the order of the captures is
  -- one function for both, and the attributes are one list.
  pub test-installed :
      (host : Host) (specs : List Spec) (set : Set) (e : LogEvent) (r : TestResult)
      → All (λ (s : Spec). s.enabled ≡ true) specs
      → test g tools host specs e ≡ some r
      → ((replace host tools specs set).1 ≡ true) × (r.event ≡ installed host specs set e)
  unfolding test replace apply
  test-installed host specs set e r all h =
      compiled-installed host specs set e r (compile_all host tools specs)
        (compile_all-enabled host tools specs all) h
