-- ===== src/Pipeline/Replacing.antt =====
-- The pipelines that Replace of internal/pipeline/set.go installs.
use omni_logging.Common.{
  ◌≡◌, refl, sym, ap, subst, not, ◌∙◌, inl, inr, Bool, true, false, ◌&&◌, Option, none, some, ◌>>=◌,
  List, [], ◌∷◌, if◌then◌else◌, if-elim, Bool-cases, keep, All, All-map, Any, arith,
}
use omni_logging.Common.Int.{ℤ, leb_ℤ}
use omni_logging.Query.Parse.{Host}
use omni_logging.Pipeline.{Spec, Tools, Pipeline, compile}
use omni_logging.Pipeline.Set.{Set, compile_enabled, insert, sort_stable, replace}

abbrev pub before_or_with : Pipeline → Pipeline → Bool
before_or_with p q = leb_ℤ p.spec.order q.spec.order

-- Each pipeline has an order of at most that of those behind it.
abbrev pub IsOrdered : List Pipeline → Type 0
IsOrdered [] = Unit
IsOrdered (p ∷ ps) = All (λ q. before_or_with p q ≡ true) ps × IsOrdered ps

abbrev pub has_order : ℤ → Pipeline → Bool
has_order k p = leb_ℤ k p.spec.order && leb_ℤ p.spec.order k

leb_trans : (a b c : ℤ) → leb_ℤ a b ≡ true → leb_ℤ b c ≡ true → leb_ℤ a c ≡ true
leb_trans a b c h k = ground arith

leb_total : (a b : ℤ) → leb_ℤ a b ≡ false → leb_ℤ b a ≡ true
leb_total a b h = ground arith

All-insert :
    (P : Pipeline → Type 0) (p : Pipeline) (qs : List Pipeline)
    → P p
    → All P qs
    → All P (insert p qs)
unfolding insert
All-insert P p [] h _ = (h, tt)
All-insert P p (q ∷ qs) h (k, ks) =
    if-elim (All P) (before_or_with p q) (λ _. (h, (k, ks))) (λ _. (k, All-insert P p qs h ks))

IsOrdered-insert : (p : Pipeline) (qs : List Pipeline) → IsOrdered qs → IsOrdered (insert p qs)
unfolding insert
IsOrdered-insert p [] _ = (tt, tt)
IsOrdered-insert p (q ∷ qs) (h, hs) =
    if-elim IsOrdered (before_or_with p q)
      (λ e.
        ((e, All-map qs (λ r k. leb_trans p.spec.order q.spec.order r.spec.order e k) h), (h, hs)))
      (λ e. (
        All-insert (λ r. before_or_with q r ≡ true) p qs (leb_total p.spec.order q.spec.order e) h,
        IsOrdered-insert p qs hs,
      ))

IsOrdered-sort : (ps : List Pipeline) → IsOrdered (sort_stable ps)
unfolding sort_stable
IsOrdered-sort [] = tt
IsOrdered-sort (p ∷ ps) = IsOrdered-insert p (sort_stable ps) (IsOrdered-sort ps)

-- A pipeline that runs behind another has not its order.
other_order :
    (k : ℤ) (p q : Pipeline)
    → before_or_with p q ≡ false
    → has_order k p ≡ true
    → has_order k q ≡ false
other_order k p q h e = ground arith

swap_kept :
    (k : ℤ) (p q : Pipeline) (xs : List Pipeline)
    → before_or_with p q ≡ false
    → (if has_order k q
        then q ∷ (if has_order k p then p ∷ xs else xs)
        else (if has_order k p then p ∷ xs else xs))
      ≡ (if has_order k p
          then p ∷ (if has_order k q then q ∷ xs else xs)
          else (if has_order k q then q ∷ xs else xs))
swap_kept k p q xs h = elim (Bool-cases (has_order k p)) [
  | inl e ↦ rw (e, other_order k p q h e) refl
  | inr e ↦ rw e refl
]

keep-insert :
    (k : ℤ) (p : Pipeline) (qs : List Pipeline)
    → keep (has_order k) (insert p qs) ≡ keep (has_order k) (p ∷ qs)
unfolding insert
keep-insert k p [] = refl
keep-insert k p (q ∷ qs) =
    if-elim (λ x. keep (has_order k) x ≡ keep (has_order k) (p ∷ q ∷ qs)) (before_or_with p q)
      (λ _. refl)
      (λ e.
        ap (λ x. if has_order k q then q ∷ x else x) (keep-insert k p qs)
        ∙ swap_kept k p q (keep (has_order k) qs) e)

keep-sort :
    (k : ℤ) (ps : List Pipeline) → keep (has_order k) (sort_stable ps) ≡ keep (has_order k) ps
unfolding sort_stable
keep-sort k [] = refl
keep-sort k (p ∷ ps) =
    keep-insert k p (sort_stable ps) ∙ ap (λ x. if has_order k p then p ∷ x else x) (keep-sort k ps)

module _ (host : Host) (tools : Tools) where
  -- These specifications compile to these pipelines, one each, in order.
  abbrev pub CompiledTo : List Spec → List Pipeline → Type 0
  CompiledTo [] [] = Unit
  CompiledTo [] (p ∷ ps) = ⊥
  CompiledTo (s ∷ ss) [] = ⊥
  CompiledTo (s ∷ ss) (p ∷ ps) = (compile host tools s ≡ some p) × CompiledTo ss ps

  -- Enabled, and does not compile.
  abbrev pub IsBroken : Spec → Type 0
  IsBroken s = (s.enabled ≡ true) × (compile host tools s ≡ none)

  abbrev pub is_enabled : Spec → Bool
  is_enabled s = s.enabled

  abbrev CompiledOr : List Spec → Option (List Pipeline) → Type 0
  CompiledOr specs none = Any IsBroken specs
  CompiledOr specs (some ps) = CompiledTo (keep is_enabled specs) ps

  CompiledOr-cons :
      (s : Spec) (ss : List Spec) (p : Option Pipeline) (o : Option (List Pipeline))
      → s.enabled ≡ true
      → compile host tools s ≡ p
      → CompiledOr ss o
      → CompiledOr (s ∷ ss) (do x ← p; ps ← o; some (x ∷ ps))
  CompiledOr-cons s ss none o e c h = inl (e, c)
  CompiledOr-cons s ss (some x) none e c h = inr h
  CompiledOr-cons s ss (some x) (some ps) e c h =
      if-elim (λ kept. CompiledTo kept (x ∷ ps)) s.enabled (λ _. (c, h))
        (λ off. absurd (grind (arith, e, off)))

  CompiledOr-skip :
      (s : Spec) (ss : List Spec) (o : Option (List Pipeline))
      → s.enabled ≡ false
      → CompiledOr ss o
      → CompiledOr (s ∷ ss) o
  CompiledOr-skip s ss none e h = inr h
  CompiledOr-skip s ss (some ps) e h =
      if-elim (λ kept. CompiledTo kept ps) s.enabled (λ on. absurd (grind (arith, e, on))) (λ _. h)

  compile_enabled-CompiledOr :
      (specs : List Spec) → CompiledOr specs (compile_enabled host tools specs)
  unfolding compile_enabled
  compile_enabled-CompiledOr [] = tt
  compile_enabled-CompiledOr (s ∷ ss) =
      let ih = compile_enabled-CompiledOr ss in
      let step : Bool → Type 0 = λ b. CompiledOr (s ∷ ss) (
        if not b
        then compile_enabled host tools ss
        else (do p ← compile host tools s; ps ← compile_enabled host tools ss; some (p ∷ ps))) in
      elim (Bool-cases s.enabled) [
        | inl e ↦ subst step (sym e) (CompiledOr-cons s ss _ _ e refl ih)
        | inr e ↦ subst step (sym e) (CompiledOr-skip s ss _ e ih)
      ]

  -- What is installed instead of a set: these pipelines by their order, those of one order as they
  -- come, with the counters of before and no failure logged.
  pub record IsInstalled (set : Set) (ps : List Pipeline) (new : Set) : Type 0 where
    pub ordered : IsOrdered new.compiled
    pub stable : (k : ℤ) → keep (has_order k) new.compiled ≡ keep (has_order k) ps
    pub applied : new.applied ≡ set.applied
    pub failed : new.failed ≡ set.failed
    pub warned : new.warned ≡ []

  -- What Replace leaves, and whether it succeeds.
  abbrev pub IsReplaced : List Spec → Set → Set × Bool → Type 0
  IsReplaced specs set (new, false) = (new ≡ set) × Any IsBroken specs
  IsReplaced specs set (new, true) =
      (ps : List Pipeline) × CompiledTo (keep is_enabled specs) ps × IsInstalled set ps new

  -- Replace is all or nothing: an error is returned only where an enabled specification does not
  -- compile, and the set is then what it was. Else every enabled specification compiles, and the
  -- pipelines of these and of no others are installed, by their order, and those of one order as the
  -- specifications come; the counters stay, and the failures that were logged are forgotten.
  pub replace-IsReplaced :
      (specs : List Spec) (set : Set) → IsReplaced specs set (replace host tools specs set)
  unfolding replace
  replace-IsReplaced specs set =
      (elim (compile_enabled host tools specs)
          as (λ o.
            CompiledOr specs o
            → IsReplaced specs set (elim o as (λ _. Set × Bool) [
              | none ↦ (set, false)
              | some ps ↦ (record set { compiled = sort_stable ps; warned = [] }, true)
            ])) [
              | none ↦ λ broken. (refl, broken)
              | some ps ↦ λ made. (
                ps,
                made,
                record {
                  ordered = IsOrdered-sort ps;
                  stable = λ k. keep-sort k ps;
                  applied = refl;
                  failed = refl;
                  warned = refl;
                },
              )
            ])
        (compile_enabled-CompiledOr specs)
