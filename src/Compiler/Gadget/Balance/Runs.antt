-- ===== src/Compiler/Gadget/Balance/Runs.antt =====
-- The balance of the transitions of gadget/run.ts.
use n8n_libpetri.Prelude.{
  ℕ, suc, ◌+◌, ◌≡◌, refl, subst, Option, none, some, List, [], ◌∷◌, ◌++◌, arith,
}
use n8n_libpetri.Prelude.Predicates.{All, All-append, OptionAll}
use n8n_libpetri.Prelude.Results.{ok, >>=-eq-ok, ok-injective}
use n8n_libpetri.Compiler.Names.Transitions.{attempt_run_of}
use n8n_libpetri.Compiler.Gadget.Net.{
  Place, idle, running, Out, place, forward, and, xor, timeout, outs, run, run_failed, Transition,
}
use n8n_libpetri.Compiler.Gadget.Shapes.{LocalAttempt, LocalRetry, LocalAgent, GadgetContext}
use n8n_libpetri.Compiler.Gadget.Outputs.{closing_branches}
use n8n_libpetri.Compiler.Gadget.Failure.{shared_ports, markers_of_node}
use n8n_libpetri.Compiler.Gadget.Declare.{map_result}
use n8n_libpetri.Compiler.Gadget.Runs.{
  retry_branch, request_branch, outcome_for, with_deadline, build_attempt_run, build_plain_run,
  first_failed, build_run_failed, build_attempt_runs, build_run,
}
use n8n_libpetri.Compiler.Gadget.Weights
use n8n_libpetri.Compiler.Gadget.Weights.{
  Coefficients, weight, total_cost, Weighs, Sums, Agree, IsDrained, IsBalanced,
}
use n8n_libpetri.Compiler.Gadget.Routed.{Light-Weighs, Agree-of, closing_branches-Weigh}
use n8n_libpetri.Compiler.Gadget.Balance.Places.{
  RetryWeighs, AttemptWeighs, AgentWeighs, plain-Balanced,
}

module _ (c : Coefficients) where
  retry_branch-Weighs :
      (r : Option LocalRetry) (failure : Option Place)
      → OptionAll (RetryWeighs c) r
      → OptionAll (λ p. weight c p ≡ c.unit) failure
      → All (Weighs c c.unit) (retry_branch r failure)
  retry_branch-Weighs r (some p) w f = (Light-Weighs c p c.unit f, tt)
  retry_branch-Weighs none none w f = tt
  retry_branch-Weighs (some r) none w f = (Light-Weighs c r.retry_place c.unit w.0, tt)

  request_branch-Weighs :
      (a : Option LocalAgent)
      → OptionAll (AgentWeighs c) a
      → All (Weighs c c.unit) (request_branch a)
  request_branch-Weighs none w = tt
  request_branch-Weighs (some a) w = (Light-Weighs c a.routed_request_place c.unit w.request, tt)

  -- Every outcome of a run weighs one unit.
  pub outcome_for-Weighs :
      (ctx : GadgetContext) (success : Out) (r : Option LocalRetry) (a : Option LocalAgent)
      (failure : Option Place) (o : Out)
      → outcome_for ctx success r a failure ≡ ok o
      → Weighs c c.unit success
      → OptionAll (RetryWeighs c) r
      → OptionAll (AgentWeighs c) a
      → OptionAll (λ p. weight c p ≡ c.unit) failure
      → Weighs c c.unit o
  unfolding outcome_for
  outcome_for-Weighs ctx success r a failure o h s w v f =
      let closing = closing_branches shared_ports markers_of_node ctx.stop_workflow in
      Weights.xor_of-Weighs c (success ∷ (retry_branch r failure ++ closing ++ request_branch a))
        (Agree-of c c.unit _ (
          s,
          All-append (Weighs c c.unit) (retry_branch r failure ++ closing) (request_branch a)
              (All-append (Weighs c c.unit) (retry_branch r failure) closing
                (retry_branch-Weighs r failure w f) (closing_branches-Weigh c ctx.stop_workflow))
              (request_branch-Weighs a v),
        ))
        h

  -- An outcome with the marker of an idle node beside it.
  idle-Weighs :
      (o : Out) → Weighs c c.unit o → Weighs c (c.unit + c.turn) (and (outs (o ∷ place idle ∷ [])))
  unfolding weight
  idle-Weighs o h = Weights.and-Weighs c (o ∷ place idle ∷ []) (
      Weights.Sums-eq c _
        (Weights.Sums-cons c o _ h (Weights.Sums-place c idle [] (Weights.Sums-nil c)))
        (omega arith))

  late-Weighs :
      (p q : Place) (ms : ℕ)
      → weight c q ≡ c.unit
      → Weighs c (c.unit + c.turn) (timeout ms (and (outs (forward p q ∷ place idle ∷ []))))
  late-Weighs p q ms e =
      idle-forward (forward p q)
        (subst (λ k. Weighs c k (forward p q)) e (Weights.forward-Weighs c p q))
    where
      idle-forward :
          (o : Out)
          → Weighs c c.unit o
          → Weighs c (c.unit + c.turn) (timeout ms (and (outs (o ∷ place idle ∷ []))))
      idle-forward o h = record { each = (idle-Weighs o h).each }

  with_deadline-Weighs :
      (ms : Option ℕ) (a : LocalAttempt) (normal : Out)
      → Weighs c (c.unit + c.turn) normal
      → OptionAll (λ p. weight c p ≡ c.unit) a.timed_out_place
      → Weighs c (c.unit + c.turn) (with_deadline ms a normal)
  with_deadline-Weighs none a normal h l = h
  with_deadline-Weighs (some ms) a normal h l = by a.timed_out_place l
    where
      by :
          (p : Option Place)
          → OptionAll (λ q. weight c q ≡ c.unit) p
          → Weighs c (c.unit + c.turn) (elim p [
            | none ↦ normal
            | some late ↦ xor (
                outs (
                  normal
                  ∷ timeout ms (and (outs (forward a.running_place late ∷ place idle ∷ [])))
                  ∷ []))
          ])
      by none e = h
      by (some late) e =
          Weights.xor-Weighs c
            (normal ∷ timeout ms (and (outs (forward a.running_place late ∷ place idle ∷ []))) ∷ [])
            (Agree-of c _ _ (h, (late-Weighs a.running_place late ms e, tt)))

  module _ (ctx : GadgetContext) (success : Out) (r : Option LocalRetry) (a : Option LocalAgent)
      (s : Weighs c c.unit success) (w : OptionAll (RetryWeighs c) r)
      (v : OptionAll (AgentWeighs c) a) where
    build_attempt_run-Balanced :
        (ms : Option ℕ) (att : LocalAttempt) (t : Transition)
        → build_attempt_run ctx success r a ms att ≡ ok t
        → AttemptWeighs c att
        → IsBalanced c t
    build_attempt_run-Balanced ms att t h k =
        let (o, made, built) =
          >>=-eq-ok (outcome_for ctx success r a (some att.failed_place)) _ h in
        let normal = and (outs (o ∷ place idle ∷ [])) in
        subst (IsBalanced c) (ok-injective built) (
          plain-Balanced c (attempt_run_of att.index) (run att.index) att.running_place
            (with_deadline ms att normal) (suc ctx.depth) k.0
            (with_deadline-Weighs ms att normal
              (idle-Weighs o
                (outcome_for-Weighs ctx success r a (some att.failed_place) o made s w v k.1))
              k.2))

    build_plain_run-Balanced :
        (t : Transition) → build_plain_run ctx success r a ≡ ok t → IsBalanced c t
    unfolding weight
    build_plain_run-Balanced t h =
        let (o, made, built) = >>=-eq-ok (outcome_for ctx success r a none) _ h in
        subst (IsBalanced c) (ok-injective built) (
          plain-Balanced c "run" (run 1) running (and (outs (o ∷ place idle ∷ []))) (suc ctx.depth)
            refl (idle-Weighs o (outcome_for-Weighs ctx success r a none o made s w v tt)))

    build_attempt_runs-Balanced :
        (ms : Option ℕ) (as' : List LocalAttempt) (ts : List Transition)
        → build_attempt_runs ctx success r a ms as' ≡ ok ts
        → All (AttemptWeighs c) as'
        → All (IsBalanced c) ts
    build_attempt_runs-Balanced ms [] ts h k =
        let (t, made, built) = >>=-eq-ok (build_plain_run ctx success r a) _ h in
        subst (All (IsBalanced c)) (ok-injective built) (build_plain_run-Balanced t made, tt)
    build_attempt_runs-Balanced ms (att ∷ later) ts h k = attempt_runs (att ∷ later) ts h k
      where
        attempt_runs :
            (as' : List LocalAttempt) (ts : List Transition)
            → map_result (build_attempt_run ctx success r a ms) as' ≡ ok ts
            → All (AttemptWeighs c) as'
            → All (IsBalanced c) ts
        attempt_runs [] ts h k = subst (All (IsBalanced c)) (ok-injective h) tt
        attempt_runs (att ∷ later) ts h k =
            let (t, first, run') = >>=-eq-ok (build_attempt_run ctx success r a ms att) _ h in
            let (rest, others, built) =
              >>=-eq-ok (map_result (build_attempt_run ctx success r a ms) later) _ run' in
            subst (All (IsBalanced c)) (ok-injective built)
              (build_attempt_run-Balanced ms att t first k.0, attempt_runs later rest others k.1)

  first_failed-Weighs :
      (as' : List LocalAttempt)
      → All (AttemptWeighs c) as'
      → OptionAll (λ p. weight c p ≡ c.unit) (first_failed as')
  first_failed-Weighs [] h = tt
  first_failed-Weighs (a ∷ as') h = h.0.1

  build_run_failed-Balanced :
      (ctx : GadgetContext) (success : Out) (r : Option LocalRetry) (as' : List LocalAttempt)
      (a : Option LocalAgent) (ts : List Transition)
      → build_run_failed ctx success r as' a ≡ ok ts
      → Weighs c c.unit success
      → OptionAll (RetryWeighs c) r
      → All (AttemptWeighs c) as'
      → OptionAll (AgentWeighs c) a
      → All (IsBalanced c) ts
  build_run_failed-Balanced ctx success r as' none ts h s w k v =
      subst (All (IsBalanced c)) (ok-injective h) tt
  build_run_failed-Balanced ctx success r as' (some a) ts h s w k v =
      let (o, made, built) = >>=-eq-ok (outcome_for ctx success r none (first_failed as')) _ h in
      subst (All (IsBalanced c)) (ok-injective built) (
        plain-Balanced c "run_failed" run_failed a.running_failed_place
            (and (outs (o ∷ place idle ∷ []))) (suc ctx.depth) v.failed_run
            (idle-Weighs o (
              outcome_for-Weighs ctx success r none (first_failed as') o made s w tt
                (first_failed-Weighs as' k))),
        tt,
      )

  pub build_run-Balanced :
      (ctx : GadgetContext) (success : Out) (r : Option LocalRetry) (as' : List LocalAttempt)
      (ms : Option ℕ) (a : Option LocalAgent) (ts : List Transition)
      → build_run ctx success r as' ms a ≡ ok ts
      → Weighs c c.unit success
      → OptionAll (RetryWeighs c) r
      → All (AttemptWeighs c) as'
      → OptionAll (AgentWeighs c) a
      → All (IsBalanced c) ts
  unfolding build_run
  build_run-Balanced ctx success r as' ms a ts h s w k v =
      let (runs, first, rest) = >>=-eq-ok (build_attempt_runs ctx success r a ms as') _ h in
      let (failures, second, built) = >>=-eq-ok (build_run_failed ctx success r as' a) _ rest in
      subst (All (IsBalanced c)) (ok-injective built) (
        All-append (IsBalanced c) runs failures
          (build_attempt_runs-Balanced ctx success r a s w v ms as' runs first k)
          (build_run_failed-Balanced ctx success r as' a failures second s w k v))
