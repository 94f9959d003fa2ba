-- ===== src/Compiler/Gadget/Balance/Steps.antt =====
-- The balance of the transitions of gadget/agent-round.ts and failure-chain.ts.
use n8n_libpetri.Prelude.{ℕ, ◌≡◌, subst, Bool, true, Option, none, some, List, [], ◌∷◌, map, arith}
use n8n_libpetri.Prelude.Predicates.{All, All-append, OptionAll}
use n8n_libpetri.Prelude.Results.{ok, ◌>>=◌, >>=-eq-ok, ok-injective}
use n8n_libpetri.Compiler.Gadget.Net.{
  Place, budget, running, pause, stopped, Out, place, and, xor, outs, Transition,
}
use n8n_libpetri.Compiler.Gadget.Shapes.{
  AttemptAction, retry_to, LocalAttempt, LocalRetry, LocalAgent, GadgetContext,
}
use n8n_libpetri.Compiler.Gadget.Outputs.{xor_of, closing_branches}
use n8n_libpetri.Compiler.Gadget.Failure.{shared_ports, markers_of_node}
use n8n_libpetri.Compiler.Gadget.Steps.{
  done_request_transition, dispatch_transition, collect_transition, resume_transition,
  calls_out_transition, rounds_out_transition, build_agent_round, retry_wait_transition,
  build_retry_gadget, deadline_transition, build_deadline, terminal_step, terminal_outcome,
  build_attempt_step, build_failure_steps,
}
use n8n_libpetri.Compiler.Gadget.Weights
use n8n_libpetri.Compiler.Gadget.Weights.{Coefficients, weight, Weighs, IsBalanced}
use n8n_libpetri.Compiler.Gadget.Routed.{
  Light-Weighs, Agree-of, places-Weigh, closing_branches-Weigh,
}
use n8n_libpetri.Compiler.Gadget.Balance.Places.{
  RetryWeighs, AttemptWeighs, ActionWeighs, AgentWeighs,
}

module _ (c : Coefficients) where
  module _ (depth : ℕ) (a : LocalAgent) (w : AgentWeighs c a) where
    opening-Weighs :
        (p : Place)
        → weight c p ≡ 0
        → Weighs c c.unit (and (outs (place budget ∷ place p ∷ place a.dispatched_place ∷ [])))
    unfolding weight
    opening-Weighs p e =
        Weights.and-Weighs c (place budget ∷ place p ∷ place a.dispatched_place ∷ []) (
          Weights.Sums-eq c _
            (Weights.Sums-place c budget _ (
              Weights.Sums-place c p _
                (Weights.Sums-place c a.dispatched_place [] (Weights.Sums-nil c))))
            (omega (arith, e, w.dispatched)))

    done_request-Balanced : IsBalanced c (done_request_transition depth a)
    done_request-Balanced = (
      (tt, tt),
      Weights.AllWeigh-eq c _
          (Weights.xor-Weighs c
            (and (outs (place budget ∷ place a.queue_place ∷ place a.dispatched_place ∷ []))
              ∷ and (outs (place budget ∷ place a.drained_place ∷ place a.dispatched_place ∷ []))
              ∷ [])
            (Agree-of c c.unit _ (
              opening-Weighs a.queue_place w.queue,
              (opening-Weighs a.drained_place w.drained, tt),
            )))
          (omega (arith, w.request)),
    )

    dispatch-Balanced :
        (target : Out) → Weighs c 0 target → IsBalanced c (dispatch_transition depth a target)
    dispatch-Balanced target h = (
      (tt, (tt, tt)),
      Weights.AllWeigh-eq c _
          (Weights.and-Weighs c
            (target
              ∷ place a.outstanding_place
              ∷ xor (outs (place a.queue_place ∷ place a.drained_place ∷ []))
              ∷ [])
            (Weights.Sums-cons c target _ h (
              Weights.Sums-place c a.outstanding_place _ (
                Weights.Sums-cons c (xor (outs (place a.queue_place ∷ place a.drained_place ∷ [])))
                  []
                  (Weights.xor-Weighs c (place a.queue_place ∷ place a.drained_place ∷ []) (
                    Agree-of c 0 _ (
                      Light-Weighs c a.queue_place 0 w.queue,
                      (Light-Weighs c a.drained_place 0 w.drained, tt),
                    )))
                  (Weights.Sums-nil c)))))
          (omega (arith, w.queue, w.calls, w.outstanding)),
    )

    collect-Balanced : IsBalanced c (collect_transition depth a)
    collect-Balanced =
        ((tt, (tt, tt)), record { each = (omega (arith, w.outstanding, w.response), tt) })

    resume-Balanced : IsBalanced c (resume_transition depth a)
    unfolding weight
    resume-Balanced = (
      (tt, (tt, (tt, (tt, (tt, tt))))),
      Weights.AllWeigh-eq c _ (Weights.place-Weighs c running)
          (omega (arith, w.dispatched, w.drained, w.rounds)),
    )

    calls_out-Balanced : IsBalanced c (calls_out_transition depth a)
    unfolding weight
    calls_out-Balanced = (
      (tt, (tt, (tt, (tt, tt)))),
      Weights.AllWeigh-eq c _ (Weights.place-Weighs c a.running_failed_place)
          (omega (arith, w.dispatched, w.queue, w.failed_run)),
    )

    rounds_out-Balanced : IsBalanced c (rounds_out_transition depth a)
    unfolding weight
    rounds_out-Balanced = (
      (tt, (tt, tt)),
      Weights.AllWeigh-eq c _
          (Weights.and-Weighs c (place stopped ∷ place pause ∷ [])
            (Weights.Sums-place c stopped _ (Weights.Sums-place c pause [] (Weights.Sums-nil c))))
          (omega (arith, w.dispatched, w.drained)),
    )

  pub build_agent_round-Balanced :
      (depth : ℕ) (a : Option LocalAgent) (ports : List Place) (ts : List Transition)
      → build_agent_round depth a ports ≡ ok ts
      → OptionAll (AgentWeighs c) a
      → All (λ p. weight c p ≡ 0) ports
      → All (IsBalanced c) ts
  unfolding build_agent_round
  build_agent_round-Balanced depth none ports ts h w l =
      subst (All (IsBalanced c)) (ok-injective h) tt
  build_agent_round-Balanced depth (some a) ports ts h w l =
      let (target, made, built) = >>=-eq-ok (xor_of (map place ports)) _ h in
      subst (All (IsBalanced c)) (ok-injective built) (
        done_request-Balanced depth a w,
        (
          dispatch-Balanced depth a w target
              (Weights.xor_of-Weighs c _ (Agree-of c 0 _ (places-Weigh c 0 ports l)) made),
          (
            collect-Balanced depth a w,
            (
              resume-Balanced depth a w,
              (calls_out-Balanced depth a w, (rounds_out-Balanced depth a w, tt)),
            ),
          ),
        ),
      )

  closing_outcome-Weighs :
      (success : Out) (halts : Bool) (o : Out)
      → xor_of (success ∷ closing_branches shared_ports markers_of_node halts) ≡ ok o
      → Weighs c c.unit success
      → Weighs c c.unit o
  closing_outcome-Weighs success halts o h s =
      Weights.xor_of-Weighs c (success ∷ closing_branches shared_ports markers_of_node halts)
        (Agree-of c c.unit _ (s, closing_branches-Weigh c halts)) h

  retry_wait-Balanced :
      (depth : ℕ) (r : LocalRetry) → RetryWeighs c r → IsBalanced c (retry_wait_transition depth r)
  unfolding weight
  retry_wait-Balanced depth r w = (
    (tt, (tt, (tt, tt))),
    Weights.AllWeigh-eq c _ (Weights.place-Weighs c running) (omega (arith, w.0, w.1)),
  )

  pub build_retry_gadget-Balanced :
      (ctx : GadgetContext) (success : Out) (r : Option LocalRetry) (ts : List Transition)
      → build_retry_gadget ctx success r ≡ ok ts
      → Weighs c c.unit success
      → OptionAll (RetryWeighs c) r
      → All (IsBalanced c) ts
  unfolding build_retry_gadget
  build_retry_gadget-Balanced ctx success none ts h s w =
      subst (All (IsBalanced c)) (ok-injective h) tt
  build_retry_gadget-Balanced ctx success (some r) ts h s w =
      let (o, made, built) =
        >>=-eq-ok
          (xor_of (success ∷ closing_branches shared_ports markers_of_node ctx.stop_workflow)) _
          h in
      subst (All (IsBalanced c)) (ok-injective built) (
        retry_wait-Balanced ctx.depth r w,
        (
          (
            (tt, tt),
            Weights.AllWeigh-eq c _ (closing_outcome-Weighs success ctx.stop_workflow o made s)
                (omega (arith, w.0)),
          ),
          tt,
        ),
      )

  build_deadline-Balanced :
      (depth : ℕ) (att : LocalAttempt)
      → AttemptWeighs c att
      → All (IsBalanced c) (build_deadline depth att)
  build_deadline-Balanced depth att w = by att.timed_out_place w.2
    where
      by :
          (p : Option Place)
          → OptionAll (λ q. weight c q ≡ c.unit) p
          → All
              (IsBalanced c)
              (elim p [ none ↦ [] | some late ↦ deadline_transition depth att late ∷ [] ])
      by none l = tt
      by (some late) l = (
        (
          (tt, tt),
          Weights.AllWeigh-eq c _ (Weights.place-Weighs c att.failed_place) (omega (arith, l, w.1)),
        ),
        tt,
      )

  terminal_step-Balanced :
      (depth : ℕ) (success : Out) (att : LocalAttempt) (t : Transition)
      → (terminal_outcome success >>= λ o. ok (terminal_step depth att o)) ≡ ok t
      → Weighs c c.unit success
      → AttemptWeighs c att
      → IsBalanced c t
  terminal_step-Balanced depth success att t h s w =
      let (o, made, built) = >>=-eq-ok (terminal_outcome success) _ h in
      subst (IsBalanced c) (ok-injective built) (
        (tt, tt),
        Weights.AllWeigh-eq c _
            (closing_outcome-Weighs success true o (unfold terminal_outcome in made) s)
            (omega (arith, w.1)),
      )

  build_attempt_step-Balanced :
      (depth : ℕ) (success : Out) (att : LocalAttempt) (action : AttemptAction) (t : Transition)
      → build_attempt_step depth success att action ≡ ok t
      → Weighs c c.unit success
      → AttemptWeighs c att
      → ActionWeighs c action
      → IsBalanced c t
  unfolding weight
  build_attempt_step-Balanced depth success att (retry_to wait next) t h s w k =
      subst (IsBalanced c) (ok-injective h) (
        (tt, (tt, tt)),
        Weights.AllWeigh-eq c _ (Weights.place-Weighs c next) (omega (arith, w.1, k)),
      )
  build_attempt_step-Balanced depth success att action t h s w k =
      terminal_step-Balanced depth success att t h s w

  pub build_failure_steps-Balanced :
      (depth : ℕ) (success : Out) (as' : List LocalAttempt) (ts : List Transition)
      → build_failure_steps depth success as' ≡ ok ts
      → Weighs c c.unit success
      → All (AttemptWeighs c) as'
      → All (IsBalanced c) ts
  unfolding build_failure_steps
  build_failure_steps-Balanced depth success [] ts h s w =
      subst (All (IsBalanced c)) (ok-injective h) tt
  build_failure_steps-Balanced depth success (att ∷ later) ts h s w =
      let (step, first, run) = >>=-eq-ok (build_attempt_step depth success att att.action) _ h in
      let (steps, rest, built) = >>=-eq-ok (build_failure_steps depth success later) _ run in
      subst (All (IsBalanced c)) (ok-injective built) (
        All-append (IsBalanced c) (build_deadline depth att) (step ∷ steps)
          (build_deadline-Balanced depth att w.0)
          (
            build_attempt_step-Balanced depth success att att.action step first s w.0 w.0.3,
            build_failure_steps-Balanced depth success later steps rest s w.1,
          ))
