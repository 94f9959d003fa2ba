-- ===== src/Compiler/Gadget/Balance/Places.antt =====
-- The weights of the places of gadget/failure-places.ts and agent-places.ts, and of an arc.
use n8n_libpetri.Prelude.{
  ℕ, suc, ◌+◌, ◌≡◌, refl, subst, Bool, true, false, Option, none, some, List, [], ◌∷◌, String,
  arith,
}
use n8n_libpetri.Prelude.Predicates.{All, OptionAll}
use n8n_libpetri.Prelude.Results.{ok, >>=-eq-ok, ok-injective}
use n8n_libpetri.Compiler.Types.{ResolvedStep, FailureChain, RetryParams}
use n8n_libpetri.Compiler.Types as Types
use n8n_libpetri.Compiler.Gadget.Net.{Place, one, Out, TransitionInfo}
use n8n_libpetri.Compiler.Gadget.Shapes.{
  AttemptAction, retry_to, LocalAttempt, LocalRetry, LocalAgent, GadgetContext,
}
use n8n_libpetri.Compiler.Gadget.Failure.{
  declare_retry, declare_attempts, declare_failure_chain, chain_timeout, chain_steps, declare_agent,
  agent_places, numbered_ports, action_of, attempt_running, attempt_timed_out, next_running,
}
use n8n_libpetri.Compiler.Gadget.Runs.{plain_transition}
use n8n_libpetri.Compiler.Gadget.Weights
use n8n_libpetri.Compiler.Gadget.Weights.{Coefficients, weight, Weighs, IsBalanced}

module _ (c : Coefficients) where
  abbrev pub RetryWeighs : LocalRetry → Type 0
  RetryWeighs r = (weight c r.retry_place ≡ c.unit) × (weight c r.tries_place ≡ 0)

  abbrev pub ActionWeighs : AttemptAction → Type 0
  ActionWeighs (retry_to w next) = weight c next ≡ c.unit + c.turn
  ActionWeighs _ = Unit

  abbrev pub AttemptWeighs : LocalAttempt → Type 0
  AttemptWeighs a =
      (weight c a.running_place ≡ c.unit + c.turn)
      × (weight c a.failed_place ≡ c.unit)
      × OptionAll (λ p. weight c p ≡ c.unit) a.timed_out_place
      × ActionWeighs a.action

  -- The places of an agent round: only the request and the running place have weight.
  pub record AgentWeighs (a : LocalAgent) : Type 0 where
    pub request : weight c a.routed_request_place ≡ c.unit
    pub queue : weight c a.queue_place ≡ 0
    pub calls : weight c a.calls_place ≡ 0
    pub drained : weight c a.drained_place ≡ 0
    pub outstanding : weight c a.outstanding_place ≡ 0
    pub dispatched : weight c a.dispatched_place ≡ 0
    pub rounds : weight c a.rounds_place ≡ 0
    pub response : weight c a.response_place ≡ 0
    pub failed_run : weight c a.running_failed_place ≡ c.unit + c.turn

  pub declare_retry-Weighs : (r : Option RetryParams) → OptionAll RetryWeighs (declare_retry r)
  unfolding weight
  declare_retry-Weighs none = tt
  declare_retry-Weighs (some r) = (refl, refl)

  action_of-Weighs :
      (s : ResolvedStep) (next : Option Place) (a : AttemptAction)
      → action_of s next ≡ ok a
      → OptionAll (λ p. weight c p ≡ c.unit + c.turn) next
      → ActionWeighs a
  action_of-Weighs (Types.ResolvedStep.retry k w n) none a h e = cc
  action_of-Weighs (Types.ResolvedStep.retry k w n) (some p) a h e =
      subst ActionWeighs (ok-injective h) e
  action_of-Weighs (Types.ResolvedStep.route k o) next a h e =
      subst ActionWeighs (ok-injective h) tt
  action_of-Weighs (Types.ResolvedStep.stop k) next a h e = subst ActionWeighs (ok-injective h) tt
  action_of-Weighs (Types.ResolvedStep.continue k) next a h e =
      subst ActionWeighs (ok-injective h) tt

  attempt_running-Weighs :
      (first : Bool) (s : ResolvedStep) → weight c (attempt_running first s) ≡ c.unit + c.turn
  unfolding weight
  attempt_running-Weighs true s = refl
  attempt_running-Weighs false s = refl

  attempt_timed_out-Weighs :
      (ms : Option ℕ) (s : ResolvedStep)
      → OptionAll (λ p. weight c p ≡ c.unit) (attempt_timed_out ms s)
  unfolding weight
  attempt_timed_out-Weighs none s = tt
  attempt_timed_out-Weighs (some ms) s = refl

  next_running-Weighs :
      (as' : List LocalAttempt)
      → All AttemptWeighs as'
      → OptionAll (λ p. weight c p ≡ c.unit + c.turn) (next_running as')
  next_running-Weighs [] h = tt
  next_running-Weighs (a ∷ as') h = h.0.0

  pub declare_attempts-Weigh :
      (ms : Option ℕ) (first : Bool) (ss : List ResolvedStep) (as' : List LocalAttempt)
      → declare_attempts ms first ss ≡ ok as'
      → All AttemptWeighs as'
  unfolding weight
  declare_attempts-Weigh ms first [] as' h = subst (All AttemptWeighs) (ok-injective h) tt
  declare_attempts-Weigh ms first (s ∷ ss) as' h =
      let (later, rest, run) = >>=-eq-ok (declare_attempts ms false ss) _ h in
      let (action, acted, built) = >>=-eq-ok (action_of s (next_running later)) _ run in
      let tail = declare_attempts-Weigh ms false ss later rest in
      subst (All AttemptWeighs) (ok-injective built) (
        (
          attempt_running-Weighs first s,
          refl,
          attempt_timed_out-Weighs ms s,
          action_of-Weighs s (next_running later) action acted (next_running-Weighs later tail),
        ),
        tail,
      )

  pub declare_failure_chain-Weighs :
      (ctx : GadgetContext) (as' : List LocalAttempt)
      → declare_failure_chain ctx ≡ ok as'
      → All AttemptWeighs as'
  unfolding declare_failure_chain
  declare_failure_chain-Weighs ctx as' h =
      declare_attempts-Weigh (chain_timeout ctx.failure) true (chain_steps ctx.failure) as' h

  agent_places-Weigh :
      (names : List String) (r k : Option ℕ) (a : LocalAgent)
      → agent_places names r k ≡ ok a
      → AgentWeighs a
  unfolding weight
  agent_places-Weigh names (some r) (some k) a h = subst AgentWeighs (ok-injective h) (record {
    request = refl;
    queue = refl;
    calls = refl;
    drained = refl;
    outstanding = refl;
    dispatched = refl;
    rounds = refl;
    response = refl;
    failed_run = refl;
  })
  agent_places-Weigh names none (some k) a h = cc
  agent_places-Weigh names none none a h = cc
  agent_places-Weigh names (some r) none a h = cc

  pub declare_agent-Weighs :
      (names : List String) (r k : Option ℕ) (a : Option LocalAgent)
      → declare_agent names r k ≡ ok a
      → OptionAll AgentWeighs a
  declare_agent-Weighs [] r k a h = subst (OptionAll AgentWeighs) (ok-injective h) tt
  declare_agent-Weighs (n ∷ ns) r k a h =
      let (agent, made, built) = >>=-eq-ok (agent_places (n ∷ ns) r k) _ h in
      subst (OptionAll AgentWeighs) (ok-injective built)
        (agent_places-Weigh (n ∷ ns) r k agent made)

  pub numbered_ports-Light :
      (port : ℕ → Place)
      → ((k : ℕ) → weight c (port k) ≡ 0)
      → (k : ℕ) (names : List String) → All (λ p. weight c p ≡ 0) (numbered_ports port k names)
  numbered_ports-Light port light k [] = tt
  numbered_ports-Light port light k (n ∷ ns) = (light k, numbered_ports-Light port light (suc k) ns)

  -- A transition that takes one token and writes as much.
  pub plain-Balanced :
      (name : String) (role : TransitionInfo) (p : Place) (o : Out) (priority : ℕ) {n : ℕ}
      → weight c p ≡ n
      → Weighs c n o
      → IsBalanced c (plain_transition name role (one p ∷ []) (some o) priority)
  plain-Balanced name role p o priority e h =
      ((tt, tt), Weights.AllWeigh-eq c _ h (omega (arith, e)))
