-- ===== src/Compiler/FailureChain/Resolved.antt =====
-- What an accepted chain is.
use n8n_libpetri.Prelude.{ℕ, ◌<◌, ◌≡◌, string_eq, true, Option, List}
use n8n_libpetri.Prelude.Predicates.{OptionAll}
use n8n_libpetri.Compiler.Types.{FailureStep, FailureChain}
use n8n_libpetri.Compiler.FailureChain.Targets.{RouteTargets}
use n8n_libpetri.Compiler.FailureChain.Resolve.{last_of, is_terminal_step}
use n8n_libpetri.Compiler.FailureChain.Steps.{AllResolve}

-- The chain that the steps of a policy resolve to.
pub record IsResolution (t : RouteTargets) (steps : List FailureStep) (timeout_ms : Option ℕ)
    (c : FailureChain) : Type 0 where
  pub resolved : AllResolve t 0 steps c.steps
  pub ends : is_terminal_step (last_of c.steps) ≡ true
  pub deadline : (c.timeout_ms ≡ timeout_ms) × OptionAll (λ n. 0 < n) c.timeout_ms
