-- ===== src/Compiler/Analysis/Reachability/Tools.antt =====
-- The fixpoint over the tool connections.
use n8n_libpetri.Prelude.{
  ℕ, zero, suc, ◌≤◌, ◌<◌, ◌≡◌, refl, ◌↔◌, inl, inr, Bool, true, false, not, ◌&&◌, none, List, [],
  ◌∷◌, map, String, arith, length, length-map, fold, string_eq, Bool-cases, ◌==◌, subst, sym, ap,
}
use n8n_libpetri.Prelude.Sets.{has, missing, missing-cons, missing-le}
use n8n_libpetri.Prelude.Maps
use n8n_libpetri.Prelude.Predicates.{All, All-of_mem, All-mem}
use n8n_libpetri.Compiler.Types.{ToolConnection}
use n8n_libpetri.Compiler.Analysis.Worklist.Drained.{Reach}
use n8n_libpetri.Compiler.Analysis.Reachability.{
  reach_from, tool_step, tool_passes, reachable_from_starts,
}
use n8n_libpetri.Compiler.Analysis.Reachability.Walks.{reach_from_iff}
use mathlib.Core.List.{Memᴰ}
use mathlib.Core.List.Memᴰ

-- A node on the main graph, or a tool of a reachable agent.
pub data Dispatched (base : String → Type 0) (cs : List ToolConnection) : String → Type 0 where
  main : {v : String} → base v → Dispatched base cs v
  dispatch :
      (c : ToolConnection) → Memᴰ c cs → Dispatched base cs c.agent → Dispatched base cs c.tool

abbrev tools : List ToolConnection → List String
tools cs = map (λ c. c.tool) cs

abbrev IsClosed : List String → List ToolConnection → Type 0
IsClosed r cs = All (λ c. has r c.agent ≡ true → has r c.tool ≡ true) cs

data StepCases (r : List String) (changed : Bool) (c : ToolConnection) : Type 0 where
  fires :
      has r c.agent ≡ true
      → has r c.tool ≡ false
      → tool_step (r, changed) c ≡ (c.tool ∷ r, true)
      → StepCases r changed c
  idle :
      (has r c.agent ≡ true → has r c.tool ≡ true)
      → tool_step (r, changed) c ≡ (r, changed)
      → StepCases r changed c

tool_step-either : (r : List String) (changed : Bool) (c : ToolConnection) → StepCases r changed c
unfolding tool_step
tool_step-either r changed c = elim (Bool-cases (has r c.agent && not (has r c.tool))) [
  | inl e ↦ fires (ground arith) (ground arith) (rw e)
  | inr e ↦ idle (ground arith) (rw e)
]

-- A pass adds only what a reachable agent dispatches.
pass-sound :
    (P : String → Type 0) (cs : List ToolConnection) (r : List String) (changed : Bool)
    → All (λ c. P c.agent → P c.tool) cs
    → ((v : String) → has r v ≡ true → P v)
    → (v : String) → has (fold tool_step (r, changed) cs).0 v ≡ true
    → P v
pass-sound P [] r changed h p v m = p v m
pass-sound P (c ∷ cs) r changed h p v m = elim (tool_step-either r changed c) [
  | fires a t e ↦
      pass-sound P cs (c.tool ∷ r) true h.1
        (λ w n. elim (Bool-cases (c.tool == w)) [
          | inl same ↦ subst P ((string_eq.beq_iff c.tool w).0 same) (h.0 (p c.agent a))
          | inr other ↦ p w (rw other at n)
        ])
        v (subst (λ s. has (fold tool_step s cs).0 v ≡ true) e m)
  | idle t e ↦
      pass-sound P cs r changed h.1 p v (subst (λ s. has (fold tool_step s cs).0 v ≡ true) e m)
]

pass-grows :
    (cs : List ToolConnection) (r : List String) (changed : Bool) (v : String)
    → has r v ≡ true
    → has (fold tool_step (r, changed) cs).0 v ≡ true
pass-grows [] r changed v h = h
pass-grows (c ∷ cs) r changed v h = elim (tool_step-either r changed c) [
  | fires a t e ↦ rw (e, fold) (pass-grows cs (c.tool ∷ r) true v (ground arith))
  | idle t e ↦ rw (e, fold) (pass-grows cs r changed v h)
]

pass_stays_changed :
    (cs : List ToolConnection) (r : List String) → (fold tool_step (r, true) cs).1 ≡ true
pass_stays_changed [] r = refl
pass_stays_changed (c ∷ cs) r = elim (tool_step-either r true c) [
  | fires a t e ↦ rw (e, fold) (pass_stays_changed cs (c.tool ∷ r))
  | idle t e ↦ rw (e, fold) (pass_stays_changed cs r)
]

-- A pass that changed nothing found the set closed.
pass-IsClosed :
    (cs : List ToolConnection) (r : List String)
    → (fold tool_step (r, false) cs).1 ≡ false
    → ((fold tool_step (r, false) cs).0 ≡ r) × IsClosed r cs
pass-IsClosed [] r h = (refl, tt)
pass-IsClosed (c ∷ cs) r h = elim (tool_step-either r false c) [
  | fires a t e ↦ cc (pass_stays_changed cs (c.tool ∷ r))
  | idle t e ↦
      let (same, closed) = pass-IsClosed cs r (rw (e, fold) at h) in
      (rw (e, fold) same, (t, closed))
]

-- A pass that changed something added one of the tools.
pass-missing :
    (us : List String) (cs : List ToolConnection) (r : List String) (changed : Bool)
    → All (λ c. has us c.tool ≡ true) cs
    → missing (fold tool_step (r, changed) cs).0 us ≤ missing r us
pass-missing us [] r changed h = omega arith
pass-missing us (c ∷ cs) r changed h = elim (tool_step-either r changed c) [
  | fires a t e ↦
      rw (e, fold)
        (omega (arith, missing-cons r us c.tool h.0 t, pass-missing us cs (c.tool ∷ r) true h.1))
  | idle t e ↦ rw (e, fold) (pass-missing us cs r changed h.1)
]

pass-missing_lt :
    (us : List String) (cs : List ToolConnection) (r : List String)
    → All (λ c. has us c.tool ≡ true) cs
    → (fold tool_step (r, false) cs).1 ≡ true
    → missing (fold tool_step (r, false) cs).0 us < missing r us
pass-missing_lt us [] r h m = cc
pass-missing_lt us (c ∷ cs) r h m = elim (tool_step-either r false c) [
  | fires a t e ↦
      rw (e, fold)
        (omega (arith, missing-cons r us c.tool h.0 t, pass-missing us cs (c.tool ∷ r) true h.1))
  | idle t e ↦ rw (e, fold) (pass-missing_lt us cs r h.1 (rw (e, fold) at m))
]

module _ (us : List String) (cs : List ToolConnection) where
  -- With fuel for one pass for each tool, the loop ends with a closed set.
  tool_passes-IsClosed :
      (fuel : ℕ) (r : List String)
      → All (λ c. has us c.tool ≡ true) cs
      → missing r us < fuel
      → IsClosed (tool_passes fuel cs r) cs
  unfolding tool_passes
  tool_passes-IsClosed zero r h f = absurd (omega arith)
  tool_passes-IsClosed (suc fuel) r h f = elim (Bool-cases (fold tool_step (r, false) cs).1) [
    | inl again ↦
        rw (again, tool_passes)
          (tool_passes-IsClosed fuel (fold tool_step (r, false) cs).0 h
            (omega (arith, pass-missing_lt us cs r h again)))
    | inr done ↦
        let (same, closed) = pass-IsClosed cs r done in
        rw (done, tool_passes) (subst (λ s. IsClosed s cs) (sym same) closed)
  ]

tool_passes-sound :
    (P : String → Type 0) (cs : List ToolConnection) (fuel : ℕ) (r : List String)
    → All (λ c. P c.agent → P c.tool) cs
    → ((v : String) → has r v ≡ true → P v)
    → (v : String) → has (tool_passes fuel cs r) v ≡ true
    → P v
unfolding tool_passes
tool_passes-sound P cs zero r h p v m = p v m
tool_passes-sound P cs (suc fuel) r h p v m = elim (Bool-cases (fold tool_step (r, false) cs).1) [
  | inl again ↦
      tool_passes-sound P cs fuel (fold tool_step (r, false) cs).0 h (pass-sound P cs r false h p) v
        (rw (again, tool_passes) at m)
  | inr done ↦ pass-sound P cs r false h p v (rw (done, tool_passes) at m)
]

tool_passes-grows :
    (cs : List ToolConnection) (fuel : ℕ) (r : List String) (v : String)
    → has r v ≡ true
    → has (tool_passes fuel cs r) v ≡ true
unfolding tool_passes
tool_passes-grows cs zero r v m = m
tool_passes-grows cs (suc fuel) r v m = elim (Bool-cases (fold tool_step (r, false) cs).1) [
  | inl again ↦
      rw (again, tool_passes)
        (tool_passes-grows cs fuel (fold tool_step (r, false) cs).0 v (pass-grows cs r false v m))
  | inr done ↦ rw (done, tool_passes) (pass-grows cs r false v m)
]

has-tools : (cs : List ToolConnection) → All (λ c. has (tools cs) c.tool ≡ true) cs
has-tools cs = All-of_mem (λ c. has (tools cs) c.tool ≡ true) cs (go cs)
  where
    go : (ds : List ToolConnection) (c : ToolConnection) → Memᴰ c ds → has (tools ds) c.tool ≡ true
    go [] c m = absurd (Memᴰ.not-nil m)
    go (d ∷ ds) c m = elim (Memᴰ.cases_cons m) [
      | inl e ↦
          ground (arith, string_eq.beq_iff d.tool c.tool, ap (λ (x : ToolConnection). x.tool) e)
      | inr later ↦ ground (arith, go ds c later)
    ]

-- A node is reachable from the start nodes exactly when a walk over the main graph leads to it, or
-- it is the tool of a reachable agent, through any number of agents that are tools themselves.
pub reachable_from_starts_iff :
    (starts : List String) (succ : List (String × List String)) (cs : List ToolConnection)
    (v : String)
    → (has (reachable_from_starts starts succ cs) v ≡ true)
      ↔ Dispatched (Reach starts (λ n. Maps.get_or succ n []) none) cs v
unfolding reachable_from_starts
reachable_from_starts_iff starts succ cs v = (
  tool_passes-sound (Dispatched base cs) cs (suc (length cs)) from_main (All-of_mem _ cs dispatch)
      (λ w m. main ((reach_from_iff starts succ none w).0 m)) v,
  complete,
)
  where
    base : String → Type 0
    base = Reach starts (λ n. Maps.get_or succ n []) none

    from_main : List String
    from_main = reach_from starts succ none

    closed : IsClosed (tool_passes (suc (length cs)) cs from_main) cs
    closed = tool_passes-IsClosed (tools cs) cs (suc (length cs)) from_main (has-tools cs) (
        omega
          (arith, missing-le from_main (tools cs), length-map (λ (c : ToolConnection). c.tool) cs))

    complete :
        {w : String}
        → Dispatched base cs w
        → has (tool_passes (suc (length cs)) cs from_main) w ≡ true
    complete (main {v = w} r) =
        tool_passes-grows cs (suc (length cs)) from_main w ((reach_from_iff starts succ none w).1 r)
    complete (dispatch c m d) = All-mem _ cs closed m (complete d)
