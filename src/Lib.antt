-- ===== src/Lib.antt =====
-- A verification library for n8n-libpetri, which compiles an n8n workflow to a Petri net and runs
-- it.
--
-- The compiler (typescript/src/compiler) takes a description of a workflow through a row of
-- phases: the connections are validated and put in canonical order, the inputs of each node are
-- given a form, reachability from the start nodes classifies the references between nodes, and the
-- nodes that must hear of a skip are found. Each node's `executionPolicy` is parsed, merged over
-- its scopes and resolved against the node's outputs. From the results each node gets a gadget of
-- places and transitions, the gadgets are composed into one net by binding ports to places, and the
-- net gets its initial marking. At run time the scheduler keeps compiled workflows, and for engine v2
-- the settlement policy decides the successors of a step from the stored rows. Paths below are
-- under typescript/src.
--
-- Prelude and its children hold the shared vocabulary: Boolean tests and equality instances
-- (Tests), lists on native numbers (Lists), JavaScript sets and maps as lists and association
-- lists in insertion order (Sets, Maps), sorting (Sort), parsed JSON (Json), a throw as a value
-- (Results) and template texts (Texts).
--
-- Compiler.Types is the vocabulary of compiler/types (input.ts, analysis.ts, netmap.ts) and
-- Compiler.Errors the codes of compiler/errors.ts. Compiler.Analysis has one module for each
-- modelled file of compiler/analysis: Connections (canonicaliseConnections), Reachability (walk,
-- reachFrom, reachableFrom, reachableFromStarts), References (classifyReferences), SkipObservers
-- (skipObservableNodes), DeadInputs (findDeadInputs), Inputs (isAllRequired, requiredInputsOf,
-- joinFormOf), KSafety (multiProducerInputsOf), Depth (depthOf) and Tools (wireTools); Worklist is
-- the depth-first loop that reachability.ts and skip-observers.ts share. Compiler.Policy models
-- compiler/policy.ts and compiler/policy: Values (values.ts, failure-action.ts), OnFailure (on-failure.ts), Admission
-- (admission.ts) and Parse (parseExecutionPolicy, mergePolicies). Compiler.FailureChain models
-- compiler/failure-chain.ts and compiler/failure-chain: Targets (route-target.ts,
-- field-conflicts.ts) and Resolve (resolveFailureChain).
--
-- Compiler.Names models compiler/names (places.ts, ports.ts, transitions.ts). Compiler.Gadget models
-- the v1 gadget of a node, compiler/gadget.ts `buildV1NodeGadget` and compiler/gadget: Net is what
-- the code uses of a net's places, arcs, outputs and transitions, with the branches that an output
-- may write; Shapes the parts of a gadget (local-shapes.ts); Declare the input side (input-*.ts);
-- Outputs the output side and the outcome branches (output-side.ts, outcome.ts); Failure the
-- places of retries, failure chains, agents and references; Runs, Steps and Skips the transitions
-- (start.ts, run.ts, routing.ts, agent-round.ts, failure-chain.ts, skip.ts, arms.ts); Build puts
-- them in order. Weights gives the places weights, and Parts, Routed, Outlets, Balance, Invariant
-- and Combinations hold proofs. Compiler.Compile models compiler/compile: EdgePlaces
-- (edge-places.ts), Compose (compose.ts `composeNet`) and Marking (marking.ts). A place of the flat
-- net is a shared one, or the id of its owner with the local place. Game says what the model asks
-- of libpetri: a firing takes the tokens that the input arcs ask for and writes one branch of the
-- output. The relation of firings is a parameter that implies this, so what is stated of runs
-- holds whatever inhibitors, read arcs, priorities and delays hold back.
--
-- Scheduler.Cache models scheduler/cache.ts, the least-recently-used map of compiled workflows, and
-- Settlement.Scope settlement/scope.ts (candidateKeys, scopePlan, isFinished), over the loops and
-- classified edges of a graph; Settlement.Rows models the keyed read of settlement/rows.ts
-- (readByKeys, scopedPasses, probePass, namedRace), with the reader of the store as a parameter, and
-- Settlement.Policy the decisions of settlement/policy.ts as functions of the rows, with the plan of
-- the net at the rows as a parameter. The other modules below these hold proofs, and Tests the
-- theorems at concrete workflows.
--
-- A function that mutates a set, a map or a list takes it and returns it. A throw is `err`. A
-- JavaScript number is a `Num`, which tells natural, negative and fractional numbers apart where a
-- check does; an index that has passed its check is a natural number. A message is modelled by its
-- subject and the kind of fault; the diagnostics of the analysis phases are left out.
--
-- Loops run on fuel. A walk has one unit for each start and each entry of a successor list: a node
-- is pushed once, and only when a start or an entry names it. The tool loop has one unit for each
-- tool connection and one more: a pass that changes the set marks a new tool. The print of `n` has
-- `n + 1` units, at least one for each digit. The eviction has one unit for each entry. The passes of
-- depthOf over the tool connections are bounded by the source itself, and counted the same way.
--
-- Not modelled: the strongly connected components, the driver of the analysis and its engine-v2
-- phases; the settlement gadgets, the engine-v2 composition, the net map, the binding of actions and
-- the canonical view of a gadget; libpetri, a dependency outside the repository; the rest of the
-- scheduler and of the settlement, the codec, the conformance and verification tools, the adapter
-- to n8n, and the installer and command line, which are input and output. `retryParamsOf` is left
-- out since it computes on fractional numbers.
pub mod Prelude
pub mod Compiler
pub mod Scheduler
pub mod Settlement
pub mod Tests
