-- ===== src/Compiler/Analysis/DeadInputs/Padded.antt =====
-- Which inputs are dead.
use n8n_libpetri.Prelude.{
  ℕ, suc, ◌≡◌, refl, ap, ◌∙◌, Bool, false, not, Option, none, ◌==◌, ◌&&◌, ◌||◌, some, List, [], ◌∷◌,
  String, string_eq, nat_eq, ltb, fold, any, arith, nat_beq,
}
use n8n_libpetri.Prelude.Sets.{has, has-add, has-keep, IsNodup, beq_refl}
use n8n_libpetri.Prelude.Maps
use n8n_libpetri.Prelude.Maps.{get-set}
use n8n_libpetri.Prelude.Predicates.{All}
use n8n_libpetri.Prelude.Results.{Result, ok, err, ◌>>=◌}
use n8n_libpetri.Compiler.Types.{EdgeRef, RawNode}
use n8n_libpetri.Compiler.Analysis.DeadInputs.{
  Wired, wire, dead_inputs_of, DeadInputsError, no_incoming, incoming_of, collect_dead_inputs,
  find_dead_inputs,
}

-- Some producer edge leads to input `i`, and to an input above `i`.
abbrev pub is_wired : List EdgeRef → ℕ → Bool
is_wired es i = any (λ e. nat_beq e.input_index i) es

abbrev pub is_wired_above : List EdgeRef → ℕ → Bool
is_wired_above es i = any (λ e. ltb i e.input_index) es

wired-fold :
    (es : List EdgeRef) (w : Wired) (i : ℕ)
    → has (fold wire w es).wired i ≡ (has w.wired i || is_wired es i)
unfolding wire
wired-fold [] w i = ground arith
wired-fold (e ∷ es) w i =
    ground (arith, has-add w.wired e.input_index i, wired-fold es (wire w e) i)

top-fold :
    (es : List EdgeRef) (w : Wired) (i : ℕ)
    → ltb (suc i) (fold wire w es).top ≡ (ltb (suc i) w.top || is_wired_above es i)
unfolding wire
top-fold [] w i = ground arith
top-fold (e ∷ es) w i = ground (arith, top-fold es (wire w e) i)

-- An input is dead exactly when it is required, has no producer edge, and some producer edge leads
-- to an input above it.
pub dead_inputs_of_iff :
    (required : List ℕ) (es : List EdgeRef) (i : ℕ)
    → has (dead_inputs_of (some required) es) i
      ≡ (has required i && (is_wired_above es i && not (is_wired es i)))
unfolding dead_inputs_of
dead_inputs_of_iff required es i =
    let w = fold wire (record { wired = []; top = 0 }) es in
    ground (
      arith,
      has-keep (λ i. ltb (suc i) w.top && not (has w.wired i)) required i,
      wired-fold es (record { wired = []; top = 0 }) i,
      top-fold es (record { wired = []; top = 0 }) i,
    )

abbrev is_required : Option (List ℕ) → ℕ → Bool
is_required none i = false
is_required (some required) i = has required i

-- The input `i` is required, has no producer edge, and some producer edge leads above it.
abbrev pub is_dead : RawNode → List EdgeRef → ℕ → Bool
is_dead r es i = is_required r.required_inputs i && (is_wired_above es i && not (is_wired es i))

-- The entry of the node lists exactly its dead inputs.
abbrev pub ListsDead : List (String × List EdgeRef) → List (String × List ℕ) → RawNode → Type 0
ListsDead incoming deads r =
    (es : List EdgeRef) × (ds : List ℕ) × (Maps.get incoming r.node.name ≡ some es)
    × (Maps.get deads r.node.name ≡ some ds)
    × ((i : ℕ) → has ds i ≡ is_dead r es i)

dead_inputs_of_lem :
    (required : Option (List ℕ)) (es : List EdgeRef) (i : ℕ)
    → has (dead_inputs_of required es) i
      ≡ (is_required required i && (is_wired_above es i && not (is_wired es i)))
unfolding dead_inputs_of
dead_inputs_of_lem none es i = refl
dead_inputs_of_lem (some required) es i = dead_inputs_of_iff required es i

module _ (incoming : List (String × List EdgeRef)) where
  abbrev pub HasIncoming : RawNode → Type 0
  HasIncoming r = (es : List EdgeRef) × (Maps.get incoming r.node.name ≡ some es)

  incoming_found :
      (n : String) (es : List EdgeRef)
      → Maps.get incoming n ≡ some es
      → incoming_of incoming n ≡ ok es
  incoming_found n es h = by (Maps.get incoming n) h
    where
      by :
          (o : Option (List EdgeRef))
          → o ≡ some es
          → (elim o [ none ↦ err (no_incoming n) | some fs ↦ ok fs ]) ≡ ok es
      by none h' = cc
      by (some fs) h' = cc

  -- The loop ends well, lists what it should, and leaves other entries alone.
  abbrev Collects : List (String × List ℕ) → List RawNode → Type 0
  Collects m rs =
      (deads : List (String × List ℕ)) × (collect_dead_inputs incoming m rs ≡ ok deads)
      × All (ListsDead incoming deads) rs
      × ((k : String)
          → has (Maps.map_keys (λ x. x.node.name) rs) k ≡ false
          → Maps.get deads k ≡ Maps.get m k)

  collect_dead_inputs-Collects :
      (rs : List RawNode) (m : List (String × List ℕ))
      → IsNodup (Maps.map_keys (λ x. x.node.name) rs)
      → All HasIncoming rs
      → Collects m rs
  collect_dead_inputs-Collects [] m u h = (m, refl, tt, λ k f. refl)
  collect_dead_inputs-Collects (r ∷ rs) m u ((es, found), later) =
      let ds = dead_inputs_of r.required_inputs es in
      let m' = Maps.set m r.node.name ds in
      let (deads, built, lists, others) = collect_dead_inputs-Collects rs m' u.1 later in
      let kept =
        others r.node.name u.0
        ∙ get-set m r.node.name r.node.name ds
        ∙ rw (beq_refl r.node.name) refl in
      (
        deads,
        ap
              (λ (x : Result DeadInputsError (List EdgeRef)). x >>= λ es'.
                collect_dead_inputs incoming
                  (Maps.set m r.node.name (dead_inputs_of r.required_inputs es')) rs)
              (incoming_found r.node.name es found)
            ∙ built,
        ((es, ds, found, kept, dead_inputs_of_lem r.required_inputs es), lists),
        λ k f.
            others k (ground (arith, f))
            ∙ get-set m r.node.name k ds
            ∙ rw (apart r.node.name k f) refl,
      )
    where
      apart :
          (n k : String)
          → (n == k || has (Maps.map_keys (λ x. x.node.name) rs) k) ≡ false
          → (n == k) ≡ false
      apart n k f = ground (arith, f)

  -- Where the nodes' names are distinct and each has an entry in `incoming`, `findDeadInputs`
  -- returns, and its entry for each node lists exactly the inputs that the node requires, that no
  -- producer edge leads to, and above which some producer edge leads to an input.
  pub find_dead_inputs_lem :
      (raws : List RawNode)
      → IsNodup (Maps.map_keys (λ x. x.node.name) raws)
      → All HasIncoming raws
      → (deads : List (String × List ℕ)) × (find_dead_inputs raws incoming ≡ ok deads)
        × All (ListsDead incoming deads) raws
  unfolding find_dead_inputs
  find_dead_inputs_lem raws u h =
      let (deads, built, lists, others) = collect_dead_inputs-Collects raws [] u h in
      (deads, built, lists)
