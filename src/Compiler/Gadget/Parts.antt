-- ===== src/Compiler/Gadget/Parts.antt =====
-- The weights of the places that the declarations of gadget/input-*.ts, output-side.ts,
-- failure-places.ts and agent-places.ts give to the parts of a gadget.
use n8n_libpetri.Prelude.{
  ℕ, ◌≡◌, refl, sym, ap, subst, Bool, true, false, none, some, List, [], ◌∷◌, Bool-cases, inl, inr,
  if◌then◌else◌, keep, nat_eq, ◌==◌,
}
use n8n_libpetri.Prelude.Predicates.{All, OptionAll}
use n8n_libpetri.Prelude.Results.{Result, ok, ◌>>=◌, >>=-eq-ok, ok-injective}
use n8n_libpetri.Compiler.Types.{EdgeRef, JoinForm, direct, or, join, choose_branch, tool}
use n8n_libpetri.Compiler.Gadget.Net.{Place}
use n8n_libpetri.Compiler.Gadget.Shapes.{
  GadgetError, LocalEdge, InputCommon, ReadySlot, single, split, JoinInput, InputSide, direct_side,
  or_side, join_side, choose_branch_side, tool_side, GadgetContext,
}
use n8n_libpetri.Compiler.Gadget.Declare.{
  map_result, host_slot_of, declare_input_edge, input_common, input_indexes, declare_direct_edges,
  declare_or_input, declare_ready_input, variant_slot, declare_branch_input, declare_form,
}
use n8n_libpetri.Compiler.Gadget.Weights.{Coefficients, weight}

pub map_result-All {ℓ κ μ} :
    {A : Type ℓ} {B : Type κ} (P : B → Type μ) (f : A → Result GadgetError B)
    → ((x : A) (b : B) → f x ≡ ok b → P b)
    → (xs : List A) (bs : List B) → map_result f xs ≡ ok bs
    → All P bs
map_result-All P f each [] bs h = subst (All P) (ok-injective h) tt
map_result-All P f each (x ∷ xs) bs h =
    let (b, fx, run) = >>=-eq-ok (f x) _ h in
    let (later, fxs, done) = >>=-eq-ok (map_result f xs) _ run in
    subst (All P) (ok-injective done) (each x b fx, map_result-All P f each xs later fxs)

pub if-OptionAll {ℓ κ} :
    {A : Type ℓ} (P : A → Type κ) (b : Bool) (x : A)
    → P x
    → OptionAll P (if b then some x else none)
if-OptionAll P true x h = h
if-OptionAll P false x h = tt

module _ (c : Coefficients) where
  abbrev pub IsLight : Place → Type 0
  IsLight p = weight c p ≡ 0

  abbrev pub LightEdge : LocalEdge → Type 0
  LightEdge e = IsLight e.data_place × OptionAll IsLight e.empty_place

  abbrev pub SlotWeighs : ℕ → ReadySlot → Type 0
  SlotWeighs n (single p) = weight c p ≡ n
  SlotWeighs n (split d e) = (weight c d ≡ n) × OptionAll (λ p. weight c p ≡ n) e

  -- The free place of an input weighs what any place of its slot does.
  abbrev pub JoinWeighs : JoinInput → Type 0
  JoinWeighs i =
      (weight c i.free_place ≡ c.slot i.common.index)
      × SlotWeighs (c.slot i.common.index) i.slot
      × All LightEdge i.common.edges

  abbrev pub SideWeighs : InputSide → Type 0
  SideWeighs (direct_side p e) = IsLight p × OptionAll IsLight e
  SideWeighs (or_side i) =
      IsLight i.round_place
      × IsLight i.hasdata_place
      × IsLight i.ran_place
      × All LightEdge i.common.edges
  SideWeighs (join_side h is) = IsLight h × All JoinWeighs is
  SideWeighs (choose_branch_side is) = All JoinWeighs is
  SideWeighs (tool_side p) = IsLight p

  declare_input_edge-Light :
      (ctx : GadgetContext) (i : ℕ) (e : EdgeRef) (l : LocalEdge)
      → declare_input_edge ctx i e ≡ ok l
      → LightEdge l
  unfolding weight
  declare_input_edge-Light ctx i e l h =
      let (slot, found, built) = >>=-eq-ok (host_slot_of ctx e) _ h in
      subst LightEdge (ok-injective built) (refl, if-OptionAll IsLight slot.has_empty _ refl)

  input_common-Light :
      (ctx : GadgetContext) (i : ℕ) (common : InputCommon)
      → input_common ctx i ≡ ok common
      → All LightEdge common.edges × (common.index ≡ i)
  input_common-Light ctx i common h =
      let producers = keep (λ (e : EdgeRef). e.input_index == i) ctx.incoming in
      let (edges, declared, built) =
        >>=-eq-ok (map_result (declare_input_edge ctx i) producers) _ h in
      subst (λ r. All LightEdge r.edges × (r.index ≡ i)) (ok-injective built)
        (
          map_result-All LightEdge (declare_input_edge ctx i) (declare_input_edge-Light ctx i)
              producers edges declared,
          refl,
        )

  variant_slot-Weighs :
      (common : InputCommon) (i : ℕ) → SlotWeighs (c.slot i) (variant_slot common i)
  unfolding weight
  variant_slot-Weighs common i = elim (Bool-cases common.required) [
    | inl r ↦ rw r (refl, if-OptionAll (λ p. weight c p ≡ c.slot i) common.empty_capable _ refl)
    | inr r ↦ rw r refl
  ]

  declare_ready_input-Weighs :
      (ctx : GadgetContext) (i : ℕ) (j : JoinInput)
      → declare_ready_input ctx i ≡ ok j
      → JoinWeighs j
  unfolding weight
  declare_ready_input-Weighs ctx i j h =
      let (common, declared, built) = >>=-eq-ok (input_common ctx i) _ h in
      let (edges, same) = input_common-Light ctx i common declared in
      subst JoinWeighs (ok-injective built) (rw same refl, rw same refl, edges)

  declare_branch_input-Weighs :
      (ctx : GadgetContext) (i : ℕ) (j : JoinInput)
      → declare_branch_input ctx i ≡ ok j
      → JoinWeighs j
  unfolding weight
  declare_branch_input-Weighs ctx i j h =
      let (common, declared, built) = >>=-eq-ok (input_common ctx i) _ h in
      let (edges, same) = input_common-Light ctx i common declared in
      subst JoinWeighs (ok-injective built)
        (ap c.slot (sym same), rw same (variant_slot-Weighs common i), edges)

  join_inputs-Weigh :
      (f : ℕ → Result GadgetError JoinInput)
      → ((i : ℕ) (j : JoinInput) → f i ≡ ok j → JoinWeighs j)
      → (is : List ℕ) (js : List JoinInput) → map_result f is ≡ ok js
      → All JoinWeighs js
  join_inputs-Weigh f each = map_result-All JoinWeighs f each

  declare_direct_edges-Weighs :
      (ctx : GadgetContext) (es : List EdgeRef) (side : InputSide)
      → declare_direct_edges ctx es ≡ ok side
      → SideWeighs side
  unfolding weight
  declare_direct_edges-Weighs ctx [] side h = elim (Bool-cases ctx.synthetic_input) [
    | inl s ↦ subst SideWeighs (ok-injective (rw s at h)) (refl, tt)
    | inr s ↦ cc (rw s at h)
  ]
  declare_direct_edges-Weighs ctx (e ∷ es) side h =
      let (slot, found, built) = >>=-eq-ok (host_slot_of ctx e) _ h in
      subst SideWeighs (ok-injective built) (refl, if-OptionAll IsLight slot.has_empty _ refl)

  declare_or_side-Weighs :
      (ctx : GadgetContext) (is : List ℕ) (side : InputSide)
      → (declare_or_input ctx is >>= λ i. ok (or_side i)) ≡ ok side
      → SideWeighs side
  unfolding weight
  declare_or_side-Weighs ctx [] side h = cc
  declare_or_side-Weighs ctx (i ∷ []) side h =
      let (j, one_input, made) = >>=-eq-ok (declare_or_input ctx (i ∷ [])) _ h in
      let (common, declared, built) = >>=-eq-ok (input_common ctx i) _ one_input in
      let (edges, same) = input_common-Light ctx i common declared in
      subst SideWeighs (ok-injective made)
        (subst (λ j. SideWeighs (or_side j)) (ok-injective built) (refl, refl, refl, edges))
  declare_or_side-Weighs ctx (i ∷ j ∷ is) side h = cc

  -- Whatever the form, the declared input side has these weights.
  pub declare_form-Weighs :
      (ctx : GadgetContext) (form : JoinForm) (side : InputSide)
      → declare_form ctx form ≡ ok side
      → SideWeighs side
  unfolding weight
  declare_form-Weighs ctx tool side h = subst SideWeighs (ok-injective h) refl
  declare_form-Weighs ctx direct side h = declare_direct_edges-Weighs ctx ctx.incoming side h
  declare_form-Weighs ctx or side h = declare_or_side-Weighs ctx (input_indexes ctx) side h
  declare_form-Weighs ctx join side h =
      let (js, declared, built) =
        >>=-eq-ok (map_result (declare_ready_input ctx) (input_indexes ctx)) _ h in
      subst SideWeighs (ok-injective built)
        (refl, join_inputs-Weigh _ (declare_ready_input-Weighs ctx) _ js declared)
  declare_form-Weighs ctx choose_branch side h =
      let (js, declared, built) =
        >>=-eq-ok (map_result (declare_branch_input ctx) (input_indexes ctx)) _ h in
      subst SideWeighs (ok-injective built)
        (join_inputs-Weigh _ (declare_branch_input-Weighs ctx) _ js declared)
