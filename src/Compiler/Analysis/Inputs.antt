-- ===== src/Compiler/Analysis/Inputs.antt =====
-- compiler/analysis/inputs.ts: which inputs are required, and which gadget form an input side takes.
pub mod Required
pub mod Forms
use n8n_libpetri.Prelude.{
  ℕ, zero, suc, Bool, true, false, not, Option, some, none, List, [], ◌∷◌, ◌++◌, String, nat_eq,
  ◌==◌, if◌then◌else◌, ltb, leb, length, fold, keep,
}
use n8n_libpetri.Prelude.Sets.{has, add, unique}
use n8n_libpetri.Prelude.Sort.{sort}
use n8n_libpetri.Compiler.Types.{
  Num, nat, negative, fractional, num_eq, EdgeRef, EdgeKind, tree, cycle, JoinForm, direct, or,
  join, choose_branch, tool, RequiredInputs, count, indexes, NodeTypeShape,
}

-- Whether `requiredInputs` counts as naming every input: their number, or a list of that length.
unfoldable pub is_all_required : NodeTypeShape → Bool
is_all_required shape = elim shape.required_inputs [
  | none ↦ false
  | some r ↦ elim r [
    | count n ↦ n == nat shape.input_count
    | indexes l ↦ length l == shape.input_count
  ]
]

-- `Array.from({ length: n }, (_, i) => i)`.
abbrev pub range_from : ℕ → ℕ → List ℕ
range_from i zero = []
range_from i (suc n) = i ∷ range_from (suc i) n

-- `Number.isInteger(i) && i >= 0 && i < n`.
abbrev pub below : ℕ → List Num → List ℕ
below n [] = []
below n (nat i ∷ l) = if ltb i n then i ∷ below n l else below n l
below n (x ∷ l) = below n l

-- The inputs that a declaration which does not name every input lists.
unfoldable pub listed_inputs : ℕ → Option RequiredInputs → Option (List ℕ)
listed_inputs n none = none
listed_inputs n (some (count m)) = none
listed_inputs n (some (indexes [])) = none
listed_inputs n (some (indexes (x ∷ xs))) = some (sort leb (below n (unique [] (x ∷ xs))))

-- The inputs that must carry data.
unfoldable pub required_inputs_of : NodeTypeShape → Option (List ℕ)
unfolding is_all_required listed_inputs
required_inputs_of shape =
    if is_all_required shape
    then some (range_from 0 shape.input_count)
    else listed_inputs shape.input_count shape.required_inputs

abbrev pub is_tree : EdgeRef → Bool
is_tree e = elim e.kind [ tree ↦ true | cycle ↦ false ]

-- `new Set(deadInputs)` with every producer edge's input added.
abbrev pub input_set : List ℕ → List EdgeRef → List ℕ
input_set dead es = fold (λ s e. add s e.input_index) (fold add [] dead) es

-- Chooses the input-side gadget.
unfoldable pub join_form_of : Bool → List ℕ → Option (List ℕ) → List EdgeRef → JoinForm
join_form_of is_tool dead required incoming =
    if is_tool
    then tool
    else if leb (length (input_set dead incoming)) 1
    then (if ltb 1 (length (keep is_tree incoming))
        then or
        else if leb (length incoming) 1
        then direct
        else join)
    else elim required [ none ↦ join | some _ ↦ choose_branch ]
