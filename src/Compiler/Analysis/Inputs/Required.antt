-- ===== src/Compiler/Analysis/Inputs/Required.antt =====
-- The required inputs against the declared ones.
use n8n_libpetri.Prelude.{
  ℕ, zero, suc, ◌+◌, ◌≤◌, ◌≡◌, refl, subst, ◌==◌, nat_beq, length, Bool, true, false, ◌&&◌, ◌||◌,
  Option, some, none, List, [], ◌∷◌, nat_eq, if◌then◌else◌, ltb, leb, arith,
}
use n8n_libpetri.Prelude.Sets.{has, unique, has-unique}
use n8n_libpetri.Prelude.Predicates.{All}
use n8n_libpetri.Prelude.Sort.{IsSorted, sort-IsSorted, has-sort}
use n8n_libpetri.Compiler.Types.{
  Num, nat, negative, fractional, num_eq, RequiredInputs, count, indexes, NodeTypeShape,
}
use n8n_libpetri.Compiler.Analysis.Inputs.{
  is_all_required, range_from, below, listed_inputs, required_inputs_of,
}

pub has-range_from : (n k i : ℕ) → has (range_from k n) i ≡ (leb k i && ltb i (k + n))
has-range_from zero k i = ground arith
has-range_from (suc n) k i = ground (arith, has-range_from n (suc k) i)

has-below : (n : ℕ) (l : List Num) (i : ℕ) → has (below n l) i ≡ (has l (nat i) && ltb i n)
has-below n [] i = refl
has-below n (nat j ∷ l) i = ground (arith, has-below n l i)
has-below n (negative j ∷ l) i = ground (arith, has-below n l i)
has-below n (fractional s ∷ l) i = ground (arith, has-below n l i)

leb_total : (x y : ℕ) → leb x y ≡ false → leb y x ≡ true
leb_total x y h = ground arith

leb_trans : (x y z : ℕ) → leb x y ≡ true → leb y z ≡ true → leb x z ≡ true
leb_trans x y z h k = ground arith

range_from-All : (n k j : ℕ) → j ≤ k → All (λ y. leb j y ≡ true) (range_from k n)
range_from-All zero k j h = tt
range_from-All (suc n) k j h = (ground arith, range_from-All n (suc k) j (omega arith))

range_from-IsSorted : (n k : ℕ) → IsSorted leb (range_from k n)
range_from-IsSorted zero k = tt
range_from-IsSorted (suc n) k =
    (range_from-All n (suc k) k (omega arith), range_from-IsSorted n (suc k))

abbrev pub lists : Option RequiredInputs → ℕ → Bool
lists none i = false
lists (some (count n)) i = false
lists (some (indexes l)) i = has l (nat i)

-- The declaration requires every input: it is the number of the inputs, or as long a list.
abbrev pub requires_all : ℕ → Option RequiredInputs → Bool
requires_all n none = false
requires_all n (some (count (nat m))) = nat_beq m n
requires_all n (some (count (negative m))) = false
requires_all n (some (count (fractional t))) = false
requires_all n (some (indexes l)) = nat_beq (length l) n

-- The declaration requires the input `i`: every input, or those listed.
abbrev pub requires : NodeTypeShape → ℕ → Bool
requires shape i =
    requires_all shape.input_count shape.required_inputs || lists shape.required_inputs i

is_all_required_lem :
    (shape : NodeTypeShape)
    → is_all_required shape ≡ requires_all shape.input_count shape.required_inputs
unfolding is_all_required
is_all_required_lem shape = by shape.input_count shape.required_inputs
  where
    by :
        (n : ℕ) (r : Option RequiredInputs)
        → (elim r [
          | none ↦ false
          | some d ↦ elim d [ count m ↦ m == nat n | indexes l ↦ length l == n ]
        ])
          ≡ requires_all n r
    by n none = refl
    by n (some (count (nat m))) = refl
    by n (some (count (negative m))) = refl
    by n (some (count (fractional t))) = refl
    by n (some (indexes l)) = refl

-- `is` lists in ascending order what `p` holds of below `n`, and `none` says that `p` holds of
-- nothing.
abbrev pub IsListing : ℕ → (ℕ → Bool) → Option (List ℕ) → Type 0
IsListing n p none = (i : ℕ) → p i ≡ false
IsListing n p (some is) = IsSorted leb is × ((i : ℕ) → has is i ≡ (p i && ltb i n))

listed_inputs-IsListing :
    (n : ℕ) (r : Option RequiredInputs) → IsListing n (lists r) (listed_inputs n r)
unfolding listed_inputs
listed_inputs-IsListing n none = λ i. refl
listed_inputs-IsListing n (some (count m)) = λ i. refl
listed_inputs-IsListing n (some (indexes [])) = λ i. refl
listed_inputs-IsListing n (some (indexes (x ∷ xs))) = (
  sort-IsSorted leb leb_total leb_trans (below n (unique [] (x ∷ xs))),
  λ i. ground (
    arith,
    has-sort leb (below n (unique [] (x ∷ xs))) i,
    has-below n (unique [] (x ∷ xs)) i,
    has-unique [] (x ∷ xs) (nat i),
  ),
)

-- `requiredInputsOf` lists in ascending order exactly the inputs below `inputCount` that the
-- declaration requires, and gives null only where it requires none. A declaration requires every
-- input when it is the number of inputs, or a list with as many entries as there are inputs,
-- whatever they are; any other list requires its entries.
pub required_inputs_of-IsListing :
    (shape : NodeTypeShape)
    → IsListing shape.input_count (requires shape) (required_inputs_of shape)
unfolding required_inputs_of
required_inputs_of-IsListing shape =
    subst
      (λ b. IsListing input_count (λ i. b || lists required_inputs i) (required_inputs_of shape))
      (is_all_required_lem shape) (cases (is_all_required shape))
  where
    open shape use {input_count, required_inputs}

    cases :
        (b : Bool)
        → IsListing input_count
            (λ i. b || lists required_inputs i)
            (if b
              then some (range_from 0 input_count)
              else listed_inputs input_count required_inputs)
    cases true =
        (range_from-IsSorted input_count 0, λ i. ground (arith, has-range_from input_count 0 i))
    cases false = listed_inputs-IsListing input_count required_inputs
