-- ===== src/Compiler/Analysis/Inputs/Forms.antt =====
-- What a form says of the input side.
use n8n_libpetri.Prelude.{
  ℕ, ◌≤◌, ◌<◌, ◌≡◌, ◌≢◌, refl, sym, ◌∙◌, ◌⊎◌, inl, inr, Bool, true, false, ◌||◌, Option, none, List,
  [], ◌∷◌, nat_eq, ltb, leb, length, fold, keep, arith, Bool-cases, Option-cases,
}
use n8n_libpetri.Prelude.Sets.{has, add, has-add, IsNodup}
use n8n_libpetri.Compiler.Types.{EdgeRef, JoinForm, direct, or, join, choose_branch, tool}
use n8n_libpetri.Compiler.Analysis.Inputs.{is_tree, input_set, join_form_of}
use n8n_libpetri.Compiler.Analysis.DeadInputs.Padded.{is_wired}

-- `i` is an input of the node's input side: a dead one, or one that an edge leads to.
abbrev pub is_input : List ℕ → List EdgeRef → ℕ → Bool
is_input dead es i = has dead i || is_wired es i

abbrev pub HasOneInput : List ℕ → List EdgeRef → Type 0
HasOneInput dead es = (i j : ℕ) → is_input dead es i ≡ true → is_input dead es j ≡ true → i ≡ j

has-dead : (dead s : List ℕ) (i : ℕ) → has (fold add s dead) i ≡ (has s i || has dead i)
has-dead [] s i = ground arith
has-dead (d ∷ ds) s i = ground (arith, has-add s d i, has-dead ds (add s d) i)

has-wired :
    (es : List EdgeRef) (s : List ℕ) (i : ℕ)
    → has (fold (λ t e. add t e.input_index) s es) i ≡ (has s i || is_wired es i)
has-wired [] s i = ground arith
has-wired (e ∷ es) s i =
    ground (arith, has-add s e.input_index i, has-wired es (add s e.input_index) i)

has-input_set :
    (dead : List ℕ) (es : List EdgeRef) (i : ℕ) → has (input_set dead es) i ≡ is_input dead es i
has-input_set dead es i = ground (arith, has-dead dead [] i, has-wired es (fold add [] dead) i)

add-IsNodup : (s : List ℕ) (a : ℕ) → IsNodup s → IsNodup (add s a)
add-IsNodup s a h = elim (Bool-cases (has s a)) [ inl t ↦ rw t h | inr f ↦ rw f (f, h) ]

dead-IsNodup : (dead s : List ℕ) → IsNodup s → IsNodup (fold add s dead)
dead-IsNodup [] s h = h
dead-IsNodup (d ∷ ds) s h = dead-IsNodup ds (add s d) (add-IsNodup s d h)

wired-IsNodup :
    (es : List EdgeRef) (s : List ℕ) → IsNodup s → IsNodup (fold (λ t e. add t e.input_index) s es)
wired-IsNodup [] s h = h
wired-IsNodup (e ∷ es) s h = wired-IsNodup es (add s e.input_index) (add-IsNodup s e.input_index h)

-- A set of at most one member, and one of two.
one_member : (s : List ℕ) (i j : ℕ) → length s ≤ 1 → has s i ≡ true → has s j ≡ true → i ≡ j
one_member [] i j h m n = cc
one_member (x ∷ []) i j h m n = ground arith
one_member (x ∷ y ∷ s) i j h m n = absurd (omega arith)

two_members :
    (s : List ℕ)
    → IsNodup s
    → 1 < length s
    → ¬ ((i j : ℕ) → has s i ≡ true → has s j ≡ true → i ≡ j)
two_members [] u h all = omega arith
two_members (x ∷ []) u h all = omega arith
two_members (x ∷ y ∷ s) u h all = ground (arith, all x y (ground arith) (ground arith), u.0)

module _ (dead : List ℕ) (required : Option (List ℕ)) (es : List EdgeRef) where
  -- What each form promises of a node that is no tool.
  abbrev pub Fits : JoinForm → Type 0
  Fits tool = ⊥
  Fits direct = HasOneInput dead es × (length es ≤ 1)
  Fits or = HasOneInput dead es × (1 < length (keep is_tree es))
  Fits join =
      HasOneInput dead es × (1 < length es) × (length (keep is_tree es) ≤ 1)
      ⊎ (¬ HasOneInput dead es) × (required ≡ none)
  Fits choose_branch = (¬ HasOneInput dead es) × (required ≢ none)

  one : length (input_set dead es) ≤ 1 → HasOneInput dead es
  one h i j m n =
      one_member (input_set dead es) i j h (has-input_set dead es i ∙ m)
        (has-input_set dead es j ∙ n)

  several : 1 < length (input_set dead es) → ¬ HasOneInput dead es
  several h all =
      two_members (input_set dead es)
        (wired-IsNodup es (fold add [] dead) (dead-IsNodup dead [] tt)) h
        (λ i j m n. all i j (sym (has-input_set dead es i) ∙ m) (sym (has-input_set dead es j) ∙ n))

  -- The form of a node that is no tool: `direct` for one input with at most one producer edge,
  -- `or` for one input with several tree edges, and `join` for one input with several producer
  -- edges of which at most one is a tree edge; for several inputs `join` where `requiredInputs` is
  -- null and `choose-branch` where it is a list, also the empty one. A dead input counts as an
  -- input.
  pub join_form_of-Fits : Fits (join_form_of false dead required es)
  unfolding join_form_of
  join_form_of-Fits = elim (Bool-cases (leb (length (input_set dead es)) 1)) [
    | inl small ↦
        let single : HasOneInput dead es = one (ground arith) in
        elim (Bool-cases (ltb 1 (length (keep is_tree es)))) [
          | inl trees ↦ rw (small, trees) (single, ground arith)
          | inr few ↦ elim (Bool-cases (leb (length es) 1)) [
            | inl lone ↦ rw (small, few, lone) (single, ground arith)
            | inr many ↦ rw (small, few, many) (inl (single, ground arith, ground arith))
          ]
        ]
    | inr large ↦
        let many : ¬ HasOneInput dead es = several (ground arith) in
        elim (Option-cases required) [
          | inl absent ↦ rw (large, absent) (inr (many, refl))
          | inr (is, present) ↦ rw (large, present) (many, λ q. cc)
        ]
  ]
