-- ===== src/Compiler/Gadget/Combinations.antt =====
-- The combinations of gadget/input-choose-branch.ts, and the skips that stand for them.
use mathlib.Core.List.{Memᴰ, append-nil}
use mathlib.Core.List.Memᴰ
use n8n_libpetri.Prelude.{
  ◌≡◌, refl, sym, ap, subst, ◌∙◌, ◌↔◌, ◌⊎◌, false, List, [], ◌∷◌, ◌++◌, all, String, inl, inr,
}
use n8n_libpetri.Compiler.Names.{Variant}
use n8n_libpetri.Compiler.Names.Transitions.{skip_combination_of}
use n8n_libpetri.Compiler.Gadget.Skips.{extend, extend_all, combinations, is_data}

-- A choice of one variant for each column.
abbrev pub Chosen : List (List Variant) → List Variant → Type 0
Chosen [] [] = Unit
Chosen [] (v ∷ combo) = ⊥
Chosen (vs ∷ rest) [] = ⊥
Chosen (vs ∷ rest) (v ∷ combo) = Memᴰ v vs × Chosen rest combo

mem-append {ℓ} : {A : Type ℓ} (xs ys : List A) {x : A} → Memᴰ x (xs ++ ys) → Memᴰ x xs ⊎ Memᴰ x ys
mem-append [] ys m = inr m
mem-append (z ∷ xs) ys m = elim (Memᴰ.cases_cons m) [
  | inl e ↦ inl (Memᴰ.head e)
  | inr later ↦ elim (mem-append xs ys later) [ inl h ↦ inl (Memᴰ.tail h) | inr h ↦ inr h ]
]

mem-append_left {ℓ} : {A : Type ℓ} (xs ys : List A) {x : A} → Memᴰ x xs → Memᴰ x (xs ++ ys)
mem-append_left [] ys m = absurd (Memᴰ.not-nil m)
mem-append_left (z ∷ xs) ys m = elim (Memᴰ.cases_cons m) [
  | inl e ↦ Memᴰ.head e
  | inr later ↦ Memᴰ.tail (mem-append_left xs ys later)
]

mem-append_right {ℓ} : {A : Type ℓ} (xs ys : List A) {x : A} → Memᴰ x ys → Memᴰ x (xs ++ ys)
mem-append_right [] ys m = m
mem-append_right (z ∷ xs) ys m = Memᴰ.tail (mem-append_right xs ys m)

mem-extend :
    (c : List Variant) (vs : List Variant) {x : List Variant}
    → Memᴰ x (extend c vs)
    → (v : Variant) × Memᴰ v vs × (x ≡ (c ++ (v ∷ [])))
mem-extend c [] m = absurd (Memᴰ.not-nil m)
mem-extend c (v ∷ vs) m = elim (Memᴰ.cases_cons m) [
  | inl e ↦ (v, Memᴰ.head refl, e)
  | inr later ↦ let (w, h, e) = mem-extend c vs later in (w, Memᴰ.tail h, e)
]

extend-mem :
    (c : List Variant) (vs : List Variant) {v : Variant}
    → Memᴰ v vs
    → Memᴰ (c ++ (v ∷ [])) (extend c vs)
extend-mem c [] m = absurd (Memᴰ.not-nil m)
extend-mem c (w ∷ vs) m = elim (Memᴰ.cases_cons m) [
  | inl e ↦ Memᴰ.head (ap (λ v. c ++ (v ∷ [])) e)
  | inr later ↦ Memᴰ.tail (extend-mem c vs later)
]

mem-extend_all :
    (cs : List (List Variant)) (vs : List Variant) {x : List Variant}
    → Memᴰ x (extend_all cs vs)
    → (c : List Variant) × (v : Variant) × Memᴰ c cs × Memᴰ v vs × (x ≡ (c ++ (v ∷ [])))
mem-extend_all [] vs m = absurd (Memᴰ.not-nil m)
mem-extend_all (c ∷ cs) vs m = elim (mem-append (extend c vs) (extend_all cs vs) m) [
  | inl here ↦ let (v, h, e) = mem-extend c vs here in (c, v, Memᴰ.head refl, h, e)
  | inr there ↦ let (d, v, h, k, e) = mem-extend_all cs vs there in (d, v, Memᴰ.tail h, k, e)
]

extend_all-mem :
    (cs : List (List Variant)) (vs : List Variant) {c : List Variant} {v : Variant}
    → Memᴰ c cs
    → Memᴰ v vs
    → Memᴰ (c ++ (v ∷ [])) (extend_all cs vs)
extend_all-mem [] vs m h = absurd (Memᴰ.not-nil m)
extend_all-mem (d ∷ cs) vs {c} {v} m h = elim (Memᴰ.cases_cons m) [
  | inl e ↦
      mem-append_left (extend d vs) (extend_all cs vs)
        (subst (λ k. Memᴰ (k ++ (v ∷ [])) (extend d vs)) (sym e) (extend-mem d vs h))
  | inr later ↦ mem-append_right (extend d vs) (extend_all cs vs) (extend_all-mem cs vs later h)
]

append_assoc-one :
    (c : List Variant) (v : Variant) (d : List Variant) → ((c ++ (v ∷ [])) ++ d) ≡ (c ++ (v ∷ d))
append_assoc-one [] v d = refl
append_assoc-one (x ∷ c) v d = ap (λ t. x ∷ t) (append_assoc-one c v d)

-- The combinations are the accumulated ones, each extended by a choice.
combinations-Chosen :
    (acc : List (List Variant)) (rest : List (List Variant)) {x : List Variant}
    → Memᴰ x (combinations acc rest)
    → (c : List Variant) × (d : List Variant) × Memᴰ c acc × Chosen rest d × (x ≡ (c ++ d))
combinations-Chosen acc [] {x} m = (x, [], m, tt, sym (append-nil x))
combinations-Chosen acc (vs ∷ rest) m =
    let (c, d, h, k, e) = combinations-Chosen (extend_all acc vs) rest m in
    let (b, v, g, l, f) = mem-extend_all acc vs h in
    (b, v ∷ d, g, (l, k), e ∙ ap (λ t. t ++ d) f ∙ append_assoc-one b v d)

Chosen-combinations :
    (acc : List (List Variant)) (rest : List (List Variant)) (c d : List Variant)
    → Memᴰ c acc
    → Chosen rest d
    → Memᴰ (c ++ d) (combinations acc rest)
Chosen-combinations acc [] c [] m h = subst (λ t. Memᴰ t acc) (sym (append-nil c)) m
Chosen-combinations acc [] c (v ∷ d) m h = absurd h
Chosen-combinations acc (vs ∷ rest) c [] m h = absurd h
Chosen-combinations acc (vs ∷ rest) c (v ∷ d) m h =
    subst (λ t. Memᴰ t (combinations (extend_all acc vs) rest)) (append_assoc-one c v d)
      (Chosen-combinations (extend_all acc vs) rest (c ++ (v ∷ [])) d (extend_all-mem acc vs m h.0)
        h.1)

pub combinations_iff :
    (columns : List (List Variant)) (combo : List Variant)
    → Memᴰ combo (combinations ([] ∷ []) columns) ↔ Chosen columns combo
combinations_iff columns combo =
    (forth, λ h. Chosen-combinations ([] ∷ []) columns [] combo (Memᴰ.head refl) h)
  where
    forth : Memᴰ combo (combinations ([] ∷ []) columns) → Chosen columns combo
    forth m =
        let (c, d, h, k, e) = combinations-Chosen ([] ∷ []) columns m in
        elim (Memᴰ.cases_cons h) [
          | inl empty ↦ subst (Chosen columns) (sym (e ∙ ap (λ t. t ++ d) empty)) k
          | inr later ↦ absurd (Memᴰ.not-nil later)
        ]

-- The names of the skips, and the combinations that they stand for.
abbrev Named : List (List Variant) → String → Type 0
Named cs n =
    (combo : List Variant) × Memᴰ combo cs
    × (all is_data combo ≡ false)
    × (n ≡ skip_combination_of combo)
