-- ===== src/Compiler/Analysis/KSafety/Producers.antt =====
-- The counts against the producer edges.
use n8n_libpetri.Prelude.{
  ℕ, suc, ◌+◌, ◌<◌, ◌≡◌, ◌↔◌, refl, sym, ◌∙◌, ap, ◌&&◌, inl, inr, Bool, Option, some, none, List,
  [], ◌∷◌, String, string_eq, nat_eq, pair_eq, ◌==◌, if◌then◌else◌, ltb, length, fold, keep, arith,
  Bool-cases,
}
use n8n_libpetri.Prelude.Maps
use n8n_libpetri.Prelude.Maps.{get-set, IsNodup-keys-set, get_of_mem, mem_of_get}
use n8n_libpetri.Prelude.Sets.{IsNodup}
use n8n_libpetri.Prelude.Predicates.{mem-keep, mem-keep_of_mem}
use n8n_libpetri.Compiler.Types.{EdgeRef}
use n8n_libpetri.Compiler.Analysis.KSafety.{
  MultiProducerInput, counted, count_producer, multi_producer_inputs_of,
}
use native.Mathlib.Nat.{zero-add}
use mathlib.Core.List.{Memᴰ}

abbrev pub feeds : EdgeRef → String → ℕ → Bool
feeds e n i = e.to == n && e.input_index == i

-- The number of producer edges of one input.
abbrev pub producers_of : List EdgeRef → String → ℕ → ℕ
producers_of es n i = length (keep (λ e. feeds e n i) es)

abbrev entry_of : ℕ → String → ℕ → Option MultiProducerInput
entry_of c n i =
    if ltb 0 c then some (record { node = n; input_index = i; producers = c }) else none

abbrev Producers : Type 0
Producers = List ((String × ℕ) × MultiProducerInput)

counted_entry :
    (e : EdgeRef) (c : ℕ)
    → some (counted e (entry_of c e.to e.input_index)) ≡ entry_of (suc c) e.to e.input_index
counted_entry e c = ground arith

get-count_producer :
    (m : Producers) (e : EdgeRef) (n : String) (i c : ℕ)
    → Maps.get m (n, i) ≡ entry_of c n i
    → Maps.get (count_producer m e) (n, i) ≡ entry_of (if feeds e n i then suc c else c) n i
unfolding count_producer
get-count_producer m e n i c h =
    get-set m (e.to, e.input_index) (n, i) (counted e (Maps.get m (e.to, e.input_index)))
    ∙ elim (Bool-cases (feeds e n i)) [
      | inl hit ↦
          let a : e.to ≡ n = ground (arith, string_eq.beq_iff e.to n) in
          let b : e.input_index ≡ i = ground arith in
          rw hit (ground (arith, a, b, h, counted_entry e c))
      | inr miss ↦ rw miss h
    ]

-- The loop's map holds the count of each input.
get-count :
    (es : List EdgeRef) (m : Producers) (n : String) (i c : ℕ)
    → Maps.get m (n, i) ≡ entry_of c n i
    → Maps.get (fold count_producer m es) (n, i) ≡ entry_of (producers_of es n i + c) n i
get-count [] m n i c h = rw zero-add h
get-count (e ∷ es) m n i c h =
    get-count es (count_producer m e) n i (if feeds e n i then suc c else c)
      (get-count_producer m e n i c h)
    ∙ ap (λ k. entry_of k n i) (ground arith)

fold-NodupKeys :
    (es : List EdgeRef) (m : Producers)
    → IsNodup (Maps.keys m)
    → IsNodup (Maps.keys (fold count_producer m es))
unfolding count_producer
fold-NodupKeys [] m u = u
fold-NodupKeys (e ∷ es) m u =
    fold-NodupKeys es (count_producer m e)
      (IsNodup-keys-set m (e.to, e.input_index) (counted e (Maps.get m (e.to, e.input_index))) u)

entry_of-some :
    (c : ℕ) (n : String) (i : ℕ) (p : MultiProducerInput)
    → entry_of c n i ≡ some p
    → (p.node ≡ n) × (p.input_index ≡ i) × (p.producers ≡ c)
entry_of-some c n i p h = ground arith

-- `multiProducerInputsOf` returns exactly the inputs with more than one producer edge, each with
-- the number of its producer edges.
pub multi_producer_inputs_of_iff :
    (es : List EdgeRef) (p : MultiProducerInput)
    → Memᴰ p (multi_producer_inputs_of es)
      ↔ ((1 < p.producers) × (p.producers ≡ producers_of es p.node p.input_index))
unfolding multi_producer_inputs_of
multi_producer_inputs_of_iff es p = (
  λ m.
      let (big, kept) = mem-keep (λ (q : MultiProducerInput). ltb 1 q.producers) vs m in
      let ((n, i), found) = get_of_mem (fold count_producer [] es) (fold-NodupKeys es [] tt) kept in
      let (a, b, c) =
        entry_of-some (producers_of es n i + 0) n i p (sym (get-count es [] n i 0 refl) ∙ found) in
      (ground arith, rw (a, b) (omega (arith, c))),
  λ h.
      mem-keep_of_mem (λ (q : MultiProducerInput). ltb 1 q.producers) vs (ground (arith, h.0))
        (mem_of_get (fold count_producer [] es) (p.node, p.input_index)
          (get-count es [] p.node p.input_index 0 refl ∙ ground (arith, h.0, h.1))),
)
  where
    vs : List MultiProducerInput
    vs = Maps.values (fold count_producer [] es)
