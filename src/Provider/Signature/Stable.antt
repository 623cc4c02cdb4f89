-- ===== src/Provider/Signature/Stable.antt =====
-- patternSignature of internal/provider/provider.go does not see the order of the patterns.
use janusfs.Base.{ℕ, ◌≤◌, ◌≡◌, refl, sym, ◌∙◌, ap, true, Bool-cases, inl, inr, arith}
use janusfs.Base.{List, [], ◌∷◌, if◌then◌else◌}
use mathlib.Core.Path.{subst}
use janusfs.Base.Text.{Bytes, eq, eq_refl, eq→≡}
use janusfs.Base.Sorting.{bytes_le, bytes_le_trans}
use janusfs.Patterns.{Pattern}
use janusfs.Provider.Signature.{sort_strings, write_names, all_names, pattern_signature}
use janusfs.Provider.Signature.Sorted.{bytes_le_refl, Sorted, occurrences, sort_strings-Sorted}

bytes_le-eq : (a b : Bytes) → bytes_le a b ≡ true → bytes_le b a ≡ true → eq a b ≡ true
bytes_le-eq [] [] h k = refl
bytes_le-eq [] (y ∷ b) h k = cc
bytes_le-eq (x ∷ a) [] h k = cc
bytes_le-eq (x ∷ a) (y ∷ b) h k = ground (arith, bytes_le-eq a b)

-- What occurs in a sorted list is not below its head.
head-least :
    (x a : Bytes) (ns : List Bytes)
    → Sorted (a ∷ ns)
    → 1 ≤ occurrences x (a ∷ ns)
    → bytes_le a x ≡ true
head-least x a [] h k = elim (Bool-cases (eq x a)) [
  | inl e ↦ subst (λ y. bytes_le a y ≡ true) (sym (eq→≡ x a e)) (bytes_le_refl a)
  | inr e ↦ absurd (ground arith)
]
head-least x a (b ∷ ns) h k = elim (Bool-cases (eq x a)) [
  | inl e ↦ subst (λ y. bytes_le a y ≡ true) (sym (eq→≡ x a e)) (bytes_le_refl a)
  | inr e ↦ bytes_le_trans a b x h.0 (head-least x b ns h.1 (ground arith))
]

Sorted-tail : (a : Bytes) (ns : List Bytes) → Sorted (a ∷ ns) → Sorted ns
Sorted-tail a [] h = tt
Sorted-tail a (b ∷ ns) h = h.1

head-occurs : (a : Bytes) (ns : List Bytes) → 1 ≤ occurrences a (a ∷ ns)
head-occurs a ns = rw (eq_refl a) (omega arith)

-- Two sorted lists in which every string occurs as often are the same list.
Sorted-unique :
    (ns ms : List Bytes)
    → Sorted ns
    → Sorted ms
    → ((x : Bytes) → occurrences x ns ≡ occurrences x ms)
    → ns ≡ ms
Sorted-unique [] [] h k same = refl
Sorted-unique [] (b ∷ ms) h k same = absurd (omega (arith, head-occurs b ms, same b))
Sorted-unique (a ∷ ns) [] h k same = absurd (omega (arith, head-occurs a ns, same a))
Sorted-unique (a ∷ ns) (b ∷ ms) h k same =
    let ba = head-least a b ms k (omega (arith, head-occurs a ns, same a)) in
    let ab = head-least b a ns h (omega (arith, head-occurs b ms, same b)) in
    let heads = eq→≡ a b (bytes_le-eq a b ab ba) in
    let tails =
      Sorted-unique ns ms (Sorted-tail a ns h) (Sorted-tail b ms k)
        (λ x. omega (arith, same x, ap {B = ℕ} (λ c. if eq x c then 1 else 0) heads)) in
    λ i. heads i ∷ tails i

pattern_signature-names :
    (pats : List Pattern) → pattern_signature pats ≡ write_names (sort_strings (all_names pats))
unfolding pattern_signature sort_strings write_names
pattern_signature-names [] = refl
pattern_signature-names (p ∷ []) = refl
pattern_signature-names (p ∷ q ∷ ps) = refl

-- Two pattern sets in which every name occurs as often have the same signature, in whatever order
-- their patterns stand.
pub pattern_signature-order :
    (ps qs : List Pattern)
    → ((x : Bytes) → occurrences x (all_names ps) ≡ occurrences x (all_names qs))
    → pattern_signature ps ≡ pattern_signature qs
pattern_signature-order ps qs same =
    let (sorted_p, counts_p) = sort_strings-Sorted (all_names ps) in
    let (sorted_q, counts_q) = sort_strings-Sorted (all_names qs) in
    let one =
      Sorted-unique (sort_strings (all_names ps)) (sort_strings (all_names qs)) sorted_p sorted_q
        (λ x. counts_p x ∙ same x ∙ sym (counts_q x)) in
    pattern_signature-names ps ∙ ap write_names one ∙ sym (pattern_signature-names qs)
