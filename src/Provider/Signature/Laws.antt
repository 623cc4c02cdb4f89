-- ===== src/Provider/Signature/Laws.antt =====
-- The signature of a pattern set in internal/provider/provider.go, and its two readings.
use janusfs.Base.{ℕ, suc, ◌+◌, ◌≡◌, refl, sym, ◌∙◌, ap, false, ◌&&◌, not}
use janusfs.Base.{List, [], ◌∷◌, ◌++◌, ◌==◌, if◌then◌else◌, length, drop, arith}
use janusfs.Base.{Bool-cases, inl, inr, length-append}
use mathlib.Core.Path.{subst}
use janusfs.Base.Text.{Bytes, eq, eq→≡, has_prefix}
use janusfs.Base.Sorting.{bytes_le, insert_by, sort_by}
use janusfs.Patterns.{Pattern}
use janusfs.Provider.Signature.{
  order, sort_three, sort_middle, sort_four, sort_strings, write_names, all_names,
  pattern_signature, total_len, zero_at, match_names, matches_pattern_sig,
}

-- One name and its zero byte, taken off the front.
zero_at-piece :
    (n s t : Bytes)
    → (has_prefix s n && (zero_at (length n) s && eq (drop (suc (length n)) s) t))
      ≡ eq s (n ++ 0 ∷ t)
unfolding zero_at
zero_at-piece [] [] t = refl
zero_at-piece [] (b ∷ s) t = refl
zero_at-piece (c ∷ n) [] t = refl
zero_at-piece (c ∷ n) (b ∷ s) t = ground (arith, zero_at-piece n s t)

match_names-eq : (ns : List Bytes) (s : Bytes) → match_names ns s ≡ eq s (write_names ns)
unfolding match_names write_names
match_names-eq [] [] = refl
match_names-eq [] (b ∷ s) = refl
match_names-eq (n ∷ ns) s =
    rw (match_names-eq ns (drop (suc (length n)) s)) (zero_at-piece n s (write_names ns))

length-write_names : (ns : List Bytes) → length (write_names ns) ≡ total_len ns
unfolding write_names total_len
length-write_names [] = refl
length-write_names (n ∷ ns) =
    omega (arith, length-append n (0 ∷ write_names ns), length-write_names ns)

total_len-insert :
    (n : Bytes) (ns : List Bytes)
    → total_len (insert_by bytes_le n ns) ≡ suc (length n) + total_len ns
unfolding total_len insert_by
total_len-insert n [] = refl
total_len-insert n (m ∷ ns) = ground (arith, total_len-insert n ns)

total_len-sort : (ns : List Bytes) → total_len (sort_by bytes_le ns) ≡ total_len ns
unfolding total_len sort_by
total_len-sort [] = refl
total_len-sort (n ∷ ns) = omega (arith, total_len-insert n (sort_by bytes_le ns), total_len-sort ns)

length-order :
    (a b : Bytes) → length (order (a, b)).0 + length (order (a, b)).1 ≡ length a + length b
unfolding order
length-order a b = elim (Bool-cases (bytes_le a b)) [
  | inl e ↦ rw e refl
  | inr e ↦ rw e (omega arith)
]

total_len-sort_three :
    (p : Bytes × Bytes) (c : Bytes)
    → total_len (sort_three p c) ≡ 3 + (length p.0 + length p.1 + length c)
unfolding sort_three total_len
total_len-sort_three (a, b) c = elim (Bool-cases (bytes_le b c)) [
  | inl e ↦ rw e (omega arith)
  | inr e ↦ rw e (omega (arith, length-order a c))
]

total_len-sort_middle :
    (p q : Bytes × Bytes)
    → total_len (sort_middle p q) ≡ 4 + (length p.0 + length p.1 + length q.0 + length q.1)
unfolding sort_middle total_len
total_len-sort_middle (a, c) (b, d) = omega (arith, length-order b c)

total_len-sort_four :
    (p q : Bytes × Bytes)
    → total_len (sort_four p q) ≡ 4 + (length p.0 + length p.1 + length q.0 + length q.1)
unfolding sort_four
total_len-sort_four (a, b) (c, d) =
    omega (
      arith,
      total_len-sort_middle (order (a, c)) (order (b, d)),
      length-order a c,
      length-order b d,
    )

total_len-sort_strings : (ns : List Bytes) → total_len (sort_strings ns) ≡ total_len ns
unfolding sort_strings total_len
total_len-sort_strings [] = refl
total_len-sort_strings (a ∷ []) = refl
total_len-sort_strings (a ∷ b ∷ []) = omega (arith, length-order a b)
total_len-sort_strings (a ∷ b ∷ c ∷ []) =
    omega (arith, total_len-sort_three (order (a, b)) c, length-order a b)
total_len-sort_strings (a ∷ b ∷ c ∷ d ∷ []) =
    omega
      (arith, total_len-sort_four (order (a, b)) (order (c, d)), length-order a b, length-order c d)
total_len-sort_strings (a ∷ b ∷ c ∷ d ∷ e ∷ rest) = total_len-sort (a ∷ b ∷ c ∷ d ∷ e ∷ rest)

eq-length : (s t : Bytes) → (length s == length t) ≡ false → eq s t ≡ false
eq-length s t apart = elim (Bool-cases (eq s t)) [
  | inr e ↦ e
  | inl e ↦ absurd (ground (arith, ap length (eq→≡ s t e)))
]

match_names-length :
    (ns : List Bytes) (n : ℕ) (s : Bytes)
    → n ≡ length (write_names ns)
    → (if not (length s == n) then false else match_names ns s) ≡ eq s (write_names ns)
match_names-length ns n s same = elim (Bool-cases (length s == n)) [
  | inl e ↦ rw e (match_names-eq ns s)
  | inr e ↦ rw e (sym (eq-length s (write_names ns) (subst (λ k. (length s == k) ≡ false) same e)))
]

one_name :
    (n s : Bytes)
    → (length s == suc (length n) && (zero_at (length n) s && has_prefix s n)) ≡ eq s (n ++ 0 ∷ [])
unfolding zero_at
one_name [] [] = refl
one_name [] (b ∷ []) = ground arith
one_name [] (b ∷ c ∷ s) = ground arith
one_name (m ∷ n) [] = ground arith
one_name (m ∷ n) (b ∷ s) = ground (arith, one_name n s)

-- The test without a new string says exactly whether the string is the signature of the patterns.
pub matches_pattern_sig-signature :
    (sig : Bytes) (pats : List Pattern)
    → matches_pattern_sig sig pats ≡ eq sig (pattern_signature pats)
unfolding matches_pattern_sig pattern_signature
matches_pattern_sig-signature [] [] = refl
matches_pattern_sig-signature (b ∷ sig) [] = refl
matches_pattern_sig-signature sig (p ∷ []) = one_name p.name sig
matches_pattern_sig-signature sig (p ∷ q ∷ ps) =
    let names = all_names (p ∷ q ∷ ps) in
    match_names-length (sort_strings names) (total_len names) sig
      (sym (length-write_names (sort_strings names) ∙ total_len-sort_strings names))
