-- ===== src/Provider/Signature/Sorted.antt =====
-- sortStrings of internal/provider/provider.go sorts: the exchanges for few names, and the sort.
use janusfs.Base.{ℕ, ◌+◌, ◌≡◌, refl, Bool, true, false, Bool-cases, inl, inr, arith}
use janusfs.Base.{List, [], ◌∷◌, if◌then◌else◌}
use janusfs.Base.Text.{Bytes, eq}
use janusfs.Base.Sorting.{bytes_le, bytes_le-total, bytes_le_trans, insert_by, sort_by}
use janusfs.Provider.Signature.{order, sort_three, sort_middle, sort_four, sort_strings}

abbrev Le : Bytes → Bytes → Type 0
Le a b = bytes_le a b ≡ true

-- Each string is at most the next one, in the order of Go strings.
abbrev pub Sorted : List Bytes → Type 0
Sorted [] = Unit
Sorted (a ∷ []) = Unit
Sorted (a ∷ b ∷ ns) = (bytes_le a b ≡ true) × Sorted (b ∷ ns)

-- How often a string stands in a list.
abbrev pub occurrences : Bytes → List Bytes → ℕ
occurrences x [] = 0
occurrences x (n ∷ ns) = (if eq x n then 1 else 0) + occurrences x ns

record Ordered (a b : Bytes) (p : Bytes × Bytes) : Type 0 where
  ordered : Le p.0 p.1
  below : (x : Bytes) → Le x a → Le x b → Le x p.0
  above : (x : Bytes) → Le a x → Le b x → Le p.1 x
  under_left : Le p.0 a
  under_right : Le p.0 b
  over_left : Le a p.1
  over_right : Le b p.1
  counts : (x : Bytes) → occurrences x (p.0 ∷ p.1 ∷ []) ≡ occurrences x (a ∷ b ∷ [])

pub bytes_le_refl : (a : Bytes) → Le a a
bytes_le_refl a = elim (Bool-cases (bytes_le a a)) [ inl e ↦ e | inr e ↦ bytes_le-total a a e ]

order-Ordered : (a b : Bytes) → Ordered a b (order (a, b))
unfolding order
order-Ordered a b = elim (Bool-cases (bytes_le a b)) [
  | inl e ↦ rw e (record {
    ordered = e;
    below = λ x h k. h;
    above = λ x h k. k;
    under_left = bytes_le_refl a;
    under_right = e;
    over_left = e;
    over_right = bytes_le_refl b;
    counts = λ x. refl;
  })
  | inr e ↦
      let f = bytes_le-total a b e in
      rw e (record {
        ordered = f;
        below = λ x h k. k;
        above = λ x h k. h;
        under_left = f;
        under_right = bytes_le_refl b;
        over_left = bytes_le_refl a;
        over_right = f;
        counts = λ x. omega arith;
      })
]

sort_three-Sorted :
    (p : Bytes × Bytes) (c : Bytes)
    → Le p.0 p.1
    → Sorted (sort_three p c)
      × ((x : Bytes) → occurrences x (sort_three p c) ≡ occurrences x (p.0 ∷ p.1 ∷ c ∷ []))
unfolding sort_three
sort_three-Sorted (a, b) c ab = elim (Bool-cases (bytes_le b c)) [
  | inl e ↦ rw e ((ab, (e, tt)), λ x. refl)
  | inr e ↦
      let o = order-Ordered a c in
      let cb = bytes_le-total b c e in
      rw e ((o.ordered, (o.above b ab cb, tt)), λ x. omega (arith, o.counts x))
]

sort_four-Sorted :
    (p q : Bytes × Bytes)
    → Le p.0 p.1
    → Le q.0 q.1
    → Sorted (sort_four p q)
      × ((x : Bytes) → occurrences x (sort_four p q) ≡ occurrences x (p.0 ∷ p.1 ∷ q.0 ∷ q.1 ∷ []))
unfolding sort_four sort_middle
sort_four-Sorted (a, b) (c, d) ab cd =
    let low = order-Ordered a c in
    let high = order-Ordered b d in
    let mid = order-Ordered (order (b, d)).0 (order (a, c)).1 in
    let low_b = bytes_le_trans (order (a, c)).0 a b low.under_left ab in
    let low_d = bytes_le_trans (order (a, c)).0 c d low.under_right cd in
    let a_high = bytes_le_trans a b (order (b, d)).1 ab high.over_left in
    let c_high = bytes_le_trans c d (order (b, d)).1 cd high.over_right in
    (
      (
        mid.below (order (a, c)).0 (high.below (order (a, c)).0 low_b low_d) low.ordered,
        (
          mid.ordered,
          (mid.above (order (b, d)).1 high.ordered (low.above (order (b, d)).1 a_high c_high), tt),
        ),
      ),
      λ x. omega (arith, low.counts x, high.counts x, mid.counts x),
    )

Sorted-else :
    (b : Bool) (ns ms : List Bytes) → b ≡ false → Sorted (if b then ns else ms) → Sorted ms
Sorted-else true ns ms e h = cc
Sorted-else false ns ms e h = h

insert_by-Sorted : (n : Bytes) (ns : List Bytes) → Sorted ns → Sorted (insert_by bytes_le n ns)
unfolding insert_by
insert_by-Sorted n [] h = tt
insert_by-Sorted n (m ∷ []) h = elim (Bool-cases (bytes_le n m)) [
  | inl e ↦ rw e (e, tt)
  | inr e ↦ rw e (bytes_le-total n m e, tt)
]
insert_by-Sorted n (m ∷ k ∷ ns) h = elim (Bool-cases (bytes_le n m)) [
  | inl e ↦ rw e (e, h)
  | inr e ↦ elim (Bool-cases (bytes_le n k)) [
    | inl f ↦ rw (e, f) (bytes_le-total n m e, (f, h.1))
    | inr f ↦
        rw (e, f)
          (
            h.0,
            Sorted-else (bytes_le n k) (n ∷ k ∷ ns) (k ∷ insert_by bytes_le n ns) f
                (insert_by-Sorted n (k ∷ ns) h.1),
          )
  ]
]

occurrences-insert_by :
    (x n : Bytes) (ns : List Bytes)
    → occurrences x (insert_by bytes_le n ns) ≡ occurrences x (n ∷ ns)
unfolding insert_by
occurrences-insert_by x n [] = refl
occurrences-insert_by x n (m ∷ ns) = elim (Bool-cases (bytes_le n m)) [
  | inl e ↦ rw e refl
  | inr e ↦ rw e (omega (arith, occurrences-insert_by x n ns))
]

sort_by-Sorted :
    (ns : List Bytes)
    → Sorted (sort_by bytes_le ns)
      × ((x : Bytes) → occurrences x (sort_by bytes_le ns) ≡ occurrences x ns)
unfolding sort_by
sort_by-Sorted [] = (tt, λ x. refl)
sort_by-Sorted (n ∷ ns) =
    let (sorted, counts) = sort_by-Sorted ns in
    (
      insert_by-Sorted n (sort_by bytes_le ns) sorted,
      λ x. omega (arith, occurrences-insert_by x n (sort_by bytes_le ns), counts x),
    )

-- sortStrings leaves the names in the order of Go strings, and each as often as it was there, for
-- the hand-written exchanges up to four names and for the sort above.
pub sort_strings-Sorted :
    (ns : List Bytes)
    → Sorted (sort_strings ns) × ((x : Bytes) → occurrences x (sort_strings ns) ≡ occurrences x ns)
unfolding sort_strings
sort_strings-Sorted [] = (tt, λ x. refl)
sort_strings-Sorted (a ∷ []) = (tt, λ x. refl)
sort_strings-Sorted (a ∷ b ∷ []) = let o = order-Ordered a b in ((o.ordered, tt), λ x. o.counts x)
sort_strings-Sorted (a ∷ b ∷ c ∷ []) =
    let o = order-Ordered a b in
    let (sorted, counts) = sort_three-Sorted (order (a, b)) c o.ordered in
    (sorted, λ x. omega (arith, counts x, o.counts x))
sort_strings-Sorted (a ∷ b ∷ c ∷ d ∷ []) =
    let o = order-Ordered a b in
    let r = order-Ordered c d in
    let (sorted, counts) = sort_four-Sorted (order (a, b)) (order (c, d)) o.ordered r.ordered in
    (sorted, λ x. omega (arith, counts x, o.counts x, r.counts x))
sort_strings-Sorted (a ∷ b ∷ c ∷ d ∷ e ∷ rest) = sort_by-Sorted (a ∷ b ∷ c ∷ d ∷ e ∷ rest)
