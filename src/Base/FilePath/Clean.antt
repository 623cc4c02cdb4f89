-- ===== src/Base/FilePath/Clean.antt =====
-- Clean on rooted paths: its parts are names, so it is idempotent, and one cleaned path is below
-- another exactly if its parts begin with the other's.
use janusfs.Base.Tests.{◌==◌, Bool-cases}
use janusfs.Base.Lists.{is_empty, All, All-append}
use janusfs.Base.Text.{Bytes, eq, has_prefix}
use janusfs.Base.FilePath.{
  slash, dot, dot_dot, split_slash, join_slash, is_rooted, up, clean_loop, clean_parts, clean,
}
use janusfs.Base.FilePath.Parts.{
  cons_first-append, split_slash-full, SlashFree, IsName, split_slash-Free, split_slash-join_slash,
}
use mathlib.Core.Path.{◌≡◌, refl, sym, ◌∙◌, ap}
use mathlib.Core.Logic.{inl, inr}
use mathlib.Core.Bool.{Bool, true, false, ◌||◌, ◌&&◌}
use mathlib.Core.List.{
  List, [], ◌∷◌, ◌++◌, reverse, append_assoc, reverse-reverse, append-nil, reverse-cons,
}
use native.Mathlib.Omega.{arith}

All-reverse {ℓ κ} : {A : Type ℓ} (P : A → Type κ) (xs : List A) → All P xs → All P (reverse xs)
All-reverse P [] h = tt
All-reverse P (x ∷ xs) h =
    rw (reverse-cons x xs) (All-append P (reverse xs) (x ∷ []) (All-reverse P xs h.1) (h.0, tt))

up-IsName : (stack : List Bytes) → All IsName stack → All IsName (up true stack)
up-IsName [] h = tt
up-IsName (top ∷ stack) h = rw (h.0.not_dots) h.1

clean_loop-IsName :
    (parts stack : List Bytes)
    → All SlashFree parts
    → All IsName stack
    → All IsName (clean_loop true parts stack)
clean_loop-IsName [] stack free h = All-reverse IsName stack h
clean_loop-IsName (s ∷ ss) stack free h = elim (Bool-cases (is_empty s || eq s dot)) [
  | inl skip ↦ rw skip (clean_loop-IsName ss stack free.1 h)
  | inr keep ↦ elim (Bool-cases (eq s dot_dot)) [
    | inl dots ↦ rw (keep, dots) (clean_loop-IsName ss (up true stack) free.1 (up-IsName stack h))
    | inr name ↦
        rw (keep, name)
          (clean_loop-IsName ss (s ∷ stack) free.1 (
            record {
              full = ground (arith, keep);
              no_slash = free.0;
              not_dot = ground (arith, keep);
              not_dots = name;
            },
            h,
          ))
  ]
]

pub clean_parts-IsName : (p : Bytes) → is_rooted p ≡ true → All IsName (clean_parts p)
clean_parts-IsName p rooted =
    rw rooted (clean_loop-IsName (split_slash p) [] (split_slash-Free p) tt)

pub split_slash-slash :
    (a b : Bytes) → split_slash (a ++ (slash ∷ b)) ≡ split_slash a ++ split_slash b
split_slash-slash [] b = refl
split_slash-slash (c ∷ a) b = elim (Bool-cases (c == slash)) [
  | inl e ↦ rw (e, split_slash-slash a b) refl
  | inr e ↦
      rw (e, split_slash-slash a b)
        (cons_first-append c (split_slash a) (split_slash b) (split_slash-full a))
]

-- The loop over more parts goes on from the stack of the first ones.
pub clean_loop-append :
    (r : Bool) (xs ys stack : List Bytes)
    → clean_loop r (xs ++ ys) stack ≡ clean_loop r ys (reverse (clean_loop r xs stack))
clean_loop-append r [] ys stack = ap (clean_loop r ys) (sym (reverse-reverse stack))
clean_loop-append r (x ∷ xs) ys stack = clean_loop-append r xs ys _

-- Names pass through the loop as they are.
pub clean_loop-names :
    (r : Bool) (parts stack : List Bytes)
    → All IsName parts
    → clean_loop r parts stack ≡ reverse stack ++ parts
clean_loop-names r [] stack h = sym (append-nil (reverse stack))
clean_loop-names r (s ∷ ss) stack h =
    rw (h.0.full, h.0.not_dot, h.0.not_dots)
      (clean_loop-names r ss (s ∷ stack) h.1
        ∙ ap (λ t. t ++ ss) (reverse-cons s stack)
        ∙ append_assoc (reverse stack) (s ∷ []) ss)

pub names-Free : (parts : List Bytes) → All IsName parts → All SlashFree parts
names-Free [] h = tt
names-Free (s ∷ ss) h = (h.0.no_slash, names-Free ss h.1)

-- A rooted path of names is clean: its parts are the names.
pub clean_parts-join_slash :
    (parts : List Bytes) → All IsName parts → clean_parts (slash ∷ join_slash parts) ≡ parts
clean_parts-join_slash [] h = refl
clean_parts-join_slash (s ∷ ss) h =
    rw (split_slash-join_slash (s ∷ ss) refl (names-Free (s ∷ ss) h))
      (clean_loop-names true (s ∷ ss) [] h)

pub clean-rooted : (p : Bytes) → is_rooted p ≡ true → clean p ≡ slash ∷ join_slash (clean_parts p)
unfolding clean
clean-rooted p rooted = rw rooted refl

-- Clean is idempotent on rooted paths.
pub clean-clean : (p : Bytes) → is_rooted p ≡ true → clean (clean p) ≡ clean p
clean-clean p rooted =
    ap clean (clean-rooted p rooted)
    ∙ clean-rooted (slash ∷ join_slash (clean_parts p)) refl
    ∙ ap (λ t. slash ∷ join_slash t)
        (clean_parts-join_slash (clean_parts p) (clean_parts-IsName p rooted))
    ∙ sym (clean-rooted p rooted)

-- `a` is where `b` is, or below it: the parts of `b` are the first parts of `a`.
abbrev pub begins_with : List Bytes → List Bytes → Bool
begins_with ps [] = true
begins_with [] (q ∷ qs) = false
begins_with (p ∷ ps) (q ∷ qs) = eq p q && begins_with ps qs

-- Each part with a slash behind it.
abbrev pub ended : List Bytes → Bytes
ended [] = []
ended (s ∷ ss) = s ++ (slash ∷ ended ss)

has_prefix-part :
    (a b s t : Bytes)
    → SlashFree a
    → SlashFree b
    → has_prefix (a ++ (slash ∷ s)) (b ++ (slash ∷ t)) ≡ (eq a b && has_prefix s t)
has_prefix-part [] [] s t h k = refl
has_prefix-part [] (y ∷ b) s t h k = ground (arith, k)
has_prefix-part (x ∷ a) [] s t h k = ground (arith, h)
has_prefix-part (x ∷ a) (y ∷ b) s t h k =
    let xa : (x == slash) ≡ false = ground (arith, h) in
    ground (arith, has_prefix-part a b s t (ground (arith, h)) (ground (arith, k)))

has_prefix-ended :
    (ps qs : List Bytes)
    → All SlashFree ps
    → All SlashFree qs
    → has_prefix (ended ps) (ended qs) ≡ begins_with ps qs
has_prefix-ended ps [] h k = ground arith
has_prefix-ended [] ([] ∷ qs) h k = refl
has_prefix-ended [] ((y ∷ q) ∷ qs) h k = refl
has_prefix-ended (p ∷ ps) (q ∷ qs) h k =
    has_prefix-part p q (ended ps) (ended qs) h.0 k.0
    ∙ ap (λ b. eq p q && b) (has_prefix-ended ps qs h.1 k.1)

ended-join : (p : Bytes) (ps : List Bytes) → join_slash (p ∷ ps) ++ (slash ∷ []) ≡ ended (p ∷ ps)
ended-join p [] = refl
ended-join p (q ∷ ps) =
    append_assoc p (slash ∷ join_slash (q ∷ ps)) (slash ∷ [])
    ∙ ap (λ t. p ++ (slash ∷ t)) (ended-join q ps)

-- Of two rooted clean paths that are not the root, with a slash behind each, one is a prefix of the
-- other exactly if its parts are the first parts of the other.
pub has_prefix-begins_with :
    (p q : Bytes) (ps qs : List Bytes)
    → All IsName (p ∷ ps)
    → All IsName (q ∷ qs)
    → has_prefix
        ((slash ∷ join_slash (p ∷ ps)) ++ (slash ∷ []))
        ((slash ∷ join_slash (q ∷ qs)) ++ (slash ∷ []))
      ≡ begins_with (p ∷ ps) (q ∷ qs)
has_prefix-begins_with p q ps qs h k =
    rw (ended-join p ps, ended-join q qs)
      (has_prefix-ended (p ∷ ps) (q ∷ qs) (names-Free (p ∷ ps) h) (names-Free (q ∷ qs) k))
