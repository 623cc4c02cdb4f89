-- ===== src/Backing/Confined.antt =====
-- What internal/backing/backing.go lets through to the kernel.
use janusfs.Base.{◌≡◌, sym, ◌∙◌, ap, true, false, Bool-cases}
use janusfs.Base.{List, [], ◌∷◌, ◌++◌, if◌then◌else◌, any, append-nil, All, arith, inl, inr}
use mathlib.Core.List.{reverse, reverse-reverse}
use janusfs.Base.Text.{Bytes, eq, eq→≡}
use janusfs.Base.FilePath.{slash, dot, split_slash, is_rooted, clean_parts, clean_loop}
use janusfs.Base.FilePath.Parts.{SlashFree, IsName, split_slash-Free}
use janusfs.Base.FilePath.Clean.{split_slash-slash, clean_loop-names, clean_loop-append}
use janusfs.Backing.{bad_segment, valid_rel}

bad_segment-IsName :
    (parts : List Bytes) → All SlashFree parts → any bad_segment parts ≡ false → All IsName parts
unfolding bad_segment
bad_segment-IsName [] free h = tt
bad_segment-IsName (s ∷ ss) free h = (
  record {
    full = ground (arith, h);
    no_slash = free.0;
    not_dot = ground (arith, h);
    not_dots = ground (arith, h);
  },
  bad_segment-IsName ss free.1 (ground (arith, h)),
)

valid_rel-names :
    (rel : Bytes) → valid_rel rel ≡ true → eq rel dot ≡ false → All IsName (split_slash rel)
unfolding valid_rel
valid_rel-names rel h e =
    bad_segment-IsName (split_slash rel) (split_slash-Free rel) (ground (arith, h, e))

is_rooted-append : (p q : Bytes) → is_rooted p ≡ true → is_rooted (p ++ q) ≡ true
is_rooted-append [] q h = cc
is_rooted-append (c ∷ p) q h = ground (arith, h)

-- Below the root, whatever its path: a path that is let through leads to the parts of the root and,
-- behind them, its own names. Nothing of it leads up.
pub valid_rel-confined :
    (root rel : Bytes)
    → is_rooted root ≡ true
    → valid_rel rel ≡ true
    → clean_parts (root ++ (slash ∷ rel))
      ≡ clean_parts root ++ (if eq rel dot then [] else split_slash rel)
valid_rel-confined root rel rooted valid =
    rw (is_rooted-append root (slash ∷ rel) rooted, rooted, split_slash-slash root rel)
      (clean_loop-append true (split_slash root) (split_slash rel) []
        ∙ elim (Bool-cases (eq rel dot)) [
          | inl e ↦
              rw (e, eq→≡ rel dot e)
                (reverse-reverse (clean_loop true (split_slash root) [])
                  ∙ sym (append-nil (clean_loop true (split_slash root) [])))
          | inr e ↦ rw e (
              clean_loop-names true (split_slash rel)
                (reverse (clean_loop true (split_slash root) [])) (valid_rel-names rel valid e)
              ∙ ap (λ t. t ++ split_slash rel)
                  (reverse-reverse (clean_loop true (split_slash root) [])))
        ])
