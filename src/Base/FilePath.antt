-- ===== src/Base/FilePath.antt =====
-- The lexical functions of the package path/filepath on Linux: Clean, Join and Rel.
pub mod Parts
pub mod Clean
pub mod Below
pub mod Parent
use janusfs.Base.Tests.{◌==◌, if◌then◌else◌}
use janusfs.Base.Lists.{is_empty}
use janusfs.Base.Text.{Bytes, eq, has_prefix}
use Prim.Native.Nat.{ℕ}
use mathlib.Core.Bool.{Bool, true, false, not, ◌||◌, ◌&&◌}
use mathlib.Core.Option.{Option, none, some}
use mathlib.Core.List.{List, [], ◌∷◌, ◌++◌, reverse, map}

abbrev pub slash : ℕ
slash = b'/'

abbrev pub dot : Bytes
dot = b'.' ∷ []

abbrev pub dot_dot : Bytes
dot_dot = b'.' ∷ b'.' ∷ []

-- A byte in front of the first part.
abbrev pub cons_first : ℕ → List Bytes → List Bytes
cons_first c [] = (c ∷ []) ∷ []
cons_first c (s ∷ ss) = (c ∷ s) ∷ ss

-- `strings.Split(s, "/")`.
abbrev pub split_slash : Bytes → List Bytes
split_slash [] = [] ∷ []
split_slash (c ∷ s) =
    let rest = split_slash s in if c == slash then [] ∷ rest else cons_first c rest

abbrev pub join_slash : List Bytes → Bytes
join_slash [] = []
join_slash (s ∷ []) = s
join_slash (s ∷ t ∷ ss) = s ++ (slash ∷ join_slash (t ∷ ss))

abbrev pub is_rooted : Bytes → Bool
is_rooted p = has_prefix p (slash ∷ [])

-- `..` takes the part in front of it away. In front of a rooted path it is dropped, in front of a
-- relative one it stays. The stack has the last part first.
abbrev pub up : Bool → List Bytes → List Bytes
up rooted [] = if rooted then [] else dot_dot ∷ []
up rooted (top ∷ stack) = if eq top dot_dot then dot_dot ∷ top ∷ stack else stack

abbrev pub clean_loop : Bool → List Bytes → List Bytes → List Bytes
clean_loop rooted [] stack = reverse stack
clean_loop rooted (s ∷ ss) stack =
    clean_loop rooted ss (
      if is_empty s || eq s dot then stack else if eq s dot_dot then up rooted stack else s ∷ stack)

-- The parts of a cleaned path.
abbrev pub clean_parts : Bytes → List Bytes
clean_parts p = clean_loop (is_rooted p) (split_slash p) []

-- `filepath.Clean`.
unfoldable pub clean : Bytes → Bytes
clean p =
    let body = join_slash (clean_parts p) in
    if is_rooted p then slash ∷ body else if is_empty body then dot else body

-- `filepath.Join` of two elements: empty ones are left out.
unfoldable pub join : Bytes → Bytes → Bytes
unfolding clean
join a b =
    if is_empty a
    then (if is_empty b then [] else clean b)
    else if is_empty b
    then clean a
    else clean (a ++ (slash ∷ b))

-- `p[:i+1]` for the last slash at `i`.
abbrev pub up_to_slash : Bytes → Bytes
up_to_slash [] = []
up_to_slash (c ∷ p) =
    let rest = up_to_slash p in if not (is_empty rest) || c == slash then c ∷ rest else []

-- `filepath.Dir`.
unfoldable pub dir_of : Bytes → Bytes
unfolding clean
dir_of p = clean (up_to_slash p)

abbrev last_part : List Bytes → Bytes
last_part [] = []
last_part (s ∷ []) = s
last_part (s ∷ t ∷ ss) = last_part (t ∷ ss)

-- The slashes at the end are cut off.
abbrev trim_slashes : Bytes → Bytes
trim_slashes [] = []
trim_slashes (c ∷ p) =
    let rest = trim_slashes p in if is_empty rest && c == slash then [] else c ∷ rest

-- `path.Base`, and on Linux `filepath.Base`.
unfoldable pub base_of : Bytes → Bytes
base_of p =
    if is_empty p
    then dot
    else let s = trim_slashes p in if is_empty s then slash ∷ [] else last_part (split_slash s)

-- A `..` for each part of the base that is left, then what is left of the target.
abbrev pub climb : List Bytes → List Bytes → List Bytes
climb bs ts = map (λ _. dot_dot) bs ++ ts

-- The walk of `filepath.Rel` over the parts of both paths.
unfoldable pub rel_parts : List Bytes → List Bytes → Option (List Bytes)
rel_parts [] ts = some ts
rel_parts (b ∷ bs) [] = if eq b dot_dot then none else some (climb (b ∷ bs) [])
rel_parts (b ∷ bs) (t ∷ ts) =
    let rest = rel_parts bs ts in
    if eq b t then rest else if eq b dot_dot then none else some (climb (b ∷ bs) (t ∷ ts))

abbrev same : Bool → Bool → Bool
same true b = b
same false true = false
same false false = true

-- `filepath.Rel(base, target)`; `none` is its error.
unfoldable pub rel : Bytes → Bytes → Option Bytes
unfolding rel_parts
rel base target =
    if same (is_rooted base) (is_rooted target)
    then elim (rel_parts (clean_parts base) (clean_parts target)) [
      | none ↦ none
      | some parts ↦ some (if is_empty parts then dot else join_slash parts)
    ]
    else none
