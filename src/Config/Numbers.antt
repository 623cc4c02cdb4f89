-- ===== src/Config/Numbers.antt =====
-- strconv.Atoi, ParseInt in base 10 on 64 bits, and ParseBool, as internal/config/config.go uses them.
use janusfs.Base.{
  ℕ, zero, suc, ◌+◌, ◌-◌, ◌*◌, ◌^◌, Bool, true, false, ◌||◌, ◌&&◌, Option, none, some,
}
use janusfs.Base.{List, [], ◌∷◌, if◌then◌else◌, is_empty, ◌==◌, leb, ltb}
use janusfs.Base.Text.{Bytes, codes, eq}

-- An integer: `negsuc n` is -(n + 1).
pub data ℤ : Type 0 where
  pos negsuc : ℕ → ℤ

unfoldable pub digits : Bytes → ℕ → Option ℕ
digits [] acc = some acc
digits (c ∷ s) acc =
    let rest = digits s (acc * 10 + (c - b'0')) in if leb b'0' c && leb c b'9' then rest else none

unfoldable pub signed : Bool → Option ℕ → Option ℤ
signed negative none = none
signed false (some n) = if ltb n (2 ^ 63) then some (pos n) else none
signed true (some zero) = some (pos 0)
signed true (some (suc n)) = if ltb n (2 ^ 63) then some (negsuc n) else none

unfoldable pub unsigned : Bytes → Option ℕ
unfolding digits
unsigned s = let n = digits s 0 in if is_empty s then none else n

unfoldable pub parse_int : Bytes → Option ℤ
unfolding unsigned signed
parse_int [] = none
parse_int (c ∷ s) =
    if c == b'-'
    then signed true (unsigned s)
    else if c == b'+'
    then signed false (unsigned s)
    else signed false (unsigned (c ∷ s))

abbrev one_of : Bytes → List Bytes → Bool
one_of s [] = false
one_of s (t ∷ ts) = eq s t || one_of s ts

unfoldable pub parse_bool : Bytes → Option Bool
parse_bool s =
    if one_of s
      (codes "1" ∷ codes "t" ∷ codes "T" ∷ codes "TRUE" ∷ codes "true" ∷ codes "True" ∷ [])
    then some true
    else if one_of s
        (codes "0" ∷ codes "f" ∷ codes "F" ∷ codes "FALSE" ∷ codes "false" ∷ codes "False" ∷ [])
    then some false
    else none
