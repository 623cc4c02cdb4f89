-- ===== src/Patterns/Filter.antt =====
-- The prefilters of internal/patterns/patterns.go: cheap tests that spare a regex search.
use janusfs.Base.{ℕ, ◌+◌, ◌-◌, Bool, true, false, ◌&&◌, ◌||◌, not}
use janusfs.Base.{Option, none, some, List, [], ◌∷◌, ltb, leb, ◌==◌, if◌then◌else◌, length}
use janusfs.Base.Text.{Bytes, codes, eq, contains, contains_byte}

-- The lower-case form that the inner loop compares.
unfoldable pub lower_byte : ℕ → ℕ
lower_byte b = if leb b'A' b && leb b b'Z' then b + 32 else b

-- The loop over `j`, from the second byte of the word.
unfoldable pub rest_matches : Bytes → Bytes → Bool
unfolding lower_byte
rest_matches buf [] = true
rest_matches [] (w ∷ ws) = false
rest_matches (b ∷ buf) (w ∷ ws) = lower_byte b == w && rest_matches buf ws

-- `firstUpper`.
unfoldable pub first_upper : ℕ → ℕ
first_upper w = if leb b'a' w && leb w b'z' then w - 32 else w

-- The loop over `i`: a start is tried while the word still fits behind it.
unfoldable pub scan : Bytes → ℕ → Bytes → Bool
unfolding rest_matches first_upper
scan [] w ws = false
scan (b ∷ buf) w ws =
    if ltb (length buf) (length ws)
    then false
    else ((b == w || b == first_upper w) && rest_matches buf ws) || scan buf w ws

unfoldable pub contains_ignore_case : Bytes → Bytes → Bool
unfolding scan
contains_ignore_case buf [] = true
contains_ignore_case buf (w ∷ ws) = scan buf w ws

abbrev any_of : Bytes → List Bytes → Bool
any_of buf [] = false
any_of buf (w ∷ ws) = contains buf w || any_of buf ws

abbrev any_of_ignore_case : Bytes → List Bytes → Bool
any_of_ignore_case buf [] = false
any_of_ignore_case buf (w ∷ ws) = contains_ignore_case buf w || any_of_ignore_case buf ws

abbrev key_ids : List Bytes
key_ids = codes "AKIA" ∷ codes "ASIA" ∷ codes "ABIA" ∷ codes "ACCA" ∷ []

abbrev github_prefixes : List Bytes
github_prefixes = codes "ghp_" ∷ codes "gho_" ∷ codes "ghu_" ∷ codes "ghs_" ∷ codes "ghr_" ∷ []

abbrev secret_words : List Bytes
secret_words =
    codes "password"
    ∷ codes "passwd"
    ∷ codes "secret"
    ∷ codes "token"
    ∷ codes "api-key"
    ∷ codes "api_key"
    ∷ codes "apikey"
    ∷ []

unfoldable pub generic_secret_filter : Bytes → Bool
unfolding contains_ignore_case
generic_secret_filter buf =
    if not (contains_byte buf b':') && not (contains_byte buf b'=')
    then false
    else any_of_ignore_case buf secret_words

unfoldable pub builtin_pre_filter : Bytes → Bytes → Option (Bytes → Bool)
unfolding generic_secret_filter
builtin_pre_filter name expr =
    if eq name (codes "env-value")
    then some (λ buf. contains_byte buf b'=')
    else if eq name (codes "aws-key")
    then (if contains expr (codes "AKIA")
        then some (λ buf. any_of buf key_ids)
        else some (λ buf. contains_ignore_case buf (codes "aws_secret_access_key")))
    else if eq name (codes "private-key")
    then some (λ buf. contains buf (codes "-----BEGIN"))
    else if eq name (codes "jwt")
    then some (λ buf. contains buf (codes "eyJ"))
    else if eq name (codes "db-uri")
    then some (λ buf. contains buf (codes "://"))
    else if eq name (codes "github-token")
    then some (λ buf. any_of buf github_prefixes)
    else if eq name (codes "generic-secret")
    then some generic_secret_filter
    else none
