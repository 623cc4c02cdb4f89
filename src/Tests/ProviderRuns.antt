-- ===== src/Tests/ProviderRuns.antt =====
-- Concrete runs of the cache of redacted bytes.
use janusfs.Base.{
  ◌≡◌, refl, sym, ◌∙◌, ap, Bool, true, false, Option, Result, ok, fail, inl, inr, some, none, List,
  [], ◌∷◌, ◌++◌, arith,
}
use janusfs.Base.{take, All}
use janusfs.Base.Text.{Bytes, codes, eq}
use janusfs.Patterns.{Pattern, IsLawful}
use janusfs.Redact.{redact}
use janusfs.Redact.Stream.{more, eof}
use janusfs.Redact.Stream.Masks.{Starred}
use janusfs.Provider.Signature.{pattern_signature, matches_pattern_sig}
use janusfs.Provider.Signature.{sort_strings}
use janusfs.Provider.Signature.Sorted.{Sorted, occurrences, sort_strings-Sorted}
use janusfs.Provider.Signature.Stable.{pattern_signature-order}
use janusfs.Provider.Signature.Laws.{matches_pattern_sig-signature}
use janusfs.Provider.{ContentKey, read_locked, zero_bytes}
use janusfs.Provider.Later.{Asked, Seen, Masked}
use mathlib.Core.List.Memᴰ
use janusfs.Provider.Serve.{copied, copy_at, ready, serve, read_oversize}
use janusfs.Provider.Run.{Op, read, rebuilt, invalidate, invalidate_every, run, new_ram_cache}
use janusfs.Provider.Reads.{PartOf, empty_world, serve-Masked}
use janusfs.Provider.Oversize.{read_oversize-Starred}
use janusfs.Tests.Samples.{word_pattern, word_regexp-lawful}

abbrev pats : List Pattern
pats = word_pattern (codes "key") (codes "KEY") ∷ []

lawful : All IsLawful pats
lawful = (word_regexp-lawful (codes "KEY"), tt)

abbrev key : ContentKey
key = record { path = codes "/p/a"; mtime_ns = 7; size = 7; inode = 3; gen = 1 }

matches_pattern_sig-signature_example :
    matches_pattern_sig (codes "key") pats ≡ eq (codes "key") (pattern_signature pats)
matches_pattern_sig-signature_example = matches_pattern_sig-signature (codes "key") pats

abbrev names : List Bytes
names = codes "jwt" ∷ codes "env" ∷ codes "key" ∷ codes "env" ∷ []

sort_strings-Sorted_example :
    Sorted (sort_strings names)
    × ((x : Bytes) → occurrences x (sort_strings names) ≡ occurrences x names)
sort_strings-Sorted_example = sort_strings-Sorted names

abbrev jwt_pattern : Pattern
jwt_pattern = word_pattern (codes "jwt") (codes "eyJ")

pattern_signature-order_example :
    pattern_signature (jwt_pattern ∷ pats) ≡ pattern_signature (pats ++ (jwt_pattern ∷ []))
pattern_signature-order_example =
    pattern_signature-order (jwt_pattern ∷ pats) (pats ++ (jwt_pattern ∷ [])) (λ x. omega arith)

-- A read, its rebuild, and a second read of the same version, whose rebuild is not needed.
abbrev rebuild_run : List Op
rebuild_run = read key pats ∷ rebuilt 0 (λ p. some (codes "a KEY b")) ∷ []

serve-Masked_example :
    PartOf
      (rebuild_run ++ (read key pats ∷ []))
      (codes "/p/a")
      (pattern_signature pats)
      4
      1
      (codes " ***")
unfolding run serve new_ram_cache
serve-Masked_example =
    serve-Masked 100 50 50 rebuild_run [] key pats ready 4 1 (codes " ***") refl refl

read_oversize-Starred_example :
    (out : Bytes) × Starred out (take 5 (codes "a KEY b")) × (codes "***" ≡ copy_at out 3 2)
unfolding read_oversize redact
read_oversize-Starred_example =
    read_oversize-Starred pats lawful (more (codes "a KEY b") (eof [])) 50 3 2 (codes "***") refl

abbrev pats_of : Op → List Pattern
pats_of (read k ps) = ps
pats_of (rebuilt n files) = []
pats_of (invalidate p) = []
pats_of invalidate_every = []

abbrev held_by : Bytes → Op → Option Bytes
held_by path (read k ps) = none
held_by path (rebuilt n files) = files path
held_by path (invalidate p) = none
held_by path invalidate_every = none

abbrev is_read : Op → Bool
is_read (read k ps) = true
is_read (rebuilt n files) = false
is_read (invalidate p) = false
is_read invalidate_every = false

only_pats : (path : Bytes) (ps : List Pattern) → Asked rebuild_run path ps → ps ≡ pats
only_pats path ps (k, at, same) = elim (Memᴰ.cases_cons at) [
  | inl e ↦ ap pats_of e
  | inr at' ↦ elim (Memᴰ.cases_cons at') [
    | inl e ↦ let f : true ≡ false = ap is_read e in cc
    | inr none_left ↦ absurd (Memᴰ.not-nil none_left)
  ]
]

only_content : (c : Bytes) → Seen rebuild_run (codes "/p/a") c → some c ≡ some (codes "a KEY b")
only_content c (n, files, at, holds) = elim (Memᴰ.cases_cons at) [
  | inl e ↦ let f : false ≡ true = ap is_read e in cc
  | inr at' ↦ elim (Memᴰ.cases_cons at') [
    | inl e ↦ sym holds ∙ ap (held_by (codes "/p/a")) e
    | inr none_left ↦ absurd (Memᴰ.not-nil none_left)
  ]
]

redact_run : redact (codes "a KEY b") pats ≡ ok (codes "a *** b")
unfolding redact
redact_run = refl

abbrev is_raw : Result Bytes → Bool
is_raw (ok b) = eq b (codes "a KEY b")
is_raw (fail why) = false

true_not_false : ¬ (false ≡ true)
true_not_false h = cc

-- The content that is not redacted is none that may be served behind that rebuild.
raw_run : ¬ Masked rebuild_run (codes "/p/a") (pattern_signature pats) (codes "a KEY b")
unfolding zero_bytes
raw_run (inl zeros) = cc
raw_run (inr (content, ps, seen, asked, same, e)) =
    let p : ps ≡ pats = only_pats (codes "/p/a") ps asked in
    let c : some content ≡ some (codes "a KEY b") = only_content content seen in
    let d : content ≡ codes "a KEY b" = cc in
    let r : redact (codes "a KEY b") pats ≡ ok (codes "a KEY b") =
      ap (λ t. redact t pats) (sym d) ∙ ap (redact content) (sym p) ∙ e in
    let differ : false ≡ true = ap is_raw (sym redact_run ∙ r) in absurd (true_not_false differ)

-- A rebuild that ends when its entry has been dropped: its bytes stay in the sum for good.
leak_run :
    let c =
      (run (empty_world 100 50 50) (
        read key pats
        ∷ invalidate (codes "/p/a")
        ∷ rebuilt 0 (λ p. some (codes "a KEY b"))
        ∷ [])).cache in
    (c.entries ≡ []) × (c.lru ≡ []) × (c.bytes_in ≡ 7) × (c.bytes_out ≡ 0)
unfolding run new_ram_cache
leak_run = (refl, refl, refl, refl)

-- The file could not be read, then it changed: the next read gets no bytes and no error.
stale_error_run :
    let w = run (empty_world 100 50 50) (read key pats ∷ rebuilt 0 (λ p. none) ∷ []) in
    let (c, p) = read_locked (record key { mtime_ns = 8 }) pats w.cache in
    serve ready p c 4 0 ≡ copied []
unfolding run serve new_ram_cache
stale_error_run = refl
