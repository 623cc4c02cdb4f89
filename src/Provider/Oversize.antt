-- ===== src/Provider/Oversize.antt =====
-- The read of a file that is too large for the cache: readOversize of internal/provider/provider.go.
use janusfs.Base.{
  take-all, ℕ, zero, suc, ◌+◌, ◌-◌, ◌≤◌, ◌≡◌, refl, sym, ◌∙◌, ap, Bool-cases, some, inl, inr, All,
  Result, ok, fail, arith,
}
use janusfs.Base.{List, [], ◌∷◌, ◌++◌, ltb, leb, length, take, append-nil}
use mathlib.Core.Path.{subst}
use janusfs.Base.Text.{Bytes}
use janusfs.Patterns.{Pattern, IsLawful}
use janusfs.Redact.Stream.{Reader, more, eof, broken, stream}
use janusfs.Redact.Stream.Masks.{contents, Starred}
use janusfs.Redact.Stream.Total.{stream-Starred}
use janusfs.Provider.Serve.{copied, copy_at, limit, copy_streamed, read_oversize}

take-more : (n : ℕ) (b r : Bytes) → length b ≤ n → take n (b ++ r) ≡ b ++ take (n - length b) r
take-more n [] r h = ap (λ k. take k r) (omega arith)
take-more zero (x ∷ b) r h = absurd (omega (arith, h))
take-more (suc n) (x ∷ b) r h =
    ap (λ t. x ∷ t) (take-more n b r (omega (arith, h)) ∙ ap (λ k. b ++ take k r) (omega arith))

take-front : (n : ℕ) (b r : Bytes) → n ≤ length b → take n (b ++ r) ≡ take n b
take-front zero b r h = refl
take-front (suc n) [] r h = absurd (omega (arith, h))
take-front (suc n) (x ∷ b) r h = ap (λ t. x ∷ t) (take-front n b r (omega (arith, h)))

-- The limited reader delivers the first bytes.
contents-limit : (n : ℕ) (r : Reader) → contents (limit n r) ≡ take n (contents r)
unfolding limit
contents-limit zero r = refl
contents-limit (suc n) (eof b) = refl
contents-limit (suc n) (broken b) = elim (Bool-cases (leb (length b) (suc n))) [
  | inl short ↦ rw short (sym (take-all (suc n) b (ground arith)))
  | inr long ↦ rw long (append-nil (take (suc n) b))
]
contents-limit (suc n) (more b r) = elim (Bool-cases (ltb (length b) (suc n))) [
  | inl short ↦ rw short (
      ap (λ t. b ++ t) (contents-limit (suc n - length b) r)
      ∙ sym (take-more (suc n) b (contents r) (ground arith)))
  | inr long ↦
      rw long (append-nil (take (suc n) b) ∙ sym (take-front (suc n) b (contents r) (ground arith)))
]

copy_streamed-ok :
    (res : Result Bytes) (n off : ℕ) (b : Bytes)
    → copy_streamed res n off ≡ copied b
    → (out : Bytes) × (res ≡ ok out) × (b ≡ copy_at out n off)
unfolding copy_streamed
copy_streamed-ok (ok out) n off b e = (out, refl, cc)
copy_streamed-ok (fail why) n off b e = cc

-- For patterns whose matches lie in the bytes they are given: what a read of `n` bytes at `off` of
-- an oversized file returns is the part from `off` on of the file's first `off + n` bytes with some
-- of them replaced by stars; every other outcome is an error.
pub read_oversize-Starred :
    (ps : List Pattern)
    → All IsLawful ps
    → (r : Reader) (buffer_max n off : ℕ) (b : Bytes)
    → read_oversize (some r) ps buffer_max n off ≡ copied b
    → (out : Bytes) × Starred out (take (off + n) (contents r)) × (b ≡ copy_at out n off)
unfolding read_oversize
read_oversize-Starred ps lawful r buffer_max n off b e =
    let (out, done, same) = copy_streamed-ok (stream (limit (off + n) r) ps buffer_max) n off b e in
    (
      out,
      subst (Starred out) (contents-limit (off + n) r)
          (stream-Starred ps lawful (limit (off + n) r) buffer_max done),
      same,
    )
