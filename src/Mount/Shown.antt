-- ===== src/Mount/Shown.antt =====
-- What a read through the provider may show: the bytes that internal/mount serves of a masked file.
use janusfs.Base.{
  ℕ, ◌≡◌, refl, sym, ◌∙◌, true, Bool-cases, inl, inr, Option, none, some, List, All, ◌⊎◌,
}
use janusfs.Base.{take, ◌+◌}
use mathlib.Core.Path.{subst}
use janusfs.Base.Text.{Bytes}
use janusfs.Patterns.{Pattern, IsLawful}
use janusfs.Redact.Stream.{Reader}
use janusfs.Redact.Stream.Masks.{contents, Starred}
use janusfs.Provider.{ContentKey, RamCache, bypasses}
use janusfs.Provider.Signature.{pattern_signature}
use janusfs.Provider.Serve.{
  Served, copied, rebuild_failed, pattern_set_changed, rebuild_timeout, cancelled,
  redact_unsupported, open_failed, copy_at, read_oversize,
}
use janusfs.Provider.Oversize.{read_oversize-Starred}
use janusfs.Provider.Alone.{alone, read_alone, with_read, read_alone-part}
use janusfs.Provider.Run.{Op}
use janusfs.Provider.Steps.{WorldOk}
use janusfs.Provider.Reads.{PartOf}
use janusfs.Mount.Handles.{ReadResult, bytes_read, read_refused, result_of}

-- What a read of `file`, which is at that path, may show behind the log. Either a part of a redaction,
-- by patterns with the signature of these, as the cache holds it: of a content that the file at the
-- path held at the end of a rebuild of the log, or holds now, by the patterns of a read of that path
-- in the log, or by these. Or the part from `off` on of the first `off + n` bytes of the file with
-- some of them starred.
abbrev pub Redacted : List Op → Bytes → Option Reader → List Pattern → ℕ → ℕ → Bytes → Type 0
Redacted log path file pats n off b =
    ((key : ContentKey) × (key.path ≡ path)
      × PartOf (with_read key pats file log) path (pattern_signature pats) n off b)
    ⊎ ((r : Reader) × (file ≡ some r)
        × (o : Bytes) × Starred o (take (off + n) (contents r))
        × (b ≡ copy_at o n off))

-- A result of a read that shows no more than that.
abbrev pub IsSafe : List Op → Bytes → Option Reader → List Pattern → ℕ → ℕ → ReadResult → Type 0
IsSafe log path file pats n off (bytes_read b) = Redacted log path file pats n off b
IsSafe log path file pats n off (read_refused e) = Unit

pub result_of-Safe :
    (log : List Op) (path : Bytes) (file : Option Reader) (pats : List Pattern) (n off : ℕ)
    (s : Served)
    → ((b : Bytes) → s ≡ copied b → Redacted log path file pats n off b)
    → IsSafe log path file pats n off (result_of s)
unfolding result_of
result_of-Safe log path file pats n off (copied b) h = h b refl
result_of-Safe log path file pats n off (rebuild_failed why) h = tt
result_of-Safe log path file pats n off pattern_set_changed h = tt
result_of-Safe log path file pats n off rebuild_timeout h = tt
result_of-Safe log path file pats n off cancelled h = tt
result_of-Safe log path file pats n off redact_unsupported h = tt
result_of-Safe log path file pats n off open_failed h = tt

oversize-Redacted :
    (log : List Op) (path : Bytes) (pats : List Pattern) (file : Option Reader)
    (buffer_max n off : ℕ) (b : Bytes)
    → All IsLawful pats
    → read_oversize file pats buffer_max n off ≡ copied b
    → Redacted log path file pats n off b
unfolding read_oversize
oversize-Redacted log path pats none buffer_max n off b lawful e = cc
oversize-Redacted log path pats (some r) buffer_max n off b lawful e =
    let (o, starred, same) = read_oversize-Starred pats lawful r buffer_max n off b e in
    inr (r, refl, o, starred, same)

read_alone-large :
    (key : ContentKey) (pats : List Pattern) (file : Option Reader) (n off : ℕ) (c : RamCache)
    → bypasses key c ≡ true
    → (read_alone key pats file n off c).1 ≡ read_oversize file pats c.redact_buffer_max n off
unfolding read_alone
read_alone-large key pats file n off c large = rw large refl

pub read_alone-Redacted :
    (log : List Op) (path : Bytes) (key : ContentKey) (pats : List Pattern) (file : Option Reader)
    (n off : ℕ) (c : RamCache) (b : Bytes)
    → key.path ≡ path
    → WorldOk log (alone c)
    → All IsLawful pats
    → (read_alone key pats file n off c).1 ≡ copied b
    → Redacted log path file pats n off b
read_alone-Redacted log path key pats file n off c b named good lawful e =
    elim (Bool-cases (bypasses key c)) [
      | inl large ↦
          oversize-Redacted log path pats file c.redact_buffer_max n off b lawful
            (sym (read_alone-large key pats file n off c large) ∙ e)
      | inr small ↦ inl (
        key,
        named,
        subst (λ p. PartOf (with_read key pats file log) p (pattern_signature pats) n off b) named
            (read_alone-part key pats file n off c b good small e),
      )
    ]
