-- ===== src/Redact/Stream/Masks.antt =====
-- `Stream` only writes stars: its output is the input with some bytes replaced.
use janusfs.Base.{ℕ, zero, suc, ◌+◌, ◌-◌, ◌≡◌, refl, sym, ◌∙◌, ap, Bool, true, false, ◌⊎◌}
use janusfs.Base.{List, [], ◌∷◌, ◌++◌, arith, leb, length, take, drop}
use janusfs.Base.{Result, ok, fail, read_failed, ◌>>=◌, bind-ok_parts, All, inl, inr}
use janusfs.Base.{take-append-drop, Option-cases, append-nil, append_assoc, Bool-cases, some}
use janusfs.Base.Text.{Bytes}
use janusfs.Patterns.{Pattern, IsLawful}
use janusfs.Redact.{redact, star}
use janusfs.Redact.Masking.{stars, stars_from, masked_at}
use janusfs.Redact.Correct.{redact_lem}
use janusfs.Redact.Stream.{
  Reader, more, eof, broken, Flush, flush_read, stream_loop, line_flush, tail_flush,
  flush_complete_lines, flush_except_tail, split_last_line,
}

-- All bytes that the reader delivers.
abbrev pub contents : Reader → Bytes
contents (more b r) = b ++ contents r
contents (eof b) = b
contents (broken b) = b

-- The reader ends with io.EOF.
abbrev pub ends_well : Reader → Bool
ends_well (more b r) = ends_well r
ends_well (eof b) = true
ends_well (broken b) = false

-- The first list is the second one with some bytes replaced by stars.
abbrev pub Starred : Bytes → Bytes → Type 0
Starred [] [] = Unit
Starred [] (b ∷ bs) = ⊥
Starred (o ∷ os) [] = ⊥
Starred (o ∷ os) (b ∷ bs) = ((o ≡ b) ⊎ (o ≡ star)) × Starred os bs

pub Starred-append : (o p b c : Bytes) → Starred o b → Starred p c → Starred (o ++ p) (b ++ c)
Starred-append [] p [] c h k = k
Starred-append [] p (b ∷ bs) c h k = absurd h
Starred-append (o ∷ os) p [] c h k = absurd h
Starred-append (o ∷ os) p (b ∷ bs) c h k = (h.0, Starred-append os p bs c h.1 k)

Starred-take : (n : ℕ) (o b : Bytes) → Starred o b → Starred (take n o) (take n b)
Starred-take zero o b h = tt
Starred-take (suc n) [] [] h = tt
Starred-take (suc n) [] (b ∷ bs) h = absurd h
Starred-take (suc n) (o ∷ os) [] h = absurd h
Starred-take (suc n) (o ∷ os) (b ∷ bs) h = (h.0, Starred-take n os bs h.1)

pub length-Starred : (o b : Bytes) → Starred o b → length o ≡ length b
length-Starred [] [] h = refl
length-Starred [] (b ∷ bs) h = absurd h
length-Starred (o ∷ os) [] h = absurd h
length-Starred (o ∷ os) (b ∷ bs) h = ap suc (length-Starred os bs h.1)

stars_from-Starred : (n : ℕ) (f : ℕ → Bool) (buf : Bytes) → Starred (stars_from n f buf) buf
stars_from-Starred n f [] = tt
stars_from-Starred n f (b ∷ buf) = (ground arith, stars_from-Starred (n + 1) f buf)

pub redact-Starred :
    (buf : Bytes) (ps : List Pattern) {out : Bytes}
    → All IsLawful ps
    → redact buf ps ≡ ok out
    → Starred out buf
redact-Starred buf ps {out} h e =
    let e' : out ≡ stars (masked_at buf ps) buf = cc (redact_lem buf ps h) in
    rw e' (stars_from-Starred 0 (masked_at buf ps) buf)

-- What a flush writes is the starred front of the buffer, and it keeps the rest.
abbrev pub FlushMasks : Flush → Type 0
FlushMasks flush =
    (buf w k : Bytes)
    → flush buf ≡ ok (w, k)
    → (front : Bytes) × (buf ≡ front ++ k) × Starred w front

split_last_line-append :
    (buf : Bytes) {lines rest : Bytes}
    → split_last_line buf ≡ some (lines, rest)
    → lines ++ rest ≡ buf
unfolding split_last_line
split_last_line-append [] e = cc
split_last_line-append (b ∷ buf) {lines} {rest} e = elim (Option-cases (split_last_line buf)) [
  | inl absent ↦ ground arith
  | inr ((l, r), found) ↦ ground (arith, split_last_line-append buf found)
]

module _ (ps : List Pattern) (lawful : All IsLawful ps) where
  flush_except_tail-masks : (n : ℕ) → FlushMasks (λ buf. flush_except_tail buf ps n)
  unfolding flush_except_tail
  flush_except_tail-masks n buf w k e = elim (Bool-cases (leb (length buf) n)) [
    | inl short ↦
        let same : ◌≡◌ {A = Result (Bytes × Bytes)} (ok ([], buf)) (ok (w, k)) = rw short at e in
        let ew : w ≡ [] = cc in let ek : buf ≡ k = cc in ([], ek, rw ew tt)
    | inr long ↦
        let (red, done, same) =
          bind-ok_parts (redact buf ps)
            (λ red. ok (take (length buf - n) red, drop (length buf - n) buf)) (rw long at e) in
        let ew : w ≡ take (length buf - n) red = cc in
        let ek : k ≡ drop (length buf - n) buf = cc in
        (
          take (length buf - n) buf,
          rw ek (sym (take-append-drop (length buf - n) buf)),
          rw ew (Starred-take (length buf - n) red buf (redact-Starred buf ps lawful done)),
        )
  ]

  flush_complete_lines-masks : FlushMasks (λ buf. flush_complete_lines buf ps)
  unfolding flush_complete_lines
  flush_complete_lines-masks buf w k e = elim (Option-cases (split_last_line buf)) [
    | inl absent ↦
        let same : ◌≡◌ {A = Result (Bytes × Bytes)} (ok ([], buf)) (ok (w, k)) =
          rw (absent, flush_complete_lines) at e in
        let ew : w ≡ [] = cc in let ek : buf ≡ k = cc in ([], ek, rw ew tt)
    | inr ((lines, rest), found) ↦
        let (red, done, same) =
          bind-ok_parts (redact lines ps) (λ red. ok (red, rest))
            (rw (found, flush_complete_lines) at e) in
        let ew : w ≡ red = cc in
        let ek : k ≡ rest = cc in
        (
          lines,
          rw ek (sym (split_last_line-append buf found)),
          rw ew (redact-Starred lines ps lawful done),
        )
  ]

  pub line_flush-masks : (max_buffer : ℕ) → FlushMasks (line_flush ps max_buffer)
  unfolding line_flush
  line_flush-masks max_buffer buf w k e = flush_complete_lines-masks buf w k (ground arith)

  pub tail_flush-masks : (n : ℕ) → FlushMasks (tail_flush ps n)
  unfolding tail_flush
  tail_flush-masks n buf w k e = flush_except_tail-masks n buf w k e

  module _ (flush : Flush) (masks : FlushMasks flush) where
    pub flush_read-masks :
        (buf b w k : Bytes)
        → flush_read flush buf b ≡ ok (w, k)
        → (front : Bytes) × (buf ++ b ≡ front ++ k) × Starred w front
    unfolding flush_read
    flush_read-masks buf [] w k e =
        let same : ◌≡◌ {A = Result (Bytes × Bytes)} (ok ([], buf)) (ok (w, k)) = e in
        let ew : w ≡ [] = cc in let ek : buf ≡ k = cc in ([], append-nil buf ∙ ek, rw ew tt)
    flush_read-masks buf (c ∷ b) w k e = masks (buf ++ c ∷ b) w k e

    -- What the loop returns is the starred form of the buffer and all that the reader delivers.
    pub stream_loop-Starred :
        (r : Reader) (buf : Bytes) {out : Bytes}
        → stream_loop flush ps r buf ≡ ok out
        → Starred out (buf ++ contents r)
    unfolding stream_loop
    stream_loop-Starred (more b r) buf {out} e =
        let ((w, k), flushed, rest) =
          bind-ok_parts (flush_read flush buf b)
            (λ (w, k). stream_loop flush ps r k >>= λ later. ok (w ++ later)) e in
        let (later, last, same) =
          bind-ok_parts (stream_loop flush ps r k) (λ later. ok (w ++ later)) rest in
        let (front, split, done) = flush_read-masks buf b w k flushed in
        let eo : out ≡ w ++ later = cc in
        let whole : buf ++ (b ++ contents r) ≡ front ++ (k ++ contents r) =
          sym (append_assoc buf b (contents r))
          ∙ ap (λ (t : Bytes). t ++ contents r) split
          ∙ append_assoc front k (contents r) in
        rw (eo, whole)
          (Starred-append w later front (k ++ contents r) done (stream_loop-Starred r k last))
    stream_loop-Starred (eof b) buf {out} e =
        let ((w, k), flushed, rest) =
          bind-ok_parts (flush_read flush buf b)
            (λ (w, k). redact k ps >>= λ later. ok (w ++ later)) e in
        let (later, last, same) = bind-ok_parts (redact k ps) (λ later. ok (w ++ later)) rest in
        let (front, split, done) = flush_read-masks buf b w k flushed in
        let eo : out ≡ w ++ later = cc in
        rw (eo, split) (Starred-append w later front k done (redact-Starred k ps lawful last))
    stream_loop-Starred (broken b) buf {out} e =
        let (_, flushed, same) = bind-ok_parts (flush_read flush buf b) (λ _. fail read_failed) e in
        cc
