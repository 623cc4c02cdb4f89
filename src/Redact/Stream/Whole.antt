-- ===== src/Redact/Stream/Whole.antt =====
-- `streamWholeFile`: how the reader splits its bytes does not matter.
use janusfs.Base.{
  take-all, Bool, not, ◌&&◌, ◌==◌, is_empty, ◌∷◌, ℕ, ◌+◌, ◌-◌, ◌≤◌, ◌<◌, ◌≡◌, refl, ◌∙◌, true,
  false,
}
use janusfs.Base.{List, [], ◌++◌, arith, leb, ltb, if◌then◌else◌, length, take, inl, inr}
use janusfs.Base.{
  ok, fail, buffer_exceeded, read_failed, append_assoc, Bool-cases, length-append, length-take,
}
use janusfs.Base.Text.{Bytes}
use janusfs.Patterns.{Pattern}
use janusfs.Redact.{redact}
use janusfs.Redact.Stream.{Reader, more, eof, broken, read_all, stream_whole}
use janusfs.Redact.Stream.Masks.{contents, ends_well}

-- Below the limit the reader is read to its end, and its error is seen.
read_all-below :
    (n : ℕ) (r : Reader) (acc : Bytes)
    → length (contents r) < n
    → read_all n r acc ≡ (if ends_well r then ok (acc ++ contents r) else fail read_failed)
unfolding read_all
read_all-below n (eof b) acc h = rw (take-all n b (omega arith))
read_all-below n (broken b) acc h = ground arith
read_all-below n (more b r) acc h =
    let sum : length (b ++ contents r) ≡ length b + length (contents r) =
      length-append b (contents r) in
    rw (let e : leb n (length b) ≡ false = ground arith in e) (
      read_all-below (n - length b) r (acc ++ b) (omega arith)
      ∙ rw (append_assoc acc b (contents r)))

-- The read that returns the error returns bytes as well.
abbrev pub breaks_with_bytes : Reader → Bool
breaks_with_bytes (eof b) = false
breaks_with_bytes (broken b) = not (is_empty b)
breaks_with_bytes (more b r) = breaks_with_bytes r

is_empty-length : (b : Bytes) → is_empty b ≡ (length b == 0)
is_empty-length [] = refl
is_empty-length (x ∷ b) = ground arith

breaks_with_bytes-length : (r : Reader) → breaks_with_bytes r ≡ true → 0 < length (contents r)
breaks_with_bytes-length (eof b) h = cc
breaks_with_bytes-length (broken b) h = ground (arith, h, is_empty-length b)
breaks_with_bytes-length (more b r) h =
    omega (arith, length-append b (contents r), breaks_with_bytes-length r h)

-- An error that comes with the byte that reaches the limit is seen.
read_all-at :
    (n : ℕ) (r : Reader) (acc : Bytes)
    → length (contents r) ≡ n
    → breaks_with_bytes r ≡ true
    → read_all n r acc ≡ fail read_failed
unfolding read_all
read_all-at n (eof b) acc h k = cc
read_all-at n (broken b) acc h k = ground (arith, h)
read_all-at n (more b r) acc h k =
    let sum : length (b ++ contents r) ≡ length b + length (contents r) =
      length-append b (contents r) in
    let some_left : 0 < length (contents r) = breaks_with_bytes-length r k in
    rw (let e : leb n (length b) ≡ false = ground arith in e)
      (read_all-at (n - length b) r (acc ++ b) (omega arith) k)

-- From the limit on exactly the limit is read, unless an error comes with its last byte.
read_all-above :
    (n : ℕ) (r : Reader) (acc : Bytes)
    → 0 < n
    → n ≤ length (contents r)
    → ((length (contents r) == n) && breaks_with_bytes r) ≡ false
    → (buf : Bytes) × (read_all n r acc ≡ ok buf) × (length buf ≡ length acc + n)
unfolding read_all
read_all-above n (eof b) acc p h k =
    (acc ++ take n b, refl, omega (arith, length-append acc (take n b), length-take n b))
read_all-above n (broken b) acc p h k = (
  acc ++ take n b,
  (let e : leb (length b) n ≡ false = ground (arith, is_empty-length b) in rw e refl),
  omega (arith, length-append acc (take n b), length-take n b),
)
read_all-above n (more b r) acc p h k = elim (Bool-cases (leb n (length b))) [
  | inl e ↦ (acc ++ take n b, rw e, ground (arith, length-append acc (take n b), length-take n b))
  | inr e ↦
      let sum : length (b ++ contents r) ≡ length b + length (contents r) =
        length-append b (contents r) in
      let (buf, done, size) =
        read_all-above (n - length b) r (acc ++ b) (ground arith) (ground arith) (ground arith) in
      (buf, rw e done, ground (arith, length-append acc b))
]

-- The whole-file mode redacts all that the reader delivers, however it is split into reads. At or
-- below the limit the error of the reader, if it has one, is returned. Above the limit it fails with
-- ErrBufferExceeded, unless the reader delivers just one byte more than the limit and returns its
-- error together with that byte: then that error is returned.
pub stream_whole_lem :
    (r : Reader) (ps : List Pattern) (max_buffer : ℕ)
    → stream_whole r ps max_buffer ≡ (
        if ltb max_buffer (length (contents r))
        then (if length (contents r) == max_buffer + 1 && breaks_with_bytes r
            then fail read_failed
            else fail buffer_exceeded)
        else if ends_well r
        then redact (contents r) ps
        else fail read_failed)
unfolding stream_whole
stream_whole_lem r ps max_buffer = elim (Bool-cases (ltb max_buffer (length (contents r)))) [
  | inl big ↦ elim (Bool-cases (length (contents r) == max_buffer + 1 && breaks_with_bytes r)) [
    | inl breaks ↦
        rw (big, breaks, read_all-at (max_buffer + 1) r [] (ground arith) (ground arith)) refl
    | inr no_error ↦
        let (buf, done, size) =
          read_all-above (max_buffer + 1) r [] (omega arith) (ground arith) no_error in
        rw (big, no_error, done, (let e : ltb max_buffer (length buf) ≡ true = ground arith in e))
          refl
  ]
  | inr small ↦
      rw (small, read_all-below (max_buffer + 1) r [] (ground arith))
        (elim (Bool-cases (ends_well r)) [ inl e ↦ rw (e, small) | inr e ↦ rw e ])
]
