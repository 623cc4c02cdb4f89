-- ===== src/Mount/Pread.antt =====
-- preadFull of internal/mount/janus_node.go fills its buffer, however short the reads are.
use janusfs.Base.{
  ℕ, zero, suc, ◌+◌, ◌-◌, ◌≤◌, ◌<◌, ◌≡◌, refl, sym, ◌∙◌, ap, Bool, true, false, Bool-cases, inl,
  inr, none, some, arith,
}
use janusfs.Base.{[], ◌++◌, if◌then◌else◌, is_empty, ltb, leb, length, take, drop, length-append}
use janusfs.Base.Text.{Bytes}
use janusfs.Base.Slices.{
  take-past, take-take, take-min, drop-drop, take-full, length-drop, length-take, full-length,
}
use janusfs.Provider.Serve.{copy_at}
use janusfs.Mount.Handles.{Pread, pread_loop, pread_full}

true_not_false : (b : Bool) → b ≡ true → b ≡ false → ⊥
true_not_false b h k = cc

-- The descriptor reads that content, and each read yields at least a byte where one is left.
pub record Delivers {W : Type 0} (pread : Pread W) (fd : ℕ) (content : Bytes) : Type 0 where
  pub size : ℕ → ℕ → W → ℕ
  pub bytes : (n off : ℕ) (w : W) → (pread fd n off w).1 ≡ take (size n off w) (drop off content)
  pub fine : (n off : ℕ) (w : W) → (pread fd n off w).2 ≡ none
  pub fits : (n off : ℕ) (w : W) → size n off w ≤ n
  pub some_left : (n off : ℕ) (w : W) → 0 < n → off < length content → 0 < size n off w

at_offset : (n off : ℕ) (content : Bytes) → take n (drop off content) ≡ copy_at content n off
unfolding copy_at
at_offset n off content = elim (Bool-cases (leb (length content) off)) [
  | inl past ↦ rw past (
      let none_left : length (drop off content) ≤ 0 =
        ground (arith, past, length-drop off content) in
      take-past n (drop off content) (omega (arith, none_left))
      ∙ sym (take-past 0 (drop off content) none_left))
  | inr inside ↦ rw inside refl
]

module _ {W : Type 0} (pread : Pread W) (fd n off : ℕ) where
  pread_loop-full :
      (fuel : ℕ) (got : Bytes) (w : W)
      → ltb (length got) n ≡ false
      → pread_loop pread (suc fuel) fd n off got w ≡ some (w, got, none)
  unfolding pread_loop
  pread_loop-full fuel got w full = rw full refl

  pread_loop-round :
      (fuel : ℕ) (got : Bytes) (w : W)
      → ltb (length got) n ≡ true
      → (pread fd (n - length got) (off + length got) w).2 ≡ none
      → pread_loop pread (suc fuel) fd n off got w ≡ (
          let r = pread fd (n - length got) (off + length got) w in
          if is_empty r.1
          then some (r.0, got ++ r.1, none)
          else pread_loop pread fuel fd n off (got ++ r.1) r.0)
  unfolding pread_loop
  pread_loop-round fuel got w more fine = rw (more, fine) refl

module _ {W : Type 0} {pread : Pread W} {fd : ℕ} {content : Bytes} (d : Delivers pread fd content)
    (n off : ℕ) where
  -- What the loop has are the first bytes.
  record First (got : Bytes) : Type 0 where
    same : got ≡ take (length got) (drop off content)
    within : length got ≤ n

  next_bytes :
      (got : Bytes) (w : W)
      → First got
      → ltb (length got) n ≡ true
      → got ++ (pread fd (n - length got) (off + length got) w).1
        ≡ take (length got + d.size (n - length got) (off + length got) w) (drop off content)
  next_bytes got w f more =
      let g = length got in
      let xs = drop off content in
      let k = d.size (n - g) (off + g) w in
      let tail : (pread fd (n - g) (off + g) w).1 ≡ take k (drop g xs) =
        d.bytes (n - g) (off + g) w ∙ ap (take k) (drop-drop off g content) in
      ap (λ b. got ++ b) tail ∙ ap (λ b. b ++ take k (drop g xs)) f.same ∙ take-take g k xs

  -- A round that is not the last goes on with the first bytes.
  next-First :
      (got : Bytes) (w : W)
      → First got
      → ltb (length got) n ≡ true
      → First (got ++ (pread fd (n - length got) (off + length got) w).1)
  next-First got w f more =
      let xs = drop off content in
      let m = length got + d.size (n - length got) (off + length got) w in
      let all = next_bytes got w f more in
      let size = ap length all ∙ length-take m xs in
      record {
        same = all ∙ take-min m xs ∙ ap (λ j. take j xs) (sym size);
        within = omega (arith, size, f.within, d.fits (n - length got) (off + length got) w);
      }

  -- A round without a byte is at the end of the file.
  last_round :
      (got : Bytes) (w : W)
      → First got
      → ltb (length got) n ≡ true
      → is_empty (pread fd (n - length got) (off + length got) w).1 ≡ true
      → got ++ (pread fd (n - length got) (off + length got) w).1 ≡ take n (drop off content)
  last_round got w f more empty =
      let g = length got in
      let xs = drop off content in
      let m = g + d.size (n - g) (off + g) w in
      elim (Bool-cases (ltb (off + g) (length content))) [
        | inr at_end ↦
            let short : length xs ≤ g = ground (arith, at_end, length-drop off content) in
            next_bytes got w f more
            ∙ take-past m xs (omega (arith, short))
            ∙ sym (take-past n xs (omega (arith, short, f.within)))
        | inl left ↦
            let below : off + g < length content = ground (arith, left) in
            let room : 0 < n - g = ground (arith, more) in
            let full =
              take-full (d.size (n - g) (off + g) w) (drop (off + g) content)
                (d.some_left (n - g) (off + g) w room below)
                (omega (arith, below, length-drop (off + g) content)) in
            absurd (true_not_false _ empty (ap is_empty (d.bytes (n - g) (off + g) w) ∙ full))
      ]

  whole : (got : Bytes) → First got → ltb (length got) n ≡ false → length got ≡ n
  whole got f full = ground (arith, full, f.within)

  pread_loop-from :
      (fuel : ℕ) (got : Bytes) (w : W)
      → First got
      → n - length got < fuel
      → (w' : W) × (pread_loop pread fuel fd n off got w
          ≡ some (w', take n (drop off content), none))
  pread_loop-from zero got w f less = absurd (omega (arith, less))
  pread_loop-from (suc fuel) got w f less = elim (Bool-cases (ltb (length got) n)) [
    | inr full ↦ (
      w,
      pread_loop-full pread fd n off fuel got w full
          ∙ ap (λ b. some (w, b, none))
              (f.same ∙ ap (λ j. take j (drop off content)) (whole got f full)),
    )
    | inl more ↦
        let b = (pread fd (n - length got) (off + length got) w).1 in
        let w' = (pread fd (n - length got) (off + length got) w).0 in
        let room : length got < n = ground (arith, more) in
        let round = pread_loop-round pread fd n off fuel got w more (d.fine _ _ w) in
        elim (Bool-cases (is_empty b)) [
          | inl empty ↦
              (w', round ∙ rw empty (ap (λ r. some (w', r, none)) (last_round got w f more empty)))
          | inr full ↦
              let (w'', rest) =
                pread_loop-from fuel (got ++ b) w' (next-First got w f more)
                  (omega (arith, less, room, length-append got b, full-length b full)) in
              (w'', round ∙ rw full rest)
        ]
  ]

-- If a descriptor reads some content, each read yields no more bytes than it was asked for, and it
-- yields one at least wherever the content has one left: however short the reads are, the loop ends
-- within as many rounds as the buffer has bytes, and one more, and the buffer holds what `copy_at`
-- takes of the content: all that the content has from that offset on, up to the buffer's size.
pub pread_full-copy_at :
    {W : Type 0} {pread : Pread W} {fd : ℕ} {content : Bytes} (n off : ℕ) (w : W)
    → Delivers pread fd content
    → (w' : W) × (pread_full pread fd n off w ≡ some (w', copy_at content n off, none))
unfolding pread_full copy_at
pread_full-copy_at {W} {pread} {fd} {content} n off w d =
    let (w', e) =
      pread_loop-from d n off (suc n) [] w (record { same = refl; within = omega arith })
        (omega arith) in
    (w', e ∙ ap (λ b. some (w', b, none)) (at_offset n off content))
