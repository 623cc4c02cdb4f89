-- ===== src/History/Conserved.antt =====
-- No event of internal/history/store.go is stored twice or lost but by a transaction that failed.
use janusfs.Base.{ℕ, zero, suc, ◌+◌, ◌≡◌, refl, ap, arith, Bool, true, false, Bool-cases, inl, inr}
use janusfs.Base.{List, [], ◌∷◌, ◌++◌, if◌then◌else◌, is_empty, length, leb, map}
use janusfs.History.{
  OpEvent, OpRow, Writer, waiting, ended, writing, ending, Store, batch_max, flush, record_event,
  on_tick, end_session, on_close, take_flight, StoreMove, recorded, flushed, ticked, seen_close,
  written, closing, writer_ticked, writer_closed, writer_written, move, moves,
}

module _ (p : OpEvent → Bool) where
  -- How many of the events the test holds of.
  abbrev pub tally : List OpEvent → ℕ
  tally [] = 0
  tally (e ∷ es) = (if p e then 1 else 0) + tally es

  abbrev pub tally_rows : List OpRow → ℕ
  tally_rows [] = 0
  tally_rows (r ∷ rs) = (if p r.event then 1 else 0) + tally_rows rs

  abbrev pub tally_flights : List (List OpEvent) → ℕ
  tally_flights [] = 0
  tally_flights (b ∷ bs) = tally b + tally_flights bs

  abbrev pub tally_writer : Writer → ℕ
  tally_writer waiting = 0
  tally_writer ended = 0
  tally_writer (writing es) = tally es
  tally_writer (ending es) = tally es

  -- All that the store has of them: stored, dropped, on the way or in the buffer.
  abbrev pub held : Store → ℕ
  held s =
      tally_rows s.rows
      + tally s.dropped
      + tally_flights s.flights
      + tally_writer s.writer
      + tally s.buf

  abbrev pub tally_moves : List StoreMove → ℕ
  tally_moves [] = 0
  tally_moves (recorded e ∷ ms) = (if p e then 1 else 0) + tally_moves ms
  tally_moves (flushed n now b ∷ ms) = tally_moves ms
  tally_moves (ticked ∷ ms) = tally_moves ms
  tally_moves (seen_close ∷ ms) = tally_moves ms
  tally_moves (written now b ∷ ms) = tally_moves ms
  tally_moves (closing ∷ ms) = tally_moves ms

  pub tally-append : (xs ys : List OpEvent) → tally (xs ++ ys) ≡ tally xs + tally ys
  tally-append [] ys = omega arith
  tally-append (x ∷ xs) ys = omega (arith, tally-append xs ys)

  tally_rows-append : (xs ys : List OpRow) → tally_rows (xs ++ ys) ≡ tally_rows xs + tally_rows ys
  tally_rows-append [] ys = omega arith
  tally_rows-append (x ∷ xs) ys = omega (arith, tally_rows-append xs ys)

  tally_flights-append :
      (xs ys : List (List OpEvent)) → tally_flights (xs ++ ys) ≡ tally_flights xs + tally_flights ys
  tally_flights-append [] ys = omega arith
  tally_flights-append (x ∷ xs) ys = omega (arith, tally_flights-append xs ys)

  tally_rows-map :
      (now : ℕ) (es : List OpEvent)
      → tally_rows (map (λ e. record { ts = now; event = e }) es) ≡ tally es
  tally_rows-map now [] = refl
  tally_rows-map now (e ∷ es) = ap (λ n. (if p e then 1 else 0) + n) (tally_rows-map now es)

  take_flight-tally :
      (n : ℕ) (bs : List (List OpEvent))
      → tally_flights bs ≡ tally (take_flight n bs).0 + tally_flights (take_flight n bs).1
  take_flight-tally n [] = omega arith
  take_flight-tally zero (b ∷ bs) = refl
  take_flight-tally (suc n) (b ∷ bs) = omega (arith, take_flight-tally n bs)

  flush-held :
      (now : ℕ) (fine : Bool) (es : List OpEvent) (s : Store)
      → held (flush now fine es s) ≡ tally es + held s
  unfolding flush
  flush-held now true es s = omega (
    arith,
    tally_rows-append s.rows (map (λ e. record { ts = now; event = e }) es),
    tally_rows-map now es,
  )
  flush-held now false es s = omega (arith, tally-append s.dropped es)

  flush-writer :
      (now : ℕ) (fine : Bool) (es : List OpEvent) (s : Store)
      → (flush now fine es s).writer ≡ s.writer
  unfolding flush
  flush-writer now true es s = refl
  flush-writer now false es s = refl

  end_session-held : (s : Store) → held s ≡ tally_writer s.writer + held (end_session s)
  unfolding end_session
  end_session-held s = omega arith

  record_event-held :
      (e : OpEvent) (s : Store) → held (record_event e s) ≡ (if p e then 1 else 0) + held s
  unfolding record_event
  record_event-held e s = elim (Bool-cases (leb batch_max (length (s.buf ++ (e ∷ []))))) [
    | inl full ↦ rw full (
        omega (
          arith,
          tally-append s.buf (e ∷ []),
          tally_flights-append s.flights ((s.buf ++ (e ∷ [])) ∷ []),
        ))
    | inr room ↦ rw room (omega (arith, tally-append s.buf (e ∷ [])))
  ]

  on_tick-held : (s : Store) → s.writer ≡ waiting → held (on_tick s) ≡ held s
  unfolding on_tick
  on_tick-held s w = elim (Bool-cases (is_empty s.buf)) [
    | inl none_there ↦ rw none_there refl
    | inr some_there ↦ rw some_there (omega (arith, ap tally_writer w))
  ]

  on_close-held : (s : Store) → s.writer ≡ waiting → held (on_close s) ≡ held s
  unfolding on_close
  on_close-held s w = elim (Bool-cases (is_empty s.buf)) [
    | inl none_there ↦ rw none_there (omega (arith, ap tally_writer w, end_session-held s))
    | inr some_there ↦ rw some_there (omega (arith, ap tally_writer w))
  ]

  writer_ticked-held : (w : Writer) (s : Store) → s.writer ≡ w → held (writer_ticked w s) ≡ held s
  unfolding writer_ticked
  writer_ticked-held waiting s e = on_tick-held s e
  writer_ticked-held ended s e = refl
  writer_ticked-held (writing es) s e = refl
  writer_ticked-held (ending es) s e = refl

  writer_closed-held :
      (w : Writer) (b : Bool) (s : Store) → s.writer ≡ w → held (writer_closed w b s) ≡ held s
  unfolding writer_closed
  writer_closed-held waiting true s e = on_close-held s e
  writer_closed-held waiting false s e = refl
  writer_closed-held ended b s e = refl
  writer_closed-held (writing es) b s e = refl
  writer_closed-held (ending es) b s e = refl

  writer_written-held :
      (w : Writer) (now : ℕ) (fine : Bool) (s : Store)
      → s.writer ≡ w
      → held (writer_written w now fine s) ≡ held s
  unfolding writer_written
  writer_written-held waiting now fine s e = refl
  writer_written-held ended now fine s e = refl
  writer_written-held (writing es) now fine s e =
      omega (arith, flush-held now fine es (record s { writer = waiting }), ap tally_writer e)
  writer_written-held (ending es) now fine s e = omega (
    arith,
    flush-held now fine es s,
    end_session-held (flush now fine es s),
    ap tally_writer (flush-writer now fine es s),
    ap tally_writer e,
  )

  move-held : (m : StoreMove) (s : Store) → held (move m s) ≡ tally_moves (m ∷ []) + held s
  unfolding move
  move-held (recorded e) s = omega (arith, record_event-held e s)
  move-held (flushed n now fine) s = omega (
    arith,
    flush-held now fine (take_flight n s.flights).0
        (record s { flights = (take_flight n s.flights).1 }),
    take_flight-tally n s.flights,
  )
  move-held ticked s = omega (arith, writer_ticked-held s.writer s refl)
  move-held seen_close s = omega (arith, writer_closed-held s.writer s.closed s refl)
  move-held (written now fine) s = omega (arith, writer_written-held s.writer now fine s refl)
  move-held closing s = omega arith

  pub tally_moves-cons :
      (m : StoreMove) (ms : List StoreMove)
      → tally_moves (m ∷ ms) ≡ tally_moves (m ∷ []) + tally_moves ms
  tally_moves-cons (recorded e) ms = omega arith
  tally_moves-cons (flushed n now b) ms = omega arith
  tally_moves-cons ticked ms = omega arith
  tally_moves-cons seen_close ms = omega arith
  tally_moves-cons (written now b) ms = omega arith
  tally_moves-cons closing ms = omega arith

  -- Whatever calls of Record, ticks, ends of flushes and Close come in whatever order, and whichever
  -- transactions fail: of every kind of event, told by a test, the number that the store holds is
  -- the number that it held at first and that was recorded since. So each event is in one place: in
  -- the table, in a transaction that failed, on its way in a flush, or in the buffer.
  pub moves-held : (ms : List StoreMove) (s : Store) → held (moves ms s) ≡ tally_moves ms + held s
  unfolding moves
  moves-held [] s = omega arith
  moves-held (m ∷ ms) s =
      omega (arith, moves-held ms (move m s), move-held m s, tally_moves-cons m ms)
