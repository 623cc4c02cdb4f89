-- ===== src/Tests/HistoryRuns.antt =====
-- Concrete runs of the history store.
use janusfs.Base.{◌≡◌, refl, ◌+◌, Bool, false, List, [], ◌∷◌, ◌++◌}
use janusfs.Base.Text.{Bytes, codes, eq}
use janusfs.History.{
  OpEvent, Store, StoreMove, recorded, ticked, written, closing, open_store, moves,
}
use janusfs.History.Conserved.{held, tally_moves, moves-held}
use janusfs.History.Drained.{Drained}

abbrev event : Bytes → OpEvent
event path = record {
  path = path;
  op = codes "read";
  decision = codes "MASKED";
  bytes = 4;
  latency_us = 9;
}

-- The flush of the first event fails, the second is written, the third waits in the buffer.
abbrev some_moves : List StoreMove
some_moves =
    recorded (event (codes "a"))
    ∷ ticked
    ∷ recorded (event (codes "b"))
    ∷ written 7 false
    ∷ ticked
    ∷ recorded (event (codes "b"))
    ∷ []

abbrev is_b : OpEvent → Bool
is_b e = eq e.path (codes "b")

moves-held_example :
    held is_b (moves some_moves (open_store [] []))
    ≡ tally_moves is_b some_moves + held is_b (open_store [] [])
moves-held_example = moves-held is_b some_moves (open_store [] [])

moves_run : held is_b (moves some_moves (open_store [] [])) ≡ 2
unfolding moves open_store
moves_run = refl

-- Close is called while the third event waits; a fourth one comes before the writer has seen it, a
-- fifth one behind that.
abbrev at_close : Store
at_close = moves (some_moves ++ (closing ∷ [])) (open_store [] [])
