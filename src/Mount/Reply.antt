-- ===== src/Mount/Reply.antt =====
-- What the handlers of internal/mount/janus_node.go share: their results, and the gate with the call
-- behind it.
use janusfs.Base.{Bool, true, false, ◌||◌, ◌&&◌, not, Option, none, some, [], ◌∷◌, ◌++◌}
use janusfs.Base.{if◌then◌else◌, is_empty}
use janusfs.Base.Text.{Bytes, codes, eq, has_prefix}
use janusfs.Base.FilePath.{slash, dot, join, clean, dir_of, is_rooted}
use janusfs.Rules.{Decision}
use janusfs.Mount.{
  Errno, eacces, enoent, GateClass, gate, Call, Yield, failed, finished, opened, text, names, Label,
  of_decision, Outside, Mount, JanusNode, observe, resolve_node, decision_for,
}

-- What a handler returns.
pub data Response : Type 0 where
  refused : Errno → Response
  yielded : Yield → Response
  -- The handles of `Open`: `maskedHandle` and `revocableHandle`.
  masked_handle revocable_handle : Response
  -- The synthetic directory `.janusfs`.
  virtual_directory : Response

abbrev pub Reply : Type 0 → Type 0
Reply W = Mount W × Response

abbrev pub virtual_name : Bytes
virtual_name = codes ".janusfs"

-- `n.relPath() == "" || n.relPath() == "."`.
unfoldable pub is_root : JanusNode → Bool
is_root n = is_empty n.rel_path || eq n.rel_path dot

-- `escapesRoot`.
unfoldable pub escapes_root : Bytes → Bytes → Bytes → Bool
unfolding clean join dir_of
escapes_root root link_path target =
    let resolved = clean (if is_rooted target then target else join (dir_of link_path) target) in
    not (eq resolved (clean root)) && not (has_prefix resolved (clean root ++ (slash ∷ [])))

-- The symlink's text, unless it leads out of the root.
unfoldable pub checked_link : Bytes → Bytes → Yield → Response
unfolding escapes_root
checked_link root link_path (text target) =
    if escapes_root root link_path target then refused enoent else yielded (text target)
checked_link root link_path (failed e) = yielded (failed e)
checked_link root link_path finished = yielded finished
checked_link root link_path (opened b) = yielded (opened b)
checked_link root link_path (names ns) = yielded (names ns)

-- The listing of the root, with the synthetic directory behind it.
unfoldable pub with_virtual : Yield → Yield
with_virtual (names ns) = names (ns ++ (virtual_name ∷ []))
with_virtual (failed e) = failed e
with_virtual finished = finished
with_virtual (opened b) = opened b
with_virtual (text s) = text s

-- The handle that `Open` wraps, if it is a LoopbackFile.
unfoldable pub wrapped : Yield → Response
wrapped (opened true) = revocable_handle
wrapped (opened false) = yielded (opened false)
wrapped (failed e) = yielded (failed e)
wrapped finished = yielded finished
wrapped (text s) = yielded (text s)
wrapped (names ns) = yielded (names ns)

module _ {W : Type 0} (out : Outside W) where
  unfoldable pub forward : Call → Mount W → Mount W × Yield
  forward c m = (record m { world = (out.loopback c m.world).0 }, (out.loopback c m.world).1)

  -- The event at the end, as `defer` leaves it.
  unfoldable pub refuse : Bytes → Bytes → Label → Mount W → Reply W
  unfolding observe
  refuse op path label m = (observe op path label 0 m, refused eacces)

  unfoldable pub pass : Bytes → Bytes → Label → Call → Mount W → Reply W
  unfolding observe forward
  pass op path label c m = (observe op path label 0 (forward c m).0, yielded (forward c m).1)

  -- The gate of the decision, and the call behind it.
  unfoldable pub through_gate : Option Errno → Bytes → Bytes → Decision → Call → Mount W → Reply W
  unfolding observe pass
  through_gate (some e) op path d c m = (observe op path (of_decision d) 0 m, refused e)
  through_gate none op path d c m = pass op path (of_decision d) c m

  unfoldable pub gated : GateClass → Bytes → Bytes → Decision → Call → Mount W → Reply W
  unfolding gate through_gate
  gated cls op path d c m = through_gate (gate cls d) op path d c m

  -- An operation on the node itself.
  unfoldable pub on_node : GateClass → Bytes → JanusNode → Call → Mount W → Reply W
  unfolding resolve_node gated
  on_node cls op n c m =
      gated cls op n.rel_path (resolve_node n m).1.decision c (resolve_node n m).0

  -- An operation on a name below the node.
  unfoldable pub on_child : GateClass → Bytes → JanusNode → Bytes → Call → Mount W → Reply W
  unfolding decision_for gated
  on_child cls op n name c m =
      gated cls op n.rel_path (decision_for out n name m).1 c (decision_for out n name m).0
