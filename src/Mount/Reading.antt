-- ===== src/Mount/Reading.antt =====
-- Reads and writes through the handles of internal/mount, against the policy of the moment.
use janusfs.Base.{ℕ, ◌≡◌, refl, ◌∙◌, ap, true, Option, none, some, List, if◌then◌else◌, ◌⊎◌}
use janusfs.Base.Text.{Bytes, codes}
use janusfs.Rules.{Decision, allowed, masked, hidden, RuleSet}
use janusfs.Engine.Trusted.{Trusted}
use janusfs.Patterns.{Pattern}
use janusfs.Redact.Stream.{Reader}
use janusfs.Provider.{ContentKey}
use janusfs.Provider.Alone.{opens_file}
use janusfs.Provider.Run.{Op}
use janusfs.Base.FilePath.{join}
use janusfs.Backing.{stat_at}
use janusfs.Mount.{
  eacces, Call, read_file, write_file, Outside, Mount, JanusNode, observe, resolve_node, reload,
  reload_engine,
}
use janusfs.Mount.Reply.{forward}
use janusfs.Mount.Requests.{is_allowed, of_node}
use janusfs.Mount.Gate.{seen, outcome, ask-Asked}
use janusfs.Mount.Opening.{rules_behind, found-Refreshed}
use janusfs.Mount.Handles.{
  Files, ReadResult, read_refused, read_raw, backing_opener, if_still_allowed, revocable_read,
  revocable_write,
}
use janusfs.Mount.Shown.{IsSafe}

module _ {W : Type 0} (out : Outside W) where
  if_still_allowed-outcome :
      (op : Bytes) (n : JanusNode) (d : Decision) (c : Call) (m : Mount W)
      → seen out (if_still_allowed out op n d c m) ≡ outcome out (is_allowed d) c m.world
  unfolding if_still_allowed forward observe
  if_still_allowed-outcome op n allowed c m = refl
  if_still_allowed-outcome op n masked c m = refl
  if_still_allowed-outcome op n hidden c m = refl

  -- The rules behind a reload.
  abbrev pub rules_reloaded : Mount W → RuleSet
  rules_reloaded m = rules_behind (some true) (out.discover m.world) m.engine.rs

  checked-reload :
      (op : Bytes) (n : JanusNode) (c : Call) (m : Mount W)
      → Trusted m.engine
      → seen out (
          if_still_allowed out op n
            (resolve_node n (reload out m)).1.decision
            c
            (resolve_node n (reload out m)).0)
        ≡ outcome out (is_allowed (of_node out (rules_reloaded m) n)) c m.world
  unfolding resolve_node reload reload_engine
  checked-reload op n c m h =
      let (rules, world, kept) = found-Refreshed out (out.discover m.world) m h in
      let m' = reload out m in
      let a = ask-Asked out n.rel_path n.is_dir m' kept in
      if_still_allowed-outcome op n _ c _
      ∙ ap (λ d. outcome out (is_allowed d) c m'.world) a.verdict
      ∙ ap (λ rs. outcome out (is_allowed (of_node out rs n)) c m'.world) rules
      ∙ ap (outcome out (is_allowed (of_node out (rules_reloaded m) n)) c) world

  -- A reload while a handle of an allowed file is open: its next read, and its next write, are
  -- decided by the rules that Discover has yielded, or by those of before if Discover failed. Unless
  -- they allow the file the caller gets EACCES and the file system is not asked; if they do, it is
  -- asked for just that read or write.
  pub revocable-reload :
      (n : JanusNode) (len off : ℕ) (m : Mount W)
      → Trusted m.engine
      → (seen out (revocable_read out n len off (reload out m))
          ≡ outcome out
              (is_allowed (of_node out (rules_reloaded m) n))
              (read_file n.rel_path len off)
              m.world)
        × (seen out (revocable_write out n len off (reload out m))
            ≡ outcome out
                (is_allowed (of_node out (rules_reloaded m) n))
                (write_file n.rel_path len off)
                m.world)
  unfolding revocable_read revocable_write
  revocable-reload n len off m h = (
    checked-reload (codes "read") n (read_file n.rel_path len off) m h,
    checked-reload (codes "write") n (write_file n.rel_path len off) m h,
  )

  module _ (files : Files W) where
    -- The file that the provider can open, behind the stat; it need not open one.
    abbrev pub CanOpen : JanusNode → Mount W → Option Reader → Type 0
    CanOpen n m file =
        (file ≡ none)
        ⊎ (file ≡ (backing_opener out files n (stat_at out.kernel n.rel_path m.world).0).1)

    -- What a read of a masked handle comes to, by the verdict of the moment.
    abbrev pub ReadsAs :
        List Op
        → Decision
        → List Pattern
        → JanusNode
        → ℕ
        → ℕ
        → Mount W
        → Option (Mount W × ReadResult)
        → Type 0
    ReadsAs log hidden pats n len off m o =
        (m' : Mount W) × (o ≡ some (m', read_refused eacces)) × (m'.world ≡ m.world)
    ReadsAs log masked pats n len off m o =
        (m' : Mount W) × (r : ReadResult) × (file : Option Reader) × (o ≡ some (m', r))
        × CanOpen n m file
        × IsSafe log (join out.root_path n.rel_path) file pats len off r
    ReadsAs log allowed pats n len off m o = o ≡ read_raw out files n len off m

    -- The file that the provider opens, if it does.
    abbrev file_read : JanusNode → List Pattern → Mount W → Option ContentKey → Option Reader
    file_read n pats m none = none
    file_read n pats m (some key) =
        (if opens_file key pats m.cache
          then backing_opener out files n m.world
          else (m.world, none)).1

    -- The key is for the path of the file.
    IsNamed : JanusNode → Option ContentKey → Type 0
    IsNamed n none = Unit
    IsNamed n (some key) = key.path ≡ join out.root_path n.rel_path
