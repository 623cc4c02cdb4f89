-- ===== src/Rules/Resolve/Decide.antt =====
-- The decision of `Resolve`, told without its loops.
use janusfs.Base.{◌≡◌, refl, ◌∙◌, Bool, true, false, ◌||◌, List, [], ◌∷◌}
use janusfs.Base.{arith, any, if◌then◌else◌, Bool-cases, inl, inr, none}
use janusfs.Base.Text.{Bytes}
use janusfs.Rules.{Decision, allowed, masked, hidden, RuleSet}
use janusfs.Rules.Trace.{TraceEntry, no_ref}
use janusfs.Rules.Ignore.{resolve_ignore}
use janusfs.Rules.Mask.{MaskState, mask_loop}
use janusfs.Rules.Mask.Entries.{
  in_level, gives_some, is_broken, nonempty, spoiled, mask_loop-grows, nonempty-Grows,
  spoiled-Grows,
}
use janusfs.Rules.Resolve.{
  conclude, resolve_mask, resolve_self, resolve_from, resolve, normalize, ancestors,
}

abbrev pub hides : RuleSet → Bool → Bytes → Bool
hides rs is_dir p = (resolve_ignore rs p is_dir).is_hidden

-- What the mask levels say of a file.
abbrev pub mask_decision : RuleSet → Bytes → Decision
mask_decision rs p =
    if any (in_level rs p is_broken) rs.mask_levels
    then hidden
    else if any (in_level rs p gives_some) rs.mask_levels
    then masked
    else allowed

abbrev pub decision_of : RuleSet → Bytes → Bool → Decision
decision_of rs p is_dir =
    if any (hides rs true) (ancestors p) || hides rs is_dir p
    then hidden
    else if is_dir
    then allowed
    else mask_decision rs p

conclude-decision :
    (st : MaskState)
    → (conclude st).decision
      ≡ (if spoiled st then hidden else if nonempty st then masked else allowed)
unfolding conclude
conclude-decision st = ground arith

pub resolve_mask-decision :
    (rs : RuleSet) (p : Bytes) (t : List TraceEntry)
    → (resolve_mask rs p t).decision ≡ mask_decision rs p
unfolding resolve_mask
resolve_mask-decision rs p t =
    conclude-decision (mask_loop rs p rs.mask_levels first)
    ∙ rw (
      mask_loop-grows spoiled is_broken spoiled-Grows rs p rs.mask_levels first,
      mask_loop-grows nonempty gives_some nonempty-Grows rs p rs.mask_levels first,
    )
  where
    first : MaskState
    first = record { pats = []; mask_ref = no_ref; poisoned_ref = none; trace = t }

resolve_self-decision :
    (rs : RuleSet) (p : Bytes) (is_dir : Bool)
    → (resolve_self rs p is_dir).decision
      ≡ (if hides rs is_dir p then hidden else if is_dir then allowed else mask_decision rs p)
unfolding resolve_self
resolve_self-decision rs p is_dir = elim (Bool-cases (hides rs is_dir p)) [
  | inl h ↦ rw h
  | inr h ↦ rw h (go is_dir)
]
  where
    go :
        (d : Bool)
        → (if d
            then record {
              decision = allowed;
              rule_ref = no_ref;
              pattern_names = [];
              patterns = [];
              poisoned = false;
              trace = (resolve_ignore rs p is_dir).trace;
            }
            else resolve_mask rs p (resolve_ignore rs p is_dir).trace).decision
          ≡ (if d then allowed else mask_decision rs p)
    go true = refl
    go false = resolve_mask-decision rs p (resolve_ignore rs p is_dir).trace

resolve_from-decision :
    (rs : RuleSet) (p : Bytes) (is_dir : Bool) (as' : List Bytes)
    → (resolve_from rs p is_dir as').decision ≡ (
        if any (hides rs true) as' || hides rs is_dir p
        then hidden
        else if is_dir
        then allowed
        else mask_decision rs p)
unfolding resolve_from
resolve_from-decision rs p is_dir [] = resolve_self-decision rs p is_dir
resolve_from-decision rs p is_dir (a ∷ as') = elim (Bool-cases (hides rs true a)) [
  | inl h ↦ rw h
  | inr h ↦ rw h (resolve_from-decision rs p is_dir as')
]

pub resolve-decision :
    (rs : RuleSet) (rel_path : Bytes) (is_dir : Bool)
    → (resolve rs rel_path is_dir).decision ≡ decision_of rs (normalize rel_path) is_dir
unfolding resolve
resolve-decision rs rel_path is_dir =
    resolve_from-decision rs (normalize rel_path) is_dir (ancestors (normalize rel_path))
