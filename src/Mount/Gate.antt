-- ===== src/Mount/Gate.antt =====
-- The gates of internal/mount/janus_node.go against what the policy says.
use janusfs.Base.{◌≡◌, refl, ◌∙◌, ap, Bool, true, false, Bool-cases, inl, inr}
use janusfs.Base.Text.{Bytes}
use janusfs.Base.FilePath.{join}
use janusfs.Rules.{Decision, allowed, masked, hidden}
use janusfs.Rules.Resolve.{resolve}
use janusfs.Engine.{answer_of}
use janusfs.Engine.Trusted.{Trusted, resolve_alone-Trusted}
use janusfs.Backing.{Kernel, fstatat, lstat_at, checked, valid_rel}
use janusfs.Mount.{
  eacces, GateClass, deny_non_allowed, deny_hidden, gate, Call, Outside, Mount, JanusNode, observe,
  ask, resolve_node, decision_for, is_directory,
}
use janusfs.Mount.Reply.{
  Response, refused, yielded, Reply, forward, pass, through_gate, gated, on_node, on_child,
}
use janusfs.Mount.Requests.{is_allowed, is_visible, of_node, of_child}

-- A stat leaves the world as it is.
abbrev pub Looks : {W : Type 0} → Kernel W → Type 0
Looks {W} kernel = (rel : Bytes) (follow : Bool) (w : W) → (kernel (fstatat rel follow) w).0 ≡ w

abbrev pub passes : GateClass → Decision → Bool
passes deny_non_allowed d = is_allowed d
passes deny_hidden d = is_visible d

module _ {W : Type 0} (out : Outside W) where
  -- The world and the result of a reply.
  abbrev pub seen : Reply W → W × Response
  seen r = (r.0.world, r.1)

  -- The file system does what it is asked for, or nothing and EACCES.
  abbrev pub outcome : Bool → Call → W → W × Response
  outcome true c w = ((out.loopback c w).0, yielded (out.loopback c w).1)
  outcome false c w = (w, refused eacces)

  pub through_gate-outcome :
      (cls : GateClass) (op path : Bytes) (v d : Decision) (c : Call) (m : Mount W)
      → seen (through_gate out (gate cls v) op path d c m) ≡ outcome (passes cls v) c m.world
  unfolding gate through_gate pass forward observe
  through_gate-outcome deny_non_allowed op path allowed d c m = refl
  through_gate-outcome deny_non_allowed op path masked d c m = refl
  through_gate-outcome deny_non_allowed op path hidden d c m = refl
  through_gate-outcome deny_hidden op path allowed d c m = refl
  through_gate-outcome deny_hidden op path masked d c m = refl
  through_gate-outcome deny_hidden op path hidden d c m = refl

  pub gated-outcome :
      (cls : GateClass) (op path : Bytes) (d : Decision) (c : Call) (m : Mount W)
      → seen (gated out cls op path d c m) ≡ outcome (passes cls d) c m.world
  unfolding gated
  gated-outcome cls op path d = through_gate-outcome cls op path d d

  -- What the engine answers is the verdict of the rules, and the world stays.
  pub record Asked (rel : Bytes) (d : Bool) (m : Mount W) (r : Mount W × Decision) : Type 0 where
    pub verdict : r.1 ≡ (resolve m.engine.rs rel d).decision
    pub world : r.0.world ≡ m.world
    pub rules : r.0.engine.rs ≡ m.engine.rs
    pub trusted : Trusted r.0.engine

  pub ask-Asked :
      (rel : Bytes) (d : Bool) (m : Mount W)
      → Trusted m.engine
      → Asked rel d m ((ask rel d m).0, (ask rel d m).1.decision)
  unfolding ask answer_of
  ask-Asked rel d m h =
      let (same, kept) = resolve_alone-Trusted m.engine rel d h in
      record {
        verdict = ap (λ a. a.decision) same;
        world = refl;
        rules = kept.rules;
        trusted = kept.trusted;
      }

  pub on_node-outcome :
      (cls : GateClass) (op : Bytes) (n : JanusNode) (c : Call) (m : Mount W)
      → Trusted m.engine
      → seen (on_node out cls op n c m) ≡ outcome (passes cls (of_node out m.engine.rs n)) c m.world
  unfolding on_node resolve_node
  on_node-outcome cls op n c m h =
      let a = ask-Asked n.rel_path n.is_dir m h in
      gated-outcome cls op n.rel_path _ c _ ∙ ap (λ d. outcome (passes cls d) c m.world) a.verdict

  module _ (looks : Looks out.kernel) where
    lstat_at-world : (rel : Bytes) (w : W) → (lstat_at out.kernel rel w).0 ≡ w
    unfolding lstat_at checked
    lstat_at-world rel w = elim (Bool-cases (valid_rel rel)) [
      | inl e ↦ rw e (looks rel false w)
      | inr e ↦ rw e refl
    ]

    pub decision_for-Asked :
        (n : JanusNode) (name : Bytes) (m : Mount W)
        → Trusted m.engine
        → Asked
            (join n.rel_path name)
            (is_directory (lstat_at out.kernel (join n.rel_path name) m.world).1)
            m
            (decision_for out n name m)
    unfolding decision_for ask answer_of
    decision_for-Asked n name m h =
        let rel = join n.rel_path name in
        let (same, kept) =
          resolve_alone-Trusted m.engine rel (is_directory (lstat_at out.kernel rel m.world).1) h in
        record {
          verdict = ap (λ a. a.decision) same;
          world = lstat_at-world rel m.world;
          rules = kept.rules;
          trusted = kept.trusted;
        }

    pub on_child-outcome :
        (cls : GateClass) (op : Bytes) (n : JanusNode) (name : Bytes) (c : Call) (m : Mount W)
        → Trusted m.engine
        → seen (on_child out cls op n name c m)
          ≡ outcome (passes cls (of_child out m.engine.rs m.world n name)) c m.world
    unfolding on_child
    on_child-outcome cls op n name c m h =
        let a = decision_for-Asked n name m h in
        gated-outcome cls op n.rel_path _ c _
        ∙ ap (λ d. outcome (passes cls d) c (decision_for out n name m).0.world) a.verdict
        ∙ ap (outcome (passes cls (of_child out m.engine.rs m.world n name)) c) a.world
