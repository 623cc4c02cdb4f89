-- ===== src/Mount/Opening.antt =====
-- Open, Opendir and Readlink of internal/mount/janus_node.go, behind the reload of a stale policy.
use janusfs.Base.{
  ◌≡◌, refl, ◌∙◌, ap, ℕ, Bool, true, false, ◌&&◌, Bool-cases, inl, inr, Option, none, some,
}
use janusfs.Base.{if◌then◌else◌}
use janusfs.Base.Text.{codes}
use janusfs.Rules.{Decision, allowed, masked, hidden, RuleSet}
use janusfs.Engine.{reload_alone}
use janusfs.Engine.Trusted.{Trusted, reload_alone-Trusted}
use janusfs.Engine.Stale.{stale_ancestors}
use janusfs.Mount.{
  eacces, deny_hidden, is_config_file, has_write_intent, open_file, opendir, Outside, Mount,
  JanusNode, observe, resolve_node, reload_found, reload_engine, reload, reload_if, reload_if_stale,
}
use janusfs.Mount.Reply.{Response, refused, masked_handle, refuse, forward, wrapped}
use janusfs.Mount.Ops.{open_decided, open_node, opendir_handle}
use janusfs.Mount.Requests.{is_visible, of_node}
use janusfs.Mount.Gate.{seen, outcome, ask-Asked, on_node-outcome}

-- The rules in force behind the check for a stale policy: those that Discover yields where it is
-- stale and Discover succeeds, and else those of before.
abbrev pub rules_behind : Option Bool → Option RuleSet → RuleSet → RuleSet
rules_behind none found rs = rs
rules_behind (some false) found rs = rs
rules_behind (some true) none rs = rs
rules_behind (some true) (some rs') rs = rs'

module _ {W : Type 0} (out : Outside W) where
  record Refreshed (stale : Option Bool) (m m' : Mount W) : Type 0 where
    rules : m'.engine.rs ≡ rules_behind stale (out.discover m.world) m.engine.rs
    world : m'.world ≡ m.world
    trusted : Trusted m'.engine

  pub found-Refreshed :
      (o : Option RuleSet) (m : Mount W)
      → Trusted m.engine
      → ((reload_found out o m).engine.rs ≡ rules_behind (some true) o m.engine.rs)
        × ((reload_found out o m).world ≡ m.world)
        × Trusted (reload_found out o m).engine
  unfolding reload_found reload_alone
  found-Refreshed none m h = (refl, refl, h)
  found-Refreshed (some rs) m h = (refl, refl, reload_alone-Trusted rs m.engine h)

  reload_if-Refreshed :
      (stale : Option Bool) (m : Mount W)
      → Trusted m.engine
      → Refreshed stale m (reload_if out stale m)
  unfolding reload_if reload reload_engine
  reload_if-Refreshed none m h = record { rules = refl; world = refl; trusted = h }
  reload_if-Refreshed (some false) m h = record { rules = refl; world = refl; trusted = h }
  reload_if-Refreshed (some true) m h =
      let (rules, world, kept) = found-Refreshed (out.discover m.world) m h in
      elim (Bool-cases out.has_reload) [
        | inl e ↦ rw e (record { rules = rules; world = world; trusted = kept })
        | inr e ↦ rw e (record { rules = rules; world = world; trusted = kept })
      ]

  abbrev pub rules_now : JanusNode → Mount W → RuleSet
  rules_now n m =
      rules_behind (stale_ancestors (out.disk m.world) m.engine.rs m.config_fp n.rel_path n.is_dir)
        (out.discover m.world) m.engine.rs

  -- What an open yields by the verdict on the file.
  abbrev pub opened_as : Decision → JanusNode → ℕ → W → W × Response
  opened_as allowed n flags w = (
    (out.loopback (open_file n.rel_path flags) w).0,
    wrapped (out.loopback (open_file n.rel_path flags) w).1,
  )
  opened_as masked n flags w = (w, if has_write_intent flags then refused eacces else masked_handle)
  opened_as hidden n flags w = (w, refused eacces)

  open_decided-outcome :
      (d : Decision) (n : JanusNode) (flags : ℕ) (m : Mount W)
      → seen out (open_decided out n flags d m) ≡ opened_as d n flags m.world
  unfolding open_decided refuse observe forward
  open_decided-outcome allowed n flags m = refl
  open_decided-outcome hidden n flags m = refl
  open_decided-outcome masked n flags m = elim (Bool-cases (has_write_intent flags)) [
    | inl e ↦ rw e refl
    | inr e ↦ rw e refl
  ]

  -- Where the cache of the engine agrees with the rules: an open of a policy file for writing is
  -- refused with EACCES and changes nothing. Any other is decided by the rules in force behind the
  -- check for a stale policy, which are those that Discover yields now if it is stale. Allowed, the
  -- file system is asked for just that open, and its handle is wrapped; masked, an open for
  -- writing gets EACCES, one for reading the handle that redacts, and the file system is not
  -- asked; hidden, it gets EACCES.
  pub open_node-outcome :
      (n : JanusNode) (flags : ℕ) (m : Mount W)
      → Trusted m.engine
      → seen out (open_node out n flags m) ≡ (
          if is_config_file n.rel_path && has_write_intent flags
          then (m.world, refused eacces)
          else opened_as (of_node out (rules_now n m) n) n flags m.world)
  unfolding open_node refuse observe resolve_node reload_if_stale
  open_node-outcome n flags m h =
      elim (Bool-cases (is_config_file n.rel_path && has_write_intent flags)) [
        | inl e ↦ rw e refl
        | inr e ↦
            let m' = reload_if_stale out n m in
            let r : Refreshed _ m m' = reload_if-Refreshed _ m h in
            let a = ask-Asked out n.rel_path n.is_dir m' r.trusted in
            rw e (
              open_decided-outcome _ n flags _
              ∙ ap (λ d. opened_as d n flags m'.world) a.verdict
              ∙ ap (λ rs. opened_as (of_node out rs n) n flags m'.world) r.rules
              ∙ ap (opened_as (of_node out (rules_now n m) n) n flags) r.world)
      ]

  -- Under the same condition, a directory is opened unless the rules in force behind the check for
  -- a stale policy hide it; then the caller gets EACCES and the world is what it was.
  pub opendir_handle-outcome :
      (n : JanusNode) (flags : ℕ) (m : Mount W)
      → Trusted m.engine
      → seen out (opendir_handle out n flags m)
        ≡ outcome out
            (is_visible (of_node out (rules_now n m) n))
            (opendir n.rel_path flags)
            m.world
  unfolding opendir_handle reload_if_stale
  opendir_handle-outcome n flags m h =
      let r : Refreshed _ m (reload_if_stale out n m) = reload_if-Refreshed _ m h in
      on_node-outcome out deny_hidden (codes "readdir") n (opendir n.rel_path flags) _ r.trusted
      ∙ ap
          (λ rs.
            outcome out (is_visible (of_node out rs n)) (opendir n.rel_path flags)
              (reload_if_stale out n m).world)
          r.rules
      ∙ ap (outcome out (is_visible (of_node out (rules_now n m) n)) (opendir n.rel_path flags))
          r.world
