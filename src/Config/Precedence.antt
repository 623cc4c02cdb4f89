-- ===== src/Config/Precedence.antt =====
-- What overrides what in internal/config/config.go: Default, then the settings file, then the
-- environment.
use janusfs.Base.{◌≡◌, refl, sym, ◌∙◌, ap, arith, Bool, true, false, ◌&&◌, Option, none, some}
use janusfs.Base.{is_empty, if◌then◌else◌}
use janusfs.Base.Text.{Bytes, codes}
use janusfs.Config.Numbers.{ℤ, parse_int, parse_bool}
use janusfs.Config.{
  Config, Environment, Setting, unset, malformed, given, setting, overlay, and_then, apply_env,
  FileSettings, JsonFile, absent, unreadable, unparsable, holding, apply_file, default_config,
  base_config,
}

-- The variable is unset, empty, or parses.
abbrev pub is_well_formed {ℓ} : {A : Type ℓ} → Setting A → Bool
is_well_formed unset = true
is_well_formed malformed = false
is_well_formed (given v) = true

-- The variable's value, or that of before.
abbrev pub chosen {ℓ} : {A : Type ℓ} → Setting A → A → A
chosen unset old = old
chosen malformed old = old
chosen (given v) old = v

overlay-true {ℓ} :
    {A : Type ℓ} (s : Setting A) (put : A → Config → Config) (old : A) (cfg : Config)
    → put old cfg ≡ cfg
    → is_well_formed s ≡ true
    → overlay s put cfg ≡ (put (chosen s old) cfg, true)
unfolding overlay
overlay-true unset put old cfg same h = ap (λ c. (c, true)) (sym same)
overlay-true malformed put old cfg same h = cc
overlay-true (given v) put old cfg same h = refl

overlay-next {ℓ} :
    {A : Type ℓ} (s : Setting A) (put : A → Config → Config) (old : A) (cfg : Config)
    (next : Config → Config × Bool)
    → put old cfg ≡ cfg
    → is_well_formed s ≡ true
    → and_then (overlay s put cfg) next ≡ next (put (chosen s old) cfg)
unfolding and_then
overlay-next s put old cfg next same h =
    ap (λ p. and_then p next) (overlay-true s put old cfg same h)

overlay-ok {ℓ} :
    {A : Type ℓ} (s : Setting A) (put : A → Config → Config) (cfg : Config)
    → (overlay s put cfg).1 ≡ is_well_formed s
unfolding overlay
overlay-ok unset put cfg = refl
overlay-ok malformed put cfg = refl
overlay-ok (given v) put cfg = refl

-- Whether it goes on does not depend on the configuration.
next-ok {ℓ} :
    {A : Type ℓ} (s : Setting A) (put : A → Config → Config) (cfg : Config)
    (next : Config → Config × Bool) (b : Bool)
    → ((c : Config) → (next c).1 ≡ b)
    → (and_then (overlay s put cfg) next).1 ≡ (is_well_formed s && b)
unfolding and_then overlay
next-ok unset put cfg next b h = h cfg
next-ok malformed put cfg next b h = refl
next-ok (given v) put cfg next b h = h (put v cfg)

module _ (env : Environment) where
  abbrev number : Bytes → Setting ℤ
  number name = setting parse_int (env name)

  abbrev flag : Bytes → Setting Bool
  flag name = setting parse_bool (env name)

  abbrev string : Bytes → Setting Bytes
  string name = setting some (env name)

  -- Every number and flag that is set parses.
  abbrev pub all_well_formed : Bool
  all_well_formed =
      is_well_formed (number (codes "JANUSFS_UI_PORT"))
      && (is_well_formed (number (codes "JANUSFS_CACHE_MAX_BYTES"))
          && (is_well_formed (number (codes "JANUSFS_CACHE_MAX_FILE"))
              && (is_well_formed (number (codes "JANUSFS_HISTORY_RETENTION_DAYS"))
                  && (is_well_formed (flag (codes "JANUSFS_NO_HISTORY"))
                      && (is_well_formed (number (codes "JANUSFS_REDACT_BUFFER_MAX"))
                          && (is_well_formed (string (codes "JANUSFS_MOUNT_ROOT"))
                              && is_well_formed (string (codes "JANUSFS_EXEC_NET"))))))))

  -- The configuration with the variables over it.
  abbrev pub overlaid : Config → Config
  overlaid cfg = record {
    src = cfg.src;
    mountpoint = cfg.mountpoint;
    ui_port = chosen (number (codes "JANUSFS_UI_PORT")) cfg.ui_port;
    cache_max_bytes = chosen (number (codes "JANUSFS_CACHE_MAX_BYTES")) cfg.cache_max_bytes;
    cache_max_file = chosen (number (codes "JANUSFS_CACHE_MAX_FILE")) cfg.cache_max_file;
    history_retention_days =
        chosen (number (codes "JANUSFS_HISTORY_RETENTION_DAYS")) cfg.history_retention_days;
    no_history = chosen (flag (codes "JANUSFS_NO_HISTORY")) cfg.no_history;
    redact_buffer_max = chosen (number (codes "JANUSFS_REDACT_BUFFER_MAX")) cfg.redact_buffer_max;
    mount_root = chosen (string (codes "JANUSFS_MOUNT_ROOT")) cfg.mount_root;
    exec_net = chosen (string (codes "JANUSFS_EXEC_NET")) cfg.exec_net;
  }

  apply_env-ok : (cfg : Config) → (apply_env env cfg).1 ≡ all_well_formed
  unfolding apply_env
  apply_env-ok cfg = next-ok _ _ cfg _ _ (λ c. next-ok _ _ c _ _ (λ c. next-ok _ _ c _ _ (λ c.
      next-ok _ _ c _ _ (λ c.
        next-ok _ _ c _ _
          (λ c. next-ok _ _ c _ _ (λ c. next-ok _ _ c _ _ (λ c. overlay-ok _ _ c)))))))

  apply_env-overlaid :
      (cfg : Config) → all_well_formed ≡ true → apply_env env cfg ≡ (overlaid cfg, true)
  unfolding apply_env
  apply_env-overlaid cfg h =
      overlay-next _ _ cfg.ui_port _ _ refl (ground (arith, h))
      ∙ overlay-next _ _ cfg.cache_max_bytes _ _ refl (ground (arith, h))
      ∙ overlay-next _ _ cfg.cache_max_file _ _ refl (ground (arith, h))
      ∙ overlay-next _ _ cfg.history_retention_days _ _ refl (ground (arith, h))
      ∙ overlay-next _ _ cfg.no_history _ _ refl (ground (arith, h))
      ∙ overlay-next _ _ cfg.redact_buffer_max _ _ refl (ground (arith, h))
      ∙ overlay-next _ _ cfg.mount_root _ _ refl (ground (arith, h))
      ∙ overlay-true _ _ cfg.exec_net _ refl (ground (arith, h))

-- The settings file need not be there, but if it is it must decode.
abbrev pub is_usable : Option Bytes → JsonFile FileSettings → Bool
is_usable none file = true
is_usable (some home) absent = true
is_usable (some home) unreadable = false
is_usable (some home) unparsable = false
is_usable (some home) (holding s) = true

-- The configuration with the settings file over it: an empty field says nothing.
abbrev pub filed : Option Bytes → JsonFile FileSettings → Config → Config
filed none file cfg = cfg
filed (some home) absent cfg = cfg
filed (some home) unreadable cfg = cfg
filed (some home) unparsable cfg = cfg
filed (some home) (holding s) cfg = record cfg {
  mount_root = if is_empty s.mount_root then cfg.mount_root else s.mount_root;
  exec_net = if is_empty s.exec_net then cfg.exec_net else s.exec_net;
}

apply_file-filed :
    (home : Option Bytes) (file : JsonFile FileSettings) (cfg : Config)
    → apply_file home file cfg ≡ (filed home file cfg, is_usable home file)
unfolding apply_file
apply_file-filed none file cfg = refl
apply_file-filed (some home) absent cfg = refl
apply_file-filed (some home) unreadable cfg = refl
apply_file-filed (some home) unparsable cfg = refl
apply_file-filed (some home) (holding s) cfg = refl

-- A configuration that is used only where there was no error.
abbrev pub if_fine : Config × Bool → Option Config
if_fine (cfg, true) = some cfg
if_fine (cfg, false) = none

fine :
    (p : Config × Bool) (c : Config) (b : Bool)
    → p.1 ≡ b
    → (b ≡ true → p ≡ (c, true))
    → if_fine p ≡ (if b then some c else none)
fine (cfg, true) c b e h = rw (sym e) (ap (λ p. some p.0) (h (sym e)))
fine (cfg, false) c b e h = rw (sym e) refl

behind :
    (env : Environment) (b : Bool) (cfg : Config)
    → if_fine (and_then (cfg, b) (apply_env env))
      ≡ (if b && all_well_formed env then some (overlaid env cfg) else none)
unfolding and_then
behind env false cfg = refl
behind env true cfg =
    fine (apply_env env cfg) (overlaid env cfg) (all_well_formed env) (apply_env-ok env cfg)
      (apply_env-overlaid env cfg)

-- Default, then the settings file, then the environment: the daemon's configuration is had exactly
-- if the settings file is absent or decodes and every variable for a number or a flag that is set,
-- and not empty, parses. Then each tunable is its variable's value if there is one, else what the
-- settings file has for it and is not empty, else the default.
pub base_config-overlaid :
    (home : Option Bytes) (file : JsonFile FileSettings) (env : Environment)
    → if_fine (base_config home file env) ≡ (
        if is_usable home file && all_well_formed env
        then some (overlaid env (filed home file (default_config home)))
        else none)
unfolding base_config
base_config-overlaid home file env =
    ap (λ p. if_fine (and_then p (apply_env env)))
      (apply_file-filed home file (default_config home))
    ∙ behind env (is_usable home file) (filed home file (default_config home))
