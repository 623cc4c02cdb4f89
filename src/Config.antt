-- ===== src/Config.antt =====
-- internal/config/config.go: the tunables and what overrides them, the preconditions of a mount, and
-- the registry of mounts. The environment, the home directory and what the disk says of a path are
-- parameters; a JSON file is what it decodes to.
pub mod Numbers
pub mod Precedence
pub mod Registry
pub mod Preconditions
use janusfs.Base.{ℕ, Bool, true, false, ◌||◌, ◌&&◌, not, Option, none, some, ◌^◌, ◌*◌, ◌-◌}
use janusfs.Base.{List, [], ◌∷◌, ◌++◌, if◌then◌else◌, is_empty, ◌==◌}
use janusfs.Base.Text.{Bytes, codes, eq, has_prefix}
use janusfs.Base.FilePath.{slash, join}
use janusfs.Config.Numbers.{ℤ, pos, negsuc, parse_int, parse_bool}

pub record Config : Type 0 where
  pub src : Bytes
  pub mountpoint : Bytes
  pub ui_port : ℤ
  pub cache_max_bytes : ℤ
  pub cache_max_file : ℤ
  pub history_retention_days : ℤ
  pub no_history : Bool
  pub redact_buffer_max : ℤ
  pub mount_root : Bytes
  pub exec_net : Bytes

-- `DefaultMountRoot`, by the home directory.
unfoldable pub default_mount_root : Option Bytes → Bytes
unfolding join
default_mount_root none = []
default_mount_root (some home) = join home (codes ".janusfs/mounts")

-- `Default`.
unfoldable pub default_config : Option Bytes → Config
unfolding default_mount_root
default_config home = record {
  src = [];
  mountpoint = [];
  ui_port = pos 7381;
  cache_max_bytes = pos (256 * 1024 * 1024);
  cache_max_file = pos (64 * 1024 * 1024);
  history_retention_days = pos 30;
  no_history = false;
  redact_buffer_max = pos (512 * 1024 * 1024);
  mount_root = default_mount_root home;
  exec_net = codes "host";
}

-- `os.LookupEnv`.
abbrev pub Environment : Type 0
Environment = Bytes → Option Bytes

-- What a variable says of a tunable.
pub data Setting {ℓ} (A : Type ℓ) : Type ℓ where
  unset malformed : Setting A
  given : A → Setting A

-- The value of a variable that is set and not empty.
unfoldable pub setting {ℓ} : {A : Type ℓ} → (Bytes → Option A) → Option Bytes → Setting A
setting parse none = unset
setting parse (some s) =
    if is_empty s then unset else elim (parse s) [ none ↦ malformed | some v ↦ given v ]

-- A step of ApplyEnv: the configuration, and whether it goes on.
unfoldable pub overlay {ℓ} :
    {A : Type ℓ} → Setting A → (A → Config → Config) → Config → Config × Bool
overlay unset put cfg = (cfg, true)
overlay malformed put cfg = (cfg, false)
overlay (given v) put cfg = (put v cfg, true)

unfoldable pub and_then : Config × Bool → (Config → Config × Bool) → Config × Bool
and_then (cfg, false) next = (cfg, false)
and_then (cfg, true) next = next cfg

-- `ApplyEnv`: `false` is an error, behind which the fields before it are set.
unfoldable pub apply_env : Environment → Config → Config × Bool
apply_env env cfg =
    and_then
      (overlay (setting parse_int (env (codes "JANUSFS_UI_PORT"))) (λ v c. record c { ui_port = v })
        cfg)
      (λ c.
        and_then
          (overlay (setting parse_int (env (codes "JANUSFS_CACHE_MAX_BYTES")))
            (λ v c. record c { cache_max_bytes = v }) c)
          (λ c.
            and_then
              (overlay (setting parse_int (env (codes "JANUSFS_CACHE_MAX_FILE")))
                (λ v c. record c { cache_max_file = v }) c)
              (λ c.
                and_then
                  (overlay (setting parse_int (env (codes "JANUSFS_HISTORY_RETENTION_DAYS")))
                    (λ v c. record c { history_retention_days = v }) c)
                  (λ c.
                    and_then
                      (overlay (setting parse_bool (env (codes "JANUSFS_NO_HISTORY")))
                        (λ v c. record c { no_history = v }) c)
                      (λ c.
                        and_then
                          (overlay (setting parse_int (env (codes "JANUSFS_REDACT_BUFFER_MAX")))
                            (λ v c. record c { redact_buffer_max = v }) c)
                          (λ c.
                            and_then
                              (overlay (setting some (env (codes "JANUSFS_MOUNT_ROOT")))
                                (λ v c. record c { mount_root = v }) c)
                              (λ c.
                                overlay (setting some (env (codes "JANUSFS_EXEC_NET")))
                                  (λ v c. record c { exec_net = v }) c)))))))

-- `fileSettings`.
pub record FileSettings : Type 0 where
  pub mount_root : Bytes
  pub exec_net : Bytes

-- A file of JSON, and what it decodes to.
pub data JsonFile {ℓ} (A : Type ℓ) : Type ℓ where
  absent unreadable unparsable : JsonFile A
  holding : A → JsonFile A

-- `ApplyFile`: without a home directory, or without the file, nothing is changed.
unfoldable pub apply_file : Option Bytes → JsonFile FileSettings → Config → Config × Bool
apply_file none file cfg = (cfg, true)
apply_file (some home) absent cfg = (cfg, true)
apply_file (some home) unreadable cfg = (cfg, false)
apply_file (some home) unparsable cfg = (cfg, false)
apply_file (some home) (holding s) cfg = (
  record cfg {
    mount_root = if is_empty s.mount_root then cfg.mount_root else s.mount_root;
    exec_net = if is_empty s.exec_net then cfg.exec_net else s.exec_net;
  },
  true,
)

-- What the daemon starts from: Default, ApplyFile and ApplyEnv.
unfoldable pub base_config : Option Bytes → JsonFile FileSettings → Environment → Config × Bool
unfolding default_config apply_file
base_config home file env = and_then (apply_file home file (default_config home)) (apply_env env)

-- `SaveSettings`, where the directory and the file can be written; the other field is left empty.
unfoldable pub save_settings :
    Option Bytes → Bytes → JsonFile FileSettings → JsonFile FileSettings × Bool
save_settings none root file = (file, false)
save_settings (some home) root file = (holding (record { mount_root = root; exec_net = [] }), true)
