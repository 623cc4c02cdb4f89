-- ===== src/Config/Registry.antt =====
-- The registry of mounts of internal/config/config.go: LoadMounts, saveMounts, RecordMount and
-- RemoveMount, on the file that holds it. How the write of the file ends comes with the call.
pub mod View
pub mod Refinement
use janusfs.Base.{Bool, true, false, not, Option, none, some}
use janusfs.Base.{List, [], ◌∷◌, if◌then◌else◌, map}
use janusfs.Base.Text.{Bytes, eq}
use janusfs.Config.{JsonFile, absent, unreadable, unparsable, holding}

pub record MountRecord : Type 0 where
  pub src : Bytes
  pub mountpoint : Bytes
  pub label : Bytes

-- `LoadMounts`; `none` is an error.
unfoldable pub load_mounts : JsonFile (List MountRecord) → Option (List MountRecord)
load_mounts absent = some []
load_mounts unreadable = none
load_mounts unparsable = none
load_mounts (holding rs) = some rs

-- The loop of `RecordMount`, with the append behind it.
unfoldable pub upsert : Bytes → Bytes → Bytes → List MountRecord → List MountRecord
upsert src mountpoint label [] = record { src = src; mountpoint = mountpoint; label = label } ∷ []
upsert src mountpoint label (r ∷ rs) =
    let rest = upsert src mountpoint label rs in
    if eq r.mountpoint mountpoint then record r { src = src; label = label } ∷ rs else r ∷ rest

-- The loop of `RemoveMount`.
unfoldable pub remove_record : Bytes → List MountRecord → List MountRecord
remove_record mountpoint [] = []
remove_record mountpoint (r ∷ rs) =
    let rest = remove_record mountpoint rs in
    if not (eq r.mountpoint mountpoint) then r ∷ rest else rest

-- A change of what was loaded.
unfoldable pub on_records :
    (List MountRecord → List MountRecord) → Option (List MountRecord) → Option (List MountRecord)
on_records f none = none
on_records f (some rs) = some (f rs)

-- How `os.WriteFile` ends, which empties the file when it opens it. The data are a JSON value and a
-- newline, and no proper beginning of the value is JSON: a write that stops within it leaves a file
-- that does not parse, and one that fails behind it the whole value.
pub data WriteEnd : Type 0 where
  done not_opened stopped_within failed_behind : WriteEnd

module _ (coded : Bytes → Bytes) where
  -- A record as it comes back from JSON, where `coded` is what becomes of a string: encoding/json
  -- replaces what is not valid UTF-8.
  unfoldable pub coded_record : MountRecord → MountRecord
  coded_record r = record {
    src = coded r.src;
    mountpoint = coded r.mountpoint;
    label = coded r.label;
  }

  -- `saveMounts`, with whether it reports no error. Where the directory cannot be made the file is
  -- not opened.
  unfoldable pub save_mounts :
      WriteEnd → List MountRecord → JsonFile (List MountRecord) → JsonFile (List MountRecord) × Bool
  unfolding coded_record
  save_mounts done rs file = (holding (map coded_record rs), true)
  save_mounts not_opened rs file = (file, false)
  save_mounts stopped_within rs file = (unparsable, false)
  save_mounts failed_behind rs file = (holding (map coded_record rs), false)

  -- What an operation saves; `none` is an error of the load.
  unfoldable pub saved :
      WriteEnd
      → Option (List MountRecord)
      → JsonFile (List MountRecord)
      → JsonFile (List MountRecord) × Bool
  unfolding save_mounts
  saved w none file = (file, false)
  saved w (some rs) file = save_mounts w rs file

  unfoldable pub record_mount :
      WriteEnd
      → Bytes
      → Bytes
      → Bytes
      → JsonFile (List MountRecord)
      → JsonFile (List MountRecord) × Bool
  unfolding load_mounts upsert on_records saved
  record_mount w src mountpoint label file =
      saved w (on_records (upsert src mountpoint label) (load_mounts file)) file

  unfoldable pub remove_mount :
      WriteEnd → Bytes → JsonFile (List MountRecord) → JsonFile (List MountRecord) × Bool
  unfolding load_mounts remove_record on_records saved
  remove_mount w mountpoint file =
      saved w (on_records (remove_record mountpoint) (load_mounts file)) file
