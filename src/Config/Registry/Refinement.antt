-- ===== src/Config/Registry/Refinement.antt =====
-- The registry of internal/config/config.go implements a partial map from mountpoints.
use janusfs.Base.{◌≡◌, refl, ◌∙◌, ap, Bool, true, false, Bool-cases, inl, inr, Option, none, some}
use janusfs.Base.{List, [], ◌∷◌, if◌then◌else◌, map, All}
use janusfs.Base.Text.{Bytes, eq}
use janusfs.Config.{JsonFile, holding}
use janusfs.Config.Registry.{
  MountRecord, WriteEnd, done, not_opened, stopped_within, failed_behind, coded_record, load_mounts,
  upsert, remove_record, save_mounts, saved, on_records, record_mount, remove_mount,
}
use janusfs.Config.Registry.View.{
  RegistryOp, MountMap, after, view, Unique, view-upsert, view-remove_record, upsert-Unique,
  remove_record-Unique, recorded, removed,
}

-- The specification of a call, by how its write ends: the map behind it, or that the file is
-- damaged, and whether it reports no error. A damaged registry stays so.
abbrev pub spec_step : WriteEnd → RegistryOp → Option MountMap → Option MountMap × Bool
spec_step w op none = (none, false)
spec_step done op (some reg) = (some (after reg op), true)
spec_step not_opened op (some reg) = (some reg, false)
spec_step stopped_within op (some reg) = (none, false)
spec_step failed_behind op (some reg) = (some (after reg op), false)

-- The state behind a sequence of calls, and what each of them has reported.
abbrev pub run_calls :
    {S : Type 0}
    → (WriteEnd → RegistryOp → S → S × Bool)
    → List (WriteEnd × RegistryOp)
    → S
    → S × List Bool
run_calls step [] s = (s, [])
run_calls step ((w, op) ∷ ops) s =
    let (s', reported) = step w op s in
    let (at_end, rest) = run_calls step ops s' in (at_end, reported ∷ rest)

module _ (coded : Bytes → Bytes) where
  abbrev pub stored :
      WriteEnd → RegistryOp → JsonFile (List MountRecord) → JsonFile (List MountRecord) × Bool
  stored w (recorded src mp label) = record_mount coded w src mp label
  stored w (removed mp) = remove_mount coded w mp

  -- The strings come back from JSON as they are.
  pub record Survives (r : MountRecord) : Type 0 where
    pub src_kept : coded r.src ≡ r.src
    pub mountpoint_kept : coded r.mountpoint ≡ r.mountpoint
    pub label_kept : coded r.label ≡ r.label

  abbrev pub OpSurvives : RegistryOp → Type 0
  OpSurvives (recorded src mp label) =
      Survives (record { src = src; mountpoint = mp; label = label })
  OpSurvives (removed mp) = Unit

  -- The file decodes to records that stand for the map.
  pub record Decodes (file : JsonFile (List MountRecord)) (reg : MountMap) : Type 0 where
    pub records : List MountRecord
    pub loads : load_mounts file ≡ some records
    pub unique : Unique records
    pub kept : All Survives records
    pub same : (p : Bytes) → view records p ≡ reg p

  -- A damaged file is one that LoadMounts reports.
  abbrev pub Implements : JsonFile (List MountRecord) → Option MountMap → Type 0
  Implements file none = load_mounts file ≡ none
  Implements file (some reg) = Decodes file reg

  upsert-Survives :
      (src mp label : Bytes) (rs : List MountRecord)
      → OpSurvives (recorded src mp label)
      → All Survives rs
      → All Survives (upsert src mp label rs)
  unfolding upsert
  upsert-Survives src mp label [] k h = (k, tt)
  upsert-Survives src mp label (r ∷ rs) k h = elim (Bool-cases (eq r.mountpoint mp)) [
    | inl here ↦ rw here (
      record {
        src_kept = k.src_kept;
        mountpoint_kept = h.0.mountpoint_kept;
        label_kept = k.label_kept;
      },
      h.1,
    )
    | inr there ↦ rw there (h.0, upsert-Survives src mp label rs k h.1)
  ]

  remove_record-Survives :
      (mp : Bytes) (rs : List MountRecord) → All Survives rs → All Survives (remove_record mp rs)
  unfolding remove_record
  remove_record-Survives mp [] h = tt
  remove_record-Survives mp (r ∷ rs) h = elim (Bool-cases (eq r.mountpoint mp)) [
    | inl here ↦ rw here (remove_record-Survives mp rs h.1)
    | inr there ↦ rw there (h.0, remove_record-Survives mp rs h.1)
  ]

  map-coded_record : (rs : List MountRecord) → All Survives rs → map (coded_record coded) rs ≡ rs
  unfolding coded_record
  map-coded_record [] h = refl
  map-coded_record (r ∷ rs) h =
      rw (h.0.src_kept, h.0.mountpoint_kept, h.0.label_kept, map-coded_record rs h.1) refl

  -- A file with the records, as saveMounts writes them.
  holding-Decodes :
      (rs : List MountRecord) (reg : MountMap)
      → Unique rs
      → All Survives rs
      → ((p : Bytes) → view rs p ≡ reg p)
      → Decodes (holding (map (coded_record coded) rs)) reg
  unfolding load_mounts
  holding-Decodes rs reg h k same = record {
    records = rs;
    loads = ap some (map-coded_record rs k);
    unique = h;
    kept = k;
    same = same;
  }

  -- A save, by how it ends.
  save_mounts-Implements :
      (w : WriteEnd) (op : RegistryOp) (rs : List MountRecord) (file : JsonFile (List MountRecord))
      (reg : MountMap)
      → Decodes file reg
      → Decodes (holding (map (coded_record coded) rs)) (after reg op)
      → Implements (save_mounts coded w rs file).0 (spec_step w op (some reg)).0
        × ((save_mounts coded w rs file).1 ≡ (spec_step w op (some reg)).1)
  unfolding save_mounts load_mounts
  save_mounts-Implements done op rs file reg h new = (new, refl)
  save_mounts-Implements not_opened op rs file reg h new = (h, refl)
  save_mounts-Implements stopped_within op rs file reg h new = (refl, refl)
  save_mounts-Implements failed_behind op rs file reg h new = (new, refl)

  stored-damaged :
      (w : WriteEnd) (op : RegistryOp) (file : JsonFile (List MountRecord))
      → load_mounts file ≡ none
      → stored w op file ≡ (file, false)
  unfolding record_mount remove_mount on_records saved
  stored-damaged w (recorded src mp label) file h = rw h refl
  stored-damaged w (removed mp) file h = rw h refl

  -- One call.
  abbrev StepImplements :
      WriteEnd → RegistryOp → JsonFile (List MountRecord) → Option MountMap → Type 0
  StepImplements w op file o =
      Implements (stored w op file).0 (spec_step w op o).0
      × ((stored w op file).1 ≡ (spec_step w op o).1)

  stored-Implements :
      (w : WriteEnd) (op : RegistryOp) (file : JsonFile (List MountRecord)) (o : Option MountMap)
      → OpSurvives op
      → Implements file o
      → StepImplements w op file o
  unfolding record_mount remove_mount on_records saved
  stored-Implements w op file none k h = rw (stored-damaged w op file h) (h, refl)
  stored-Implements w (recorded src mp label) file (some reg) k h =
      let new = upsert src mp label h.records in
      rw (h.loads) (
        save_mounts-Implements w (recorded src mp label) new file reg h (
          holding-Decodes new _ (upsert-Unique src mp label h.records h.unique)
            (upsert-Survives src mp label h.records k h.kept)
            (λ p.
              view-upsert src mp label h.records p
              ∙ ap (λ t. if eq mp p then some (src, label) else t) (h.same p))))
  stored-Implements w (removed mp) file (some reg) k h =
      let new = remove_record mp h.records in
      rw (h.loads) (
        save_mounts-Implements w (removed mp) new file reg h (
          holding-Decodes new _ (remove_record-Unique mp h.records h.unique)
            (remove_record-Survives mp h.records h.kept)
            (λ p.
              view-remove_record mp h.records p
              ∙ ap (λ t. if eq mp p then none else t) (h.same p))))

  -- From a file that stands for some map with one record for each mountpoint, such as none at all,
  -- or from one that LoadMounts reports as damaged; with strings that JSON gives back as they are.
  -- After any calls of RecordMount and RemoveMount, whose writes may each end well, fail before the
  -- file is opened, stop within the JSON or fail behind it: as long as no write has stopped within
  -- the JSON, the file decodes to records with one for each mountpoint, which stand for the map that
  -- the calls whose JSON was written have made, where RecordMount sets the source and the label of a
  -- mountpoint and RemoveMount forgets it. From then on LoadMounts and every call report an error.
  -- Of the others just those report none whose write has ended well.
  pub run_file-Implements :
      (ops : List (WriteEnd × RegistryOp)) (file : JsonFile (List MountRecord))
      (o : Option MountMap)
      → All (λ c. OpSurvives c.1) ops
      → Implements file o
      → Implements (run_calls stored ops file).0 (run_calls spec_step ops o).0
        × ((run_calls stored ops file).1 ≡ (run_calls spec_step ops o).1)
  run_file-Implements [] file o k h = (h, refl)
  run_file-Implements ((w, op) ∷ ops) file o k h =
      let (now, reported) = stored-Implements w op file o k.0 h in
      let (later, rest) = run_file-Implements ops _ _ k.1 now in (later, rw (reported, rest) refl)
