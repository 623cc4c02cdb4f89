-- ===== src/Config/Registry/View.antt =====
-- The records of the registry of internal/config/config.go as a partial map from mountpoints.
use janusfs.Base.{
  ◌≡◌, refl, sym, ◌∙◌, ap, arith, Bool, true, false, Bool-cases, inl, inr, Option, none, some,
}
use janusfs.Base.{List, [], ◌∷◌, if◌then◌else◌, any}
use janusfs.Base.Text.{Bytes, eq, eq_refl, eq→≡}
use janusfs.Config.Registry.{MountRecord, upsert, remove_record}

-- What one asks of the registry.
pub data RegistryOp : Type 0 where
  recorded : Bytes → Bytes → Bytes → RegistryOp
  removed : Bytes → RegistryOp

abbrev Mounted : Type 0
Mounted = Bytes × Bytes

-- The specification: a source and a label for some mountpoints.
abbrev pub MountMap : Type 0
MountMap = Bytes → Option Mounted

abbrev pub after : MountMap → RegistryOp → MountMap
after reg (recorded src mp label) p = if eq mp p then some (src, label) else reg p
after reg (removed mp) p = if eq mp p then none else reg p

-- The map that a list of records stands for.
abbrev pub view : List MountRecord → MountMap
view [] p = none
view (r ∷ rs) p = if eq r.mountpoint p then some (r.src, r.label) else view rs p

abbrev pub has : Bytes → List MountRecord → Bool
has mp rs = any (λ (r : MountRecord). eq r.mountpoint mp) rs

-- No mountpoint has two records.
abbrev pub Unique : List MountRecord → Type 0
Unique [] = Unit
Unique (r ∷ rs) = (has r.mountpoint rs ≡ false) × Unique rs

only_one : (a b p : Bytes) → eq a b ≡ false → eq a p ≡ true → eq b p ≡ false
only_one a b p differ same = elim (Bool-cases (eq b p)) [
  | inr e ↦ e
  | inl e ↦
      let together : a ≡ b = eq→≡ a p same ∙ sym (eq→≡ b p e) in
      let yes_eq : eq a b ≡ true = ap (λ t. eq t b) together ∙ eq_refl b in cc
]

differ : (a b : Bytes) → eq a b ≡ false → eq b a ≡ false
differ a b e = elim (Bool-cases (eq b a)) [
  | inr no_eq ↦ no_eq
  | inl same ↦ let refl_eq : eq a b ≡ true = ap (eq a) (eq→≡ b a same) ∙ eq_refl a in cc
]

pub view-upsert :
    (src mp label : Bytes) (rs : List MountRecord) (p : Bytes)
    → view (upsert src mp label rs) p ≡ after (view rs) (recorded src mp label) p
unfolding upsert
view-upsert src mp label [] p = refl
view-upsert src mp label (r ∷ rs) p = elim (Bool-cases (eq r.mountpoint mp)) [
  | inl here ↦ elim (Bool-cases (eq r.mountpoint p)) [
    | inl e ↦ rw (here, e, sym (ap (λ t. eq t p) (eq→≡ r.mountpoint mp here)) ∙ e) refl
    | inr e ↦ rw (here, e, sym (ap (λ t. eq t p) (eq→≡ r.mountpoint mp here)) ∙ e) refl
  ]
  | inr there ↦ elim (Bool-cases (eq r.mountpoint p)) [
    | inl e ↦ rw (there, e, only_one r.mountpoint mp p there e) refl
    | inr e ↦ rw (there, e) (view-upsert src mp label rs p)
  ]
]

pub view-remove_record :
    (mp : Bytes) (rs : List MountRecord) (p : Bytes)
    → view (remove_record mp rs) p ≡ after (view rs) (removed mp) p
unfolding remove_record
view-remove_record mp [] p = elim (Bool-cases (eq mp p)) [ inl e ↦ rw e refl | inr e ↦ rw e refl ]
view-remove_record mp (r ∷ rs) p = elim (Bool-cases (eq r.mountpoint mp)) [
  | inl here ↦ elim (Bool-cases (eq mp p)) [
    | inl e ↦ rw (here, e) (view-remove_record mp rs p ∙ rw e refl)
    | inr e ↦
        rw (here, e, ap (λ t. eq t p) (eq→≡ r.mountpoint mp here) ∙ e)
          (view-remove_record mp rs p ∙ rw e refl)
  ]
  | inr there ↦ elim (Bool-cases (eq r.mountpoint p)) [
    | inl e ↦ rw (there, e, only_one r.mountpoint mp p there e) refl
    | inr e ↦ rw (there, e) (view-remove_record mp rs p)
  ]
]

has-upsert :
    (src mp label q : Bytes) (rs : List MountRecord)
    → has q rs ≡ false
    → eq mp q ≡ false
    → has q (upsert src mp label rs) ≡ false
unfolding upsert
has-upsert src mp label q [] h e = rw e refl
has-upsert src mp label q (r ∷ rs) h e = elim (Bool-cases (eq r.mountpoint mp)) [
  | inl here ↦ rw here h
  | inr there ↦ rw there (ground (arith, h, has-upsert src mp label q rs (ground (arith, h)) e))
]

pub upsert-Unique :
    (src mp label : Bytes) (rs : List MountRecord) → Unique rs → Unique (upsert src mp label rs)
unfolding upsert
upsert-Unique src mp label [] h = (refl, tt)
upsert-Unique src mp label (r ∷ rs) h = elim (Bool-cases (eq r.mountpoint mp)) [
  | inl here ↦ rw here h
  | inr there ↦ rw there (
    has-upsert src mp label r.mountpoint rs h.0 (differ r.mountpoint mp there),
    upsert-Unique src mp label rs h.1,
  )
]

has-remove_record :
    (mp q : Bytes) (rs : List MountRecord) → has q rs ≡ false → has q (remove_record mp rs) ≡ false
unfolding remove_record
has-remove_record mp q [] h = refl
has-remove_record mp q (r ∷ rs) h = elim (Bool-cases (eq r.mountpoint mp)) [
  | inl here ↦ rw here (has-remove_record mp q rs (ground (arith, h)))
  | inr there ↦ rw there (ground (arith, h, has-remove_record mp q rs (ground (arith, h))))
]

pub remove_record-Unique :
    (mp : Bytes) (rs : List MountRecord) → Unique rs → Unique (remove_record mp rs)
unfolding remove_record
remove_record-Unique mp [] h = tt
remove_record-Unique mp (r ∷ rs) h = elim (Bool-cases (eq r.mountpoint mp)) [
  | inl here ↦ rw here (remove_record-Unique mp rs h.1)
  | inr there ↦ rw there (has-remove_record mp r.mountpoint rs h.0, remove_record-Unique mp rs h.1)
]
