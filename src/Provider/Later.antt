-- ===== src/Provider/Later.antt =====
-- What the operations of internal/provider/provider.go leave as it is: the signatures of the entries
-- made so far, and that every entry holds redacted bytes.
use janusfs.Base.{
  ℕ, ◌≤◌, ◌<◌, ◌≡◌, refl, sym, ◌∙◌, Bool, true, false, Option, some, Bool-cases, ◌⊎◌, inl, inr, All,
  arith,
}
use janusfs.Base.{List, [], ◌∷◌, if◌then◌else◌}
use janusfs.Base.{ok}
use mathlib.Core.Path.{subst}
use mathlib.Core.List.{Memᴰ}
use janusfs.Base.Text.{Bytes, eq, eq→≡}
use janusfs.Patterns.{Pattern}
use janusfs.Redact.{redact}
use janusfs.Provider.Signature.{pattern_signature}
use janusfs.Provider.Run.{Op, read, rebuilt}
use janusfs.Provider.{ContentKey, Entry, RamCache, find_path, remove_path, zero_bytes}

-- A read of that path in the log had those patterns.
abbrev pub Asked : List Op → Bytes → List Pattern → Type 0
Asked log path pats = (key : ContentKey) × Memᴰ (read key pats) log × (key.path ≡ path)

-- At the end of a rebuild in the log the file at that path held that content.
abbrev pub Seen : List Op → Bytes → Bytes → Type 0
Seen log path content =
    (n : ℕ) × (files : Bytes → Option Bytes) × Memᴰ (rebuilt n files) log
    × (files path ≡ some content)

-- The redaction of a content that the file at the path held at the end of a rebuild, by the patterns
-- of a read of that path that have that signature; or bytes that were overwritten by zeros.
abbrev pub Masked : List Op → Bytes → Bytes → Bytes → Type 0
Masked log path sig b =
    (b ≡ zero_bytes b)
    ⊎ ((content : Bytes) × (pats : List Pattern) × Seen log path content
        × Asked log path pats
        × (pattern_signature pats ≡ sig)
        × (redact content pats ≡ ok b))

abbrev pub EntryOk : List Op → Entry → Type 0
EntryOk log e = Masked log e.key.path e.pattern_sig e.bytes

-- The entry was made, for that path.
abbrev pub HasPath : RamCache → Bytes → ℕ → Type 0
HasPath c path i = (i < c.made) × ((c.heap i).key.path ≡ path)

abbrev pub Inside : RamCache → List (Bytes × ℕ) → Type 0
Inside c es = All (λ e. HasPath c e.0 e.1) es

pub record Later (log : List Op) (c c' : RamCache) : Type 0 where
  pub grows : c.made ≤ c'.made
  pub sigs : (i : ℕ) → i < c.made → (c'.heap i).pattern_sig ≡ (c.heap i).pattern_sig
  pub paths : (i : ℕ) → i < c.made → (c'.heap i).key.path ≡ (c.heap i).key.path
  pub safe : ((i : ℕ) → EntryOk log (c.heap i)) → (i : ℕ) → EntryOk log (c'.heap i)
  pub inside : Inside c c.entries → Inside c' c'.entries

pub Later-trans : {log : List Op} {a b c : RamCache} → Later log a b → Later log b c → Later log a c
Later-trans {a} {b} {c} l m = record {
  grows = omega (arith, l.grows, m.grows);
  sigs = λ i h. m.sigs i (omega (arith, h, l.grows)) ∙ l.sigs i h;
  paths = λ i h. m.paths i (omega (arith, h, l.grows)) ∙ l.paths i h;
  safe = λ h. m.safe (l.safe h);
  inside = λ h. m.inside (l.inside h);
}

pub Later-same : {log : List Op} (c : RamCache) → Later log c c
Later-same c = record {
  grows = omega arith;
  sigs = λ i h. refl;
  paths = λ i h. refl;
  safe = λ h. h;
  inside = λ h. h;
}

pub Later-if :
    {log : List Op} {c x y : RamCache} (b : Bool)
    → Later log c x
    → Later log c y
    → Later log c (if b then x else y)
Later-if true l m = l
Later-if false l m = m

pub remove_path-Inside :
    (c : RamCache) (p : Bytes) (es : List (Bytes × ℕ)) → Inside c es → Inside c (remove_path p es)
unfolding remove_path
remove_path-Inside c p [] h = tt
remove_path-Inside c p ((q, i) ∷ es) h = elim (Bool-cases (eq p q)) [
  | inl e ↦ rw e (remove_path-Inside c p es h.1)
  | inr e ↦ rw e (h.0, remove_path-Inside c p es h.1)
]

pub find_path-Inside :
    (c : RamCache) (i : ℕ) (p : Bytes) (es : List (Bytes × ℕ))
    → Inside c es
    → find_path p es ≡ some i
    → HasPath c p i
unfolding find_path
find_path-Inside c i p [] h e = cc
find_path-Inside c i p ((q, j) ∷ es) h e = elim (Bool-cases (eq p q)) [
  | inl s ↦ let f : j ≡ i = cc (e, s) in subst (HasPath c p) f (h.0.0, h.0.1 ∙ sym (eq→≡ p q s))
  | inr s ↦ find_path-Inside c i p es h.1 (cc (e, s))
]

-- More entries, and those that were there of the same paths.
pub Inside-moved :
    (c c' : RamCache) (es : List (Bytes × ℕ))
    → c.made ≤ c'.made
    → ((i : ℕ) → i < c.made → (c'.heap i).key.path ≡ (c.heap i).key.path)
    → Inside c es
    → Inside c' es
Inside-moved c c' [] g same h = tt
Inside-moved c c' (e ∷ es) g same h =
    ((omega (arith, h.0.0, g), same e.1 h.0.0 ∙ h.0.1), Inside-moved c c' es g same h.1)
