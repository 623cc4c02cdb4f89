-- ===== src/Base/Results.antt =====
-- Results of calls that can fail, with the errors that the Go code returns or panics with.
use mathlib.Core.Path.{◌≡◌, refl}

-- `panic` is a Go run-time panic, such as a slice out of range.
pub data Failure : Type 0 where
  panic buffer_exceeded read_failed : Failure

pub data Result {ℓ} (A : Type ℓ) : Type ℓ where
  ok : A → Result A
  fail : Failure → Result A

infixl 5 ◌>>=◌
-- The rest of a Go function after `if err != nil { return err }`.
abbrev pub ◌>>=◌ {ℓ ℓ'} : {Out : Type ℓ'} {In : Type ℓ} → Result In → (In → Result Out) → Result Out
fail why >>= rest = fail why
ok value >>= rest = rest value

-- A chain that succeeded had a first part that succeeded.
pub bind-ok_parts {ℓ ℓ'} :
    {Out : Type ℓ'} {In : Type ℓ} (first : Result In) (rest : In → Result Out) {out : Out}
    → (first >>= rest) ≡ ok out
    → (mid : In) × (first ≡ ok mid) × (rest mid ≡ ok out)
bind-ok_parts (fail why) rest succeeded = cc
bind-ok_parts (ok mid) rest succeeded = (mid, refl, succeeded)
