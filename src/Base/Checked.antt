-- ===== src/Base/Checked.antt =====
-- A call that returns or throws. `throws m` carries the text of the exception.
use Prim.Native.String.{String}

pub data Checked {ℓ} (A : Type ℓ) : Type ℓ where
  returns : A → Checked A
  throws : String → Checked A

abbrev pub bind {ℓ κ} : {A : Type ℓ} {B : Type κ} → Checked A → (A → Checked B) → Checked B
bind (returns a) f = f a
bind (throws m) f = throws m
