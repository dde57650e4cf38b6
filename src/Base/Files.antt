-- ===== src/Base/Files.antt =====
-- The result of reading a file, and the results of fallible operations.
use ship_grip_fim.Base.Texts.{Text}

-- os.Open and os.ReadFile: os.ErrNotExist, another error, or the contents.
pub data Read : Type 0 where
  missing : Read
  failed : Read
  contents : Text → Read

pub data Result {ℓ κ} (E : Type ℓ) (A : Type κ) : Type (ℓ ⊔ κ) where
  ok : A → Result E A
  err : E → Result E A
