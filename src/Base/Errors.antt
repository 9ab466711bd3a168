-- ===== src/Base/Errors.antt =====
-- Go's `error` values as the program builds and tests them, and fallible results.
use mathlib.Core.List.{◌++◌}
use shimux.Base.Int.{ℤ}
use shimux.Base.Text.{Bytes, str}

pub data Error : Type 0 where
  -- `fmt.Errorf(text)`, and errors that come from outside the program
  message : Bytes → Error
  -- `fmt.Errorf("text: %w", err)`
  wrap : Bytes → Error → Error
  -- `fmt.Errorf("pane %q not found", id)`
  pane_not_found : Bytes → Error
  -- `ErrSocketInUse`
  socket_in_use : Error
  -- an `*exec.ExitError` with its exit code and its text
  exit_error : ℤ → Bytes → Error

pub data Result {ℓ} (A : Type ℓ) : Type ℓ where
  ok : A → Result A
  err : Error → Result A

infixl 5 ◌>>=◌
abbrev pub ◌>>=◌ {ℓ κ} : {A : Type ℓ} {B : Type κ} → Result A → (A → Result B) → Result B
ok a >>= f = f a
err e >>= f = err e

-- `err.Error()`; `quote` is what the verb `%q` prints for a string.
unfoldable pub error_text : (Bytes → Bytes) → Error → Bytes
error_text quote (message m) = m
error_text quote (wrap m e) = m ++ (str ": " ++ error_text quote e)
error_text quote (pane_not_found id) = str "pane " ++ (quote id ++ str " not found")
error_text quote socket_in_use = str "socket is already in use by another process"
error_text quote (exit_error code text) = text
