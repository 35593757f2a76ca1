-- ===== src/Base/Errors.antt =====
-- Go's `error` values, and github.com/pkg/errors as the program uses it. An error is the text
-- that it prints; `none` is `nil`.
use Prim.Native.String.{String}
use mathlib.Core.Path.{◌≡◌}
use mathlib.Core.Logic.{◌≢◌}
use mathlib.Core.Option.{Option, none, some}

abbrev pub GoError : Type 0
GoError = Option String

-- `Wrap` is a library function: "If err is nil, Wrap returns nil."
pub record ErrorsPkg : Type 0 where
  pub wrap : GoError → String → GoError
  pub wrap_nil : (message : String) → wrap none message ≡ none
  pub wrap_err : (e message : String) → wrap (some e) message ≢ none
