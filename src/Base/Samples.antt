-- ===== src/Base/Samples.antt =====
-- Parameters of the models filled by concrete functions, for the examples.
use Prim.Native.String.{String}
use mathlib.Core.Path.{refl}
use mathlib.Core.Logic.{◌≢◌}
use mathlib.Core.Option.{Option, none, some}
use microkube.Base.Bytes.{Bytes}
use microkube.Base.Errors.{GoError, ErrorsPkg}

-- An implementation of `Wrap` that puts the message in the error's place.
abbrev pub wrap_message : GoError → String → GoError
wrap_message none message = none
wrap_message (some e) message = some message

-- It returns no nil for an error.
pub wrap_message-some : (e message : String) → wrap_message (some e) message ≢ none
wrap_message-some e message h = cc

abbrev pub sample_pkg : ErrorsPkg
sample_pkg = record { wrap = wrap_message; wrap_nil = λ m. refl; wrap_err = wrap_message-some }

abbrev pub no_ipv6 : Bytes → Option Bytes
no_ipv6 s = none
