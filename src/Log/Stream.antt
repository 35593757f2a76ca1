-- ===== src/Log/Stream.antt =====
-- internal/log/BaseLogParser.go: the bytes of a child process, in the chunks in which they arrive,
-- are put together into lines, and each line goes to the line handler.
pub mod Split
pub mod Feed
pub mod Chunks
use microkube.Base.{
  ℕ, zero, suc, true, false, Option, none, some, List, [], ◌∷◌, ◌++◌, length, ◌==◌, if◌then◌else◌,
}
use microkube.Base.Bytes.{Bytes, contains}
use microkube.Base.Errors.{GoError, ErrorsPkg}

-- What a call of a line handler comes to: it returns (`none` is a nil error) or it panics. `L` is
-- what the handler works on.
pub data Handled (L : Type 0) : Type 0 where
  returned : L → GoError → Handled L
  panicked : Handled L

-- `buf` is the unread part of the bytes.Buffer.
pub record LogParser (L : Type 0) : Type 0 where
  pub buf : Bytes
  pub log : L

-- What a call of HandleData comes to.
pub data Outcome (L : Type 0) : Type 0 where
  finished : LogParser L → GoError → Outcome L
  crashed : Outcome L
  out_of_fuel : Outcome L

-- bytes.Buffer.ReadString(delim): the bytes up to and with the first delimiter, and the others.
unfoldable pub read_string : ℕ → Bytes → Bytes × Bytes
read_string delim [] = ([], [])
read_string delim (c ∷ cs) =
    let (line, rest) = read_string delim cs in if c == delim then (c ∷ [], cs) else (c ∷ line, rest)

-- `if data != nil { lp.buf.Write(data) }`
abbrev pub write_data : {L : Type 0} → LogParser L → Option Bytes → LogParser L
write_data lp none = lp
write_data lp (some bytes) = record lp { buf = lp.buf ++ bytes }

module _ {L : Type 0} (pkg : ErrorsPkg) (handler : L → Bytes → Handled L) where
  -- HandleData. Its tail call of itself on `nil` takes one unit of fuel; the mutex, which each
  -- path releases, makes the calls on one parser follow one another.
  unfoldable pub handle_data : ℕ → LogParser L → Option Bytes → Outcome L
  unfolding contains read_string
  handle_data zero lp bytes = out_of_fuel
  handle_data (suc fuel) lp bytes =
      let p = write_data lp bytes in
      elim (contains b'\n' p.buf) [
        | false ↦ finished p none
        | true ↦
            let line = (read_string b'\n' p.buf).0 in
            let rest = (read_string b'\n' p.buf).1 in
            elim (handler p.log line) [
              | panicked ↦ crashed
              | returned log none ↦ handle_data fuel (record { buf = rest; log = log }) none
              | returned log (some e) ↦
                  finished (record { buf = rest; log = log })
                    (pkg.wrap (some e) "Couldn't decode buffer")
            ]
      ]

  -- The reading goroutines of CmdHandler.Start with the outputHandler of startService: each chunk
  -- goes to HandleData, whose error is only logged. The fuel is one more than the bytes at hand.
  unfoldable pub handle_chunks : LogParser L → List Bytes → Outcome L
  unfolding handle_data
  handle_chunks lp [] = finished lp none
  handle_chunks lp (chunk ∷ chunks) =
      elim (handle_data (suc (length (lp.buf ++ chunk))) lp (some chunk)) [
        | finished q e ↦ handle_chunks q chunks
        | crashed ↦ crashed
        | out_of_fuel ↦ out_of_fuel
      ]
