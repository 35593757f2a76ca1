-- ===== src/Log/Examples.antt =====
-- The theorems on internal/log at concrete inputs.
use microkube.Base.{
  Option, none, some, List, [], ◌∷◌, ◌++◌, ◌≡◌, ◌↔◌, ◌⊎◌, inl, inr, refl, arith, concat,
}
use microkube.Base.Bytes.{Bytes, codes}
use microkube.Base.Samples.{sample_pkg}
use microkube.Log.Entry.{Entry}
use microkube.Log.Stream.{
  Handled, returned, panicked, LogParser, read_string, handle_data, handle_chunks,
}
use microkube.Log.Stream.Split.{split}
use microkube.Log.Stream.Feed.{NeverFails, Taken, feed, handle_data-feed, handle_data-Taken}
use microkube.Log.Stream.Chunks.{handle_chunks-concat}
use microkube.Log.Etcd
use microkube.Log.Etcd.{EtcdLogLine}
use microkube.Log.Etcd.Laws as EtcdLaws
use microkube.Log.Kube
use microkube.Log.Kube.{KubeLogLine, KubeLogLineRestful}
use microkube.Log.Kube.Laws.{HasNoSeverity, Reports, handle_line_cases}

-- A line handler that keeps the lines.
abbrev keep : List Bytes → Bytes → Handled (List Bytes)
keep log line = returned (log ++ line ∷ []) none

keep-NeverFails : (log : List Bytes) (line : Bytes) → NeverFails (keep log line)
keep-NeverFails log line = refl

abbrev empty_parser : LogParser (List Bytes)
empty_parser = record { buf = codes "a"; log = [] }

abbrev two_lines : Bytes
two_lines = codes "b\nc\nd"

handle_data-feed_example :
    handle_data sample_pkg keep 3 empty_parser (some two_lines)
    ≡ feed sample_pkg keep [] (split (codes "ab\nc\nd")).0 (split (codes "ab\nc\nd")).1
unfolding split
handle_data-feed_example =
    handle_data-feed sample_pkg keep 3 empty_parser (some two_lines) (omega arith)

handle_data-Taken_example :
    Taken sample_pkg keep []
      (codes "ab\nc\nd")
      (record { buf = codes "d"; log = codes "ab\n" ∷ codes "c\n" ∷ [] })
      none
unfolding split handle_data read_string
handle_data-Taken_example =
    handle_data-Taken sample_pkg keep 3 empty_parser (some two_lines) (omega arith) refl

handle_chunks-concat_example :
    handle_chunks sample_pkg keep empty_parser (codes "b\nc" ∷ codes "\nd" ∷ [])
    ≡ handle_chunks sample_pkg keep empty_parser ((codes "b\nc" ++ concat (codes "\nd" ∷ [])) ∷ [])
handle_chunks-concat_example =
    handle_chunks-concat sample_pkg keep keep-NeverFails empty_parser (codes "b\nc")
      (codes "\nd" ∷ [])

-- Extractors that take the whole line as the message, with a severity.
abbrev etcd_line : Bytes → EtcdLogLine
etcd_line s = record {
  date = [];
  time = [];
  severity = codes "I";
  component = codes "raft";
  message = s;
}

abbrev etcd_extract : Bytes → Option EtcdLogLine
etcd_extract s = some (etcd_line s)

raft-not-IsNoise : ¬ EtcdLaws.IsNoise (etcd_line (codes "elected"))
raft-not-IsNoise (inl r) = cc (r.embedded)
raft-not-IsNoise (inr r) = cc (r.0)

handle_line-silent_example :
    (new : List Entry) × (Etcd.handle_line etcd_extract [] (codes "elected")
      ≡ returned ([] ++ new) none)
    × ((new ≡ []) ↔ (
        (line : EtcdLogLine) × (etcd_extract (codes "elected") ≡ some line)
        × EtcdLaws.IsNoise line))
handle_line-silent_example = EtcdLaws.handle_line-silent etcd_extract [] (codes "elected")

abbrev kube_extract : Bytes → Option KubeLogLine
kube_extract s =
    some
      (record { severity_id = []; time = []; unknown_attribute = []; location = []; message = s })

abbrev no_restful : Bytes → Option KubeLogLineRestful
no_restful s = none

handle_line_cases_example :
    (HasNoSeverity (codes "kube") kube_extract no_restful (codes " I0101 started")
      × (Kube.handle_line (codes "kube") kube_extract no_restful [] (codes " I0101 started")
          ≡ panicked))
    ⊎ Reports (codes "kube") kube_extract no_restful [] (codes " I0101 started")
handle_line_cases_example =
    handle_line_cases (codes "kube") kube_extract no_restful [] (codes " I0101 started")
