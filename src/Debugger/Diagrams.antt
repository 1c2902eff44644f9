-- ===== src/Debugger/Diagrams.antt =====
-- The diagrams of a run, one for each event that is marked, which are drawn when first asked for:
-- `SequenceDiagrams` of src/debugger/internal/debugger.go. The index of the marked event is not negative.
pub mod Cached
use detsys_testkit.Base.{ℕ, List, [], ◌∷◌, map, Option, none, some, nat_eq, Result, ok, ◌>>=◌}
use detsys_testkit.Base.Dict
use detsys_testkit.Base.Dict.{Dict}
use detsys_testkit.Base.Text.{Text}
use detsys_testkit.Debugger.Sequence.{Row, Arrow}
use detsys_testkit.Debugger.Sequence.Diagram.{DrawSettings, draw_diagram, joined}
use detsys_testkit.Debugger.Trace.{NetworkEvent}

-- `result`
pub record Drawing : Type 0 where
  pub dia : Row
  pub line : ℕ

pub record SequenceDiagrams : Type 0 where
  pub inner : Dict ℕ Drawing
  pub header : Option Row
  pub net : List NetworkEvent
  pub crashes : Dict ℕ (List Text)

-- `NewSequenceDiagrams`, of what the queries gave.
abbrev pub new_sequence_diagrams : List NetworkEvent → Dict ℕ (List Text) → SequenceDiagrams
new_sequence_diagrams net crashes = record {
  inner = [];
  header = none;
  net = net;
  crashes = crashes;
}

abbrev pub arrow_of : NetworkEvent → Arrow
arrow_of event = record {
  from = event.from;
  to = event.to;
  at = event.recv_at;
  message = event.message;
  dropped = event.dropped;
}

abbrev pub settings_at : Dict ℕ (List Text) → ℕ → DrawSettings
settings_at crashes at = record { marker_size = 3; mark_at = some at; crashes = crashes }

-- The header that is kept: the first one.
abbrev pub keep_header : Option Row → Row → Option Row
keep_header none header = some header
keep_header (some kept) header = some kept

-- `At`: what is kept is returned, everything else is drawn.
unfoldable pub at : SequenceDiagrams → ℕ → Result (Drawing × SequenceDiagrams)
unfolding draw_diagram joined nat_eq
at s i = elim (Dict.lookup i s.inner) [
  | some drawing ↦ ok (drawing, s)
  | none ↦ draw_diagram (map arrow_of s.net) (settings_at s.crashes i) >>= λ (header, rows, line).
      let drawing : Drawing = record { dia = joined rows; line = line } in
      ok (
        drawing,
        record {
          inner = Dict.insert i drawing s.inner;
          header = keep_header s.header (joined header);
          net = s.net;
          crashes = s.crashes;
        },
      )
]

-- `Header`, of a diagram that was asked for.
abbrev pub header_of : SequenceDiagrams → Row
header_of s = elim s.header [ none ↦ [] | some header ↦ header ]

-- Every index in turn is asked for.
unfoldable pub at_all : SequenceDiagrams → List ℕ → Result (List Drawing × SequenceDiagrams)
unfolding at
at_all s [] = ok ([], s)
at_all s (i ∷ is) =
    at s i >>= λ (drawing, s'). at_all s' is >>= λ (drawings, last). ok (drawing ∷ drawings, last)
