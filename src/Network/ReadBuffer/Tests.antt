-- ===== src/Network/ReadBuffer/Tests.antt =====
-- Runs of a view, and its theorem at concrete inputs.
use discnet.Common.{◌≡◌, arith, List, [], ◌∷◌}
use discnet.Network.Buffer.{Buffer}
use discnet.Network.ReadBuffer.Refinement.{
  Read, value_of, span_of, rewind, reads, views, view, views-reads,
}

-- Six bytes written to a buffer of eight.
abbrev written : Buffer
written = record { write_offset = 6; read_offset = 0; bytes = 1 ∷ 2 ∷ 3 ∷ 4 ∷ 5 ∷ 6 ∷ 0 ∷ 0 ∷ [] }

abbrev calls : List Read
calls = value_of 2 ∷ span_of 4 ∷ span_of 3 ∷ value_of 4 ∷ rewind ∷ value_of 8 ∷ value_of 4 ∷ []

views-reads_example : views calls (view written) ≡ reads calls written
views-reads_example = views-reads calls written (omega arith)
