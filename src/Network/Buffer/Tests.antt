-- ===== src/Network/Buffer/Tests.antt =====
-- Runs of the buffer, and its theorems at concrete inputs.
use discnet.Common.{◌≡◌, refl, arith, List, [], ◌∷◌, false}
use discnet.Host.{load}
use discnet.Network.Buffer.{Buffer, new, append_span, read_uint16, read, remaining_bytes}
use discnet.Network.Buffer.Invariant.{
  IsValid, run, append_value, read_value, rewind, run-new-IsValid,
}
use discnet.Network.Buffer.Reading.{Holds}
use discnet.Network.Buffer.Fifo.{Value, append_all, read_all, total_width, read_all-append_all}

-- Six bytes, of which four are written.
abbrev four_of_six : Buffer
four_of_six = record { write_offset = 4; read_offset = 0; bytes = 1 ∷ 2 ∷ 3 ∷ 4 ∷ 0 ∷ 0 ∷ [] }

reads_low_first : read_uint16 four_of_six ≡ (513, record four_of_six { read_offset = 2 })
unfolding read_uint16 read load
reads_low_first = refl

refuses_five : append_span (1 ∷ 2 ∷ 3 ∷ []) four_of_six ≡ (false, four_of_six)
unfolding append_span remaining_bytes
refuses_five = refl

four_of_six-Holds : Holds four_of_six (1 ∷ 2 ∷ 3 ∷ 4 ∷ [])
four_of_six-Holds = record { read_within = omega arith; write_within = omega arith; holds = refl }

run-new-IsValid_example : IsValid (run (append_value 4 77 ∷ read_value 2 ∷ rewind ∷ []) (new 6))
run-new-IsValid_example = run-new-IsValid 6 (append_value 4 77 ∷ read_value 2 ∷ rewind ∷ [])

abbrev two_values : List Value
two_values = record { width = 2; bits = 513 } ∷ record { width = 4; bits = 70000 } ∷ []

read_all-append_all_example :
    read_all (2 ∷ 4 ∷ []) (append_all two_values (new 8)) ≡ 513 ∷ 70000 ∷ []
read_all-append_all_example =
    read_all-append_all two_values 8 (omega arith) (unfold total_width in omega arith)
