-- ===== src/Examples/Bandwidth/Link/Tests.antt =====
-- A sender of two turns, the first of whose frames is lost on the air.
use meshinator.Prelude.{
  ◌≡◌, refl, inl, inr, ℕ, List, [], ◌∷◌, ◌++◌, replicate, some, arith, drop, length, max,
}
use meshinator.Prelude.Int.{pos}
use meshinator.Run.{Returns, done, index, slice}
use meshinator.Kernel.{pure}
use meshinator.Radiotap.{
  le_u16, le_u32, read_present_words, read_args, walk_fields, visit_field, meta_of,
  radiotap_meta_from_packet,
}
use meshinator.Radiotap.Layout.{has_flag, align_up, field_layout}
use meshinator.Tx.Frames.{frame}
use meshinator.Rx.Open.{fresh}
use meshinator.Rx.Recv.{Packet, ready}
use meshinator.Examples.Lines.{frames}
use meshinator.Examples.Air.{IsCaptureOf, Carries, silence, lost, arrives, packets_over}
use meshinator.Examples.Tests.{own_header, heard_meta, kernel, willing}
use meshinator.Examples.Bandwidth.Tests.{args, ticks, last_round, opened}
use meshinator.Examples.Bandwidth.{Turn, tx_cfg, rx_cfg, run_tx, run_rx}
use meshinator.Examples.Bandwidth.Sending.Whole.{AllCounted, payload_of}
use meshinator.Examples.Bandwidth.Receiving.{AreUsable, scripts_of}
use meshinator.Examples.Bandwidth.Link.{HasMeasured, run_rx-run_tx}

abbrev sent_second : List ℕ
sent_second = frame (tx_cfg args) 1 0 7 2 (payload_of args)

abbrev captured_second : Packet
captured_second = record { caplen = 43; bytes = own_header ++ (drop 13 sent_second ++ []) }

heard : radiotap_meta_from_packet captured_second.bytes ≡ done (some heard_meta)
unfolding radiotap_meta_from_packet le_u16 le_u32 read_present_words read_args walk_fields
    visit_field meta_of index slice has_flag align_up field_layout
heard = refl

captured_second-IsCaptureOf : IsCaptureOf sent_second captured_second
unfolding has_flag
captured_second-IsCaptureOf = record {
  rt = own_header;
  fcs = [];
  meta = heard_meta;
  bytes = refl;
  whole = refl;
  parsed = heard;
  own_length = refl;
  wanted = refl;
  check = refl;
}

abbrev turns : List Turn
turns =
    record {
      rounds =
          record { elapsed = 0; poll = λ ms. ready; packets = captured_second ∷ [] }
          ∷ last_round
          ∷ [];
      tick = record { elapsed = 5; dt = 6 };
    }
    ∷ []

turns-AreUsable : AreUsable turns
turns-AreUsable = ((((omega arith, tt), (tt, tt)), inr (inl (omega arith)), omega arith), tt)

carried :
    Carries
      (frames (tx_cfg args) 0 7 0 1 (replicate (length ticks) (payload_of args)))
      (packets_over (scripts_of turns))
carried = lost _ (arrives sent_second captured_second captured_second-IsCaptureOf silence)

run_rx-run_tx_example :
    Returns (AllCounted args [] ticks) (run_tx kernel args ticks [])
    × Returns
        (λ out. HasMeasured (length ticks) (max args.payload_size 1) out.0)
        (run_rx kernel willing (λ c. pure tt) args turns [])
run_rx-run_tx_example =
    run_rx-run_tx kernel (λ log. refl) kernel willing (λ c. pure tt) (λ c log. tt) args args ticks
      turns [] [] (fresh (rx_cfg args) (pos 5)) tt (omega arith) (omega arith)
      (λ e. omega (arith, e)) (omega arith) (omega arith, (omega arith, tt)) opened turns-AreUsable
      carried
