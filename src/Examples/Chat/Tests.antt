-- ===== src/Examples/Chat/Tests.antt =====
-- Two stations: of two lines that are sent the first is lost on the air.
use mathlib.Core.List.{Sublist}
use meshinator.Prelude.{◌≡◌, refl, false, inl, inr, ℕ, List, [], ◌∷◌, ◌++◌, some, arith, drop}
use meshinator.Prelude.Int.{pos}
use meshinator.Run.{Returns, done, index, slice}
use meshinator.Radiotap.{
  le_u16, le_u32, read_present_words, read_args, walk_fields, visit_field, meta_of,
  radiotap_meta_from_packet,
}
use meshinator.Radiotap.Layout.{has_flag, align_up, field_layout}
use meshinator.Tx.Frames.{frame}
use meshinator.Rx.Open.{fresh}
use meshinator.Rx.Recv.{Packet, Round, ready, no_event}
use meshinator.Examples.{rx_cfg, tx_cfg, run_main}
use meshinator.Examples.Lines.{payloads, frames}
use meshinator.Examples.Main.{AllSent}
use meshinator.Examples.Receiver.Spawned.{receive_thread}
use meshinator.Examples.Receiver.Printing.{AreScripts}
use meshinator.Examples.Air.{IsCaptureOf, Carries, silence, lost, arrives, packets_over, numbered}
use meshinator.Examples.Chat.{printed_entries, chat-in_order}
use meshinator.Examples.Tests.{
  own_header, heard_meta, kernel, willing, args, input, opened, drop_willing,
}

abbrev sent_second : List ℕ
sent_second = frame (tx_cfg args) 1 1 1 2 (33 ∷ [])

abbrev captured_second : Packet
captured_second = record { caplen = 41; bytes = own_header ++ (drop 13 sent_second ++ []) }

heard : radiotap_meta_from_packet captured_second.bytes ≡ done (some heard_meta)
unfolding radiotap_meta_from_packet le_u16 le_u32 read_present_words read_args walk_fields
    visit_field meta_of index slice has_flag align_up field_layout
heard = refl

captured_second-IsCaptureOf : IsCaptureOf sent_second captured_second
unfolding has_flag
captured_second-IsCaptureOf = record {
  rt = own_header;
  fcs = [];
  meta = heard_meta;
  bytes = refl;
  whole = refl;
  parsed = heard;
  own_length = refl;
  wanted = refl;
  check = refl;
}

abbrev scripts : List (List Round)
scripts =
    (record { elapsed = 0; poll = λ ms. ready; packets = captured_second ∷ [] }
      ∷ record { elapsed = 1_000_000_000; poll = λ ms. no_event; packets = [] }
      ∷ [])
    ∷ []

scripts-AreScripts : AreScripts scripts
scripts-AreScripts = ((((omega arith, tt), (tt, tt)), inr (inl (omega arith))), tt)

carried : Carries (frames (tx_cfg args) 1 1 0 1 (payloads input)) (packets_over scripts)
carried = lost _ (arrives sent_second captured_second captured_second-IsCaptureOf silence)

chat-in_order_example :
    Returns (AllSent kernel (λ log. refl) args input []) (run_main kernel willing args input [])
    × Returns
        (λ out. Sublist (printed_entries out.0.lines) (numbered 1 (payloads input)))
        (receive_thread kernel drop_willing false scripts (fresh (rx_cfg args) (pos 5)) tt [])
chat-in_order_example =
    chat-in_order kernel (λ log. refl) willing willing args args input []
      (fresh (rx_cfg args) (pos 5)) (fresh (rx_cfg args) (pos 5)) tt tt scripts kernel []
      drop_willing (λ c calls. tt) (omega arith) (omega arith) (λ e. omega (arith, e)) opened
      (omega arith, (omega arith, (omega arith, tt))) false opened scripts-AreScripts carried
