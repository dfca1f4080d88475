-- ===== src/Rx/Drop/Twice.antt =====
-- The descriptor of a receiver that is dropped.
use meshinator.Prelude.{◌≡◌, List, ◌∷◌, sym, ap, ◌∙◌}
use meshinator.Run.{done, Returns}
use meshinator.Kernel.{Syscall, Kernel, Sys, close_fd}
use meshinator.Proto.{WfbRxConfig, ok}
use meshinator.Rx.State.{WfbRx}
use meshinator.Rx.Open.{PcapLib, open_rx}
use meshinator.Rx.Open.Fresh.{open_rx-fd}
use meshinator.Rx.Drop.{drop_rx}

-- If the capture closes its own descriptor when it is dropped, the drop of a receiver that `open`
-- returned closes that descriptor twice.
pub drop_rx-open_rx :
    (k : Kernel) (lib : PcapLib) (drop_capture : lib.Active → Sys (Unit {0})) (cfg : WfbRxConfig)
    (rx : WfbRx) (cap : lib.Active) (log : List Syscall)
    → open_rx lib cfg ≡ ok (rx, cap)
    → ((calls : List Syscall)
        → drop_capture cap calls ≡ done (tt, close_fd (lib.as_raw_fd cap) ∷ calls))
    → drop_rx k drop_capture rx cap log ≡ done (tt, close_fd rx.fd ∷ close_fd rx.fd ∷ log)
unfolding drop_rx
drop_rx-open_rx k lib drop_capture cfg rx cap log e closes_own =
    closes_own (close_fd rx.fd ∷ log)
    ∙ ap (λ fd. done (tt, close_fd fd ∷ close_fd rx.fd ∷ log)) (sym (open_rx-fd lib cfg rx cap e))

-- The drop of a receiver returns if that of the capture does.
pub drop_rx-Returns :
    (k : Kernel) {Active : Type 0} (drop_capture : Active → Sys (Unit {0})) (rx : WfbRx)
    (cap : Active) (log : List Syscall)
    → ((calls : List Syscall) → Returns (λ _. Unit {0}) (drop_capture cap calls))
    → Returns (λ _. Unit {0}) (drop_rx k drop_capture rx cap log)
unfolding drop_rx
drop_rx-Returns k drop_capture rx cap log drops = drops (close_fd rx.fd ∷ log)
