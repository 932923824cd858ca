-- ===== src/Supervisor.antt =====
-- supervisor/: the node that feeds transactions to the shards.
pub mod Sending
pub mod Brokers
pub mod Batches
pub mod Halves
pub mod Handling
use utxo_block_emulator.Base.{ℕ, suc, leb, Bool, nat_eq}

-- supervisor/signal/supervisorStopModule.go. The lock makes each operation atomic.
pub record StopSignal : Type 0 where
  pub stop_gap : ℕ
  pub stop_threshold : ℕ

unfoldable pub new_stop_signal : ℕ → StopSignal
new_stop_signal threshold = record { stop_gap = 0; stop_threshold = threshold }

unfoldable pub stop_gap_inc : StopSignal → StopSignal
stop_gap_inc ss = record ss { stop_gap = suc ss.stop_gap }

unfoldable pub stop_gap_reset : StopSignal → StopSignal
stop_gap_reset ss = record ss { stop_gap = 0 }

unfoldable pub gap_enough : StopSignal → Bool
gap_enough ss = leb ss.stop_threshold ss.stop_gap
