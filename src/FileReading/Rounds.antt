-- ===== src/FileReading/Rounds.antt =====
-- The two loops over a file.
use rosaic.Prelude.{ℕ, zero, suc, length}
use rosaic.Read.State.{Env}
use rosaic.CallbackHandlers.State.{Settings, Handlers}
use rosaic.CallbackHandlers.{read_callback}
use rosaic.FileReading.{
  Vector, memory_at, Round, sbf_size, pcap_size, sbf_skip, pcap_skip, after_call, End, unfinished,
  go_on,
}

module _ (env : Env) (settings : Settings) (size : ℕ) (skip : ℕ → ℕ) (v : Vector) where
  -- One round of a loop.
  unfoldable pub round : ℕ → Handlers → Round
  round at h =
      after_call size skip (length v.bytes) at (read_callback env settings (memory_at v at) size h)

  -- The loop; it is unfinished where the fuel runs out.
  unfoldable pub rounds : ℕ → ℕ → Handlers → End
  rounds zero at h = unfinished
  rounds (suc fuel) at h = go_on at (rounds fuel) (round at h)

module _ (env : Env) (settings : Settings) (v : Vector) where
  -- `initializeSBFFileReading`, with a number of rounds to make at most.
  unfoldable pub read_sbf_file : ℕ → Handlers → End
  read_sbf_file fuel h = rounds env settings sbf_size sbf_skip v fuel 0 h

  -- `initializePCAPFileReading`. One round for each byte and one more are enough.
  unfoldable pub read_pcap_file : Handlers → End
  read_pcap_file h = rounds env settings pcap_size pcap_skip v (suc (length v.bytes)) 0 h
