-- ===== src/FileReading/LongBlocks.antt =====
-- SBF blocks that are longer than what `readCallback` is given of a file in one call.
use rosaic.Prelude.{ℕ, zero, suc, ◌+◌, ◌<◌, ◌≤◌, ◌≡◌, refl, arith, length, leb, false}
use rosaic.Read.State.{Env}
use rosaic.CallbackHandlers.State.{Settings, Handlers}
use rosaic.CallbackHandlers.CutOff.{IsCutOff, stopped_at_start, read_callback-cut}
use rosaic.FileReading.{
  Vector, memory_at, onwards, sbf_size, pcap_size, sbf_skip, pcap_skip, unfinished,
}
use rosaic.FileReading.Rounds.{round, rounds}

module _ (env : Env) (settings : Settings) (size : ℕ) (two : 2 ≤ size) (skip : ℕ → ℕ) (v : Vector)
    (at : ℕ) (inside : at < length v.bytes) (cut : IsCutOff (memory_at v at) size) where
  -- A round at such a block.
  round-cut :
      (h : Handlers)
      → round env settings size skip v at h
        ≡ onwards (at + skip 0) (stopped_at_start (memory_at v at) size h)
  unfolding round
  round-cut h =
      let more : leb (length v.bytes) at ≡ false = ground arith in
      rw (read_callback-cut env settings (memory_at v at) size h two cut, more) refl

-- Where the loop over an SBF file comes, inside the file, to an SBF header that names more than
-- 8192 bytes, it never ends: it calls `readCallback` at that header again and again.
pub sbf_loop_stuck :
    (env : Env) (settings : Settings) (v : Vector) (at : ℕ)
    → at < length v.bytes
    → IsCutOff (memory_at v at) sbf_size
    → (fuel : ℕ) (h : Handlers) → rounds env settings sbf_size sbf_skip v fuel at h ≡ unfinished
unfolding rounds
sbf_loop_stuck env settings v at inside cut zero h = refl
sbf_loop_stuck env settings v at inside cut (suc fuel) h =
    let h' = stopped_at_start (memory_at v at) sbf_size h in
    let e : at + 0 ≡ at = omega arith in
    rw
      (
        round-cut env settings sbf_size (omega arith) sbf_skip v at inside cut h,
        e,
        sbf_loop_stuck env settings v at inside cut fuel h',
      )
      refl

-- Where the loop over a PCAP file comes, inside the file, to an SBF header that names more than 100
-- bytes, the block is not parsed: no handler runs, and the loop goes on one byte further.
pub pcap_long_block_skipped :
    (env : Env) (settings : Settings) (v : Vector) (at : ℕ) (h : Handlers)
    → at < length v.bytes
    → IsCutOff (memory_at v at) pcap_size
    → round env settings pcap_size pcap_skip v at h
      ≡ onwards (at + 1) (stopped_at_start (memory_at v at) pcap_size h)
pcap_long_block_skipped env settings v at h inside cut =
    round-cut env settings pcap_size (omega arith) pcap_skip v at inside cut h
