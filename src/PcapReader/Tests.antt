-- ===== src/PcapReader/Tests.antt =====
-- Captures of small packets.
use rosaic.Prelude.{ℕ, ◌≡◌, ◌≢◌, refl, arith, List, [], ◌∷◌, ◌++◌}
use rosaic.PcapReader.{
  Packet, read_all, connected_device, seq, protocol, ip_part, tot_len, header_len, data_offset,
}
use rosaic.PcapReader.Keep.{IsWhole, IsData}
use rosaic.PcapReader.Collect.{
  Distinct, none_left, one_more, IsUnpadded, segment_data, segments, capture, payloads_collected,
}

abbrev zeros : List ℕ
zeros = 0 ∷ 0 ∷ 0 ∷ 0 ∷ []

-- The Ethernet header, 20 bytes of IP, 20 bytes of TCP and one byte.
abbrev frame : ℕ → ℕ → ℕ → List ℕ
frame proto number byte =
    zeros
    ++ (zeros
        ++ (zeros
            ++ (0 ∷ 0 ∷ 0x45 ∷ 0 ∷ 0 ∷ 41 ∷ 0 ∷ 0 ∷ 0 ∷ 0 ∷ 64 ∷ proto ∷ 0 ∷ 0 ∷ zeros
                ++ (zeros
                    ++ (zeros
                        ++ (0 ∷ 0 ∷ 0 ∷ number ∷ zeros
                            ++ (0x50 ∷ 0 ∷ 0 ∷ 0 ∷ zeros ++ (byte ∷ []))))))))

abbrev data_packet : ℕ → ℕ → Packet
data_packet number byte = record { bytes = frame 6 number byte; len = 55 }

abbrev udp_packet : Packet
udp_packet = record { bytes = frame 17 1 7; len = 55 }

data_packet-IsWhole : (number byte : ℕ) → IsWhole (data_packet number byte)
data_packet-IsWhole number byte = record { captured = refl; some_ = omega arith }

data_packet-IsUnpadded : (number byte : ℕ) → IsUnpadded (data_packet number byte)
unfolding tot_len header_len data_offset
data_packet-IsUnpadded number byte = record { ends = refl; room = omega arith }

data_packet-IsData : (number byte : ℕ) → IsData (data_packet number byte)
unfolding protocol
data_packet-IsData number byte = record { tcp = refl; not_bare = λ e. absurd (omega (arith, e)) }

udp_other : protocol (ip_part udp_packet) ≢ 6
unfolding protocol
udp_other e = absurd (omega (arith, e))

same_number : seq (ip_part (data_packet 1 8)) ≡ seq (ip_part (data_packet 1 7))
unfolding seq header_len
same_number = refl

same_length : tot_len (ip_part (data_packet 1 8)) ≡ tot_len (ip_part (data_packet 1 7))
unfolding tot_len
same_length = refl

new_number : seq (ip_part (data_packet 2 8)) ≢ seq (ip_part (data_packet 1 7))
unfolding seq header_len
new_number e = absurd (omega (arith, e))

abbrev two_packets : List Packet
two_packets = data_packet 1 7 ∷ data_packet 2 8 ∷ []

two_packets-Distinct : Distinct two_packets
two_packets-Distinct =
    one_more (data_packet-IsWhole 1 7) (data_packet-IsData 1 7) (data_packet-IsUnpadded 1 7)
      new_number
      (one_more (data_packet-IsWhole 2 8) (data_packet-IsData 2 8) (data_packet-IsUnpadded 2 8) tt
        none_left)

payloads_collected_example :
    (read_all connected_device (capture two_packets)).data_buff ≡ segments two_packets
payloads_collected_example = payloads_collected two_packets two_packets-Distinct

two_segments : segments two_packets ≡ 7 ∷ 8 ∷ []
unfolding segment_data header_len data_offset tot_len
two_segments = refl
