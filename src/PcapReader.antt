-- ===== src/PcapReader.antt =====
-- communication/pcap_reader.cpp: the bytes that a receiver sent over TCP, taken from a capture file;
-- and the loop over the file in communication/communication_core.cpp.
pub mod Keep
pub mod Collect
mod Tests
use rosaic.Prelude.{
  ℕ, ◌+◌, ◌-◌, ◌*◌, ◌/◌, ◌%◌, ◌^◌, Bool, true, false, not, if◌then◌else◌, leb, ◌==◌, List, [], ◌∷◌,
  ◌++◌, get_or, take, drop,
}

-- What `pcap_next_ex` gives: a packet with the length of its header, the end of the file (-2), or an
-- error.
pub record Packet : Type 0 where
  pub bytes : List ℕ
  pub len : ℕ

pub data Next : Type 0 where
  packet : Packet → Next
  end_of_file : Next
  broken : Next

pub data ReadResult : Type 0 where
  read_success read_insufficient_data read_timeout read_interrupted : ReadResult
  read_error read_parse_failed : ReadResult

abbrev pub is_success : ReadResult → Bool
is_success read_success = true
is_success read_insufficient_data = false
is_success read_timeout = false
is_success read_interrupted = false
is_success read_error = false
is_success read_parse_failed = false

-- `m_device` as a condition, `m_dataBuff` and `m_lastPkt`.
pub record PcapDevice : Type 0 where
  pub connected : Bool
  pub data_buff : List ℕ
  pub last_pkt : List ℕ

-- Numbers in network byte order.
abbrev pub be16 : List ℕ → ℕ → ℕ
be16 bytes i = 2 ^ 8 * get_or bytes i 0 + get_or bytes (i + 1) 0

abbrev pub be32 : List ℕ → ℕ → ℕ
be32 bytes i = 2 ^ 16 * be16 bytes i + be16 bytes (i + 2)

-- The headers, from the start of the IP header on: `ihl * 4`, `tot_len`, `protocol`, and of TCP
-- `seq` and `doff * 4`.
unfoldable pub header_len : List ℕ → ℕ
header_len ip = get_or ip 0 0 % 2 ^ 4 * 4

unfoldable pub tot_len : List ℕ → ℕ
tot_len ip = be16 ip 2

unfoldable pub protocol : List ℕ → ℕ
protocol ip = get_or ip 9 0

unfoldable pub seq : List ℕ → ℕ
seq ip = be32 ip (header_len ip + 4)

unfoldable pub data_offset : List ℕ → ℕ
data_offset ip = get_or ip (header_len ip + 12) 0 / 2 ^ 4 * 4

-- `sizeof(struct ethhdr)`
abbrev pub eth_len : ℕ
eth_len = 14

-- `pktData + sizeof(struct ethhdr)`, and what is copied of it.
abbrev pub ip_part : Packet → List ℕ
ip_part p = drop eth_len p.bytes

abbrev pub stored_part : Packet → List ℕ
stored_part p = take (p.len - eth_len) (ip_part p)

-- What is appended of a packet that was kept: all behind the two headers, up to the end of the frame.
-- Where the headers name more bytes than there are, the source has an iterator behind the end, which is
-- undefined; here nothing is left then.
unfoldable pub payload : List ℕ → List ℕ
payload ip = drop (header_len ip + data_offset ip) ip

abbrev pub no_packet : List ℕ → Bool
no_packet [] = true
no_packet (_ ∷ _) = false

abbrev pub keep : PcapDevice → Packet → PcapDevice
keep d p = record d { last_pkt = stored_part p }

-- A TCP packet, behind the test of its length.
unfoldable pub read_tcp : PcapDevice → Packet → PcapDevice
read_tcp d p =
    if no_packet d.last_pkt
    then keep d p
    else if not (seq (ip_part p) == seq d.last_pkt)
    then keep (record d { data_buff = d.data_buff ++ payload d.last_pkt }) p
    else if leb (tot_len (ip_part p)) (tot_len d.last_pkt)
    then d
    else keep d p

-- The end of the file: the packet that was kept last, then `disconnect`.
unfoldable pub flush : PcapDevice → PcapDevice
flush d = record {
  connected = false;
  data_buff = if no_packet d.last_pkt then d.data_buff else d.data_buff ++ payload d.last_pkt;
  last_pkt = [];
}

abbrev pub read_next : PcapDevice → Next → ReadResult × PcapDevice
read_next d (packet p) =
    if protocol (ip_part p) == 6
    then (if p.len == 54 then (read_success, d) else (read_success, read_tcp d p))
    else (read_error, d)
read_next d end_of_file = (read_success, flush d)
read_next d broken = (read_error, d)

-- `read`
unfoldable pub read : PcapDevice → Next → ReadResult × PcapDevice
read d next = if d.connected then read_next d next else (read_error, d)

-- The loop in `initializePCAPFileReading`, over what `pcap_next_ex` gives.
unfoldable pub read_all : PcapDevice → List Next → PcapDevice
read_all d [] = d
read_all d (next ∷ rest) =
    let (result, d') = read d next in
    let all = read_all d' rest in if d.connected then (if is_success result then all else d') else d

-- A device with a new buffer.
abbrev pub connected_device : PcapDevice
connected_device = record { connected = true; data_buff = []; last_pkt = [] }
