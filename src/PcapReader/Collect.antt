-- ===== src/PcapReader/Collect.antt =====
-- Which bytes of a capture file end up in the buffer.
use rosaic.Prelude.{
  ℕ, ◌≡◌, ◌≢◌, refl, sym, ap, ◌∙◌, arith, true, false, ◌==◌, List, [], ◌∷◌, ◌++◌, append-nil,
  append_assoc, ◌+◌, ◌-◌, ◌≤◌, length, take, drop, take_all, length-drop,
}
use mathlib.Core.Path.{ap₂}
use rosaic.PcapReader.{
  Packet, Next, packet, end_of_file, PcapDevice, seq, ip_part, header_len, data_offset, tot_len,
  payload, keep, read_tcp, flush, read, read_all, connected_device, no_packet,
}
use rosaic.PcapReader.Keep.{IsWhole, IsData, stored-ip, stored-packet, read_all-data}

-- The frame ends with the IP packet, and has room for the headers.
pub record IsUnpadded (p : Packet) : Type 0 where
  pub ends : length (ip_part p) ≡ tot_len (ip_part p)
  pub room : header_len (ip_part p) + data_offset (ip_part p) ≤ tot_len (ip_part p)

-- Neighbours have different sequence numbers.
abbrev pub Differs : Packet → List Packet → Type 0
Differs p [] = Unit
Differs p (q ∷ rest) = seq (ip_part q) ≢ seq (ip_part p)

pub data Distinct : List Packet → Type 0 where
  none_left : Distinct []
  one_more :
      {p : Packet} {rest : List Packet}
      → IsWhole p
      → IsData p
      → IsUnpadded p
      → Differs p rest
      → Distinct rest
      → Distinct (p ∷ rest)

-- The data of a segment, by the lengths in its headers.
unfoldable pub segment_data : List ℕ → List ℕ
segment_data ip =
    let headers = header_len ip + data_offset ip in take (tot_len ip - headers) (drop headers ip)

-- The data of all segments.
abbrev pub segments : List Packet → List ℕ
segments [] = []
segments (p ∷ rest) = segment_data (ip_part p) ++ segments rest

abbrev payloads : List Packet → List ℕ
payloads [] = []
payloads (p ∷ rest) = payload (ip_part p) ++ payloads rest

abbrev pub capture : List Packet → List Next
capture [] = end_of_file ∷ []
capture (p ∷ rest) = packet p ∷ capture rest

ip-packet : (p : Packet) → IsWhole p → no_packet (ip_part p) ≡ false
ip-packet p w = ap (λ t. no_packet t) (sym (stored-ip p w)) ∙ stored-packet p w

-- A packet with a new sequence number: the one that was kept is appended.
abbrev turned : PcapDevice → Packet → Packet → PcapDevice
turned d p q = keep (record d { data_buff = d.data_buff ++ payload (ip_part p) }) q

read_tcp-turned :
    (d : PcapDevice) (p q : Packet)
    → d.last_pkt ≡ ip_part p
    → IsWhole p
    → seq (ip_part q) ≢ seq (ip_part p)
    → read_tcp d q ≡ turned d p q
unfolding read_tcp
read_tcp-turned d p q kept w other =
    let some_ = ip-packet p w in
    let test : (seq (ip_part q) == seq (ip_part p)) ≡ false = ground arith in
    simp (kept, some_, test) refl

data-flush :
    (d : PcapDevice) (p : Packet)
    → d.connected ≡ true
    → d.last_pkt ≡ ip_part p
    → IsWhole p
    → (read_all d (end_of_file ∷ [])).data_buff ≡ d.data_buff ++ payload (ip_part p)
unfolding read_all read flush
data-flush d p on kept w = let some_ = ip-packet p w in simp (on, kept, some_) refl

-- The device behind the first packets, of which it keeps the last.
collects_from :
    (ps : List Packet) (d : PcapDevice) (p : Packet)
    → d.connected ≡ true
    → d.last_pkt ≡ ip_part p
    → IsWhole p
    → Differs p ps
    → Distinct ps
    → (read_all d (capture ps)).data_buff ≡ d.data_buff ++ (payload (ip_part p) ++ payloads ps)
collects_from [] d p on kept w other none_left =
    data-flush d p on kept w ∙ ap (λ t. d.data_buff ++ t) (sym (append-nil (payload (ip_part p))))
collects_from (q ∷ ps) d p on kept w other (one_more wq tq _ next rest) =
    ap (λ (e : PcapDevice). e.data_buff) (read_all-data d q (capture ps) on tq)
    ∙ ap (λ (e : PcapDevice). (read_all e (capture ps)).data_buff)
        (read_tcp-turned d p q kept w other)
    ∙ collects_from ps (turned d p q) q on (stored-ip q wq) wq next rest
    ∙ append_assoc d.data_buff (payload (ip_part p)) (payload (ip_part q) ++ payloads ps)

-- A first packet is kept.
read_tcp-first : (d : PcapDevice) (p : Packet) → d.last_pkt ≡ [] → read_tcp d p ≡ keep d p
unfolding read_tcp
read_tcp-first d p none_ = simp none_ refl

collected :
    (ps : List Packet)
    → Distinct ps
    → (read_all connected_device (capture ps)).data_buff ≡ payloads ps
unfolding read_all read flush
collected [] none_left = refl
collected (p ∷ ps) (one_more w t _ next rest) =
    ap (λ (e : PcapDevice). e.data_buff) (read_all-data connected_device p (capture ps) refl t)
    ∙ ap (λ (e : PcapDevice). (read_all e (capture ps)).data_buff)
        (read_tcp-first connected_device p refl)
    ∙ collects_from ps (keep connected_device p) p refl (stored-ip p w) w next rest

payload-segment_data : (p : Packet) → IsUnpadded p → payload (ip_part p) ≡ segment_data (ip_part p)
unfolding payload segment_data
payload-segment_data p u =
    let ip = ip_part p in
    let headers = header_len ip + data_offset ip in
    sym (
      take_all (tot_len ip - headers) (drop headers ip)
        (omega (arith, length-drop headers ip, u.ends)))

payloads-segments : (ps : List Packet) → Distinct ps → payloads ps ≡ segments ps
payloads-segments [] none_left = refl
payloads-segments (p ∷ ps) (one_more _ _ u _ rest) =
    ap₂ ◌++◌ (payload-segment_data p u) (payloads-segments ps rest)

-- A capture file of TCP packets with data, captured whole, in frames that end with the IP packet and have
-- room for the headers, no two neighbours with the same sequence number, leaves exactly the data of all
-- segments in the buffer, in their order.
pub payloads_collected :
    (ps : List Packet)
    → Distinct ps
    → (read_all connected_device (capture ps)).data_buff ≡ segments ps
payloads_collected ps d = collected ps d ∙ payloads-segments ps d
