-- ===== src/PcapReader/Keep.antt =====
-- Packets that are left out: those of other protocols, and those that are sent again.
use rosaic.Prelude.{
  ℕ, ◌-◌, ◌≤◌, ◌<◌, ◌≡◌, ◌≢◌, refl, sym, ap, ◌∙◌, arith, true, false, Bool-cases, inl, inr, leb,
  ◌==◌, List, [], ◌∷◌, ◌++◌, length, take_all, length-drop,
}
use rosaic.PcapReader.{
  Packet, Next, packet, PcapDevice, read_success, tot_len, protocol, seq, ip_part, stored_part,
  payload, keep, read_tcp, read, read_all, eth_len, no_packet,
}

-- Where a packet of another protocol than TCP stands in a file, nothing behind it is read, and the
-- packet that was kept last is not appended: the device is left as it is before that packet.
pub other_protocol_stops :
    (d : PcapDevice) (before after : List Next) (p : Packet)
    → protocol (ip_part p) ≢ 6
    → read_all d (before ++ packet p ∷ after) ≡ read_all d before
unfolding read_all read
other_protocol_stops d [] after p other = ground arith
other_protocol_stops d (next ∷ before) after p other =
    ground (arith, other_protocol_stops (read d next).1 before after p other)

-- A packet that was captured whole, with more than an Ethernet header.
pub record IsWhole (p : Packet) : Type 0 where
  pub captured : length p.bytes ≡ p.len
  pub some_ : eth_len < p.len

pub stored-ip : (p : Packet) → IsWhole p → stored_part p ≡ ip_part p
stored-ip p w =
    take_all (p.len - eth_len) (ip_part p) (omega (arith, length-drop eth_len p.bytes, w.captured))

has_packet : (ip : List ℕ) → 0 < length ip → no_packet ip ≡ false
has_packet [] h = absurd (omega arith)
has_packet (_ ∷ _) h = refl

pub stored-packet : (p : Packet) → IsWhole p → no_packet (stored_part p) ≡ false
stored-packet p w = has_packet (stored_part p) (
    omega
      (arith, ap (λ t. length t) (stored-ip p w), length-drop eth_len p.bytes, w.captured, w.some_))

-- What was kept has the sequence number of a packet, and is no shorter.
record Keeps (p : Packet) (d : PcapDevice) : Type 0 where
  some_ : no_packet d.last_pkt ≡ false
  same : seq d.last_pkt ≡ seq (ip_part p)
  longer : tot_len (ip_part p) ≤ tot_len d.last_pkt

keep-Keeps : (p : Packet) (d : PcapDevice) → IsWhole p → Keeps p (keep d p)
keep-Keeps p d w = record {
  some_ = stored-packet p w;
  same = ap (λ t. seq t) (stored-ip p w);
  longer = omega (arith, ap (λ t. tot_len t) (stored-ip p w));
}

read_tcp-Keeps : (p : Packet) (d : PcapDevice) → IsWhole p → Keeps p (read_tcp d p)
unfolding read_tcp
read_tcp-Keeps p d w = elim (Bool-cases (no_packet d.last_pkt)) [
  | inl e ↦ simp e (keep-Keeps p d w)
  | inr e ↦ elim (Bool-cases (seq (ip_part p) == seq d.last_pkt)) [
    | inr other ↦
        simp (e, other)
          (keep-Keeps p (record d { data_buff = d.data_buff ++ payload d.last_pkt }) w)
    | inl same ↦ elim (Bool-cases (leb (tot_len (ip_part p)) (tot_len d.last_pkt))) [
      | inr longer ↦ simp (e, same, longer) (keep-Keeps p d w)
      | inl short ↦
          simp (e, same, short) (record { some_ = e; same = ground arith; longer = ground arith })
    ]
  ]
]

-- A further packet with the same sequence number changes nothing.
read_tcp-again :
    (d : PcapDevice) (p q : Packet)
    → Keeps p d
    → seq (ip_part q) ≡ seq (ip_part p)
    → tot_len (ip_part q) ≤ tot_len (ip_part p)
    → read_tcp d q ≡ d
unfolding read_tcp
read_tcp-again d p q k same short = ground (arith, k.some_, k.same, k.longer)

-- Reading a packet of TCP that is no bare acknowledgement.
read-tcp :
    (d : PcapDevice) (p : Packet)
    → d.connected ≡ true
    → protocol (ip_part p) ≡ 6
    → p.len ≢ 54
    → read d (packet p) ≡ (read_success, read_tcp d p)
unfolding read
read-tcp d p on tcp some_ = ground arith

connected-read_tcp : (d : PcapDevice) (p : Packet) → (read_tcp d p).connected ≡ d.connected
unfolding read_tcp
connected-read_tcp d p = ground arith

-- A packet of TCP with data.
pub record IsData (p : Packet) : Type 0 where
  pub tcp : protocol (ip_part p) ≡ 6
  pub not_bare : p.len ≢ 54

pub read_all-data :
    (d : PcapDevice) (p : Packet) (rest : List Next)
    → d.connected ≡ true
    → IsData p
    → read_all d (packet p ∷ rest) ≡ read_all (read_tcp d p) rest
unfolding read_all
read_all-data d p rest on t = ground (arith, read-tcp d p on t.tcp t.not_bare)

-- The same behind a device that is not connected any more.
read_all-closed : (d : PcapDevice) (nexts : List Next) → d.connected ≡ false → read_all d nexts ≡ d
unfolding read_all
read_all-closed d [] off = refl
read_all-closed d (next ∷ rest) off = ground arith

here_ignored :
    (d : PcapDevice) (p q : Packet) (after : List Next)
    → IsWhole p
    → IsData p
    → IsData q
    → seq (ip_part q) ≡ seq (ip_part p)
    → tot_len (ip_part q) ≤ tot_len (ip_part p)
    → read_all d (packet p ∷ packet q ∷ after) ≡ read_all d (packet p ∷ after)
here_ignored d p q after w tp tq same short = elim (Bool-cases d.connected) [
  | inr off ↦ read_all-closed d _ off ∙ sym (read_all-closed d _ off)
  | inl on ↦
      let on' = connected-read_tcp d p ∙ on in
      let k = read_tcp-Keeps p d w in
      read_all-data d p (packet q ∷ after) on tp
      ∙ read_all-data (read_tcp d p) q after on' tq
      ∙ ap (λ e. read_all e after) (read_tcp-again (read_tcp d p) p q k same short)
      ∙ sym (read_all-data d p after on tp)
]

-- A packet of TCP that is sent again, directly behind the first, with the same sequence number and no
-- longer than the first, changes nothing, wherever in the file the two stand.
pub retransmission_ignored :
    (d : PcapDevice) (before after : List Next) (p q : Packet)
    → IsWhole p
    → IsData p
    → IsData q
    → seq (ip_part q) ≡ seq (ip_part p)
    → tot_len (ip_part q) ≤ tot_len (ip_part p)
    → read_all d (before ++ (packet p ∷ packet q ∷ after))
      ≡ read_all d (before ++ (packet p ∷ after))
unfolding read_all
retransmission_ignored d [] after p q w tp tq same short =
    here_ignored d p q after w tp tq same short
retransmission_ignored d (next ∷ before) after p q w tp tq same short =
    ground (arith, retransmission_ignored (read d next).1 before after p q w tp tq same short)
