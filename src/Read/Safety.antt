-- ===== src/Read/Safety.antt =====
-- `RxMessage::read` and the position in the buffer.
use rosaic.Prelude.{some, ◌<◌, ◌<◌, length, leb}
use rosaic.Structs.Copies.{
  Copied, copy_size, largest_copy, copy_size_small, copied_pvt_cartesian, copied_pvt_geodetic,
  copied_pos_cov_cartesian, copied_pos_cov_geodetic, copied_att_euler, copied_att_cov_euler,
  copied_channel_status, copied_meas_epoch, copied_dop, copied_vel_cov_geodetic,
  copied_receiver_status, copied_quality_ind, copied_receiver_setup,
}
use rosaic.Read.Branches.{copying}
use rosaic.Read.State.{
  pvt_cartesian, pvt_geodetic, pos_cov_cartesian, pos_cov_geodetic, att_euler, att_cov_euler,
  channel_status, meas_epoch, dop, vel_cov_geodetic, receiver_status, quality_ind, receiver_setup,
}
use rosaic.Prelude.{
  ◌≡◌, ap, refl, arith, Bool, true, false, if◌then◌else◌, Bool-cases, Option-cases, inl, inr, drop,
  ℕ, List, none, ◌⊎◌, get_or, [],
}
use mathlib.Core.Path.{◌∙◌, sym, subst}
use rosaic.MessageKey.{Key, IsBlock, first_token}
use rosaic.Crc.{is_valid}
use rosaic.RxMessage.{RxMessage, is_sbf, message_text}
use rosaic.RxMessage.Frames.{found-again, is_sbf-crc}
use rosaic.Read.{read, read_found}
use rosaic.Read.State.{
  RxId, nav_sat_fix, Node, Env, Outcome, returned, thrown, fault, gpgga, gprmc, gpgsa, gpgsv, glgsv,
  gagsv, host_of,
}
use rosaic.Read.Keys.{rx_id, IsCopied, copied-IsBlock}
use rosaic.Read.Branches.{
  branch, sentence, last_stamp, read_gpgsv, parsed_gga, parsed_rmc, header_stamp,
}
use rosaic.Parsers.{Parsed, parsed, refused, out_of_range}
use rosaic.Parsers.Gsv as Gsv
use rosaic.Parsers.Gsa as Gsa
use rosaic.Parsers.Gsv.Bounds.{parse_ascii_inside}
use rosaic.Parsers.Gsa.Satellites.{parse_ascii-total}
use rosaic.Read.Blocks.{publish}
use rosaic.Parsers.Gga.Accepts.{parse_ascii-inside}
use rosaic.Parsers.Rmc.Dates.{is_short, parse_ascii-short}
use rosaic.Nmea.{Field, sentence_of}

-- The message stands where it stood; only the result of the check sum may be new.
pub record Kept (before after : Node) : Type 0 where
  pub crc : Bool
  pub rx : after.rx ≡ record before.rx { crc_check = crc }
  pub descriptors : after.descriptors ≡ before.descriptors

-- What holds of the state in which `read` ends, and what a fault implies.
abbrev pub Ends {ℓ} : (Node → Type ℓ) → Type ℓ → Outcome → Type ℓ
Ends P F (returned b node) = P node
Ends P F (thrown node) = P node
Ends P F fault = F

Ends-map :
    {P Q : Node → Type 0} {F G : Type 0} (o : Outcome)
    → ((node : Node) → P node → Q node)
    → (F → G)
    → Ends P F o
    → Ends Q G o
Ends-map (returned b node) f g p = f node p
Ends-map (thrown node) f g p = f node p
Ends-map fault f g p = g p

-- The memory from the message on.
abbrev pub memory : RxMessage → List ℕ
memory m = drop m.pos m.bytes

-- The message is an SBF block that cannot be checked inside the memory.
pub record Uncheckable (m : RxMessage) : Type 0 where
  pub sbf : is_sbf m ≡ true
  pub cut_off : is_valid (memory m) ≡ none

pub crc-Uncheckable :
    (m : RxMessage) (c : Bool) → Uncheckable (record m { crc_check = c }) → Uncheckable m
crc-Uncheckable m c u = record { sbf = sym (is_sbf-crc m c) ∙ u.sbf; cut_off = u.cut_off }

pub Kept-Uncheckable : {a b : Node} → Kept a b → Uncheckable b.rx → Uncheckable a.rx
Kept-Uncheckable {a} {b} k u = crc-Uncheckable a.rx k.crc (subst (λ m. Uncheckable m) k.rx u)

-- The date of a message that is cut as an RMC sentence.
abbrev pub date_field : RxMessage → Field
date_field m =
    let message = message_text m in
    get_or (sentence_of (first_token 0x2c message) message).body 9 []

-- The message is cut into a sentence with a date of one to three characters; its check sum does not
-- matter.
pub record ShortDate (m : RxMessage) : Type 0 where
  pub crc : Bool
  pub short : is_short (date_field (record m { crc_check = crc })) ≡ true

-- The message is an SBF block with a right check sum, and the memory from it on is shorter than the
-- largest struct that `read` copies a block into.
pub record ShortMemory (m : RxMessage) : Type 0 where
  pub sbf : is_sbf m ≡ true
  pub valid : is_valid (memory m) ≡ some true
  pub short : length (memory m) < largest_copy

-- What makes `read` end in a fault.
abbrev pub Faulty : RxMessage → Type 0
Faulty m = Uncheckable m ⊎ (ShortDate m ⊎ ShortMemory m)

crc-ShortDate : (m : RxMessage) (c : Bool) → ShortDate (record m { crc_check = c }) → ShortDate m
crc-ShortDate m c s = record { crc = s.crc; short = s.short }

crc-ShortMemory :
    (m : RxMessage) (c : Bool) → ShortMemory (record m { crc_check = c }) → ShortMemory m
crc-ShortMemory m c s = record {
  sbf = sym (is_sbf-crc m c) ∙ s.sbf;
  valid = s.valid;
  short = s.short;
}

pub Kept-Faulty : {a b : Node} → Kept a b → Faulty b.rx → Faulty a.rx
Kept-Faulty {a} {b} k (inl u) = inl (Kept-Uncheckable k u)
Kept-Faulty {a} {b} k (inr (inl s)) =
    inr (inl (crc-ShortDate a.rx k.crc (subst (λ m. ShortDate m) k.rx s)))
Kept-Faulty {a} {b} k (inr (inr s)) =
    inr (inr (crc-ShortMemory a.rx k.crc (subst (λ m. ShortMemory m) k.rx s)))

abbrev pub Untouched : Node → Node → Type 0
Untouched before after = (after.rx ≡ before.rx) × (after.descriptors ≡ before.descriptors)

-- A branch that parses a sentence and publishes it.
parser-Untouched :
    {A F : Type 0} (node : Node) (r : Parsed A) (node' : A → Node)
    → (r ≡ out_of_range → F)
    → ((message : A) → Untouched node (node' message))
    → Ends (Untouched node) F (elim r [
      | parsed message ↦ returned true (node' message)
      | refused ↦ thrown node
      | out_of_range ↦ fault
    ])
parser-Untouched node (parsed message) node' inside same = same message
parser-Untouched node refused node' inside same = (refl, refl)
parser-Untouched node out_of_range node' inside same = inside refl

-- What a fault of a branch implies.
abbrev pub FaultOf : RxId → Node → Type 0
FaultOf id node =
    (is_short (date_field node.rx) ≡ true)
    ⊎ (IsCopied id × (length (memory node.rx) < largest_copy))

copying-Untouched :
    (id : RxId) (c : Copied) (node node' : Node)
    → IsCopied id
    → Untouched node node'
    → Ends (Untouched node) (FaultOf id node) (copying c node node')
unfolding copying
copying-Untouched id c node node' copies same =
    elim (Bool-cases (leb (copy_size c) (length (memory node.rx)))) [
      | inl fits ↦ rw fits same
      | inr short ↦
          (let less : length (memory node.rx) < copy_size c = ground (arith, short) in
            rw short (inr (copies, omega (arith, less, copy_size_small c))))
    ]

gsv-Untouched :
    (env : Env) (id : RxId) (node : Node)
    → Ends (Untouched node) (FaultOf id node) (read_gpgsv env node)
unfolding read_gpgsv
gsv-Untouched env id node =
    parser-Untouched node (Gsv.parse_ascii env.strtol env.strtof (sentence env node).body)
      (λ message. publish env gpgsv (last_stamp env node) node)
      (λ e. absurd ((parse_ascii_inside env.strtol env.strtof (sentence env node).body).0 e))
      (λ message. ground arith)

pub branch-Untouched :
    (env : Env) (id : RxId) (node : Node)
    → Ends (Untouched node) (FaultOf id node) (branch env id node)
unfolding branch
branch-Untouched env nav_sat_fix node = ground arith
branch-Untouched env gpgsa node =
    parser-Untouched node (Gsa.parse_ascii env.strtol env.strtof (sentence env node).body)
      (λ message. publish env gpgsa (last_stamp env node) node)
      (λ e. absurd (parse_ascii-total env.strtol env.strtof (sentence env node).body e))
      (λ message. ground arith)
branch-Untouched env gpgga node =
    parser-Untouched node (parsed_gga env node)
      (λ message. publish env gpgga (header_stamp env message.stamp) node)
      (λ e. absurd (
        parse_ascii-inside env.doubles (host_of env) env.strtol env.strtof (sentence env node).body
          e))
      (λ message. ground arith)
branch-Untouched env gprmc node =
    parser-Untouched node (parsed_rmc env node)
      (λ m. publish env gprmc (header_stamp env m.0.stamp) node)
      (λ e. inl (
        parse_ascii-short env.doubles (host_of env) env.strtof env.float_in_mps
          (sentence env node).body e))
      (λ message. ground arith)
branch-Untouched env gpgsv node = gsv-Untouched env gpgsv node
branch-Untouched env glgsv node = gsv-Untouched env glgsv node
branch-Untouched env gagsv node = gsv-Untouched env gagsv node
branch-Untouched env pvt_cartesian node =
    copying-Untouched pvt_cartesian copied_pvt_cartesian node _ tt (ground arith)
branch-Untouched env pvt_geodetic node =
    copying-Untouched pvt_geodetic copied_pvt_geodetic node _ tt (ground arith)
branch-Untouched env pos_cov_cartesian node =
    copying-Untouched pos_cov_cartesian copied_pos_cov_cartesian node _ tt (ground arith)
branch-Untouched env pos_cov_geodetic node =
    copying-Untouched pos_cov_geodetic copied_pos_cov_geodetic node _ tt (ground arith)
branch-Untouched env att_euler node =
    copying-Untouched att_euler copied_att_euler node _ tt (ground arith)
branch-Untouched env att_cov_euler node =
    copying-Untouched att_cov_euler copied_att_cov_euler node _ tt (ground arith)
branch-Untouched env channel_status node =
    copying-Untouched channel_status copied_channel_status node _ tt (ground arith)
branch-Untouched env meas_epoch node =
    copying-Untouched meas_epoch copied_meas_epoch node _ tt (ground arith)
branch-Untouched env dop node = copying-Untouched dop copied_dop node _ tt (ground arith)
branch-Untouched env vel_cov_geodetic node =
    copying-Untouched vel_cov_geodetic copied_vel_cov_geodetic node _ tt (ground arith)
branch-Untouched env receiver_status node =
    copying-Untouched receiver_status copied_receiver_status node _ tt (ground arith)
branch-Untouched env quality_ind node =
    copying-Untouched quality_ind copied_quality_ind node _ tt (ground arith)
branch-Untouched env receiver_setup node =
    copying-Untouched receiver_setup copied_receiver_setup node _ tt (ground arith)
branch-Untouched env _ node = ground arith

pub Kept-refl : (node : Node) → Kept node node
Kept-refl node = record { crc = node.rx.crc_check; rx = refl; descriptors = refl }

pub Kept-trans : {a b c : Node} → Kept a b → Kept b c → Kept a c
Kept-trans {a} {b} {c} p q = record {
  crc = q.crc;
  rx = q.rx ∙ ap (λ (m : RxMessage). record m { crc_check = q.crc }) p.rx;
  descriptors = q.descriptors ∙ p.descriptors;
}

branch-Kept :
    (env : Env) (id : RxId) (node : Node) (valid : Bool)
    → (IsCopied id → length (memory node.rx) < largest_copy → Faulty node.rx)
    → Ends
        (Kept node)
        (Faulty node.rx)
        (branch env id (record node { rx = record node.rx { crc_check = valid } }))
branch-Kept env id node valid copied =
    let node' = record node { rx = record node.rx { crc_check = valid } } in
    Ends-map (branch env id node') (λ n u. record { crc = valid; rx = u.0; descriptors = u.1 })
      branch-Faulty (branch-Untouched env id node')
  where
    branch-Faulty :
        FaultOf id (record node { rx = record node.rx { crc_check = valid } }) → Faulty node.rx
    branch-Faulty (inl d) = inr (inl (record { crc = valid; short = d }))
    branch-Faulty (inr (c, short)) = copied c short

checked-Kept :
    (env : Env) (id : RxId) (node : Node) (valid : Bool)
    → is_sbf node.rx ≡ true
    → is_valid (memory node.rx) ≡ some valid
    → let checked = record node { rx = record node.rx { crc_check = valid } } in
      Ends (Kept node) (Faulty node.rx) (if valid then branch env id checked else thrown checked)
checked-Kept env id node true sbf e =
    branch-Kept env id node true
      (λ _ short. inr (inr (record { sbf = sbf; valid = e; short = short })))
checked-Kept env id node false sbf e = record { crc = false; rx = refl; descriptors = refl }

read_found-Kept :
    (env : Env) (node : Node) (key : Key)
    → (IsBlock key → is_sbf node.rx ≡ true)
    → Ends (Kept node) (Faulty node.rx) (read_found env node key)
unfolding read_found
read_found-Kept env node key names = elim (Bool-cases (is_sbf node.rx)) [
  | inl sbf ↦ rw sbf (elim (Option-cases (is_valid (drop node.rx.pos node.rx.bytes))) [
    | inl e ↦ rw e (inl (record { sbf = sbf; cut_off = e }))
    | inr (v, e) ↦ rw e (checked-Kept env (rx_id key) node v sbf e)
  ])
  | inr other ↦ rw other (
      branch-Kept env (rx_id key) node node.rx.crc_check
        (λ c _. let sbf = names (copied-IsBlock key c) in absurd (ground (arith, sbf, other))))
]

pub read-again :
    (env : Env) (node : Node) (key : Key)
    → node.rx.found ≡ true
    → read env node key ≡ read_found env node key
unfolding read
read-again env node key old = simp (found-again node.rx node.descriptors old)

-- `read` at a message that was found, and under the key of a block only if that is one, moves neither the
-- position nor the connection descriptors, whether it returns or throws. It ends in a fault only at an
-- SBF block that cannot be checked inside the memory, at a sentence with a date of one to three
-- characters, or at a good block where the memory is shorter than what may be copied.
pub read-Kept :
    (env : Env) (node : Node) (key : Key)
    → node.rx.found ≡ true
    → (IsBlock key → is_sbf node.rx ≡ true)
    → Ends (Kept node) (Faulty node.rx) (read env node key)
read-Kept env node key old names =
    rw (read-again env node key old) (read_found-Kept env node key names)
