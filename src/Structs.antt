-- ===== src/Structs.antt =====
-- packed_structs/sbf_structs.hpp: the structs that blocks are copied into, and where a compiler puts their
-- members. `#pragma pack(push, 4)` bounds the alignment of each member by four.
pub mod Solutions
pub mod Receiver
pub mod Layout
pub mod Copies
mod Tests
use Prim.Native.String.{String}
use rosaic.Prelude.{ℕ, zero, suc, ◌+◌, ◌-◌, ◌*◌, ◌/◌, if◌then◌else◌, leb, List, [], ◌∷◌}

-- The size of a type and its alignment.
pub record Ty : Type 0 where
  pub size : ℕ
  pub align : ℕ

abbrev pub ty : ℕ → ℕ → Ty
ty size align = record { size = size; align = align }

abbrev pub uint8 : Ty
uint8 = ty 1 1

abbrev pub int8 : Ty
int8 = ty 1 1

abbrev pub char : Ty
char = ty 1 1

abbrev pub uint16 : Ty
uint16 = ty 2 2

abbrev pub uint32 : Ty
uint32 = ty 4 4

abbrev pub int32 : Ty
int32 = ty 4 4

abbrev pub f32 : Ty
f32 = ty 4 4

-- `SBFDOUBLE`, a double with its alignment set to four.
abbrev pub sbf_double : Ty
sbf_double = ty 8 4

abbrev pub array : Ty → ℕ → Ty
array t count = ty (t.size * count) t.align

abbrev pub Member : Type 0
Member = String × Ty

-- Under the pragma.
abbrev pub packed_align : Ty → ℕ
packed_align t = if leb t.align 4 then t.align else 4

abbrev pub round_up : ℕ → ℕ → ℕ
round_up offset align = (offset + (align - 1)) / align * align

-- The offset of each member, from some offset on, and the end of the last.
unfoldable pub offsets : List Member → ℕ → List ℕ
offsets [] from = from ∷ []
offsets ((name, t) ∷ members) from =
    let start = round_up from (packed_align t) in start ∷ offsets members (start + t.size)

unfoldable pub end_of : List Member → ℕ → ℕ
end_of [] from = from
end_of ((name, t) ∷ members) from = end_of members (round_up from (packed_align t) + t.size)

unfoldable pub align_of : List Member → ℕ
align_of [] = 1
align_of ((name, t) ∷ members) =
    let rest = align_of members in if leb rest (packed_align t) then packed_align t else rest

-- `sizeof`: the end, padded to the alignment.
unfoldable pub sizeof : List Member → ℕ
sizeof members = round_up (end_of members 0) (align_of members)

-- A struct as the type of a member.
abbrev pub struct : List Member → Ty
struct members = ty (sizeof members) (align_of members)
