-- ===== src/Structs/Tests.antt =====
-- Offsets that other modules use, sizes, and the copies from a buffer of a few bytes.
use Prim.Native.String.{String}
use text.Mathlib.Text.{◌==◌}
use rosaic.Prelude.{ℕ, ◌≡◌, refl, if◌then◌else◌, Option, none, some, List, [], ◌∷◌}
use rosaic.Structs.{Member, offsets, sizeof, end_of, align_of}
use rosaic.Structs.Receiver.{
  channel_status_members, channel_sat_info_members, channel_state_info_members, meas_epoch_members,
  meas_epoch_channel_type1_members, quality_ind_members,
}
use rosaic.Structs.Solutions.{pvt_geodetic_members}

abbrev paired : String → List Member → List ℕ → Option ℕ
paired name [] at = none
paired name ((n, t) ∷ members) [] = none
paired name ((n, t) ∷ members) (o ∷ at) = if n == name then some o else paired name members at

abbrev offset_of : String → List Member → Option ℕ
offset_of name members = paired name members (offsets members 0)

n_in_channel_status : offset_of "n" channel_status_members ≡ some 14
unfolding offsets sizeof end_of align_of
n_in_channel_status = refl

data_in_meas_epoch : offset_of "data" meas_epoch_members ≡ some 20
unfolding offsets sizeof end_of align_of
data_in_meas_epoch = refl

cn0_in_type1 : offset_of "cn0" meas_epoch_channel_type1_members ≡ some 15
unfolding offsets
cn0_in_type1 = refl

n_type2_in_type1 : offset_of "n_type2" meas_epoch_channel_type1_members ≡ some 19
unfolding offsets
n_type2_in_type1 = refl

elev_in_sat_info : offset_of "elev" channel_sat_info_members ≡ some 8
unfolding offsets
elev_in_sat_info = refl

pvt_status_in_state_info : offset_of "pvt_status" channel_state_info_members ≡ some 4
unfolding offsets
pvt_status_in_state_info = refl

indicators_in_quality_ind : offset_of "indicators" quality_ind_members ≡ some 16
unfolding offsets sizeof end_of align_of
indicators_in_quality_ind = refl

size_of_pvt_geodetic : sizeof pvt_geodetic_members ≡ 96
unfolding sizeof end_of align_of
size_of_pvt_geodetic = refl

size_of_meas_epoch : sizeof meas_epoch_members ≡ 21080
unfolding sizeof end_of align_of
size_of_meas_epoch = refl
