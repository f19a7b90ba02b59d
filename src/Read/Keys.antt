-- ===== src/Read/Keys.antt =====
-- The map from message keys to the branches of `RxMessage::read`.
use mathlib.Core.Path.{subst}
use rosaic.Prelude.{◌≡◌, refl, Bool, true, false, if◌then◌else◌, List, [], ◌∷◌}
use rosaic.MessageKey.{
  IsBlock, key_eq→eq, Key, block, text, key_eq, nav_sat_fix_name, gps_fix_name, pose_name,
  gpst_name, diagnostic_array_name,
}
use rosaic.Read.State.{
  RxId, nav_sat_fix, gps_fix, pose_with_covariance_stamped, gpgga, gprmc, gpgsa, gpgsv, glgsv,
  gagsv, pvt_cartesian, pvt_geodetic, pos_cov_cartesian, pos_cov_geodetic, att_euler, att_cov_euler,
  gpst, channel_status, meas_epoch, dop, vel_cov_geodetic, diagnostic_array, receiver_status,
  quality_ind, receiver_setup,
}

-- `rx_id_pairs`, with the names as their bytes.
abbrev pub rx_id_pairs : List (Key × RxId)
rx_id_pairs =
    (text nav_sat_fix_name, nav_sat_fix)
    ∷ (text gps_fix_name, gps_fix)
    ∷ (text pose_name, pose_with_covariance_stamped)
    ∷ (text (0x24 ∷ b'G' ∷ b'P' ∷ b'G' ∷ b'G' ∷ b'A' ∷ []), gpgga)
    ∷ (text (0x24 ∷ b'G' ∷ b'P' ∷ b'R' ∷ b'M' ∷ b'C' ∷ []), gprmc)
    ∷ (text (0x24 ∷ b'G' ∷ b'P' ∷ b'G' ∷ b'S' ∷ b'A' ∷ []), gpgsa)
    ∷ (text (0x24 ∷ b'G' ∷ b'P' ∷ b'G' ∷ b'S' ∷ b'V' ∷ []), gpgsv)
    ∷ (text (0x24 ∷ b'G' ∷ b'L' ∷ b'G' ∷ b'S' ∷ b'V' ∷ []), glgsv)
    ∷ (text (0x24 ∷ b'G' ∷ b'A' ∷ b'G' ∷ b'S' ∷ b'V' ∷ []), gagsv)
    ∷ (block 4006, pvt_cartesian)
    ∷ (block 4007, pvt_geodetic)
    ∷ (block 5905, pos_cov_cartesian)
    ∷ (block 5906, pos_cov_geodetic)
    ∷ (block 5938, att_euler)
    ∷ (block 5939, att_cov_euler)
    ∷ (text gpst_name, gpst)
    ∷ (block 4013, channel_status)
    ∷ (block 4027, meas_epoch)
    ∷ (block 4001, dop)
    ∷ (block 5908, vel_cov_geodetic)
    ∷ (text diagnostic_array_name, diagnostic_array)
    ∷ (block 4014, receiver_status)
    ∷ (block 4082, quality_ind)
    ∷ (block 5902, receiver_setup)
    ∷ []

unfoldable pub lookup_id : Key → List (Key × RxId) → RxId
lookup_id key [] = nav_sat_fix
lookup_id key ((k, id) ∷ pairs) = if key_eq k key then id else lookup_id key pairs

-- `rx_id_map[message_key]`: a key that is missing is inserted with the value 0, the first of the
-- enumeration.
unfoldable pub rx_id : Key → RxId
unfolding lookup_id
rx_id key = lookup_id key rx_id_pairs

-- The cases of the `switch` that copy a block.
abbrev pub IsCopied : RxId → Type 0
IsCopied pvt_cartesian = Unit
IsCopied pvt_geodetic = Unit
IsCopied pos_cov_cartesian = Unit
IsCopied pos_cov_geodetic = Unit
IsCopied att_euler = Unit
IsCopied att_cov_euler = Unit
IsCopied channel_status = Unit
IsCopied meas_epoch = Unit
IsCopied dop = Unit
IsCopied vel_cov_geodetic = Unit
IsCopied receiver_status = Unit
IsCopied quality_ind = Unit
IsCopied receiver_setup = Unit
IsCopied _ = ⊥

-- Only the keys of blocks lead to them.
abbrev ByBlock : List (Key × RxId) → Type 0
ByBlock [] = Unit
ByBlock ((k, id) ∷ pairs) = (IsCopied id → IsBlock k) × ByBlock pairs

rx_id_pairs-ByBlock : ByBlock rx_id_pairs
rx_id_pairs-ByBlock = (
  λ e. e,
  (
    λ e. e,
    (
      λ e. e,
      (
        λ e. e,
        (
          λ e. e,
          (
            λ e. e,
            (
              λ e. e,
              (
                λ e. e,
                (
                  λ e. e,
                  (
                    λ e. e,
                    (
                      λ e. e,
                      (
                        λ e. e,
                        (
                          λ e. e,
                          (
                            λ e. e,
                            (
                              λ e. e,
                              (
                                λ e. e,
                                (
                                  λ e. e,
                                  (
                                    λ e. e,
                                    (λ e. e, (λ e. e, (λ e. e, (λ e. e, (λ e. e, (λ e. e, tt)))))),
                                  ),
                                ),
                              ),
                            ),
                          ),
                        ),
                      ),
                    ),
                  ),
                ),
              ),
            ),
          ),
        ),
      ),
    ),
  ),
)

lookup_id-IsBlock :
    (key : Key) (pairs : List (Key × RxId))
    → ByBlock pairs
    → IsCopied (lookup_id key pairs)
    → IsBlock key
unfolding lookup_id
lookup_id-IsBlock key [] by c = absurd c
lookup_id-IsBlock key ((k, id) ∷ pairs) (first, rest) c =
    go (key_eq k key) refl (lookup_id-IsBlock key pairs rest) c
  where
    go :
        (b : Bool)
        → key_eq k key ≡ b
        → (IsCopied (lookup_id key pairs) → IsBlock key)
        → IsCopied (if b then id else lookup_id key pairs)
        → IsBlock key
    go true e next c = subst (λ k. IsBlock k) (key_eq→eq k key e) (first c)
    go false e next c = next c

-- Blocks are only copied under the keys of blocks.
pub copied-IsBlock : (key : Key) → IsCopied (rx_id key) → IsBlock key
unfolding rx_id
copied-IsBlock key c = lookup_id-IsBlock key rx_id_pairs rx_id_pairs-ByBlock c
