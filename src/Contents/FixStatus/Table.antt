-- ===== src/Contents/FixStatus/Table.antt =====
-- The status of a fix as a table over modes, whatever `type_of_pvt_map` holds by then.
use rosaic.Prelude.{
  ℕ, ◌%◌, ◌≡◌, refl, ap, ◌∙◌, arith, ◌&&◌, ◌||◌, if◌then◌else◌, ◌==◌, List, [], ◌∷◌, ◌++◌, none,
  some,
}
use rosaic.Contents.FixStatus.{
  TypeOfPvt, no_pvt, TypeOfPvtMap, type_of_pvt_pairs, find_pvt, at_key, FixStatus, no_fix, fix,
  sbas_fix, gbas_fix, waas_fix, nav_sat_status, is_waas, gps_status, nav_sat_fix, gps_fix,
  StatusCall, nav_sat, gps, calls,
}

-- The type that a key has, whether it is there or not.
abbrev type_at : ℕ → TypeOfPvtMap → TypeOfPvt
type_at key pairs = elim (find_pvt key pairs) [ none ↦ no_pvt | some t ↦ t ]

type_at-append :
    (key k : ℕ) (pairs : TypeOfPvtMap) → type_at key (pairs ++ (k, no_pvt) ∷ []) ≡ type_at key pairs
unfolding find_pvt
type_at-append key k [] = ground arith
type_at-append key k ((k', t) ∷ pairs) = ground (arith, type_at-append key k pairs)

at_key-type_at : (key : ℕ) (pairs : TypeOfPvtMap) → (at_key key pairs).0 ≡ type_at key pairs
unfolding at_key
at_key-type_at key pairs = ground arith

type_at-at_key :
    (key k : ℕ) (pairs : TypeOfPvtMap) → type_at key (at_key k pairs).1 ≡ type_at key pairs
unfolding at_key
type_at-at_key key k pairs = ground (arith, type_at-append key k pairs)

type_at-calls :
    (key : ℕ) (before : List StatusCall) (pairs : TypeOfPvtMap)
    → type_at key (calls before pairs) ≡ type_at key pairs
unfolding calls nav_sat_fix gps_fix
type_at-calls key [] pairs = refl
type_at-calls key (nav_sat mode ∷ later) pairs =
    type_at-calls key later (nav_sat_fix mode pairs).1 ∙ type_at-at_key key (mode % 16) pairs
type_at-calls key (gps mode id ∷ later) pairs =
    type_at-calls key later (gps_fix mode id pairs).1 ∙ type_at-at_key key (mode % 16) pairs

-- The status for the lowest four bits of a mode.
unfoldable pub status_of_mode : ℕ → FixStatus
status_of_mode t =
    if t == 1 || t == 3
    then fix
    else if t == 6
    then sbas_fix
    else if t == 2 || t == 4 || t == 5 || t == 7 || t == 8 || t == 10
    then gbas_fix
    else no_fix

type_at-status : (t : ℕ) → nav_sat_status (type_at t type_of_pvt_pairs) ≡ status_of_mode t
unfolding find_pvt status_of_mode
type_at-status t = ground arith

type_at-gps :
    (id t : ℕ)
    → gps_status id (type_at t type_of_pvt_pairs)
      ≡ (if is_waas id && t == 6 then waas_fix else status_of_mode t)
unfolding find_pvt status_of_mode
type_at-gps id t = ground arith

-- Whatever calls of the two callbacks came before, with missing keys among them, the status of either
-- message is the one of the lowest four bits of the mode; the two differ only where a GPSFix names WAAS.
pub statuses_of_mode :
    (before : List StatusCall) (mode reference_id : ℕ)
    → let pairs = calls before type_of_pvt_pairs in
      ((nav_sat_fix mode pairs).0 ≡ status_of_mode (mode % 16))
      × ((gps_fix mode reference_id pairs).0 ≡ (
          if is_waas reference_id && mode % 16 == 6 then waas_fix else status_of_mode (mode % 16)))
unfolding nav_sat_fix gps_fix
statuses_of_mode before mode id =
    let t = mode % 16 in
    let pairs = calls before type_of_pvt_pairs in
    let e : (at_key t pairs).0 ≡ type_at t type_of_pvt_pairs =
      at_key-type_at t pairs ∙ type_at-calls t before type_of_pvt_pairs in
    (
      ap (λ x. nav_sat_status x) e ∙ type_at-status t,
      ap (λ x. gps_status id x) e ∙ type_at-gps id t,
    )
