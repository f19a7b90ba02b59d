-- ===== src/Contents/Fix/Tests.antt =====
-- Blocks with few numbers in them, on a format of natural numbers and -1.
use rosaic.Prelude.{
  ℕ, zero, suc, ◌+◌, ◌-◌, ◌*◌, ◌/◌, ◌≡◌, ◌≢◌, ◌↔◌, ◌⊎◌, refl, arith, if◌then◌else◌, ltb, Option,
  none, some, get_or,
}
use rosaic.Contents.{Memory}
use rosaic.Contents.Fields.{member_from, bytes_at}
use rosaic.Contents.Pose.{Reals, pose_covariance}
use rosaic.Contents.Pose.Entries.{covariance_matrix, att_entry, pose_covariance_entries}
use rosaic.Contents.Fix.{Blocks, unsigned, gps_dilution, week_seconds}
use rosaic.Contents.Fix.Unknown.{gdop_unknown}
use rosaic.Structs.{sizeof, end_of, align_of}

-- Natural numbers, and `none` for -1.
abbrev Rounded : Type 0
Rounded = Option ℕ

abbrev whole : Rounded → ℕ
whole none = 0
whole (some n) = n

-- The least number from `from` on whose square is above `n`, less one, among so many.
abbrev root_from : ℕ → ℕ → ℕ → ℕ
root_from n from zero = from
root_from n from (suc more) =
    let rest = root_from n (from + 1) more in if ltb n ((from + 1) * (from + 1)) then from else rest

abbrev rounded : Reals Rounded
rounded = record {
  number = λ value. some (unsigned value);
  of_nat = λ n. some n;
  minus_one = none;
  pi = some 3;
  half = λ x. some (whole x / 2);
  plus = λ x y. some (whole x + whole y);
  minus = λ x y. some (whole x - whole y);
  times = λ x y. some (whole x * whole y);
  over = λ x y. some (whole x / whole y);
  square = λ x. some (whole x * whole x);
  root = λ x. some (root_from (whole x) 0 40);
  cosine = λ x. some 1;
  sine = λ x. some 0;
}

-- A memory that is zero but for one byte.
abbrev byte_at : ℕ → ℕ → Memory
byte_at place value i = if ltb i place then 0 else if ltb place i then 0 else value

-- `cov_pitchroll` is 7, and `cov_headpitch` is 0.
abbrev pitchroll : Memory
pitchroll = byte_at 36 7

-- `tdop` is 3 and `pdop` is 0.
abbrev tdop_only : Memory
tdop_only = byte_at 18 44

abbrev blocks : Blocks
blocks = record {
  pvtgeodetic = byte_at 32 90;
  poscovgeodetic = byte_at 20 5;
  velcovgeodetic = byte_at 16 1;
  atteuler = byte_at 20 9;
  attcoveuler = pitchroll;
  last_dop = tdop_only;
}

-- The entry of heading and pitch, and the one of pitch and heading.
abbrev two_entries : ℕ × ℕ
two_entries =
    let entries = pose_covariance rounded (byte_at 20 5) pitchroll in
    (whole (get_or entries 34 none), whole (get_or entries 29 none))

covariance_is_skewed : two_entries ≡ (7, 0)
unfolding pose_covariance member_from bytes_at sizeof end_of align_of
covariance_is_skewed = refl

pdop_missing : (gps_dilution rounded blocks).gdop ≡ none
unfolding gps_dilution member_from bytes_at sizeof end_of align_of
pdop_missing = refl

week_unknown : week_seconds 65535 ≡ none
unfolding week_seconds
week_unknown = refl

pose_covariance_entries_example :
    (pose_covariance rounded (byte_at 20 5) pitchroll
      ≡ covariance_matrix rounded (byte_at 20 5) pitchroll)
    ↔ (att_entry rounded (byte_at 20 5) pitchroll "cov_pitchroll"
        ≡ att_entry rounded (byte_at 20 5) pitchroll "cov_headpitch")
pose_covariance_entries_example = pose_covariance_entries rounded (byte_at 20 5) pitchroll

never_minus_one : (n : ℕ) → (some n) ≢ none
never_minus_one n = ground arith

gdop_unknown_example :
    ((gps_dilution rounded blocks).gdop ≡ none)
    ↔ ((gps_dilution rounded blocks).pdop ≡ none) ⊎ ((gps_dilution rounded blocks).tdop ≡ none)
gdop_unknown_example =
    gdop_unknown rounded (λ n. never_minus_one (n / 100)) (λ x. never_minus_one _) blocks
