-- ===== src/Time/Tests.antt =====
-- Time stamps on known inputs, and their theorems at inputs that meet their hypotheses.
use rosaic.Prelude.{ℕ, ◌+◌, ◌-◌, ◌%◌, ◌⊎◌, if◌then◌else◌, ◌==◌, ◌*◌, ◌/◌, ◌≡◌, refl, arith, true}
use rosaic.Time.{Stamp, Clock, Calendar, timestamp_sbf}
use rosaic.Time.Utc.{IsClock}
use rosaic.Time.Unix.{IsPosix, IsTruncation, timestamp_sbf-sec}

-- A calendar whose dates are the days since the epoch.
abbrev day_count : Calendar
day_count = record { Date = ℕ; gmtime_date = λ t. t / 86400; timegm_midnight = λ d. d * 86400 }

day_count-IsPosix : IsPosix day_count
day_count-IsPosix = record { midnight = λ t. omega arith }

-- Nine seconds and a half past midnight.
abbrev early : Clock
early = record { hh = 0; mm = 0; ss = 9; hs = 50 }

early-IsClock : IsClock early
early-IsClock = record {
  hour = omega arith;
  minute = omega arith;
  second = omega arith;
  hundredth = omega arith;
}

-- 29 hundredths are cut to 28: 0.29 * 100 is below 29 in doubles.
abbrev cut : ℕ → ℕ
cut u = if u % 100 == 29 then u - 1 else u

cut-IsTruncation : IsTruncation cut
cut-IsTruncation = record {
  above = λ u small. ground arith;
  below = λ u small. ground arith;
  exact = λ u small e. ground arith;
}

-- A message of 2020-09-12 23:59:51.29 UTC, read on that day.
timestamp_sbf-sec_example :
    ((timestamp_sbf day_count cut 18 (record { sec = 1599955195; nsec = 0 }) 9290 true).sec
      ≡ 1599955191)
    × (((timestamp_sbf day_count cut 18 (record { sec = 1599955195; nsec = 0 }) 9290 true).nsec
          ≡ 290000000)
        ⊎ ((timestamp_sbf day_count cut 18 (record { sec = 1599955195; nsec = 0 }) 9290 true).nsec
              + 10000000
            ≡ 290000000))
timestamp_sbf-sec_example =
    timestamp_sbf-sec day_count day_count-IsPosix cut cut-IsTruncation 18
      (record { sec = 1599955195; nsec = 0 }) 9290 1599955191 (omega arith) (omega arith) refl refl

abbrev stamp : ℕ → ℕ → Stamp
stamp sec nsec = record { sec = sec; nsec = nsec }
