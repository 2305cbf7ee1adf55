-- ===== src/Tests/TextRuns.antt =====
-- The theorems on durations and URLs at concrete values.
use hku_utils.Base.{ℕ, ◌/◌, ◌%◌, ◌≡◌, List, [], ◌∷◌, map, arith}
use hku_utils.Base.Int.{pos, negsuc, quot, rem}
use hku_utils.TimeDelta.{
  Duration, days, hours, minutes, seconds, milliseconds, microseconds, total_of,
}
use hku_utils.TimeDelta.Parts.{parts_normal, UpTo}
use hku_utils.Url.{url_escape, url_unescape}
use Prim.{tt}
use hku_utils.Url.RoundTrip.{unescape-escape, survivor}

hours_boost : (t : ℕ) → quot (pos t) 3_600_000_000 ≡ pos (t / 3_600_000_000)
unfolding quot
hours_boost t = ground arith

minutes_boost : (t : ℕ) → rem (quot (pos t) 60_000_000) 60 ≡ pos (t / 60_000_000 % 60)
unfolding quot rem
minutes_boost t = ground arith

seconds_boost : (t : ℕ) → rem (quot (pos t) 1_000_000) 60 ≡ pos (t / 1_000_000 % 60)
unfolding quot rem
seconds_boost t = ground arith

-- A duration library: the truncating division of the ticks.
abbrev boost : Duration
boost = record {
  hours = λ t. quot t 3_600_000_000;
  minutes = λ t. rem (quot t 60_000_000) 60;
  seconds = λ t. rem (quot t 1_000_000) 60;
  hours_lem = hours_boost;
  minutes_lem = minutes_boost;
  seconds_lem = seconds_boost;
}

-- Minus one microsecond.
parts_normal_example :
    UpTo 23 (hours boost (negsuc 0))
    × UpTo 59 (minutes boost (negsuc 0))
    × UpTo 59 (seconds boost (negsuc 0))
    × UpTo 999 (milliseconds (negsuc 0))
    × UpTo 999 (microseconds (negsuc 0))
    × (total_of
          (days boost (negsuc 0))
          (hours boost (negsuc 0))
          (minutes boost (negsuc 0))
          (seconds boost (negsuc 0))
          (milliseconds (negsuc 0))
          (microseconds (negsuc 0))
        ≡ negsuc 0)
parts_normal_example = parts_normal boost (negsuc 0)

abbrev text : List ℕ
text = 97 ∷ 32 ∷ 37 ∷ 52 ∷ 228 ∷ []

unescape-escape_example : url_unescape (url_escape text) ≡ map survivor text
unescape-escape_example =
    unescape-escape text
      (omega arith, (omega arith, (omega arith, (omega arith, (omega arith, tt)))))
