-- ===== src/Times.antt =====
-- `time.Time` and `time.Duration`: a time is its number of nanoseconds since a fixed instant; the zero
-- time, which `IsZero` asks for, is `none` where the code tests for it. A monotonic reading is not told
-- apart from the time of the day. `formatTime` of logcenter/types.go is the parameter `format` of a clock.
use logcenter_sdk_go.Base.{
  ℕ, suc, ℤ, pos, negsuc, String, Option, none, some, ltb_ℤ, leb_ℤ, ◌-ℤ◌, ◌-◌, ◌/◌, ◌^◌, to_nat,
  min, if◌then◌else◌, ◌≡◌, ap, ◌∙◌, arith,
}

abbrev pub Time : Type 0
Time = ℤ

-- A number of nanoseconds in 64 bits.
abbrev pub Duration : Type 0
Duration = ℤ

-- `time.Now`, by the number of times that the outside was met before, and the text of a time.
pub record Clock : Type 0 where
  pub time : ℕ → Time
  pub format : Time → String

-- `if t.IsZero() { t = time.Now().UTC() }`.
abbrev pub or_now : Option Time → Time → Time
or_now none now = now
or_now (some t) now = t

abbrev saturate : ℤ → Duration
saturate d =
    if leb_ℤ (pos (2 ^ 63)) d
    then pos (2 ^ 63 - 1)
    else if ltb_ℤ d (negsuc (2 ^ 63 - 1))
    then negsuc (2 ^ 63 - 1)
    else d

-- `t.Sub(u)`: the difference, cut off at the ends of 64 bits.
abbrev pub sub : Time → Time → Duration
sub t u = saturate (t -ℤ u)

-- `d.Milliseconds()`: the quotient is cut off towards zero.
abbrev pub milliseconds : Duration → ℤ
milliseconds (pos n) = pos (n / 1000000)
milliseconds (negsuc n) = pos 0 -ℤ pos (suc n / 1000000)

-- `duration := finishedAt.Sub(startedAt).Milliseconds(); if duration < 0 { duration = 0 }`.
unfoldable pub elapsed_ms : Time → Time → ℤ
elapsed_ms finished started =
    let duration = milliseconds (sub finished started) in
    if ltb_ℤ duration (pos 0) then pos 0 else duration

to_nat-saturate : (d : ℤ) → to_nat (saturate d) ≡ min (to_nat d) (2 ^ 63 - 1)
to_nat-saturate (pos n) = ground arith
to_nat-saturate (negsuc n) = ground arith

not_negative :
    (d : Duration)
    → (if ltb_ℤ (milliseconds d) (pos 0) then pos 0 else milliseconds d) ≡ pos (to_nat d / 1000000)
not_negative (pos n) = ground arith
not_negative (negsuc n) = ground arith

-- The duration is the time that went by in whole milliseconds, 0 if it went backwards.
pub elapsed_ms_lem :
    (finished started : Time)
    → elapsed_ms finished started ≡ pos (min (to_nat (finished -ℤ started)) (2 ^ 63 - 1) / 1000000)
unfolding elapsed_ms
elapsed_ms_lem finished started =
    not_negative (sub finished started)
    ∙ ap (λ n. pos (n / 1000000)) (to_nat-saturate (finished -ℤ started))
