-- ===== src/Pricing.antt =====
-- pkg/pricing/pricing.go. Amounts are whole rupiahs; none is negative and none comes near 2 ^ 63.
pub mod Hours
pub mod Overnight
pub mod Fees
use parkirpintar.Common.{ℕ, ◌+◌, ◌-◌, ◌*◌, ◌/◌, ◌%◌, Bool, ltb, leb, if◌then◌else◌}
use parkirpintar.Common.Int.{ℤ, pos, negsuc, leb_ℤ, pos_part}
use parkirpintar.Common.Time.{Time, minute, hour, day, sub_time, minutes}

abbrev pub booking_fee : ℕ
booking_fee = 5000

abbrev pub hourly_rate : ℕ
hourly_rate = 5000

abbrev pub overnight_fee : ℕ
overnight_fee = 20000

abbrev pub cancellation_free : ℕ
cancellation_free = 0

abbrev pub cancellation_fee : ℕ
cancellation_fee = 5000

abbrev pub no_show_fee : ℕ
no_show_fee = 0

abbrev pub free_cancel_window : ℕ
free_cancel_window = 2 * minute

-- `Result` of the source.
pub record Bill : Type 0 where
  pub booking : ℕ
  pub parking : ℕ
  pub overnight : ℕ
  pub total : ℕ
  pub hours : ℕ
  pub is_overnight : Bool

-- The hours of a number of whole minutes that is positive.
hours_of : ℕ → ℕ
hours_of mins = let hours = (mins + 59) / 60 in if ltb 720 hours then 720 else hours

-- The first test is `mins <= 0`; `pos_part` is the number itself after it.
unfoldable pub billed_hours : Time → Time → ℕ
unfolding hours_of
billed_hours check_in check_out =
    let mins = minutes (sub_time check_out check_in) in
    if leb_ℤ mins (pos 0) then 0 else hours_of (pos_part mins)

-- An instant as its WIB wall clock shows it: nanoseconds since 1970-01-01 00:00 WIB's clock face.
abbrev pub wib_local : Time → Time
wib_local t = t + 7 * hour

-- time.Date(year, month, day, 0, 0, 0, 0, wib) of the wall clock: the midnight before.
abbrev pub wib_midnight : Time → Time
wib_midnight t = wib_local t - wib_local t % day

unfoldable pub is_overnight : Time → Time → Bool
is_overnight check_in check_out = ltb (wib_midnight check_in) (wib_midnight check_out)

unfoldable pub calculate : Time → Time → Bill
calculate check_in check_out =
    let billed = billed_hours check_in check_out in
    let crosses = is_overnight check_in check_out in
    let parking_fee = billed * hourly_rate in
    let night_fee = if crosses then overnight_fee else 0 in
    record {
      booking = booking_fee;
      parking = parking_fee;
      overnight = night_fee;
      total = parking_fee + night_fee;
      hours = billed;
      is_overnight = crosses;
    }

unfoldable pub calculate_cancellation_fee : Time → Time → Bool → ℕ
calculate_cancellation_fee confirmed_at cancelled_at is_no_show =
    if is_no_show
    then no_show_fee
    else if leb_ℤ (sub_time cancelled_at confirmed_at) (pos free_cancel_window)
    then cancellation_free
    else cancellation_fee
