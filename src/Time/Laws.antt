-- ===== src/Time/Laws.antt =====
-- The text of a time: when it is written, its length, and the numbers that can be read from it.
use ommo_sdk_external.Prelude.{
  pos, ℕ, ◌+◌, ◌-◌, ◌*◌, ◌/◌, ◌%◌, ◌≤◌, ◌<◌, ◌≡◌, refl, ap, ap₂, ◌∙◌, arith, Bool, true, false,
  ◌||◌, Option, none, some, List, [], ◌∷◌, length, take, drop, take-all, get_elem?, ltb, ◌==◌,
}
use ommo_sdk_external.Time.{
  Tm, time_t_max, magnitude, sign_of, year_of, is_bad_year, format_time, printed,
  system_time_to_string,
}
use ommo_sdk_external.Time.Format.{padded2, padded3, padded4}

-- The number that the digits of a text at a place stand for.
abbrev pub value : List ℕ → ℕ → ℕ
value [] acc = acc
value (c ∷ cs) acc = value cs (acc * 10 + (c - 48))

abbrev pub number_at : List ℕ → ℕ → ℕ → ℕ
number_at text i places = value (take places (drop i text)) 0

-- The ranges that C promises of a time; a second may be a leap second.
pub record IsTm (t : Tm) : Type 0 where
  pub mon : t.tm_mon < 12
  pub mday : t.tm_mday < 32
  pub hour : t.tm_hour < 24
  pub minute : t.tm_min < 60
  pub sec : t.tm_sec ≤ 60

-- The text shows the time, in places 0 to 28.
pub record Shows (text : List ℕ) (year : ℕ) (t : Tm) (ms : ℕ) : Type 0 where
  pub size : length text ≡ 29
  pub year_at : number_at text 0 4 ≡ year
  pub mon_at : number_at text 5 2 ≡ t.tm_mon + 1
  pub mday_at : number_at text 8 2 ≡ t.tm_mday
  pub hour_at : number_at text 11 2 ≡ t.tm_hour
  pub min_at : number_at text 14 2 ≡ t.tm_min
  pub sec_at : number_at text 17 2 ≡ t.tm_sec
  pub ms_at : number_at text 20 3 ≡ ms
  pub sign_at : get_elem? text 23 ≡ some (sign_of t.tm_gmtoff)
  pub offset_hour_at : number_at text 24 2 ≡ magnitude t.tm_gmtoff / 3600
  pub offset_min_at : number_at text 27 2 ≡ magnitude t.tm_gmtoff % 3600 / 60

format_time-Shows :
    (year : ℕ) (t : Tm) (ms : ℕ)
    → IsTm t
    → 1000 ≤ year
    → year < 10000
    → ms < 1000
    → magnitude t.tm_gmtoff / 3600 < 24
    → Shows (format_time year t ms) year t ms
unfolding format_time
format_time-Shows year t ms v low high m o =
    rw
      (
        padded4 year low high,
        padded2 (t.tm_mon + 1) (omega (arith, v.mon)),
        padded2 t.tm_mday (omega (arith, v.mday)),
        padded2 t.tm_hour (omega (arith, v.hour)),
        padded2 t.tm_min (omega (arith, v.minute)),
        padded2 t.tm_sec (omega (arith, v.sec)),
        padded3 ms m,
        padded2 (magnitude t.tm_gmtoff / 3600) (omega arith),
        padded2 (magnitude t.tm_gmtoff % 3600 / 60) (omega arith),
      )
      (record {
        size = refl;
        year_at = omega arith;
        mon_at = omega arith;
        mday_at = omega arith;
        hour_at = omega arith;
        min_at = omega arith;
        sec_at = omega arith;
        ms_at = omega arith;
        sign_at = refl;
        offset_hour_at = omega arith;
        offset_min_at = omega arith;
      })

-- The largest value of the test is that of a `uint64_t`, so that no number of seconds fails it.
time_t_max-never :
    (milliseconds : ℕ)
    → milliseconds < 18446744073709551616
    → ltb time_t_max (milliseconds / 1000) ≡ false
unfolding time_t_max
time_t_max-never milliseconds h = ground arith

take-long : (text : List ℕ) (size : ℕ) → length text ≡ 29 → 30 ≤ size → printed size text ≡ text
take-long text size e h = take-all (size - 1) text (omega arith)

-- A time that the system can tell, of a year from 1900 to 9999 and less than 24 hours from UTC, is
-- written into a buffer of 30 bytes or more: the text has 29 characters, and the numbers read from
-- it are the year, month, day, hour, minute, second and millisecond and the offset with its sign.
pub system_time_to_string_lem :
    (localtime : ℕ → Option Tm) (milliseconds buffer_size : ℕ) (t : Tm) (years : ℕ)
    → milliseconds < 18446744073709551616
    → 30 ≤ buffer_size
    → localtime (milliseconds / 1000) ≡ some t
    → IsTm t
    → t.tm_year ≡ pos years
    → years < 8100
    → magnitude t.tm_gmtoff < 86400
    → (text : List ℕ) × (system_time_to_string localtime milliseconds false buffer_size
        ≡ (true, some text))
      × Shows text (years + 1900) t (milliseconds % 1000)
unfolding system_time_to_string
system_time_to_string_lem localtime milliseconds buffer_size t years low size told v year range
      offset =
    let shows =
      format_time-Shows (years + 1900) t (milliseconds % 1000) v (omega arith) (omega arith)
        (omega arith) (omega arith) in
    let text = format_time (years + 1900) t (milliseconds % 1000) in
    let room : ltb buffer_size 30 ≡ false = ground arith in
    let near : ltb 23 (magnitude t.tm_gmtoff / 3600) ≡ false = ground arith in
    let early : ltb (years + 1900) 1900 ≡ false = ground arith in
    let late : ltb 9999 (years + 1900) ≡ false = ground arith in
    let shown : year_of t.tm_year ≡ pos (years + 1900) = ap year_of year in
    let good : is_bad_year (year_of t.tm_year) ≡ false =
      ap is_bad_year shown ∙ rw (early, late) refl in
    let number : magnitude (year_of t.tm_year) ≡ years + 1900 = ap magnitude shown in
    let whole : (length text == 29) ≡ true = rw shows.size refl in
    (
      text,
      rw (room, time_t_max-never milliseconds low, told, good, near, number)
          (ap₂ (λ b l. (b, some l)) whole (take-long text buffer_size shows.size size)),
      shows,
    )

-- For a year outside 1900 to 9999 or an offset of 24 hours or more the answer is false, and nothing
-- is written.
pub system_time_to_string-refuses :
    (localtime : ℕ → Option Tm) (milliseconds buffer_size : ℕ) (t : Tm)
    → localtime (milliseconds / 1000) ≡ some t
    → is_bad_year (year_of t.tm_year) || ltb 23 (magnitude t.tm_gmtoff / 3600) ≡ true
    → (buffer_is_null : Bool)
    → system_time_to_string localtime milliseconds buffer_is_null buffer_size ≡ (false, none)
unfolding system_time_to_string
system_time_to_string-refuses localtime milliseconds buffer_size t told bad buffer_is_null =
    rw (told, bad) (ground arith)
