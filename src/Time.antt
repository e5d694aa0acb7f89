-- ===== src/Time.antt =====
-- `SystemTimeToString` of src/sdk_utils.cpp. The system's `localtime_r` is a parameter. Text is a
-- list of character codes; `time_t` is taken to have at most 64 bits, `int` values of a time are
-- natural numbers where C promises that they are not negative.
pub mod Format
pub mod Laws
use ommo_sdk_external.Prelude.{
  ℤ, pos, negsuc, ℕ, zero, suc, ◌+◌, ◌-◌, ◌*◌, ◌/◌, ◌%◌, ◌^◌, Bool, true, false, ◌&&◌, ◌||◌, Option,
  none, some, List, [], ◌∷◌, ◌++◌, length, take, replicate, if◌then◌else◌, ltb, leb, ◌==◌, ◌>>=◌,
}

-- `struct tm`, as far as it is read.
pub record Tm : Type 0 where
  pub tm_year : ℤ
  pub tm_mon : ℕ
  pub tm_mday : ℕ
  pub tm_hour : ℕ
  pub tm_min : ℕ
  pub tm_sec : ℕ
  pub tm_gmtoff : ℤ

-- `~x`, `x >> 1` of a signed integer, and the conversion to `uint64_t`.
abbrev pub complement : ℤ → ℤ
complement (pos n) = negsuc n
complement (negsuc n) = pos n

abbrev pub half : ℤ → ℤ
half (pos n) = pos (n / 2)
half (negsuc n) = negsuc (n / 2)

abbrev pub to_u64 : ℤ → ℕ
to_u64 (pos n) = n % 18446744073709551616
to_u64 (negsuc n) = 18446744073709551615 - n % 18446744073709551616

-- `static_cast<uint64_t>(std::time_t(~std::time_t{0} >> 1))`
unfoldable pub time_t_max : ℕ
time_t_max = to_u64 (half (complement (pos 0)))

-- The decimal digits of a number, in so many places at most.
unfoldable pub digits : ℕ → ℕ → List ℕ
digits zero n = []
digits (suc places) n =
    let rest = digits places (n / 10) in
    if ltb n 10 then (48 + n) ∷ [] else rest ++ ((48 + n % 10) ∷ [])

-- `%0<width>d`. An `int` has ten digits at most.
unfoldable pub padded : ℕ → ℕ → List ℕ
unfolding digits
padded width n = replicate (width - length (digits 10 n)) 48 ++ digits 10 n

abbrev pub magnitude : ℤ → ℕ
magnitude (pos n) = n
magnitude (negsuc n) = n + 1

-- `(offset_sec >= 0) ? '+' : '-'`
abbrev pub sign_of : ℤ → ℕ
sign_of (pos n) = 43
sign_of (negsuc n) = 45

-- `tm_year + 1900`
abbrev pub year_of : ℤ → ℤ
year_of (pos n) = pos (n + 1900)
year_of (negsuc n) = if ltb n 1900 then pos (1899 - n) else negsuc (n - 1900)

-- `year < 1900 || year > 9999`
abbrev pub is_bad_year : ℤ → Bool
is_bad_year (pos n) = ltb n 1900 || ltb 9999 n
is_bad_year (negsuc n) = true

-- The arguments of the format, "%04d-%02d-%02dT%02d:%02d:%02d.%03d%c%02d:%02d".
unfoldable pub format_time : ℕ → Tm → ℕ → List ℕ
unfolding padded
format_time year t ms =
    padded 4 year
    ++ (45 ∷ padded 2 (t.tm_mon + 1)
        ++ (45 ∷ padded 2 t.tm_mday
            ++ (84 ∷ padded 2 t.tm_hour
                ++ (58 ∷ padded 2 t.tm_min
                    ++ (58 ∷ padded 2 t.tm_sec
                        ++ (46 ∷ padded 3 ms
                            ++ (sign_of t.tm_gmtoff ∷ padded 2 (magnitude t.tm_gmtoff / 3600)
                                ++ (58 ∷ padded 2 (magnitude t.tm_gmtoff % 3600 / 60)))))))))

-- `snprintf` into a buffer of so many bytes, more than 0: what it writes before the NUL. It returns
-- the length of the whole text.
abbrev pub printed : ℕ → List ℕ → List ℕ
printed buffer_size text = take (buffer_size - 1) text

-- What the function returns, and the text in the buffer if it was written.
abbrev pub write_time : ℕ → ℕ → ℕ → Tm → Bool × Option (List ℕ)
write_time year milliseconds buffer_size t =
    let text = format_time year t (milliseconds % 1000) in
    (length text == 29, some (printed buffer_size text))

abbrev pub with_tm : ℕ → ℕ → Option Tm → Bool × Option (List ℕ)
with_tm milliseconds buffer_size none = (false, none)
with_tm milliseconds buffer_size (some t) =
    if is_bad_year (year_of t.tm_year) || ltb 23 (magnitude t.tm_gmtoff / 3600)
    then (false, none)
    else write_time (magnitude (year_of t.tm_year)) milliseconds buffer_size t

-- `buffer` is of `buffer_size` bytes, or null.
unfoldable pub system_time_to_string : (ℕ → Option Tm) → ℕ → Bool → ℕ → Bool × Option (List ℕ)
system_time_to_string localtime milliseconds buffer_is_null buffer_size =
    if ltb buffer_size 30 || buffer_is_null
    then (false, none)
    else if ltb time_t_max (milliseconds / 1000)
    then (false, none)
    else with_tm milliseconds buffer_size (localtime (milliseconds / 1000))
