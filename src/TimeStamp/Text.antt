-- ===== src/TimeStamp/Text.antt =====
-- `TimeStamp::str` and `operator<<` of base/timestamp.h. `localtime_r` is the parameter `local`, and its answer
-- is a `struct tm`.
use small_rpc.Prelude.{
  ℕ, suc, ◌+◌, ◌-◌, ◌≤◌, ◌<◌, ◌≡◌, ap, ◌∙◌, arith, ◌∷◌, ◌++◌, Bytes, length, length-append,
  length-replicate, take, take_all, replicate, ℤ, pos, negsuc, ◌+ℤ◌,
}
use small_rpc.Http.Text.{decimal}
use small_rpc.Http.Decimal.{limit, decimal-width}
use small_rpc.TimeStamp.{TimeStamp}

pub record Tm : Type 0 where
  pub tm_year : ℤ
  pub tm_mon : ℤ
  pub tm_mday : ℤ
  pub tm_hour : ℤ
  pub tm_min : ℤ
  pub tm_sec : ℤ

-- `%0wd`: at least `w` bytes, of which a sign is one.
unfoldable pub padded : ℕ → ℤ → Bytes
padded w (pos n) = replicate (w - length (decimal n)) b'0' ++ decimal n
padded w (negsuc n) = b'-' ∷ (replicate (w - 1 - length (decimal (suc n))) b'0' ++ decimal (suc n))

-- What `snprintf` leaves in a buffer of `size` bytes, less the 0 behind it.
abbrev pub snprintf : ℕ → Bytes → Bytes
snprintf size text = take (size - 1) text

module _ (local : ℤ → Tm) (t : TimeStamp) where
  unfoldable pub str_text : Bytes
  str_text =
      padded 4 (pos 1900 +ℤ (local t.sec).tm_year)
      ++ (padded 2 (pos 1 +ℤ (local t.sec).tm_mon)
          ++ (padded 2 (local t.sec).tm_mday
              ++ (b'_'
                  ∷ (padded 2 (local t.sec).tm_hour
                      ++ (padded 2 (local t.sec).tm_min ++ padded 2 (local t.sec).tm_sec)))))

  -- `str`
  unfoldable pub str : Bytes
  str = snprintf 16 str_text

  unfoldable pub print_text : Bytes
  print_text =
      padded 4 (pos 1900 +ℤ (local t.sec).tm_year)
      ++ b'-'
        ∷ (padded 2 (pos 1 +ℤ (local t.sec).tm_mon)
            ++ b'-'
              ∷ (padded 2 (local t.sec).tm_mday
                  ++ b' '
                    ∷ (padded 2 (local t.sec).tm_hour
                        ++ b':'
                          ∷ (padded 2 (local t.sec).tm_min
                              ++ b':'
                                ∷ (padded 2 (local t.sec).tm_sec ++ b':' ∷ padded 3 t.msec)))))

  -- `operator<<`
  unfoldable pub print : Bytes
  print = snprintf 32 print_text

-- What localtime_r(3) documents of its answer, in a year of four digits.
pub record IsCivil (tm : Tm) : Type 0 where
  pub year : (y : ℕ) × (pos 1900 +ℤ tm.tm_year ≡ pos y) × (y ≤ 9999)
  pub month : (m : ℕ) × (tm.tm_mon ≡ pos m) × (m ≤ 11)
  pub day : (d : ℕ) × (tm.tm_mday ≡ pos d) × (d ≤ 31)
  pub hour : (h : ℕ) × (tm.tm_hour ≡ pos h) × (h ≤ 23)
  pub minute : (m : ℕ) × (tm.tm_min ≡ pos m) × (m ≤ 59)
  pub second : (s : ℕ) × (tm.tm_sec ≡ pos s) × (s ≤ 60)

length-padded :
    (w n : ℕ) {z : ℤ} → z ≡ pos n → n < limit (suc w) → length (padded (suc w) z) ≡ suc w
unfolding padded
length-padded w n {z} e small =
    let digits : length (decimal n) ≤ suc w = decimal-width w n small in
    ap (λ x. length (padded (suc w) x)) e
    ∙ omega (
      arith,
      digits,
      length-append (replicate (suc w - length (decimal n)) b'0') (decimal n),
      length-replicate {0} {A = ℕ} (suc w - length (decimal n)) b'0',
    )

next_month : (z : ℤ) (m : ℕ) → z ≡ pos m → pos 1 +ℤ z ≡ pos (1 + m)
unfolding ◌+ℤ◌
next_month z m e = rw e (ground arith)

module _ (tm : Tm) (civil : IsCivil tm) where
  length-year : length (padded 4 (pos 1900 +ℤ tm.tm_year)) ≡ 4
  length-year = let (y, e, fits) = civil.year in length-padded 3 y e (omega (arith, fits))

  length-month : length (padded 2 (pos 1 +ℤ tm.tm_mon)) ≡ 2
  length-month =
      let (m, e, fits) = civil.month in
      length-padded 1 (1 + m) (next_month tm.tm_mon m e) (omega (arith, fits))

  length-day : length (padded 2 tm.tm_mday) ≡ 2
  length-day = let (d, e, fits) = civil.day in length-padded 1 d e (omega (arith, fits))

  length-hour : length (padded 2 tm.tm_hour) ≡ 2
  length-hour = let (h, e, fits) = civil.hour in length-padded 1 h e (omega (arith, fits))

  length-minute : length (padded 2 tm.tm_min) ≡ 2
  length-minute = let (m, e, fits) = civil.minute in length-padded 1 m e (omega (arith, fits))

  length-second : length (padded 2 tm.tm_sec) ≡ 2
  length-second = let (s, e, fits) = civil.second in length-padded 1 s e (omega (arith, fits))

-- The length of a field and of what follows it.
length_then : (xs ys : Bytes) {m n : ℕ} → length xs ≡ m → length ys ≡ n → length (xs ++ ys) ≡ m + n
length_then xs ys e k = omega (arith, length-append xs ys, e, k)

module _ (local : ℤ → Tm) (t : TimeStamp) (civil : IsCivil (local t.sec)) where
  length-str_text : length (str_text local t) ≡ 15
  unfolding str_text
  length-str_text =
      let tm = local t.sec in
      let clock =
        length_then (padded 2 tm.tm_hour) _ (length-hour tm civil)
          (length_then (padded 2 tm.tm_min) _ (length-minute tm civil) (length-second tm civil)) in
      length_then (padded 4 (pos 1900 +ℤ tm.tm_year)) _ (length-year tm civil) (
        length_then (padded 2 (pos 1 +ℤ tm.tm_mon)) _ (length-month tm civil)
          (length_then (padded 2 tm.tm_mday) _ (length-day tm civil) (ap suc clock)))

  length-print_text : (ms : ℕ) → t.msec ≡ pos ms → ms < 1000 → length (print_text local t) ≡ 23
  unfolding print_text
  length-print_text ms e small =
      let tm = local t.sec in
      let last =
        length_then (padded 2 tm.tm_sec) _ (length-second tm civil)
          (ap suc (length-padded 2 ms e (omega (arith, small)))) in
      let clock =
        length_then (padded 2 tm.tm_hour) _ (length-hour tm civil)
          (ap suc (length_then (padded 2 tm.tm_min) _ (length-minute tm civil) (ap suc last))) in
      length_then (padded 4 (pos 1900 +ℤ tm.tm_year)) _ (length-year tm civil) (
        ap suc (
          length_then (padded 2 (pos 1 +ℤ tm.tm_mon)) _ (length-month tm civil)
            (ap suc (length_then (padded 2 tm.tm_mday) _ (length-day tm civil) (ap suc clock)))))

  -- In a year of four digits, and with milliseconds below a thousand, neither buffer cuts its text: `str` is
  -- the whole text of 15 bytes, one less than its buffer has, and what `operator<<` prints is the whole text,
  -- of 23 bytes.
  pub str-print :
      (ms : ℕ)
      → t.msec ≡ pos ms
      → ms < 1000
      → (str local t ≡ str_text local t)
        × (length (str local t) ≡ 15)
        × (print local t ≡ print_text local t)
        × (length (print local t) ≡ 23)
  unfolding str print
  str-print ms e small =
      let n = length-str_text in
      let m = length-print_text ms e small in
      let whole = take_all 15 (str_text local t) (omega (arith, n)) in
      let line = take_all 31 (print_text local t) (omega (arith, m)) in
      (whole, ap length whole ∙ n, line, ap length line ∙ m)
