-- ===== src/Ems/Moment.antt =====
-- An aware `datetime` in UTC, as treble/ems prints it.
use treble_tracker.Prelude.{ℕ, ◌/◌, ◌∷◌, ◌++◌}
use treble_tracker.Prelude.Bytes.{Bytes}
use treble_tracker.Prelude.Bytes.Number.{fixed_decimal}

pub record Moment : Type 0 where
  pub year : ℕ
  pub month : ℕ
  pub day : ℕ
  pub hour : ℕ
  pub minute : ℕ
  pub second : ℕ
  pub microsecond : ℕ

-- `now.astimezone(UTC).strftime("%Y%m%d-%H:%M:%S.%f")[:-3]`
unfoldable pub utc_stamp : Moment → Bytes
utc_stamp now =
    fixed_decimal 4 now.year
    ++ (fixed_decimal 2 now.month
        ++ (fixed_decimal 2 now.day
            ++ (b'-'
                ∷ (fixed_decimal 2 now.hour
                    ++ (b':'
                        ∷ (fixed_decimal 2 now.minute
                            ++ (b':'
                                ∷ (fixed_decimal 2 now.second
                                    ++ (b'.' ∷ fixed_decimal 3 (now.microsecond / 1000))))))))))
