-- ===== src/Timestamp.antt =====
-- `ISO8601` of controllers/groupsync_controller.go (and its copy in
-- pkg/provider/ldap/helpers/groupsyncer.go).
pub mod Order
use Prim.Native.String.{◌++◌}
use group_sync_operator.Prelude.{ℕ, ◌+◌, ◌-◌, ◌/◌, String, ◌≡◌, refl, ◌==◌, eqb, if◌then◌else◌}
use group_sync_operator.Prelude.Int.{ℤ, pos, negsuc}
use group_sync_operator.Decimal.{pad, pad_int, zeros, itoa, itoa_from}

-- `time.Time`, as `ISO8601` reads it; the offset is in seconds east of UTC.
pub record Time : Type 0 where
  pub year : ℕ
  pub month : ℕ
  pub day : ℕ
  pub hour : ℕ
  pub minute : ℕ
  pub second : ℕ
  pub zone : String
  pub offset : ℤ

-- Go's `offset / 3600` rounds towards zero.
unfoldable pub hours : ℤ → ℤ
hours (pos n) = pos (n / 3600)
hours (negsuc n) = let h = (n + 1) / 3600 in if eqb h 0 then pos 0 else negsuc (h - 1)

unfoldable pub time_zone : Time → String
unfolding hours
time_zone t = if t.zone == "UTC" then "Z" else pad_int 3 (hours t.offset) ++ "00"

unfoldable pub iso8601 : Time → String
iso8601 t =
    pad 4 t.year
    ++ ("-"
        ++ (pad 2 t.month
            ++ ("-"
                ++ (pad 2 t.day
                    ++ ("T"
                        ++ (pad 2 t.hour
                            ++ (":"
                                ++ (pad 2 t.minute
                                    ++ (":" ++ (pad 2 t.second ++ time_zone t))))))))))

abbrev noon : Time
noon = record {
  year = 2021;
  month = 3;
  day = 9;
  hour = 12;
  minute = 5;
  second = 0;
  zone = "CET";
  offset = pos 7200;
}

iso8601_example : iso8601 noon ≡ "2021-03-09T12:05:0000200"
unfolding iso8601 time_zone hours pad_int pad zeros itoa itoa_from
iso8601_example = refl
