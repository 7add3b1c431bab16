-- ===== src/Timestamp/Order.antt =====
-- The order of time stamps, which the pruning of the controller relies on.
use Prim.Native.Char.{Char, code}
use Prim.Native.Nat.{compare as compare_ℕ, Ordering}
use Prim.Native.String as Text
use Prim.Native.String.{[], ◌∷◌, ◌++◌, compare}
use text.Mathlib.Text.{is_lt}
use text.Mathlib.TextLemmas.{cons-append, nil-append}
use group_sync_operator.Prelude.{
  ℕ, suc, ◌<◌, ◌≡◌, refl, ap, ◌∙◌, String, ◌==◌, eqb, ltb, str_ltb, Bool, true, ◌&&◌, ◌||◌, arith,
}
use group_sync_operator.Decimal.{pad}
use group_sync_operator.Decimal.Order.{power_of_ten, pad-digits, digits-append, compare-digits}
use group_sync_operator.Timestamp.{Time, time_zone, iso8601}

-- A time in UTC whose year has four digits.
pub record IsUtc (t : Time) : Type 0 where
  pub utc : (t.zone == "UTC") ≡ true
  pub year : t.year < 10_000
  pub month : t.month < 100
  pub day : t.day < 100
  pub hour : t.hour < 100
  pub minute : t.minute < 100
  pub second : t.second < 100

abbrev pub earlier : ℕ → ℕ → Bool → Bool
earlier m n rest = ltb m n || (eqb m n && rest)

-- The order of the calendar and of the clock.
abbrev pub is_before : Time → Time → Bool
is_before s t = earlier s.year t.year (
    earlier s.month t.month (
      earlier s.day t.day
        (earlier s.hour t.hour (earlier s.minute t.minute (ltb s.second t.second)))))

compare-pad :
    (w m n : ℕ) (s t : String)
    → m < power_of_ten (suc w)
    → n < power_of_ten (suc w)
    → compare (pad (suc w) m ++ s) (pad (suc w) n ++ t) ≡ Text.then (compare_ℕ m n) (compare s t)
compare-pad w m n s t hm hn =
    rw
      (
        pad-digits w m hm,
        pad-digits w n hn,
        digits-append (suc w) m [] s,
        digits-append (suc w) n [] t,
        nil-append s,
        nil-append t,
      )
      (compare-digits (suc w) m n s t hm hn)

compare-separator :
    (c : Char) (s t : String) → compare ((c ∷ []) ++ s) ((c ∷ []) ++ t) ≡ compare s t
compare-separator c s t =
    rw
      (
        cons-append c [] s,
        cons-append c [] t,
        nil-append s,
        nil-append t,
        Text.compare.cons-cons c c s t,
      )
      (equal (code c))
  where
    equal : (n : ℕ) → Text.then (compare_ℕ n n) (compare s t) ≡ compare s t
    equal n = let e : compare_ℕ n n ≡ Ordering.eq = ground arith in rw e refl

earlier_lem : (m n : ℕ) (o : Ordering) → is_lt (Text.then (compare_ℕ m n) o) ≡ earlier m n (is_lt o)
earlier_lem m n o = ground arith

module _ (c : Char) (m n : ℕ) (s t : String) where
  two_digits :
      m < 100
      → n < 100
      → is_lt (compare ((c ∷ []) ++ (pad 2 m ++ s)) ((c ∷ []) ++ (pad 2 n ++ t)))
        ≡ earlier m n (is_lt (compare s t))
  two_digits hm hn =
      ap is_lt (compare-separator c _ _ ∙ compare-pad 1 m n s t (omega arith) (omega arith))
      ∙ earlier_lem m n (compare s t)

  four_digits :
      m < 10_000
      → n < 10_000
      → is_lt (compare (pad 4 m ++ s) (pad 4 n ++ t)) ≡ earlier m n (is_lt (compare s t))
  four_digits hm hn =
      ap is_lt (compare-pad 3 m n s t (omega arith) (omega arith)) ∙ earlier_lem m n (compare s t)

zone_lem : (t : Time) → (t.zone == "UTC") ≡ true → time_zone t ≡ "Z"
unfolding time_zone
zone_lem t h = rw h refl

last_lem : (m n : ℕ) → earlier m n (is_lt (compare "Z" "Z")) ≡ ltb m n
last_lem m n = ground arith

-- Of two times in UTC with years of at most four digits, the text of the first is before that of the
-- second, as texts are compared, exactly if the first time is before the second.
pub str_ltb-iso8601 :
    (s t : Time) → IsUtc s → IsUtc t → str_ltb (iso8601 s) (iso8601 t) ≡ is_before s t
unfolding iso8601
str_ltb-iso8601 s t hs ht =
    rw (zone_lem s hs.utc, zone_lem t ht.utc)
      (four_digits "-" s.year t.year _ _ hs.year ht.year
        ∙ ap (earlier s.year t.year) (
            two_digits "-" s.month t.month _ _ hs.month ht.month
            ∙ ap (earlier s.month t.month) (
                two_digits "-" s.day t.day _ _ hs.day ht.day
                ∙ ap (earlier s.day t.day) (
                    two_digits "T" s.hour t.hour _ _ hs.hour ht.hour
                    ∙ ap (earlier s.hour t.hour) (
                        two_digits ":" s.minute t.minute _ _ hs.minute ht.minute
                        ∙ ap (earlier s.minute t.minute) (
                            two_digits ":" s.second t.second "Z" "Z" hs.second ht.second
                            ∙ last_lem s.second t.second))))))
