-- ===== src/Text/Float/Tests.antt =====
-- Numbers as fmt prints them.
use middle.Prelude.{◌≡◌, refl}
use middle.Text.{runes, text_runs}
use middle.Text.Float.{
  float_text, magnitude_text, before_point, after_point, leading_zeros, without_leading_zeros,
  without_trailing_zeros,
}

printed :
    (float_text (runes "5") ≡ runes "5")
    × (float_text (runes "-123456.5") ≡ runes "-123456.5")
    × (float_text (runes "1234567") ≡ runes "1.234567e+06")
    × (float_text (runes "2000000") ≡ runes "2e+06")
    × (float_text (runes "0.0001") ≡ runes "0.0001")
    × (float_text (runes "0.00001") ≡ runes "1e-05")
    × (float_text (runes "0") ≡ runes "0")
unfolding float_text magnitude_text before_point after_point leading_zeros without_leading_zeros
    without_trailing_zeros text_runs
printed = (refl, refl, refl, refl, refl, refl, refl)
