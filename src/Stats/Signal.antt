-- ===== src/Stats/Signal.antt =====
-- internal/stats/store.go, `SignalQuality5GHz` and `SignalQuality60GHz`: signals in dBm.
use wavecontrol.Prelude.{if◌then◌else◌, ◌==◌, leb_ℤ, ltb_ℤ, ℤ, pos, negsuc, nat_eq, int_eq, text_eq}

-- -62, -70, -55 and -65
abbrev pub signal_5ghz_good : ℤ
signal_5ghz_good = negsuc 61

abbrev pub signal_5ghz_fair : ℤ
signal_5ghz_fair = negsuc 69

abbrev pub signal_60ghz_good : ℤ
signal_60ghz_good = negsuc 54

abbrev pub signal_60ghz_fair : ℤ
signal_60ghz_fair = negsuc 64

-- `Good+5`: -57 and -50
abbrev pub signal_5ghz_excellent : ℤ
signal_5ghz_excellent = negsuc 56

abbrev pub signal_60ghz_excellent : ℤ
signal_60ghz_excellent = negsuc 49

-- The strings of the source; `unrated` is the empty one.
pub data Quality : Type 0 where
  unrated poor fair good excellent : Quality

abbrev pub quality : ℤ → ℤ → ℤ → ℤ → Quality
quality best good_above fair_above signal =
    if signal == pos 0
    then unrated
    else if leb_ℤ best signal
    then excellent
    else if ltb_ℤ good_above signal
    then good
    else if ltb_ℤ fair_above signal
    then fair
    else poor

unfoldable pub signal_quality_5ghz : ℤ → Quality
signal_quality_5ghz = quality signal_5ghz_excellent signal_5ghz_good signal_5ghz_fair

unfoldable pub signal_quality_60ghz : ℤ → Quality
signal_quality_60ghz = quality signal_60ghz_excellent signal_60ghz_good signal_60ghz_fair
