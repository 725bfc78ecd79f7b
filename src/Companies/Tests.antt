-- ===== src/Companies/Tests.antt =====
-- Runs of the alerts at concrete numbers.
use dimax_ops_backend.Base.{◌≡◌, refl, none, some}
use dimax_ops_backend.Companies.Alerts.{AlertSettings, round_half_even, level_from_utilization}

abbrev settings : AlertSettings
settings = record { warn_pct = 80; danger_pct = 95; cooldown_minutes = 360 }

round_half_even_down : round_half_even 5 2 ≡ 2
unfolding round_half_even
round_half_even_down = refl

round_half_even_up : round_half_even 7 2 ≡ 4
unfolding round_half_even
round_half_even_up = refl

level_at_danger : level_from_utilization settings 9500 ≡ some "DANGER"
unfolding level_from_utilization
level_at_danger = refl

level_below_warning : level_from_utilization settings 7999 ≡ none
unfolding level_from_utilization
level_below_warning = refl
