-- ===== src/Wm/Hints/Shorthand.antt =====
-- The numeric shorthand of the hints.
use open_sesame.Prelude.{ℕ, ◌+◌, ◌≤◌, ◌≡◌, false, [], ◌∷◌, arith, replicate}
use open_sesame.Prelude.Text.{is_ascii_digit}
use open_sesame.Wm.Hints.{expand_shorthand, decimal}

-- A letter with a digit from 1 to 9 stands for the letter as often as the digit says.
expand_shorthand-digit :
    (base n : ℕ)
    → is_ascii_digit base ≡ false
    → 1 ≤ n
    → n ≤ 9
    → expand_shorthand (base ∷ (48 + n) ∷ []) ≡ replicate n base
unfolding expand_shorthand decimal
expand_shorthand-digit base n letter low high = ground arith
