-- ===== src/Base64/Room.antt =====
-- The bytes that base64_decode writes fit in the buffer.
use tr.Base.{ℕ, ◌+◌, ◌||◌, [], ◌∷◌, ◌==◌, if◌then◌else◌}
use tr.Platform.{Bytes}
use tr.Base64.{cr, lf}

-- How many bytes of a source the second loop takes.
abbrev significant : Bytes → ℕ
significant [] = 0
significant (c ∷ cs) = (if (c == cr) || (c == lf) then 0 else 1) + significant cs
