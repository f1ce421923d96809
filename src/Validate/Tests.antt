-- ===== src/Validate/Tests.antt =====
-- Tests of internal/gateway/validate.go as it is modelled in `Validate`.
use aural_server.Base.{◌≡◌, refl, [], ◌∷◌}
use aural_server.Text.{Text}
use aural_server.Protocol.{ok}
use aural_server.Validate.{validate_nickname, clean_text}

-- " ab", a tab and a space.
abbrev raw_name : Text
raw_name = 32 ∷ b'a' ∷ b'b' ∷ 9 ∷ 32 ∷ []

abbrev short_name : Text
short_name = b'a' ∷ b'b' ∷ []

accepted : validate_nickname raw_name ≡ ok (b'a' ∷ b'b' ∷ [])
unfolding validate_nickname clean_text
accepted = refl
