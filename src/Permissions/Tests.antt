-- ===== src/Permissions/Tests.antt =====
-- Tests of internal/permissions/permissions.go as it is modelled in `Permissions`.
use aural_server.Base.{bit_and, ◌≡◌, refl, some, [], ◌∷◌, ◌&&◌, if◌then◌else◌, arith}
use aural_server.Base.Bits.{test_bit}
use aural_server.Text.{parse_uint, trim_space}
use aural_server.Permissions.{all, names, parse, to_text, resolve_in_channel}
use aural_server.Permissions.Wire.{parse-to_text}
use aural_server.Permissions.Resolved.{resolve_in_channel-bits, granted}
use aural_server.Fixtures.{staff_only}

names_in_order : names 6 ≡ "Connect" ∷ "Speak" ∷ []
unfolding names
names_in_order = refl

all_value : all ≡ 2164260863
unfolding all
all_value = refl

parse_blank : parse (32 ∷ 32 ∷ []) ≡ some 0
unfolding parse trim_space
parse_blank = refl

parse_padded : parse (32 ∷ b'6' ∷ []) ≡ some 6
unfolding parse trim_space parse_uint all
parse_padded = refl

hidden_from_everyone : resolve_in_channel 15 1 (1 ∷ []) staff_only ≡ 0
unfolding resolve_in_channel
hidden_from_everyone = refl

seen_by_moderators : resolve_in_channel 15 1 (1 ∷ 2 ∷ []) staff_only ≡ 15
unfolding resolve_in_channel
seen_by_moderators = refl

parse-to_text_example : parse (to_text 4294967302) ≡ some (bit_and 4294967302 all)
parse-to_text_example = parse-to_text 4294967302 (omega arith)

resolve_in_channel-bits_example : test_bit (resolve_in_channel 15 1 (1 ∷ 2 ∷ []) staff_only) 0 ≡ (
    if test_bit 15 31
    then test_bit all 0
    else granted 15 1 (1 ∷ 2 ∷ []) staff_only 0 && granted 15 1 (1 ∷ 2 ∷ []) staff_only 0)
resolve_in_channel-bits_example = resolve_in_channel-bits 15 1 (1 ∷ 2 ∷ []) staff_only 0
