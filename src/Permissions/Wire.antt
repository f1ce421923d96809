-- ===== src/Permissions/Wire.antt =====
-- internal/permissions/permissions.go: `String` and `Parse`.
use aural_server.Base.{◌^◌, ◌<◌, bit_and, ◌≡◌, refl, ◌∙◌, some, ap, ◌≢◌, [], ◌∷◌}
use aural_server.Text.{Text, format_uint, parse_uint}
use aural_server.Text.Decimal.{trim_space-format_uint, format_uint-ne-nil, parse_uint-format_uint}
use aural_server.Permissions.{Permission, all, to_text, parse, parse_trimmed, masked}

parse_trimmed-nonempty : (s : Text) → s ≢ [] → parse_trimmed s ≡ masked (parse_uint s)
unfolding parse_trimmed
parse_trimmed-nonempty [] h = absurd (h refl)
parse_trimmed-nonempty (c ∷ rest) h = refl

-- A 64-bit mask that is printed and read back keeps exactly its defined bits.
pub parse-to_text : (p : Permission) → p < 2 ^ 64 → parse (to_text p) ≡ some (bit_and p all)
unfolding parse to_text masked
parse-to_text p b =
    ap parse_trimmed (trim_space-format_uint p)
    ∙ parse_trimmed-nonempty (format_uint p) (format_uint-ne-nil p)
    ∙ ap masked (parse_uint-format_uint p b)
