-- ===== src/Store/Fold.antt =====
-- internal/store/fold.go: what a search, and the rules on words, compare instead of the text itself.
-- `strings.ToLower` goes by the tables of Go's `unicode`, rune by rune: `lower` stands for it.
pub mod Twice
use aural_server.Base.{
  ℕ, ◌≡◌, Bool, true, false, ◌&&◌, Option, none, some, List, [], ◌∷◌, ◌++◌, leb, ◌==◌,
  if◌then◌else◌,
}
use aural_server.Text.{Text}

-- `foldings`.
abbrev pub foldings : List (ℕ × Text)
foldings =
    (0x00C0, b'a' ∷ [])
    ∷ (0x00C1, b'a' ∷ [])
    ∷ (0x00C2, b'a' ∷ [])
    ∷ (0x00C3, b'a' ∷ [])
    ∷ (0x00C4, b'a' ∷ [])
    ∷ (0x00C5, b'a' ∷ [])
    ∷ (0x00C6, b'a' ∷ b'e' ∷ [])
    ∷ (0x00C7, b'c' ∷ [])
    ∷ (0x00C8, b'e' ∷ [])
    ∷ (0x00C9, b'e' ∷ [])
    ∷ (0x00CA, b'e' ∷ [])
    ∷ (0x00CB, b'e' ∷ [])
    ∷ (0x00CC, b'i' ∷ [])
    ∷ (0x00CD, b'i' ∷ [])
    ∷ (0x00CE, b'i' ∷ [])
    ∷ (0x00CF, b'i' ∷ [])
    ∷ (0x00D0, b'd' ∷ [])
    ∷ (0x00D1, b'n' ∷ [])
    ∷ (0x00D2, b'o' ∷ [])
    ∷ (0x00D3, b'o' ∷ [])
    ∷ (0x00D4, b'o' ∷ [])
    ∷ (0x00D5, b'o' ∷ [])
    ∷ (0x00D6, b'o' ∷ [])
    ∷ (0x00D8, b'o' ∷ [])
    ∷ (0x00D9, b'u' ∷ [])
    ∷ (0x00DA, b'u' ∷ [])
    ∷ (0x00DB, b'u' ∷ [])
    ∷ (0x00DC, b'u' ∷ [])
    ∷ (0x00DD, b'y' ∷ [])
    ∷ (0x00DE, b't' ∷ b'h' ∷ [])
    ∷ (0x00DF, b's' ∷ b's' ∷ [])
    ∷ (0x00E0, b'a' ∷ [])
    ∷ (0x00E1, b'a' ∷ [])
    ∷ (0x00E2, b'a' ∷ [])
    ∷ (0x00E3, b'a' ∷ [])
    ∷ (0x00E4, b'a' ∷ [])
    ∷ (0x00E5, b'a' ∷ [])
    ∷ (0x00E6, b'a' ∷ b'e' ∷ [])
    ∷ (0x00E7, b'c' ∷ [])
    ∷ (0x00E8, b'e' ∷ [])
    ∷ (0x00E9, b'e' ∷ [])
    ∷ (0x00EA, b'e' ∷ [])
    ∷ (0x00EB, b'e' ∷ [])
    ∷ (0x00EC, b'i' ∷ [])
    ∷ (0x00ED, b'i' ∷ [])
    ∷ (0x00EE, b'i' ∷ [])
    ∷ (0x00EF, b'i' ∷ [])
    ∷ (0x00F0, b'd' ∷ [])
    ∷ (0x00F1, b'n' ∷ [])
    ∷ (0x00F2, b'o' ∷ [])
    ∷ (0x00F3, b'o' ∷ [])
    ∷ (0x00F4, b'o' ∷ [])
    ∷ (0x00F5, b'o' ∷ [])
    ∷ (0x00F6, b'o' ∷ [])
    ∷ (0x00F8, b'o' ∷ [])
    ∷ (0x00F9, b'u' ∷ [])
    ∷ (0x00FA, b'u' ∷ [])
    ∷ (0x00FB, b'u' ∷ [])
    ∷ (0x00FC, b'u' ∷ [])
    ∷ (0x00FD, b'y' ∷ [])
    ∷ (0x00FE, b't' ∷ b'h' ∷ [])
    ∷ (0x00FF, b'y' ∷ [])
    ∷ (0x0100, b'a' ∷ [])
    ∷ (0x0101, b'a' ∷ [])
    ∷ (0x0102, b'a' ∷ [])
    ∷ (0x0103, b'a' ∷ [])
    ∷ (0x0104, b'a' ∷ [])
    ∷ (0x0105, b'a' ∷ [])
    ∷ (0x0106, b'c' ∷ [])
    ∷ (0x0107, b'c' ∷ [])
    ∷ (0x0108, b'c' ∷ [])
    ∷ (0x0109, b'c' ∷ [])
    ∷ (0x010A, b'c' ∷ [])
    ∷ (0x010B, b'c' ∷ [])
    ∷ (0x010C, b'c' ∷ [])
    ∷ (0x010D, b'c' ∷ [])
    ∷ (0x010E, b'd' ∷ [])
    ∷ (0x010F, b'd' ∷ [])
    ∷ (0x0110, b'd' ∷ [])
    ∷ (0x0111, b'd' ∷ [])
    ∷ (0x0112, b'e' ∷ [])
    ∷ (0x0113, b'e' ∷ [])
    ∷ (0x0114, b'e' ∷ [])
    ∷ (0x0115, b'e' ∷ [])
    ∷ (0x0116, b'e' ∷ [])
    ∷ (0x0117, b'e' ∷ [])
    ∷ (0x0118, b'e' ∷ [])
    ∷ (0x0119, b'e' ∷ [])
    ∷ (0x011A, b'e' ∷ [])
    ∷ (0x011B, b'e' ∷ [])
    ∷ (0x011C, b'g' ∷ [])
    ∷ (0x011D, b'g' ∷ [])
    ∷ (0x011E, b'g' ∷ [])
    ∷ (0x011F, b'g' ∷ [])
    ∷ (0x0120, b'g' ∷ [])
    ∷ (0x0121, b'g' ∷ [])
    ∷ (0x0122, b'g' ∷ [])
    ∷ (0x0123, b'g' ∷ [])
    ∷ (0x0124, b'h' ∷ [])
    ∷ (0x0125, b'h' ∷ [])
    ∷ (0x0126, b'h' ∷ [])
    ∷ (0x0127, b'h' ∷ [])
    ∷ (0x0128, b'i' ∷ [])
    ∷ (0x0129, b'i' ∷ [])
    ∷ (0x012A, b'i' ∷ [])
    ∷ (0x012B, b'i' ∷ [])
    ∷ (0x012C, b'i' ∷ [])
    ∷ (0x012D, b'i' ∷ [])
    ∷ (0x012E, b'i' ∷ [])
    ∷ (0x012F, b'i' ∷ [])
    ∷ (0x0130, b'i' ∷ [])
    ∷ (0x0131, b'i' ∷ [])
    ∷ (0x0132, b'i' ∷ b'j' ∷ [])
    ∷ (0x0133, b'i' ∷ b'j' ∷ [])
    ∷ (0x0134, b'j' ∷ [])
    ∷ (0x0135, b'j' ∷ [])
    ∷ (0x0136, b'k' ∷ [])
    ∷ (0x0137, b'k' ∷ [])
    ∷ (0x0138, b'k' ∷ [])
    ∷ (0x0139, b'l' ∷ [])
    ∷ (0x013A, b'l' ∷ [])
    ∷ (0x013B, b'l' ∷ [])
    ∷ (0x013C, b'l' ∷ [])
    ∷ (0x013D, b'l' ∷ [])
    ∷ (0x013E, b'l' ∷ [])
    ∷ (0x0141, b'l' ∷ [])
    ∷ (0x0142, b'l' ∷ [])
    ∷ (0x0143, b'n' ∷ [])
    ∷ (0x0144, b'n' ∷ [])
    ∷ (0x0145, b'n' ∷ [])
    ∷ (0x0146, b'n' ∷ [])
    ∷ (0x0147, b'n' ∷ [])
    ∷ (0x0148, b'n' ∷ [])
    ∷ (0x014A, b'n' ∷ [])
    ∷ (0x014B, b'n' ∷ [])
    ∷ (0x014C, b'o' ∷ [])
    ∷ (0x014D, b'o' ∷ [])
    ∷ (0x014E, b'o' ∷ [])
    ∷ (0x014F, b'o' ∷ [])
    ∷ (0x0150, b'o' ∷ [])
    ∷ (0x0151, b'o' ∷ [])
    ∷ (0x0152, b'o' ∷ b'e' ∷ [])
    ∷ (0x0153, b'o' ∷ b'e' ∷ [])
    ∷ (0x0154, b'r' ∷ [])
    ∷ (0x0155, b'r' ∷ [])
    ∷ (0x0156, b'r' ∷ [])
    ∷ (0x0157, b'r' ∷ [])
    ∷ (0x0158, b'r' ∷ [])
    ∷ (0x0159, b'r' ∷ [])
    ∷ (0x015A, b's' ∷ [])
    ∷ (0x015B, b's' ∷ [])
    ∷ (0x015C, b's' ∷ [])
    ∷ (0x015D, b's' ∷ [])
    ∷ (0x015E, b's' ∷ [])
    ∷ (0x015F, b's' ∷ [])
    ∷ (0x0160, b's' ∷ [])
    ∷ (0x0161, b's' ∷ [])
    ∷ (0x0162, b't' ∷ [])
    ∷ (0x0163, b't' ∷ [])
    ∷ (0x0164, b't' ∷ [])
    ∷ (0x0165, b't' ∷ [])
    ∷ (0x0166, b't' ∷ [])
    ∷ (0x0167, b't' ∷ [])
    ∷ (0x0168, b'u' ∷ [])
    ∷ (0x0169, b'u' ∷ [])
    ∷ (0x016A, b'u' ∷ [])
    ∷ (0x016B, b'u' ∷ [])
    ∷ (0x016C, b'u' ∷ [])
    ∷ (0x016D, b'u' ∷ [])
    ∷ (0x016E, b'u' ∷ [])
    ∷ (0x016F, b'u' ∷ [])
    ∷ (0x0170, b'u' ∷ [])
    ∷ (0x0171, b'u' ∷ [])
    ∷ (0x0172, b'u' ∷ [])
    ∷ (0x0173, b'u' ∷ [])
    ∷ (0x0174, b'w' ∷ [])
    ∷ (0x0175, b'w' ∷ [])
    ∷ (0x0176, b'y' ∷ [])
    ∷ (0x0177, b'y' ∷ [])
    ∷ (0x0178, b'y' ∷ [])
    ∷ (0x0179, b'z' ∷ [])
    ∷ (0x017A, b'z' ∷ [])
    ∷ (0x017B, b'z' ∷ [])
    ∷ (0x017C, b'z' ∷ [])
    ∷ (0x017D, b'z' ∷ [])
    ∷ (0x017E, b'z' ∷ [])
    ∷ (0x017F, b's' ∷ [])
    ∷ (0x01A0, b'o' ∷ [])
    ∷ (0x01A1, b'o' ∷ [])
    ∷ (0x01AF, b'u' ∷ [])
    ∷ (0x01B0, b'u' ∷ [])
    ∷ (0x01CD, b'a' ∷ [])
    ∷ (0x01CE, b'a' ∷ [])
    ∷ (0x01CF, b'i' ∷ [])
    ∷ (0x01D0, b'i' ∷ [])
    ∷ (0x01D1, b'o' ∷ [])
    ∷ (0x01D2, b'o' ∷ [])
    ∷ (0x01D3, b'u' ∷ [])
    ∷ (0x01D4, b'u' ∷ [])
    ∷ (0x01D5, b'u' ∷ [])
    ∷ (0x01D6, b'u' ∷ [])
    ∷ (0x01D7, b'u' ∷ [])
    ∷ (0x01D8, b'u' ∷ [])
    ∷ (0x01D9, b'u' ∷ [])
    ∷ (0x01DA, b'u' ∷ [])
    ∷ (0x01DB, b'u' ∷ [])
    ∷ (0x01DC, b'u' ∷ [])
    ∷ (0x01DE, b'a' ∷ [])
    ∷ (0x01DF, b'a' ∷ [])
    ∷ (0x01E0, b'a' ∷ [])
    ∷ (0x01E1, b'a' ∷ [])
    ∷ (0x01E6, b'g' ∷ [])
    ∷ (0x01E7, b'g' ∷ [])
    ∷ (0x01E8, b'k' ∷ [])
    ∷ (0x01E9, b'k' ∷ [])
    ∷ (0x01EA, b'o' ∷ [])
    ∷ (0x01EB, b'o' ∷ [])
    ∷ (0x01EC, b'o' ∷ [])
    ∷ (0x01ED, b'o' ∷ [])
    ∷ (0x01F0, b'j' ∷ [])
    ∷ (0x01F4, b'g' ∷ [])
    ∷ (0x01F5, b'g' ∷ [])
    ∷ (0x01F8, b'n' ∷ [])
    ∷ (0x01F9, b'n' ∷ [])
    ∷ (0x01FA, b'a' ∷ [])
    ∷ (0x01FB, b'a' ∷ [])
    ∷ (0x0200, b'a' ∷ [])
    ∷ (0x0201, b'a' ∷ [])
    ∷ (0x0202, b'a' ∷ [])
    ∷ (0x0203, b'a' ∷ [])
    ∷ (0x0204, b'e' ∷ [])
    ∷ (0x0205, b'e' ∷ [])
    ∷ (0x0206, b'e' ∷ [])
    ∷ (0x0207, b'e' ∷ [])
    ∷ (0x0208, b'i' ∷ [])
    ∷ (0x0209, b'i' ∷ [])
    ∷ (0x020A, b'i' ∷ [])
    ∷ (0x020B, b'i' ∷ [])
    ∷ (0x020C, b'o' ∷ [])
    ∷ (0x020D, b'o' ∷ [])
    ∷ (0x020E, b'o' ∷ [])
    ∷ (0x020F, b'o' ∷ [])
    ∷ (0x0210, b'r' ∷ [])
    ∷ (0x0211, b'r' ∷ [])
    ∷ (0x0212, b'r' ∷ [])
    ∷ (0x0213, b'r' ∷ [])
    ∷ (0x0214, b'u' ∷ [])
    ∷ (0x0215, b'u' ∷ [])
    ∷ (0x0216, b'u' ∷ [])
    ∷ (0x0217, b'u' ∷ [])
    ∷ (0x0218, b's' ∷ [])
    ∷ (0x0219, b's' ∷ [])
    ∷ (0x021A, b't' ∷ [])
    ∷ (0x021B, b't' ∷ [])
    ∷ (0x021E, b'h' ∷ [])
    ∷ (0x021F, b'h' ∷ [])
    ∷ (0x0226, b'a' ∷ [])
    ∷ (0x0227, b'a' ∷ [])
    ∷ (0x0228, b'e' ∷ [])
    ∷ (0x0229, b'e' ∷ [])
    ∷ (0x022A, b'o' ∷ [])
    ∷ (0x022B, b'o' ∷ [])
    ∷ (0x022C, b'o' ∷ [])
    ∷ (0x022D, b'o' ∷ [])
    ∷ (0x022E, b'o' ∷ [])
    ∷ (0x022F, b'o' ∷ [])
    ∷ (0x0230, b'o' ∷ [])
    ∷ (0x0231, b'o' ∷ [])
    ∷ (0x0232, b'y' ∷ [])
    ∷ (0x0233, b'y' ∷ [])
    ∷ []

pub folding_in : List (ℕ × Text) → ℕ → Option Text
folding_in [] r = none
folding_in ((c, plain) ∷ rest) r =
    let later = folding_in rest r in if c == r then some plain else later

-- Combining marks left over from decomposed input.
is_mark : ℕ → Bool
is_mark r = leb 0x0300 r && leb r 0x036F

plain_or : ℕ → Option Text → Text
plain_or r none = r ∷ []
plain_or r (some plain) = plain

-- What one lower-case rune is written as.
unfoldable pub fold_rune : ℕ → Text
unfolding is_mark plain_or folding_in
fold_rune r = if is_mark r then [] else plain_or r (folding_in foldings r)

-- `foldForSearch`, which `Fold` exposes.
unfoldable pub fold : (ℕ → ℕ) → Text → Text
unfolding fold_rune
fold lower [] = []
fold lower (c ∷ rest) = fold_rune (lower c) ++ fold lower rest
