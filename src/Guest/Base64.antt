-- ===== src/Guest/Base64.antt =====
-- src/guest-protocol.ts and src/ssh-public-key.ts: the test of a base64 text.
use bloom_workspaces.Base.{ℕ, Bool, true, false, ◌&&◌, ◌||◌, [], ◌∷◌, Text, leb, ◌==◌, is_digit}

abbrev pub is_alphanumeric : ℕ → Bool
is_alphanumeric c = leb b'A' c && leb c b'Z' || leb b'a' c && leb c b'z' || is_digit c

abbrev pub is_base64_digit : ℕ → Bool
is_base64_digit c = is_alphanumeric c || c == b'+' || c == b'/'

abbrev is_last : Text → Bool
is_last [] = true
is_last (c ∷ cs) = false

-- The regular expression: quadruples, of which the last may be padded.
unfoldable pub is_base64 : Text → Bool
is_base64 [] = true
is_base64 (a ∷ b ∷ c ∷ d ∷ rest) =
    let more = is_base64 rest in
    is_base64_digit a
    && is_base64_digit b
    && (is_base64_digit c && is_base64_digit d && more
        || is_last rest && d == b'=' && (is_base64_digit c || c == b'='))
is_base64 _ = false
