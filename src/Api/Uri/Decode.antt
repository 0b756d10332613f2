-- ===== src/Api/Uri/Decode.antt =====
-- What the other side does with an encoded component: percent sequences to bytes, bytes to code
-- points. A description of its own, by which `encodeURIComponent` is judged.
use mirocraft.Prelude.{
  ℕ, zero, suc, ◌+◌, ◌-◌, ◌*◌, List, [], ◌∷◌, ◌++◌, ltb, ◌==◌, if◌then◌else◌, Text,
}

unfoldable pub hex_value : ℕ → ℕ
hex_value h = if ltb h 58 then h - 48 else h - 55

unfoldable pub percent_decode : Text → List ℕ
unfolding hex_value
percent_decode [] = []
percent_decode (c ∷ []) = c ∷ []
percent_decode (c ∷ h ∷ []) = c ∷ h ∷ []
percent_decode (c ∷ h ∷ l ∷ s) =
    let escaped = (hex_value h * 16 + hex_value l) ∷ percent_decode s in
    let plain = c ∷ percent_decode (h ∷ l ∷ s) in if c == b'%' then escaped else plain

-- The bytes that a sequence still needs, and its bits so far.
unfoldable pub utf8_step : ℕ → ℕ → ℕ → List ℕ × ℕ × ℕ
utf8_step zero acc b =
    if ltb b 0x80
    then (b ∷ [], 0, 0)
    else if ltb b 0xE0
    then ([], 1, b - 0xC0)
    else if ltb b 0xF0
    then ([], 2, b - 0xE0)
    else ([], 3, b - 0xF0)
utf8_step (suc zero) acc b = ((acc * 64 + (b - 0x80)) ∷ [], 0, 0)
utf8_step (suc (suc k)) acc b = ([], suc k, acc * 64 + (b - 0x80))

unfoldable pub utf8_from : ℕ → ℕ → List ℕ → Text
unfolding utf8_step
utf8_from need acc [] = []
utf8_from need acc (b ∷ bs) =
    let (out, need', acc') = utf8_step need acc b in out ++ utf8_from need' acc' bs

unfoldable pub decode_uri_component : Text → Text
unfolding percent_decode utf8_from
decode_uri_component s = utf8_from 0 0 (percent_decode s)
