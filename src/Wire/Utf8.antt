-- ===== src/Wire/Utf8.antt =====
-- `String::from_utf8`, as a test on octets: a `String` is a list of octets that passes it.
use ndn_repo.Base.{ℕ, zero, suc, Bool, true, false, ◌&&◌, List, [], ◌∷◌, leb, if◌then◌else◌, ◌==◌}

-- The number of continuation octets that a first octet asks for, and the range of the next one.
unfoldable pub lead : ℕ → Bool × ℕ × ℕ × ℕ
lead b =
    if leb b 0x7f
    then (true, 0, 0, 0)
    else if leb 0xc2 b && leb b 0xdf
    then (true, 1, 0x80, 0xbf)
    else if b == 0xe0
    then (true, 2, 0xa0, 0xbf)
    else if b == 0xed
    then (true, 2, 0x80, 0x9f)
    else if leb 0xe1 b && leb b 0xef
    then (true, 2, 0x80, 0xbf)
    else if b == 0xf0
    then (true, 3, 0x90, 0xbf)
    else if leb 0xf1 b && leb b 0xf3
    then (true, 3, 0x80, 0xbf)
    else if b == 0xf4
    then (true, 3, 0x80, 0x8f)
    else (false, 0, 0, 0)

unfoldable pub utf8_from : ℕ → ℕ → ℕ → List ℕ → Bool
unfolding lead
utf8_from zero lo hi [] = true
utf8_from (suc k) lo hi [] = false
utf8_from zero lo hi (b ∷ bytes) =
    let (good, more, lo', hi') = lead b in good && utf8_from more lo' hi' bytes
utf8_from (suc k) lo hi (b ∷ bytes) = leb lo b && leb b hi && utf8_from k 0x80 0xbf bytes

unfoldable pub is_utf8 : List ℕ → Bool
unfolding utf8_from
is_utf8 bytes = utf8_from 0 0 0 bytes
