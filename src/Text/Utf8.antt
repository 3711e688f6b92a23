-- ===== src/Text/Utf8.antt =====
-- ASCII text is UTF-8.
use memlane.Prelude.{◌<◌, ◌≡◌, refl, true, some, Bytes, [], ◌∷◌, ◌++◌, arith}
use memlane.Text.{is_utf8, from_utf8, utf8_from}

abbrev pub IsAscii : Bytes → Type 0
IsAscii [] = Unit
IsAscii (c ∷ s) = (c < 0x80) × IsAscii s

utf8_from_ascii : (s : Bytes) → IsAscii s → utf8_from 0 0x80 0xbf s ≡ true
unfolding utf8_from
utf8_from_ascii [] h = refl
utf8_from_ascii (c ∷ s) h = ground (arith, utf8_from_ascii s h.1)

pub is_utf8_of_ascii : (s : Bytes) → IsAscii s → is_utf8 s ≡ true
unfolding is_utf8
is_utf8_of_ascii s h = utf8_from_ascii s h

pub from_utf8_of_ascii : (s : Bytes) → IsAscii s → from_utf8 s ≡ some s
unfolding from_utf8
from_utf8_of_ascii s h = rw (is_utf8_of_ascii s h)

pub IsAscii-append : (s t : Bytes) → IsAscii s → IsAscii t → IsAscii (s ++ t)
IsAscii-append [] t hs ht = ht
IsAscii-append (c ∷ s) t hs ht = (hs.0, IsAscii-append s t hs.1 ht)
