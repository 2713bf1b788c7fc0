-- ===== src/Text.antt =====
-- Texts that the program builds: hexadecimal, with or without colons, and dotted decimals. A text
-- is the list of its bytes.
pub mod Injective
use mydhcp.Common.{ℕ, zero, suc, ◌+◌, ◌/◌, ◌%◌, List, [], ◌∷◌, ◌++◌, ltb, if◌then◌else◌}
use mydhcp.Net.{Ip}

-- hextable[n] of "0123456789abcdef"
unfoldable pub hex_digit : ℕ → ℕ
hex_digit n = if ltb n 10 then n + 48 else n + 87

-- The loop of macToHex, MACKey and DeviceRecord.ClientID, and Go's %x.
unfoldable pub hex : List ℕ → List ℕ
unfolding hex_digit
hex [] = []
hex (b ∷ bs) = hex_digit (b / 16) ∷ hex_digit (b % 16) ∷ hex bs

-- A colon in front of each further byte, as in net.HardwareAddr.String.
unfoldable pub colon_hex_rest : List ℕ → List ℕ
unfolding hex_digit
colon_hex_rest [] = []
colon_hex_rest (b ∷ bs) = b':' ∷ hex_digit (b / 16) ∷ hex_digit (b % 16) ∷ colon_hex_rest bs

unfoldable pub colon_hex : List ℕ → List ℕ
unfolding colon_hex_rest
colon_hex [] = []
colon_hex (b ∷ bs) = hex_digit (b / 16) ∷ hex_digit (b % 16) ∷ colon_hex_rest bs

-- A byte in decimal.
unfoldable pub decimal : ℕ → List ℕ
decimal n =
    if ltb n 10
    then (n + 48) ∷ []
    else if ltb n 100
    then (n / 10 + 48) ∷ (n % 10 + 48) ∷ []
    else (n / 100 + 48) ∷ (n / 10 % 10 + 48) ∷ (n % 10 + 48) ∷ []

-- net.IP.String of four bytes.
unfoldable pub dotted : Ip → List ℕ
unfolding decimal
dotted a = decimal a.b0 ++ b'.' ∷ (decimal a.b1 ++ b'.' ∷ (decimal a.b2 ++ b'.' ∷ decimal a.b3))
