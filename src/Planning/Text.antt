-- ===== src/Planning/Text.antt =====
-- Texts that planning.py formats from numbers, and the prefix of a text.
use Prim.Native.Nat.{◌/◌, ◌%◌}
use airgapped_ai_gateway_k8s.Base.{
  ℕ, zero, suc, String, ◌<>◌, ◌≡◌, refl, ltb, nat_eq, if◌then◌else◌,
}

digit : ℕ → String
digit d =
    if nat_eq d 0
    then "0"
    else if nat_eq d 1
    then "1"
    else if nat_eq d 2
    then "2"
    else if nat_eq d 3
    then "3"
    else if nat_eq d 4
    then "4"
    else if nat_eq d 5
    then "5"
    else if nat_eq d 6
    then "6"
    else if nat_eq d 7
    then "7"
    else if nat_eq d 8
    then "8"
    else "9"

-- The fuel is the number itself, which has fewer digits than its value plus one.
decimal_loop : ℕ → ℕ → String
decimal_loop zero n = digit n
decimal_loop (suc fuel) n =
    let rest = decimal_loop fuel (n / 10) in if ltb n 10 then digit n else rest <> digit (n % 10)

-- str(n)
unfoldable pub decimal : ℕ → String
unfolding decimal_loop digit
decimal n = decimal_loop n n

-- f"{n:03d}"
unfoldable pub padded : ℕ → String
unfolding decimal
padded n = if ltb n 10 then "00" <> decimal n else if ltb n 100 then "0" <> decimal n else decimal n

-- s[:n]
unfoldable pub first_chars : ℕ → String → String
first_chars zero s = ""
first_chars (suc n) String.[] = ""
first_chars (suc n) (String.◌∷◌ c s) = String.◌∷◌ c (first_chars n s)

padded_runs : padded 7 <> padded 42 <> padded 1205 ≡ "0070421205"
unfolding padded
padded_runs = refl

first_chars_runs : first_chars 3 "abcdef" ≡ "abc"
unfolding first_chars
first_chars_runs = refl
