-- ===== src/Text/Decimal.antt =====
-- `str` of a natural number, as the program writes counts and positions into texts.
use Prim.Native.String.{◌++◌ as append}
use token_bank.Prelude.{ℕ, zero, suc, ◌+◌, String, List, [], ◌∷◌, ◌==◌, if◌then◌else◌}

-- one more, on the decimal digits from the last to the first
unfoldable pub increment : List ℕ → List ℕ
increment [] = 1 ∷ []
increment (d ∷ ds) = let rest = increment ds in if d == 9 then 0 ∷ rest else (d + 1) ∷ ds

unfoldable pub digits : ℕ → List ℕ
unfolding increment
digits zero = 0 ∷ []
digits (suc n) = increment (digits n)

unfoldable pub digit : ℕ → String
digit d =
    if d == 0
    then "0"
    else if d == 1
    then "1"
    else if d == 2
    then "2"
    else if d == 3
    then "3"
    else if d == 4
    then "4"
    else if d == 5
    then "5"
    else if d == 6
    then "6"
    else if d == 7
    then "7"
    else if d == 8
    then "8"
    else "9"

unfoldable pub write_digits : List ℕ → String
unfolding digit
write_digits [] = ""
write_digits (d ∷ ds) = append (write_digits ds) (digit d)

unfoldable pub decimal : ℕ → String
unfolding digits write_digits
decimal n = write_digits (digits n)
