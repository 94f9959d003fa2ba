-- ===== src/Prelude/Texts.antt =====
-- Texts that the source builds: template literals and the decimal print of a number.
use Prim.Native.Nat.{ℕ, zero, suc, ◌/◌, ◌%◌}
use Prim.Native.String.{String}
pub use Prim.Native.String.{◌++◌ as append}
use n8n_libpetri.Prelude.Tests.{if◌then◌else◌, ltb, nat_beq}

abbrev pub digit : ℕ → String
digit d =
    if nat_beq d 0
    then "0"
    else if nat_beq d 1
    then "1"
    else if nat_beq d 2
    then "2"
    else if nat_beq d 3
    then "3"
    else if nat_beq d 4
    then "4"
    else if nat_beq d 5
    then "5"
    else if nat_beq d 6
    then "6"
    else if nat_beq d 7
    then "7"
    else if nat_beq d 8
    then "8"
    else "9"

-- The digits of `n`, on fuel of one unit for each.
pub print_digits : ℕ → ℕ → String
print_digits zero n = ""
print_digits (suc fuel) n =
    let high = print_digits fuel (n / 10) in
    if ltb n 10 then digit n else append high (digit (n % 10))

unfoldable pub print : ℕ → String
unfolding print_digits
print n = print_digits (suc n) n
