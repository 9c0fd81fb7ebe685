-- ===== src/Money/Currencies.antt =====
-- core/currencies.py: currency codes and symbols, minor units, and amounts as text.
use Prim.Native.String.{String}
use mathlib.Core.List.{reverse}
use papertrail.Base.{
  ℕ, zero, suc, ◌+◌, ◌/◌, ◌%◌, ◌^◌, Bool, false, ◌||◌, Option, none, some, List, [], ◌∷◌, ◌++◌,
  ◌==◌, if◌then◌else◌, ℤ, Text, text, text_eq, or_text, lower, upper,
}
use papertrail.Money.Decimal.{Decimal, of_ℕ, multiply, divide, quantize_half_up, to_int}

abbrev pub default_currency : Text
default_currency = text "usd"

-- The codes of `CURRENCY_CHOICES`.
abbrev pub currency_choices : List String
currency_choices =
    "usd" ∷ "eur" ∷ "gbp" ∷ "cad" ∷ "aud" ∷ "nzd" ∷ "chf" ∷ "jpy" ∷ "sek" ∷ "nok" ∷ "dkk" ∷ "pln"
    ∷ "czk" ∷ "huf" ∷ "ron" ∷ "brl" ∷ "mxn" ∷ "ars" ∷ "clp" ∷ "cop" ∷ "pen" ∷ "inr" ∷ "sgd" ∷ "hkd"
    ∷ "twd" ∷ "krw" ∷ "zar" ∷ "egp" ∷ "ngn" ∷ "kes" ∷ "ghs" ∷ "aed" ∷ "sar" ∷ "qar" ∷ "kwd" ∷ "bhd"
    ∷ "omr" ∷ "ils" ∷ "jod" ∷ "lbp" ∷ "thb" ∷ "myr" ∷ "idr" ∷ "php" ∷ "vnd" ∷ "pkr" ∷ "bdt" ∷ "lkr"
    ∷ "npr" ∷ "mmk" ∷ "rub" ∷ "uah" ∷ "try" ∷ "gel" ∷ "azn" ∷ "kzt" ∷ "uzs" ∷ []

-- Symbols written from right to left stand as code points.
abbrev currency_symbols : List (String × Text)
currency_symbols =
    ("usd", text "$")
    ∷ ("eur", text "€")
    ∷ ("gbp", text "£")
    ∷ ("cad", text "C$")
    ∷ ("aud", text "A$")
    ∷ ("nzd", text "NZ$")
    ∷ ("chf", text "CHF ")
    ∷ ("jpy", text "¥")
    ∷ ("sek", text "kr")
    ∷ ("nok", text "kr")
    ∷ ("dkk", text "kr")
    ∷ ("pln", text "zł")
    ∷ ("czk", text "Kč")
    ∷ ("huf", text "Ft")
    ∷ ("ron", text "lei")
    ∷ ("brl", text "R$")
    ∷ ("mxn", text "MX$")
    ∷ ("ars", text "AR$")
    ∷ ("clp", text "CL$")
    ∷ ("cop", text "CO$")
    ∷ ("pen", text "S/")
    ∷ ("inr", text "₹")
    ∷ ("sgd", text "S$")
    ∷ ("hkd", text "HK$")
    ∷ ("twd", text "NT$")
    ∷ ("krw", text "₩")
    ∷ ("zar", text "R")
    ∷ ("egp", text "E£")
    ∷ ("ngn", text "₦")
    ∷ ("kes", text "KSh")
    ∷ ("ghs", text "GH₵")
    ∷ ("aed", 0x062f ∷ 0x002e ∷ 0x0625 ∷ [])
    ∷ ("sar", 0xfdfc ∷ [])
    ∷ ("qar", 0xfdfc ∷ [])
    ∷ ("kwd", 0x062f ∷ 0x002e ∷ 0x0643 ∷ [])
    ∷ ("bhd", text "BD")
    ∷ ("omr", 0xfdfc ∷ [])
    ∷ ("ils", text "₪")
    ∷ ("jod", text "JD")
    ∷ ("lbp", text "L£")
    ∷ ("thb", text "฿")
    ∷ ("myr", text "RM")
    ∷ ("idr", text "Rp")
    ∷ ("php", text "₱")
    ∷ ("vnd", text "₫")
    ∷ ("pkr", text "₨")
    ∷ ("bdt", text "৳")
    ∷ ("lkr", text "Rs")
    ∷ ("npr", text "Rs")
    ∷ ("mmk", text "K")
    ∷ ("rub", text "₽")
    ∷ ("uah", text "₴")
    ∷ ("try", text "₺")
    ∷ ("gel", text "₾")
    ∷ ("azn", text "₼")
    ∷ ("kzt", text "₸")
    ∷ ("uzs", text "so'm")
    ∷ []

abbrev zero_decimal_currencies : List String
zero_decimal_currencies =
    "bif" ∷ "clp" ∷ "djf" ∷ "gnf" ∷ "jpy" ∷ "kmf" ∷ "krw" ∷ "mga" ∷ "pyg" ∷ "rwf" ∷ "ugx" ∷ "vnd"
    ∷ "vuv" ∷ "xaf" ∷ "xof" ∷ "xpf" ∷ []

abbrev three_decimal_currencies : List String
three_decimal_currencies = "bhd" ∷ "jod" ∷ "kwd" ∷ "omr" ∷ "tnd" ∷ []

-- `code in codes`.
unfoldable pub is_in : Text → List String → Bool
is_in code [] = false
is_in code (c ∷ cs) = text_eq code (text c) || is_in code cs

unfoldable pub get_currency_decimals : Text → ℕ
get_currency_decimals currency =
    let code = lower (or_text currency default_currency) in
    if is_in code zero_decimal_currencies
    then 0
    else if is_in code three_decimal_currencies
    then 3
    else 2

-- `d.get(code, default)`.
symbol_of : Text → Text → List (String × Text) → Text
symbol_of code default [] = default
symbol_of code default ((c, s) ∷ rest) =
    let later = symbol_of code default rest in if text_eq code (text c) then s else later

unfoldable pub get_currency_symbol : Text → Text
unfolding symbol_of
get_currency_symbol currency =
    let code = lower (or_text currency default_currency) in
    symbol_of code (upper code) currency_symbols

-- The digits of a number, most significant first.
decimal_digits : ℕ → ℕ → Text
decimal_digits zero n = []
decimal_digits (suc fuel) n =
    let before = decimal_digits fuel (n / 10) in
    (if n / 10 == 0 then [] else before) ++ (48 + n % 10) ∷ []

-- The last `d` digits of a number.
fixed_digits : ℕ → ℕ → Text
fixed_digits zero n = []
fixed_digits (suc d) n = fixed_digits d (n / 10) ++ (48 + n % 10) ∷ []

-- A comma after every three digits, on a number written backwards.
group_digits : ℕ → Text → Text
group_digits k [] = []
group_digits k (c ∷ s) =
    let apart = b',' ∷ c ∷ group_digits 1 s in
    let joined = c ∷ group_digits (suc k) s in if k == 3 then apart else joined

-- `f"{amount:,.{decimals}f}"` at an amount with that many fractional digits.
unfoldable pub format_amount : ℕ → Decimal → Text
unfolding decimal_digits fixed_digits group_digits
format_amount decimals a =
    let whole = a.coefficient / 10 ^ decimals in
    (if a.negative then b'-' ∷ [] else [])
    ++ (reverse (group_digits 0 (reverse (decimal_digits (suc whole) whole)))
        ++ (if decimals == 0 then [] else b'.' ∷ fixed_digits decimals a.coefficient))

unfoldable pub format_currency : Option Decimal → Text → Text
format_currency none currency = []
format_currency (some amount) currency =
    let code = lower (or_text currency default_currency) in
    let decimals = get_currency_decimals code in
    get_currency_symbol code ++ format_amount decimals (quantize_half_up decimals amount)

unfoldable pub to_stripe_amount : Decimal → Text → ℤ
to_stripe_amount amount currency =
    to_int (quantize_half_up 0 (multiply amount (of_ℕ (10 ^ get_currency_decimals currency))))

unfoldable pub from_stripe_amount : ℕ → Text → Decimal
from_stripe_amount amount_cents currency =
    divide (of_ℕ amount_cents) (of_ℕ (10 ^ get_currency_decimals currency))
