-- ===== src/Utils.antt =====
-- utils/: `Addr2Shard`, the default shard of an address.
use utxo_block_emulator.Base.{
  ℕ, suc, ◌+◌, ◌-◌, ◌*◌, ◌%◌, ◌^◌, ◌<◌, ◌≡◌, refl, ap, ◌∙◌, [], ◌∷◌, ◌++◌, false, ◌&&◌, Bytes,
  Option, none, some, length, drop, ltb, leb, ◌==◌, nat_eq, if◌then◌else◌, arith, length-append,
  drop-length-append, All,
}
use native.Mathlib.Omega.{pow_step}
use utxo_block_emulator.Base.Outcome.{Outcome, ok, panic, or_panic, ◌>>=◌}

-- A digit of `strconv.ParseUint(_, 16, 64)`.
unfoldable pub hex_digit : ℕ → Option ℕ
hex_digit c =
    if leb b'0' c && leb c b'9'
    then some (c - 48)
    else if leb b'a' c && leb c b'f'
    then some (c - 87)
    else if leb b'A' c && leb c b'F'
    then some (c - 55)
    else none

-- Eight digits stay below 2^32, so there is no range error.
unfoldable pub parse_digits : ℕ → Bytes → Option ℕ
unfolding hex_digit
parse_digits acc [] = some acc
parse_digits acc (c ∷ cs) = elim (hex_digit c) [
  | none ↦ none
  | some d ↦ parse_digits (acc * 16 + d) cs
]

-- The slice panics on an address of fewer than eight bytes, and `%` on no shards.
unfoldable pub addr_to_shard : (shard_num : ℕ) → Bytes → Outcome ℕ
unfolding parse_digits
addr_to_shard shard_num addr = if ltb (length addr) 8 then panic else (do
  num ← or_panic (parse_digits 0 (drop (length addr - 8) addr))
  if shard_num == 0 then panic else ok (num % shard_num))

-- The number that a hexadecimal text stands for, each digit times its power of sixteen.
abbrev pub digit_value : ℕ → ℕ
digit_value c = elim (hex_digit c) [ none ↦ 0 | some d ↦ d ]

abbrev pub hex_value : Bytes → ℕ
hex_value [] = 0
hex_value (c ∷ cs) = digit_value c * 16 ^ length cs + hex_value cs

-- Every byte is a hexadecimal digit.
abbrev pub IsHex : Bytes → Type 0
IsHex = All (λ c. (d : ℕ) × (hex_digit c ≡ some d))

shift_digit : (acc d p v : ℕ) → (acc * 16 + d) * p + v ≡ acc * (16 * p) + (d * p + v)
shift_digit acc d p v = omega arith

digit_value_lem : (c d : ℕ) → hex_digit c ≡ some d → digit_value c ≡ d
digit_value_lem c d e = rw (digit_value, e) refl

shift_digit_pow :
    (acc c d n v : ℕ)
    → hex_digit c ≡ some d
    → (acc * 16 + d) * 16 ^ n + v ≡ acc * 16 ^ suc n + (digit_value c * 16 ^ n + v)
shift_digit_pow acc c d n v e = rw (digit_value_lem c d e, pow_step) (shift_digit acc d (16 ^ n) v)

parse_digits_digit :
    (acc c d : ℕ) (cs : Bytes)
    → hex_digit c ≡ some d
    → parse_digits acc (c ∷ cs) ≡ parse_digits (acc * 16 + d) cs
unfolding parse_digits
parse_digits_digit acc c d cs e = rw (parse_digits, e) refl

parse_digits_lem :
    (acc : ℕ) (s : Bytes) → IsHex s → parse_digits acc s ≡ some (acc * 16 ^ length s + hex_value s)
unfolding parse_digits
parse_digits_lem acc [] h = ap some (omega arith)
parse_digits_lem acc (c ∷ cs) ((d, e), h) =
    parse_digits_digit acc c d cs e
    ∙ parse_digits_lem (acc * 16 + d) cs h
    ∙ ap some (shift_digit_pow acc c d (length cs) (hex_value cs) e)

not_short : (front s : Bytes) → length s ≡ 8 → ltb (length (front ++ s)) 8 ≡ false
not_short front s l = ground (arith, length-append front s)

last_eight : (front s : Bytes) → length s ≡ 8 → drop (length (front ++ s) - 8) (front ++ s) ≡ s
last_eight front s l =
    ap (λ k. drop k (front ++ s)) (omega (arith, length-append front s))
    ∙ drop-length-append front s

shard_num_beq : (n : ℕ) → 0 < n → (n == 0) ≡ false
shard_num_beq n h = ground arith

-- `Addr2Shard` of a text that ends in eight hexadecimal digits, in lower or upper case, is the number
-- they write, each digit times its power of sixteen, modulo the number of shards, which is not 0; it
-- is a shard.
addr_to_shard_lem :
    (shard_num : ℕ) (front s : Bytes)
    → 0 < shard_num
    → length s ≡ 8
    → IsHex s
    → (addr_to_shard shard_num (front ++ s) ≡ ok (hex_value s % shard_num))
      × (hex_value s % shard_num < shard_num)
unfolding addr_to_shard
addr_to_shard_lem shard_num front s h l hex = (
  rw
      (
        not_short front s l,
        last_eight front s l,
        parse_digits_lem 0 s hex,
        shard_num_beq shard_num h,
      )
      (ap (λ v. ok (v % shard_num)) (omega arith)),
  omega arith,
)
