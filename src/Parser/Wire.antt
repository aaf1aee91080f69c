-- ===== src/Parser/Wire.antt =====
-- What the server sends, apart from the machine that reads it: the values, the bytes that stand for
-- them, and the replies that describe them in a buffer.
use libredis.Base.{
  ℕ, ◌+◌, ◌-◌, ◌*◌, ◌<◌, ◌≡◌, ◌≢◌, true, Option, none, some, List, [], ◌∷◌, ◌++◌, Bytes, length,
  take, drop,
}
use libredis.Reply.{
  Reply, reply, Replies, nil, cons, Reply_new, rt_ok, rt_error, rt_integer, rt_bulk, rt_bulk_nil,
  rt_multibulk, rt_multibulk_nil, read_buffer, null_buffer,
}
use libredis.Parser.{is_digit, int_limit}

-- A bulk value is a text, or nil (`none`); a multibulk value is a list of these, or nil.
pub data Value : Type 0 where
  status failure number : Bytes → Value
  bulk : Option Bytes → Value
  multibulk : Option (List (Option Bytes)) → Value

abbrev pub All : (ℕ → Type 0) → Bytes → Type 0
All P [] = Unit
All P (c ∷ cs) = P c × All P cs

-- A line holds no CR.
abbrev pub IsLine : Bytes → Type 0
IsLine = All (λ c. c ≢ b'\r')

-- The number that a text of digits stands for, most significant digit first
abbrev pub decimal_from : ℕ → Bytes → ℕ
decimal_from acc [] = acc
decimal_from acc (d ∷ ds) = decimal_from (acc * 10 + (d - b'0')) ds

-- `d ∷ ds` are digits that stand for `n`, an `int`.
pub record IsCount (d : ℕ) (ds : Bytes) (n : ℕ) : Type 0 where
  pub first : is_digit d ≡ true
  pub others : All (λ c. is_digit c ≡ true) ds
  pub value : decimal_from 0 (d ∷ ds) ≡ n
  pub is_int : n < int_limit

abbrev pub crlf : Bytes → Bytes
crlf rest = b'\r' ∷ b'\n' ∷ rest

-- `bs` is an encoding of the value with `rest` behind it.
abbrev pub EncodesBulk : Option Bytes → Bytes → Bytes → Type 0
EncodesBulk none rest bs = bs ≡ b'$' ∷ b'-' ∷ b'1' ∷ crlf rest
EncodesBulk (some s) rest bs =
    (d : ℕ) × (ds : Bytes) × IsCount d ds (length s)
    × (bs ≡ b'$' ∷ d ∷ (ds ++ crlf (s ++ crlf rest)))

abbrev pub EncodesItems : List (Option Bytes) → Bytes → Bytes → Type 0
EncodesItems [] rest bs = bs ≡ rest
EncodesItems (x ∷ xs) rest bs =
    (later : Bytes) × EncodesBulk x later bs × EncodesItems xs rest later

abbrev pub Encodes : Value → Bytes → Bytes → Type 0
Encodes (status s) rest bs = IsLine s × (bs ≡ b'+' ∷ (s ++ crlf rest))
Encodes (failure s) rest bs = IsLine s × (bs ≡ b'-' ∷ (s ++ crlf rest))
Encodes (number s) rest bs = IsLine s × (bs ≡ b':' ∷ (s ++ crlf rest))
Encodes (bulk x) rest bs = EncodesBulk x rest bs
Encodes (multibulk none) rest bs = bs ≡ b'*' ∷ b'-' ∷ b'1' ∷ crlf rest
Encodes (multibulk (some xs)) rest bs =
    (d : ℕ) × (ds : Bytes) × (items : Bytes) × IsCount d ds (length xs)
    × (bs ≡ b'*' ∷ d ∷ (ds ++ crlf items))
    × EncodesItems xs rest items

-- A reply with a text of its own, as `Reply_data` and `Reply_length` give it
abbrev pub Holds : Bytes → Bytes → ℕ → Type 0
Holds bytes s offset = take (length s) (drop offset bytes) ≡ s

abbrev pub DescribesBulk : Bytes → Option Bytes → Reply → Type 0
DescribesBulk bytes none r = r ≡ Reply_new rt_bulk_nil read_buffer 0 0
DescribesBulk bytes (some s) r =
    (o : ℕ) × (r ≡ Reply_new rt_bulk read_buffer o (length s)) × Holds bytes s o

abbrev pub DescribesItems : Bytes → List (Option Bytes) → Replies → Type 0
DescribesItems bytes [] rs = rs ≡ nil
DescribesItems bytes (x ∷ xs) rs =
    (r : Reply) × (later : Replies) × (rs ≡ cons r later)
    × DescribesBulk bytes x r
    × DescribesItems bytes xs later

abbrev pub Describes : Bytes → Value → Reply → Type 0
Describes bytes (status s) r =
    (o : ℕ) × (r ≡ Reply_new rt_ok read_buffer o (length s)) × Holds bytes s o
Describes bytes (failure s) r =
    (o : ℕ) × (r ≡ Reply_new rt_error read_buffer o (length s)) × Holds bytes s o
Describes bytes (number s) r =
    (o : ℕ) × (r ≡ Reply_new rt_integer read_buffer o (length s)) × Holds bytes s o
Describes bytes (bulk x) r = DescribesBulk bytes x r
Describes bytes (multibulk none) r = r ≡ Reply_new rt_multibulk_nil null_buffer 0 0
Describes bytes (multibulk (some xs)) r =
    (rs : Replies) × (r ≡ reply rt_multibulk null_buffer 0 (length xs) rs)
    × DescribesItems bytes xs rs
