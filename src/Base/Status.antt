-- ===== src/Base/Status.antt =====
-- base::Status of kwctoolkit/base/status.h and status.cc.
use kwctoolkit.Prelude.{
  ℕ, zero, suc, ◌+◌, ◌/◌, ◌%◌, ◌==◌, Bool, ◌&&◌, [], ◌∷◌, ◌++◌, Bytes, codes, bytes_eq, ltb,
  if◌then◌else◌, is_empty, ℤ, pos, negsuc,
}

pub data Code : Type 0 where
  ok cancelled unknown invalid_argument not_found data_loss : Code

abbrev pub code_number : Code → ℕ
code_number ok = 0
code_number cancelled = 1
code_number unknown = 2
code_number invalid_argument = 3
code_number not_found = 4
code_number data_loss = 5

pub record Status : Type 0 where
  pub code : Code
  pub msg : Bytes

-- Status()
abbrev pub ok_status : Status
ok_status = record { code = ok; msg = [] }

abbrev pub is_ok : Status → Bool
is_ok s = code_number s.code == 0

-- operator==
pub status_eq : Status → Status → Bool
unfolding bytes_eq
status_eq s t = code_number s.code == code_number t.code && bytes_eq s.msg t.msg

-- std::to_string, by the digits from the last one on; `n + 1` rounds are enough.
unfoldable pub decimal : ℕ → ℕ → Bytes → Bytes
decimal zero n acc = acc
decimal (suc fuel) n acc =
    let acc' = (b'0' + n % 10) ∷ acc in
    let rest = decimal fuel (n / 10) acc' in if ltb n 10 then acc' else rest

unfoldable pub to_string : ℤ → Bytes
unfolding decimal
to_string (pos n) = decimal (suc n) n []
to_string (negsuc n) = b'-' ∷ decimal (suc (suc n)) (suc n) []

pub status_code_to_string : Code → Bytes
unfolding to_string
status_code_to_string ok = codes "OK"
status_code_to_string code = codes "Error #" ++ to_string (pos (code_number code))

unfoldable pub status_to_string : Status → Bytes
unfolding status_code_to_string
status_to_string s =
    let result = status_code_to_string s.code in
    if is_empty s.msg then result else result ++ codes ": " ++ s.msg
