-- ===== src/Crash/Texts.antt =====
-- The texts of client/openpak/crash_reports.cpp: the tail of a log, numbers, and C strings in buffers of a
-- fixed size. A C string is what stands before its NUL.
pub mod Tails
pub mod Numbers
use openpak_client.Shared.{
  ℕ, zero, suc, ◌+◌, ◌-◌, ◌/◌, ◌%◌, ◌^◌, not, ◌&&◌, ◌||◌, [], ◌∷◌, ◌++◌, ltb, ◌==◌, if◌then◌else◌,
  length, take, drop, replicate, is_nil, Bytes, codes,
}

-- `text[at]`, for a place inside the text.
abbrev pub char_at : Bytes → ℕ → ℕ
char_at text at = elim (drop at text) [ [] ↦ 0 | c ∷ cs ↦ c ]

abbrev pub newline : ℕ
newline = b'\n'

-- The loop of `TailLines`, back from a place.
pub scan : Bytes → ℕ → ℕ → ℕ → Bytes
scan text lines zero seen = text
scan text lines (suc at) seen =
    let ends = char_at text at == newline in
    let counted = if ends then seen + 1 else seen in
    let on = scan text lines at counted in
    if ends && (counted == lines) then drop (suc at) text else on

abbrev pub body_end : Bytes → ℕ
body_end text =
    let n = length text in
    if ltb 0 n then (if char_at text (n - 1) == newline then n - 1 else n) else n

-- `TailLines`.
unfoldable pub tail_lines : Bytes → ℕ → Bytes
unfolding scan
tail_lines text lines = if lines == 0 then [] else scan text lines (body_end text) 0

-- `ReadTail` of a file's bytes.
unfoldable pub read_tail : Bytes → ℕ → Bytes
read_tail contents bytes = drop (length contents - bytes) contents

-- `kDigits[n]`.
unfoldable pub digit : ℕ → ℕ
digit n = if ltb n 10 then b'0' + n else b'a' + (n - 10)

-- What `AppendHex` appends.
unfoldable pub append_hex : ℕ → ℕ → Bytes
unfolding digit
append_hex value zero = []
append_hex value (suc i) = digit (value / 16 ^ i % 16) ∷ append_hex value i

-- The first loop of `FormatNumber`, with the digits so far, the last one first in the source.
unfoldable pub digits_of : ℕ → ℕ → ℕ → Bytes → Bytes
unfolding digit
digits_of zero value base digits = digits
digits_of (suc room) value base digits =
    let more = digits_of room (value / base) base (digit (value % base) ∷ digits) in
    if value / base == 0 then digit (value % base) ∷ digits else more

-- `FormatNumber`: its `digits` has room for 32.
unfoldable pub format_number : ℕ → ℕ → ℕ → Bytes
unfolding digits_of
format_number value base width =
    let digits = digits_of 32 value base [] in
    replicate ((if ltb width 32 then width else 32) - length digits) b'0' ++ digits

-- `Append`, to a buffer of `cap` bytes.
unfoldable pub append : ℕ → Bytes → Bytes → Bytes
append cap text [] = text
append cap text (c ∷ cs) =
    let more = append cap (text ++ c ∷ []) cs in
    if (c == 0) || not (ltb (length text + 1) cap) then text else more

-- The C string at the front of a buffer.
abbrev pub c_string : Bytes → Bytes
c_string [] = []
c_string (c ∷ cs) = if c == 0 then [] else c ∷ c_string cs

-- `CopyInto`.
unfoldable pub copy_into : ℕ → Bytes → Bytes
copy_into cap source = c_string (take (cap - 1) source)

-- `BuildMultipart`.
unfoldable pub build_multipart : Bytes → Bytes → Bytes → Bytes → Bytes
build_multipart boundary meta attachment_name attachment =
    let line = codes "\r\n" in
    let open_part = codes "--" ++ boundary in
    let name = if is_nil attachment_name then codes "crash.log" else attachment_name in
    let attached =
      if is_nil attachment
      then []
      else open_part
        ++ codes "\r\nContent-Disposition: form-data; name=\"attachment\"; filename=\""
        ++ name
        ++ codes "\"\r\nContent-Type: text/plain\r\n\r\n"
        ++ attachment
        ++ line in
    open_part
    ++ codes
        "\r\nContent-Disposition: form-data; name=\"meta\"\r\nContent-Type: application/json\r\n\r\n"
    ++ meta
    ++ line
    ++ attached
    ++ open_part
    ++ codes "--\r\n"
