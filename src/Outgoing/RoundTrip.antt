-- ===== src/Outgoing/RoundTrip.antt =====
-- What the file says of the entries that it was written for.
use openpak_client.Shared.{
  cut_at, ◌^◌, ◌<◌, ◌≡◌, refl, ap, ◌≢◌, false, some, List, [], ◌∷◌, ◌++◌, append_assoc, arith,
  is_nil, All, All-append, Bytes, nat_eq, text_eq, Lacks, cut_at-append,
}
use openpak_client.Shared.Decimal.{int_to_string, stoll}
use openpak_client.Shared.Decimal.RoundTrip.{IsDigit, to_string-IsDigit, stoll-to_string}
use openpak_client.Shared.Int.{ℤ, pos, negsuc, pos_part}
use openpak_client.Platform.{split_string}
use openpak_client.Platform.Split.{split_string-append}
use openpak_client.Platform.Strip.{IsStripped}
use openpak_client.Outgoing.{
  Entry, print_entry, print_entries, parse_parts, parse_line, parse_lines, parse_file,
}

-- What the line format can carry: a code with no bar, line break or outer blank, and a time that
-- is no earlier than 1970.
pub record IsClean (e : Entry) : Type 0 where
  pub present : e.friend_code ≢ []
  pub one_line : Lacks b'\n' e.friend_code
  pub no_bar : Lacks b'|' e.friend_code
  pub stripped : IsStripped e.friend_code
  pub dated : e.sent_unix_time ≡ pos (pos_part e.sent_unix_time)
  pub small : pos_part e.sent_unix_time < 2 ^ 63

digits-Lacks : (s : Bytes) → All IsDigit s → Lacks b'\n' s
digits-Lacks [] h = tt
digits-Lacks (c ∷ s) h = (omega arith, digits-Lacks s h.1)

-- The line without its line break.
body : Entry → Bytes
body e = e.friend_code ++ (b'|' ∷ int_to_string e.sent_unix_time)

body-Lacks : (e : Entry) → IsClean e → Lacks b'\n' (body e)
unfolding body int_to_string
body-Lacks e c = rw c.dated (
    All-append (λ x. x ≢ b'\n') e.friend_code _ c.one_line
      (omega arith, digits-Lacks _ (to_string-IsDigit (pos_part e.sent_unix_time))))

is_nil-ne-nil : (s : Bytes) → s ≢ [] → is_nil s ≡ false
is_nil-ne-nil [] h = absurd (h refl)
is_nil-ne-nil (c ∷ s) h = refl

stoll-time : (t : ℤ) → t ≡ pos (pos_part t) → pos_part t < 2 ^ 63 → stoll (int_to_string t) ≡ some t
stoll-time (pos n) h k = stoll-to_string n k
stoll-time (negsuc n) h k = cc

parse_parts_clean :
    (e : Entry) → IsClean e → parse_parts e.friend_code (int_to_string e.sent_unix_time) ≡ some e
unfolding parse_parts
parse_parts_clean e c =
    rw (
      c.stripped,
      stoll-time e.sent_unix_time c.dated c.small,
      is_nil-ne-nil e.friend_code c.present,
    )

parse_line-body : (e : Entry) → IsClean e → parse_line (body e) ≡ some e
unfolding parse_line body
parse_line-body e c =
    rw (cut_at-append b'|' e.friend_code (int_to_string e.sent_unix_time) c.no_bar)
      (parse_parts_clean e c)

print_entries-body :
    (e : Entry) (es : List Entry) → print_entries (e ∷ es) ≡ body e ++ b'\n' ∷ print_entries es
unfolding print_entries print_entry body
print_entries-body e es = simp append_assoc

-- The entries that the format can carry are read back from the file, in their order.
pub parse_file-print : (es : List Entry) → All IsClean es → parse_file (print_entries es) ≡ es
unfolding parse_file split_string parse_line print_entries cut_at
parse_file-print [] h = refl
parse_file-print (e ∷ es) h = rw print_entries-body (
    rw (split_string-append b'\n' (body e) (print_entries es) (body-Lacks e h.0))
      (rw (parse_lines, parse_line-body e h.0) (ap (◌∷◌ e) (parse_file-print es h.1))))
