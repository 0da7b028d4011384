-- ===== src/Account/RoundTrip.antt =====
-- The account that is written is the account that is read.
use openpak_client.Shared.{
  ◌^◌, ◌<◌, ◌≡◌, refl, sym, ap, ◌∙◌, ◌≢◌, false, [], ◌∷◌, ◌++◌, append_assoc, append-nil, arith,
  is_nil, All, All-append, Bytes, codes, bytes_eq, nat_eq, text_eq, cut_at, Lacks, cut_at-append,
}
use openpak_client.Shared.Decimal.{to_string}
use openpak_client.Shared.Decimal.RoundTrip.{IsDigit, to_string-IsDigit, stoull-to_string}
use openpak_client.Platform.{split_string, strip_spaces, is_blank}
use openpak_client.Platform.Split.{split_string-append}
use openpak_client.Platform.Strip.{IsStripped, strip_spaces-no_blank}
use openpak_client.Account.{
  Account, set_field, read_line, read_lines, parse_account, print_field, print_account,
}

-- A value that one line can carry.
pub record IsLine (v : Bytes) : Type 0 where
  pub one_line : Lacks b'\n' v
  pub stripped : IsStripped v

pub record IsClean (a : Account) : Type 0 where
  pub pid : a.pid < 2 ^ 64
  pub username : IsLine a.username
  pub friend_code : IsLine a.friend_code
  pub token : IsLine a.token
  pub bearer : IsLine a.bearer

-- A key of the file: it holds neither `=` nor a line break, and no blank.
record IsKey (k : Bytes) : Type 0 where
  present : is_nil k ≡ false
  no_equals : Lacks b'=' k
  one_line : Lacks b'\n' k
  stripped : IsStripped k

digits-IsLine : (s : Bytes) → All IsDigit s → IsLine s
digits-IsLine s h = record {
  one_line = no_break s h;
  stripped = strip_spaces-no_blank s (no_blank s h);
}
  where
    no_break : (t : Bytes) → All IsDigit t → Lacks b'\n' t
    no_break [] h = tt
    no_break (c ∷ t) h = (omega arith, no_break t h.1)

    no_blank : (t : Bytes) → All IsDigit t → All (λ c. is_blank c ≡ false) t
    no_blank [] h = tt
    no_blank (c ∷ t) h = (ground (arith, h.0), no_blank t h.1)

read_line-field :
    (a : Account) (k v : Bytes) → IsKey k → IsLine v → read_line a (k ++ b'=' ∷ v) ≡ set_field a k v
unfolding read_line
read_line-field a k v hk hv =
    rw (cut_at-append b'=' k v hk.no_equals, read_line)
      (rw hk.present (rw (hk.stripped, hv.stripped)))

-- Reading a written field sets it and goes on with what follows.
read_lines-field :
    (a : Account) (k v rest : Bytes)
    → IsKey k
    → IsLine v
    → read_lines a (split_string (print_field k v ++ rest) b'\n')
      ≡ read_lines (set_field a k v) (split_string rest b'\n')
unfolding print_field read_lines
read_lines-field a k v rest hk hv = rw (ap (λ t. split_string t b'\n') (regroup k v rest)) (
    rw (split_string-append b'\n' (k ++ b'=' ∷ v) rest line)
      (rw (read_line-field a k v hk hv, read_lines)))
  where
    regroup :
        (k v rest : Bytes)
        → (k ++ (b'=' ∷ (v ++ (b'\n' ∷ [])))) ++ rest ≡ (k ++ b'=' ∷ v) ++ b'\n' ∷ rest
    regroup k v rest = simp append_assoc

    line : Lacks b'\n' (k ++ b'=' ∷ v)
    line = All-append (λ x. x ≢ b'\n') k (b'=' ∷ v) hk.one_line (omega arith, hv.one_line)

read_lines-last :
    (a : Account) (k v : Bytes)
    → IsKey k
    → IsLine v
    → read_lines a (split_string (print_field k v) b'\n') ≡ set_field a k v
unfolding split_string read_lines cut_at
read_lines-last a k v hk hv =
    sym (ap (λ t. read_lines a (split_string t b'\n')) (append-nil (print_field k v)))
    ∙ read_lines-field a k v [] hk hv

-- The keys of the file, in its order.
IsKey-pid : IsKey (codes "pid")
unfolding strip_spaces
IsKey-pid = record {
  present = refl;
  no_equals = omega arith;
  one_line = omega arith;
  stripped = refl;
}

IsKey-username : IsKey (codes "username")
unfolding strip_spaces
IsKey-username = record {
  present = refl;
  no_equals = omega arith;
  one_line = omega arith;
  stripped = refl;
}

IsKey-friend_code : IsKey (codes "friend_code")
unfolding strip_spaces
IsKey-friend_code = record {
  present = refl;
  no_equals = omega arith;
  one_line = omega arith;
  stripped = refl;
}

IsKey-token : IsKey (codes "token")
unfolding strip_spaces
IsKey-token = record {
  present = refl;
  no_equals = omega arith;
  one_line = omega arith;
  stripped = refl;
}

IsKey-bearer : IsKey (codes "bearer")
unfolding strip_spaces
IsKey-bearer = record {
  present = refl;
  no_equals = omega arith;
  one_line = omega arith;
  stripped = refl;
}

-- An account whose values the lines can carry is read back from the file whole.
pub parse_account-print : (a : Account) → IsClean a → parse_account (print_account a) ≡ a
unfolding parse_account print_account set_field bytes_eq
parse_account-print a c =
    rw
      (read_lines-field _ (codes "pid") (to_string a.pid) _ IsKey-pid
        (digits-IsLine _ (to_string-IsDigit a.pid)))
      (rw (read_lines-field _ (codes "username") a.username _ IsKey-username c.username) (
        rw
          (read_lines-field _ (codes "friend_code") a.friend_code _ IsKey-friend_code c.friend_code)
          (rw (read_lines-field _ (codes "token") a.token _ IsKey-token c.token) (
            rw (read_lines-last _ (codes "bearer") a.bearer IsKey-bearer c.bearer)
              (rw (stoull-to_string a.pid c.pid))))))
