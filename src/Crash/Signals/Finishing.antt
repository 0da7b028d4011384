-- ===== src/Crash/Signals/Finishing.antt =====
-- The meta that a signal handler finishes by hand is the one that ordinary code builds.
use openpak_client.Shared.{
  ℕ, ◌+◌, ◌-◌, ◌^◌, ◌≤◌, ◌<◌, ◌≡◌, refl, sym, ap, ◌∙◌, inl, inr, true, Option, List, [], ◌∷◌, ◌++◌,
  arith, append_assoc, ◌==◌, if◌then◌else◌, Bool-cases, length, length-append, take, take_all,
  take-append_length, All, Bytes, codes,
}
use openpak_client.Network.Json.{Json}
use openpak_client.Crash.{
  State, Options, Value, word, words, field_map, meta_members, build_meta, install, set_title_id,
}
use openpak_client.Crash.Texts.{append_hex, format_number, append, copy_into}
use openpak_client.Crash.Texts.Numbers.{
  has_no_nul, append-fits, copy_into-fits, format_number-append_hex,
}
use openpak_client.Crash.Signals.Plain.{
  concat, is_plain, append_all-fits, plain-no_nul, address-plain, append_hex-plain,
  signal_name-plain,
}
use openpak_client.Crash.Signals.{Signal, signal_name, append_all, meta_texts, signal_meta}

-- A compact document, for the texts of its strings.
module _ (quote : Bytes → Bytes) where
  abbrev pub print_pair : Bytes × Bytes → Bytes
  print_pair (key, t) = quote key ++ b':' ∷ quote t

  abbrev pub print_pairs : List (Bytes × Bytes) → Bytes
  print_pairs [] = []
  print_pairs (p ∷ []) = print_pair p
  print_pairs (p ∷ (q ∷ ps)) = print_pair p ++ b',' ∷ print_pairs (q ∷ ps)

  abbrev pub print_value : Value → Bytes
  print_value (word t) = quote t
  print_value (words ps) = b'{' ∷ (print_pairs ps ++ b'}' ∷ [])

  abbrev pub print_members : List (Bytes × Value) → Bytes
  print_members [] = []
  print_members ((key, v) ∷ []) = quote key ++ b':' ∷ print_value v
  print_members ((key, v) ∷ (m ∷ ms)) =
      (quote key ++ b':' ∷ print_value v) ++ b',' ∷ print_members (m ∷ ms)

  abbrev pub print_object : List (Bytes × Value) → Bytes
  print_object ms = b'{' ∷ (print_members ms ++ b'}' ∷ [])

-- A plain string is quoted as it is.
abbrev pub Quotes : (Bytes → Bytes) → Type 0
Quotes quote = (t : Bytes) → is_plain t ≡ true → quote t ≡ b'"' ∷ (t ++ b'"' ∷ [])

-- The fields of a signal's report, in the handler's order.
abbrev pub signal_fields : ℕ → List (Bytes × Bytes)
signal_fields address =
    (codes "kind", codes "signal")
    ∷ (codes "address", codes "0x" ++ format_number address 16 0)
    ∷ []

-- The members that every document has.
abbrev first_members : Bytes → Bytes → Bytes → List (Bytes × Value)
first_members source version os =
    (codes "source", word source) ∷ (codes "version", word version) ∷ (codes "os", word os) ∷ []

-- The fields as the map has them.
abbrev pub map_fields : ℕ → List (Bytes × Bytes)
map_fields address =
    (codes "address", codes "0x" ++ format_number address 16 0)
    ∷ (codes "kind", codes "signal")
    ∷ []

-- The members of a signal's report.
abbrev pub report_members :
    Bytes → Bytes → Bytes → ℕ → Signal → List (Bytes × Bytes) → List (Bytes × Value)
report_members source version os title signal fields =
    first_members source version os
    ++ ((if title == 0 then [] else (codes "title_id", word (append_hex title 16)) ∷ [])
        ++ ((codes "error_code", word (signal_name signal))
            ∷ (codes "message", word (codes "Fatal signal " ++ signal_name signal))
            ∷ (codes "fields", words fields)
            ∷ []))

print_members-append :
    (quote : Bytes → Bytes) (m n : Bytes × Value) (ms ns : List (Bytes × Value))
    → print_members quote ((m ∷ ms) ++ (n ∷ ns))
      ≡ print_members quote (m ∷ ms) ++ b',' ∷ print_members quote (n ∷ ns)
print_members-append quote (key, v) n [] ns = refl
print_members-append quote (key, v) n (m ∷ ms) ns =
    ap (λ t. (quote key ++ b':' ∷ print_value quote v) ++ b',' ∷ t)
      (print_members-append quote m n ms ns)
    ∙ sym (
        append_assoc (quote key ++ b':' ∷ print_value quote v) (b',' ∷ print_members quote (m ∷ ms))
          (b',' ∷ print_members quote (n ∷ ns)))

-- More members behind those of a document that is not closed yet.
object-more :
    (quote : Bytes → Bytes) (m n : Bytes × Value) (ms ns : List (Bytes × Value))
    → (b'{' ∷ print_members quote (m ∷ ms)) ++ (b',' ∷ (print_members quote (n ∷ ns) ++ b'}' ∷ []))
      ≡ print_object quote ((m ∷ ms) ++ (n ∷ ns))
object-more quote m n ms ns =
    ap (λ t. b'{' ∷ t)
      (sym (
        append_assoc (print_members quote (m ∷ ms)) (b',' ∷ print_members quote (n ∷ ns))
          (b'}' ∷ [])))
    ∙ ap (λ t. b'{' ∷ (t ++ b'}' ∷ [])) (sym (print_members-append quote m n ms ns))

-- What `pop_back` leaves.
popped : (t : Bytes) (c : ℕ) → take (length (t ++ c ∷ []) - 1) (t ++ c ∷ []) ≡ t
popped t c = take-append_length t (c ∷ []) _ (omega (arith, length-append t (c ∷ [])))

module _ (quote : Bytes → Bytes) (q : Quotes quote) (signal : Signal) (address : ℕ) where
  rest_members : List (Bytes × Value)
  rest_members =
      (codes "error_code", word (signal_name signal))
      ∷ (codes "message", word (codes "Fatal signal " ++ signal_name signal))
      ∷ (codes "fields", words (signal_fields address))
      ∷ []

  rest_texts : List Bytes
  rest_texts =
      codes ",\"error_code\":\""
      ∷ signal_name signal
      ∷ codes "\",\"message\":\"Fatal signal "
      ∷ signal_name signal
      ∷ codes "\",\"fields\":{\"kind\":\"signal\",\"address\":\""
      ∷ (codes "0x" ++ format_number address 16 0)
      ∷ codes "\"}}"
      ∷ []

  rest-concat : b',' ∷ (print_members quote rest_members ++ b'}' ∷ []) ≡ concat rest_texts
  unfolding rest_members rest_texts
  rest-concat =
      let name = signal_name signal in
      let (np, nl, nn) = signal_name-plain signal in
      let (ap1, al) = address-plain address in
      let fault = codes "0x" ++ format_number address 16 0 in
      let h1 : quote name ≡ b'"' ∷ (name ++ b'"' ∷ []) = q name np in
      let h2 : quote (codes "Fatal signal " ++ name)
          ≡ b'"' ∷ ((codes "Fatal signal " ++ name) ++ b'"' ∷ []) =
        q (codes "Fatal signal " ++ name) np in
      let h3 : quote fault ≡ b'"' ∷ (fault ++ b'"' ∷ []) = q fault ap1 in
      rw
        (
          h1,
          h2,
          h3,
          q (codes "error_code") refl,
          q (codes "message") refl,
          q (codes "fields") refl,
          q (codes "kind") refl,
          q (codes "address") refl,
          q (codes "signal") refl,
        )
        (simp (append_assoc))

  rest-fits : All (λ t. has_no_nul t ≡ true) rest_texts × (length (concat rest_texts) ≤ 200)
  unfolding rest_texts
  rest-fits =
      let name = signal_name signal in
      let (np, nl, nn) = signal_name-plain signal in
      let (fp, fl) = address-plain address in
      let nz = plain-no_nul name np in
      let fz = plain-no_nul (format_number address 16 0) fp in
      let l1 = length-append name (
        codes "\",\"message\":\"Fatal signal "
        ++ (name
            ++ (codes "\",\"fields\":{\"kind\":\"signal\",\"address\":\""
                ++ ((codes "0x" ++ format_number address 16 0) ++ (codes "\"}}" ++ []))))) in
      let l2 = length-append name (
        codes "\",\"fields\":{\"kind\":\"signal\",\"address\":\""
        ++ ((codes "0x" ++ format_number address 16 0) ++ (codes "\"}}" ++ []))) in
      let l3 = length-append (format_number address 16 0) (codes "\"}}" ++ []) in
      ((refl, (nz, (refl, (nz, (refl, (fz, (refl, tt))))))), omega (arith, l1, l2, l3, nl, fl))

  title_members : ℕ → List (Bytes × Value)
  title_members title =
      if title == 0 then [] else (codes "title_id", word (append_hex title 16)) ∷ []

  meta_members-finished :
      (source version os : Bytes) (title : ℕ)
      → meta_members source version os title
          (signal_name signal)
          (codes "Fatal signal " ++ signal_name signal)
          (signal_fields address)
        ≡ report_members source version os title signal (map_fields address)
  unfolding meta_members field_map
  meta_members-finished source version os title =
      let name = signal_name signal in
      let (np, nl, nn) = signal_name-plain signal in
      let whole : take 2000 (codes "Fatal signal " ++ name) ≡ codes "Fatal signal " ++ name =
        take_all 2000 (codes "Fatal signal " ++ name) (omega (arith, nl)) in
      rw (nn, whole) refl

  -- The texts behind the prefix close the document of the prefix.
  texts-concat :
      (m : Bytes × Value) (ms : List (Bytes × Value)) (title : ℕ)
      → title < 2 ^ 64
      → (b'{' ∷ print_members quote (m ∷ ms)) ++ concat (meta_texts signal address title)
        ≡ print_object quote ((m ∷ ms) ++ (title_members title ++ rest_members))
  unfolding title_members rest_members rest_texts
  texts-concat m ms title small = elim (Bool-cases (title == 0)) [
    | inl e ↦ rw e (
        ap (λ t. (b'{' ∷ print_members quote (m ∷ ms)) ++ t) (sym rest-concat)
        ∙ object-more quote m _ ms _)
    | inr e ↦
        let (hp, hl) = append_hex-plain title 16 in
        let h1 : quote (append_hex title 16) ≡ b'"' ∷ (append_hex title 16 ++ b'"' ∷ []) =
          q (append_hex title 16) hp in
        let here : b','
              ∷ (print_members quote ((codes "title_id", word (append_hex title 16)) ∷ rest_members)
                  ++ b'}' ∷ [])
            ≡ codes ",\"title_id\":\""
              ++ (append_hex title 16 ++ (codes "\"" ++ concat rest_texts)) =
          rw (sym rest-concat, h1, q (codes "title_id") refl) (simp (append_assoc)) in
        rw (e, format_number-append_hex title small)
          (ap (λ t. (b'{' ∷ print_members quote (m ∷ ms)) ++ t) (sym here)
            ∙ object-more quote m _ ms _)
  ]

no_nul-front : (t : Bytes) (c : ℕ) → has_no_nul (t ++ c ∷ []) ≡ true → has_no_nul t ≡ true
no_nul-front [] c h = refl
no_nul-front (d ∷ t) c h = ground (arith, h, no_nul-front t c)

texts-fit :
    (signal : Signal) (address title : ℕ)
    → title < 2 ^ 64
    → All (λ t. has_no_nul t ≡ true) (meta_texts signal address title)
      × (length (concat (meta_texts signal address title)) ≤ 300)
unfolding rest_texts
texts-fit signal address title small =
    let (plain, le) = rest-fits (λ t. b'"' ∷ (t ++ b'"' ∷ [])) (λ t h. refl) signal address in
    elim (Bool-cases (title == 0)) [
      | inl e ↦ rw e (plain, omega (arith, le))
      | inr e ↦
          let (hp, hl) = append_hex-plain title 16 in
          rw (e, format_number-append_hex title small)
            (
              (refl, (plain-no_nul (append_hex title 16) hp, (refl, plain))),
              omega (
                arith,
                le,
                hl,
                length-append (append_hex title 16) (
                    codes "\""
                    ++ concat
                        (rest_texts (λ t. b'"' ∷ (t ++ b'"' ∷ [])) (λ t h. refl) signal address)),
              ),
            )
    ]

module _ (parse_json : Bytes → Option Json) (dump : List (Bytes × Value) → Bytes)
    (quote : Bytes → Bytes) where
  -- Where the library prints compact documents and quotes plain text as it is, the title has 64 bits, and
  -- the prefix prepared at the installation fits its buffer and holds no NUL: the meta that the signal handler
  -- finishes by hand and the one that `BuildMeta` builds of the same report, whatever the signal, the address
  -- and the title, are the documents of the same members in the same order, but that the two fields of the
  -- error stand in the handler's order in the one and in the order of their names in the other.
  pub signal_meta-build_meta :
      Quotes quote
      → ((ms : List (Bytes × Value)) → dump ms ≡ print_object quote ms)
      → (options : Options) (os : Bytes) (s : State) (signal : Signal) (address title : ℕ)
      → title < 2 ^ 64
      → has_no_nul (build_meta parse_json dump options.source options.version os 0 [] [] []) ≡ true
      → length (build_meta parse_json dump options.source options.version os 0 [] [] []) ≤ 2048
      → (signal_meta signal address (set_title_id title (install parse_json dump options os s))
          ≡ print_object quote (
              report_members options.source options.version os title signal
                (signal_fields address)))
        × (build_meta parse_json dump options.source options.version os title
              (signal_name signal)
              (codes "Fatal signal " ++ signal_name signal)
              (signal_fields address)
            ≡ print_object quote (
                report_members options.source options.version os title signal (map_fields address)))
  unfolding signal_meta install set_title_id build_meta meta_members title_members rest_members
  signal_meta-build_meta q compact options os s signal address title small no_nul short =
      let m3 = first_members options.source options.version os in
      let opened = b'{' ∷ print_members quote m3 in
      let whole : dump m3 ≡ opened ++ b'}' ∷ [] = compact m3 in
      let front : take (length (dump m3) - 1) (dump m3) ≡ opened =
        ap (λ t. take (length t - 1) t) whole ∙ popped opened b'}' in
      let clean : has_no_nul opened ≡ true =
        no_nul-front opened b'}' (sym (ap has_no_nul whole) ∙ no_nul) in
      let size : length opened + 1 ≤ 2048 =
        omega (arith, short, ap length whole, length-append opened (b'}' ∷ [])) in
      let prefix : copy_into 2048 (take (length (dump m3) - 1) (dump m3)) ≡ opened =
        ap (copy_into 2048) front ∙ copy_into-fits 2048 opened clean size in
      let (fine, le) = texts-fit signal address title small in
      (
        ap (λ p. append_all 4096 (append 4096 [] p) (meta_texts signal address title)) prefix
            ∙ (ap (λ b. append_all 4096 b (meta_texts signal address title))
                  (append-fits 4096 [] opened clean (omega (arith, size)))
                ∙ (append_all-fits 4096 opened (meta_texts signal address title) fine
                      (omega (arith, le, size))
                    ∙ texts-concat quote q signal address (codes "source", word options.source)
                        ((codes "version", word options.version) ∷ (codes "os", word os) ∷ []) title
                        small)),
        compact _
            ∙ ap (print_object quote) (
                meta_members-finished quote q signal address options.source options.version os
                  title),
      )
