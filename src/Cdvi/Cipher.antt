-- ===== src/Cdvi/Cipher.antt =====
-- RC4, the checksum and the body they make: `rc4_encrypt`, `rc4_decrypt`, `post_chk_calc`,
-- `_encrypt_payload` and `decrypt_payload` of src/agsync/lib/pacs/cdvi/client.py. A text is the list
-- of its characters' codes, and `none` where the source may raise is a ValueError.
use Prim.Native.Nat.{bit_xor}
use integration_hub.Prelude.{
  ℕ, zero, suc, ◌+◌, ◌%◌, Option, none, some, List, [], ◌∷◌, ◌++◌, if◌then◌else◌, ltb, nat_eqb,
  length, is_nil, String,
}
use Prim.Native.Char.{code}
use integration_hub.Cdvi.Hex.{get_or, set, hex_byte, hex_word, int16}

abbrev pub codes : String → List ℕ
codes String.[] = []
codes (String.◌∷◌ c s) = code c ∷ codes s

-- `s.encode("latin-1")`: a character above 255 raises.
unfoldable pub latin_1 : List ℕ → Option (List ℕ)
latin_1 [] = some []
latin_1 (c ∷ cs) = elim (latin_1 cs) [
  | none ↦ none
  | some bs ↦ if ltb c 256 then some (c ∷ bs) else none
]

-- `list(range(n, n + count))`
unfoldable pub range_from : ℕ → ℕ → List ℕ
range_from n zero = []
range_from n (suc count) = n ∷ range_from (suc n) count

-- `s[i], s[j] = s[j], s[i]`
unfoldable pub swap : List ℕ → ℕ → ℕ → List ℕ
swap s i j = set (set s i (get_or 0 s j)) j (get_or 0 s i)

-- The rounds from `i` on, with `j` and the box so far.
unfoldable pub schedule : List ℕ → ℕ → ℕ → ℕ → List ℕ → List ℕ
unfolding swap
schedule key zero i j s = s
schedule key (suc rounds) i j s =
    let j' : ℕ = (j + get_or 0 s i + get_or 0 key (i % length key)) % 256 in
    schedule key rounds (suc i) j' (swap s i j')

-- `_rc4_keystream_setup`: an empty key divides by zero.
unfoldable pub rc4_keystream_setup : List ℕ → Option (List ℕ)
unfolding latin_1 schedule range_from
rc4_keystream_setup key = elim (latin_1 key) [
  | none ↦ none
  | some bytes ↦ if is_nil bytes then none else some (schedule bytes 256 0 0 (range_from 0 256))
]

-- The box with its two counters.
pub record Stream : Type 0 where
  pub box : List ℕ
  pub i : ℕ
  pub j : ℕ

-- The counters and the box at the next byte, the same in both directions.
unfoldable pub advance : Stream → Stream
unfolding swap
advance st =
    let i' : ℕ = (st.i + 1) % 256 in
    let j' : ℕ = (st.j + get_or 0 st.box i') % 256 in
    record { box = swap st.box i' j'; i = i'; j = j' }

-- `s[(s[i] + s[j]) % 256]`
unfoldable pub key_byte : Stream → ℕ
key_byte st = get_or 0 st.box ((get_or 0 st.box st.i + get_or 0 st.box st.j) % 256)

unfoldable pub encrypt_bytes : Stream → List ℕ → List ℕ
unfolding advance key_byte hex_byte
encrypt_bytes st [] = []
encrypt_bytes st (b ∷ bs) =
    hex_byte (bit_xor b (key_byte (advance st))) ++ encrypt_bytes (advance st) bs

-- Two characters at a time; a last one alone is not read.
unfoldable pub decrypt_bytes : Stream → List ℕ → Option (List ℕ)
unfolding advance key_byte int16
decrypt_bytes st [] = some []
decrypt_bytes st (c ∷ []) = some []
decrypt_bytes st (c ∷ d ∷ cs) = elim (int16 (c ∷ d ∷ [])) [
  | none ↦ none
  | some byte ↦ elim (decrypt_bytes (advance st) cs) [
    | none ↦ none
    | some rest ↦ some (bit_xor byte (key_byte (advance st)) ∷ rest)
  ]
]

abbrev pub start : List ℕ → Stream
start s = record { box = s; i = 0; j = 0 }

unfoldable pub rc4_encrypt : List ℕ → List ℕ → Option (List ℕ)
rc4_encrypt key text = elim (rc4_keystream_setup key) [
  | none ↦ none
  | some s ↦ elim (latin_1 text) [ none ↦ none | some bytes ↦ some (encrypt_bytes (start s) bytes) ]
]

unfoldable pub sum : List ℕ → ℕ
sum [] = 0
sum (x ∷ xs) = x + sum xs

-- `post_chk_calc`
unfoldable pub post_chk_calc : List ℕ → Option (List ℕ)
post_chk_calc text = elim (latin_1 text) [
  | none ↦ none
  | some bytes ↦ some (hex_word (sum bytes % 65536))
]

-- The rest of `s` after a prefix.
unfoldable pub after_prefix : List ℕ → List ℕ → Option (List ℕ)
after_prefix [] s = some s
after_prefix (p ∷ ps) [] = none
after_prefix (p ∷ ps) (c ∷ s) = let rest = after_prefix ps s in if nat_eqb p c then rest else none

-- `s.partition(sep)`: what stands before the first `sep` and after it, or `none` without one.
unfoldable pub partition : List ℕ → List ℕ → Option (List ℕ × List ℕ)
unfolding after_prefix
partition sep [] = elim (after_prefix sep []) [ none ↦ none | some rest ↦ some ([], rest) ]
partition sep (c ∷ s) =
    let later = partition sep s in
    elim (after_prefix sep (c ∷ s)) [
      | some rest ↦ some ([], rest)
      | none ↦ elim later [ none ↦ none | some (before, rest) ↦ some (c ∷ before, rest) ]
    ]

-- `_encrypt_payload`: `some none` without a session.
unfoldable pub encrypt_payload : List ℕ → List ℕ → Option (Option (List ℕ))
encrypt_payload session payload =
    if is_nil session then some none else elim (rc4_encrypt session payload) [
      | none ↦ none
      | some enc ↦ elim (post_chk_calc payload) [
        | none ↦ none
        | some chk ↦ some (some (codes "post_enc=" ++ (enc ++ (codes "&post_chk=" ++ chk))))
      ]
    ]

-- The decrypted text, if the checksum that came with it is its own.
unfoldable pub checked : List ℕ → List ℕ → Option (Option (List ℕ))
checked chk_post decrypted = elim (post_chk_calc decrypted) [
  | none ↦ none
  | some chk ↦ elim (int16 chk) [
    | none ↦ none
    | some chk_calc ↦ elim (int16 chk_post) [
      | none ↦ some none
      | some given ↦ if nat_eqb given (chk_calc % 65536) then some (some decrypted) else some none
    ]
  ]
]

-- `enc.partition("&post_chk=")`
unfoldable pub split_checksum : List ℕ → List ℕ × List ℕ
unfolding partition
split_checksum enc = elim (partition (codes "&post_chk=") enc) [
  | none ↦ (enc, [])
  | some parts ↦ parts
]

-- `bytes.decode("utf-8", errors="replace")` is Python's, a parameter.
module _ (decode : List ℕ → List ℕ) where
  unfoldable pub rc4_decrypt : List ℕ → List ℕ → Option (List ℕ)
  rc4_decrypt key encrypted = elim (rc4_keystream_setup key) [
    | none ↦ none
    | some s ↦ elim (decrypt_bytes (start s) encrypted) [
      | none ↦ none
      | some out ↦ some (decode out)
    ]
  ]

  -- `decrypt_payload`
  unfoldable pub decrypt_payload : List ℕ → List ℕ → Option (Option (List ℕ))
  decrypt_payload session body = elim (partition (codes "post_enc=") body) [
    | none ↦ some (some body)
    | some (_, enc) ↦
        if is_nil session
        then some none
        else if is_nil ((split_checksum enc).1)
        then some none
        else elim (rc4_decrypt session ((split_checksum enc).0)) [
          | none ↦ none
          | some decrypted ↦ checked ((split_checksum enc).1) decrypted
        ]
  ]
