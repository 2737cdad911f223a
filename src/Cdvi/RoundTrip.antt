-- ===== src/Cdvi/RoundTrip.antt =====
-- About the bodies that `_encrypt_payload` makes and `decrypt_payload` reads
-- (src/agsync/lib/pacs/cdvi/client.py).
use Prim.Native.Nat.{bit_xor}
use integration_hub.Prelude.{
  ℕ, zero, suc, ◌+◌, ◌%◌, ◌≤◌, ◌<◌, ◌≡◌, refl, ◌∙◌, false, none, some, List, [], ◌∷◌, ◌++◌, nat_eqb,
  length, is_nil, All, arith,
}
use integration_hub.Cdvi.Xor.{bit_xor_twice, bit_xor_byte}
use integration_hub.Cdvi.Hex.{
  get_or, set, hex_byte, hex_word, int16, int16-hex_byte, int16-hex_word, hex_digit-ne-ampersand,
}
use integration_hub.Cdvi.Cipher.{
  codes, latin_1, range_from, swap, schedule, rc4_keystream_setup, Stream, advance, key_byte,
  encrypt_bytes, decrypt_bytes, start, rc4_encrypt, rc4_decrypt, sum, post_chk_calc, after_prefix,
  partition, encrypt_payload, checked, split_checksum, decrypt_payload,
}

abbrev IsBytes : List ℕ → Type 0
IsBytes bs = All (λ (b : ℕ). b < 256) bs

abbrev pub IsAscii : List ℕ → Type 0
IsAscii cs = All (λ (c : ℕ). c < 128) cs

IsAscii-IsBytes : (cs : List ℕ) → IsAscii cs → IsBytes cs
IsAscii-IsBytes [] h = tt
IsAscii-IsBytes (c ∷ cs) h = (omega arith, IsAscii-IsBytes cs h.1)

-- The box holds bytes, whatever is swapped.
get_or_byte : (s : List ℕ) (i : ℕ) → IsBytes s → get_or 0 s i < 256
get_or_byte [] i h = omega arith
get_or_byte (x ∷ xs) zero h = h.0
get_or_byte (x ∷ xs) (suc i) h = get_or_byte xs i h.1

set-IsBytes : (s : List ℕ) (i v : ℕ) → IsBytes s → v < 256 → IsBytes (set s i v)
set-IsBytes [] i v h p = tt
set-IsBytes (x ∷ xs) zero v h p = (p, h.1)
set-IsBytes (x ∷ xs) (suc i) v h p = (h.0, set-IsBytes xs i v h.1 p)

swap-IsBytes : (s : List ℕ) (i j : ℕ) → IsBytes s → IsBytes (swap s i j)
unfolding swap
swap-IsBytes s i j h =
    set-IsBytes (set s i (get_or 0 s j)) j (get_or 0 s i)
      (set-IsBytes s i (get_or 0 s j) h (get_or_byte s j h)) (get_or_byte s i h)

schedule-IsBytes :
    (key : List ℕ) (rounds i j : ℕ) (s : List ℕ) → IsBytes s → IsBytes (schedule key rounds i j s)
unfolding schedule
schedule-IsBytes key zero i j s h = h
schedule-IsBytes key (suc rounds) i j s h =
    let j' : ℕ = (j + get_or 0 s i + get_or 0 key (i % length key)) % 256 in
    schedule-IsBytes key rounds (suc i) j' (swap s i j') (swap-IsBytes s i j' h)

range_from-IsBytes : (n count : ℕ) → n + count ≤ 256 → IsBytes (range_from n count)
unfolding range_from
range_from-IsBytes n zero h = tt
range_from-IsBytes n (suc count) h = (omega arith, range_from-IsBytes (suc n) count (omega arith))

latin_1-IsBytes : (cs : List ℕ) → IsBytes cs → latin_1 cs ≡ some cs
unfolding latin_1
latin_1-IsBytes [] h = refl
latin_1-IsBytes (c ∷ cs) h = ground (arith, latin_1-IsBytes cs h.1)

-- With a key there is a box of bytes.
rc4_keystream_setup-IsBytes :
    (key : List ℕ)
    → IsBytes key
    → is_nil key ≡ false
    → (s : List ℕ) × (rc4_keystream_setup key ≡ some s) × IsBytes s
unfolding rc4_keystream_setup
rc4_keystream_setup-IsBytes key h p = (
  schedule key 256 0 0 (range_from 0 256),
  ground (arith, latin_1-IsBytes key h),
  schedule-IsBytes key 256 0 0 (range_from 0 256) (range_from-IsBytes 0 256 (omega arith)),
)

advance-IsBytes : (st : Stream) → IsBytes st.box → IsBytes ((advance st).box)
unfolding advance
advance-IsBytes st h = swap-IsBytes st.box _ _ h

key_byte_bound : (st : Stream) → IsBytes st.box → key_byte st < 256
unfolding key_byte
key_byte_bound st h = get_or_byte st.box _ h

-- Two digits of a byte, read back.
decrypt_bytes-hex_byte :
    (st : Stream) (n : ℕ) (cs : List ℕ)
    → n < 256
    → decrypt_bytes st (hex_byte n ++ cs) ≡ (elim (decrypt_bytes (advance st) cs) [
      | none ↦ none
      | some rest ↦ some (bit_xor n (key_byte (advance st)) ∷ rest)
    ])
unfolding decrypt_bytes hex_byte
decrypt_bytes-hex_byte st n cs h = ground (arith, int16-hex_byte n h)

encrypt_bytes-cons :
    (st : Stream) (b : ℕ) (bs : List ℕ)
    → encrypt_bytes st (b ∷ bs)
      ≡ hex_byte (bit_xor b (key_byte (advance st))) ++ encrypt_bytes (advance st) bs
unfolding encrypt_bytes
encrypt_bytes-cons st b bs = refl

decrypt_bytes-encrypt_bytes_nil : (st : Stream) → decrypt_bytes st (encrypt_bytes st []) ≡ some []
unfolding encrypt_bytes decrypt_bytes
decrypt_bytes-encrypt_bytes_nil st = refl

decrypt_bytes-encrypt_bytes :
    (st : Stream) (bs : List ℕ)
    → IsBytes st.box
    → IsBytes bs
    → decrypt_bytes st (encrypt_bytes st bs) ≡ some bs
decrypt_bytes-encrypt_bytes st [] h p = decrypt_bytes-encrypt_bytes_nil st
decrypt_bytes-encrypt_bytes st (b ∷ bs) h p =
    let k : ℕ = key_byte (advance st) in
    let bounded = bit_xor_byte b k p.0 (key_byte_bound (advance st) (advance-IsBytes st h)) in
    let later = decrypt_bytes-encrypt_bytes (advance st) bs (advance-IsBytes st h) p.1 in
    rw
      (
        encrypt_bytes-cons st b bs,
        decrypt_bytes-hex_byte st (bit_xor b k) (encrypt_bytes (advance st) bs) bounded,
        later,
        bit_xor_twice b k,
      )
      refl

-- A body is taken apart where it was put together.
after_prefix-append : (p s : List ℕ) → after_prefix p (p ++ s) ≡ some s
unfolding after_prefix
after_prefix-append [] s = refl
after_prefix-append (c ∷ p) s = ground (arith, after_prefix-append p s)

partition-append : (c : ℕ) (sep s : List ℕ) → partition (c ∷ sep) ((c ∷ sep) ++ s) ≡ some ([], s)
unfolding partition
partition-append c sep s = cc (after_prefix-append (c ∷ sep) s)

partition_skip :
    (c d : ℕ) (sep s before rest : List ℕ)
    → nat_eqb c d ≡ false
    → partition (c ∷ sep) s ≡ some (before, rest)
    → partition (c ∷ sep) (d ∷ s) ≡ some (d ∷ before, rest)
unfolding partition after_prefix
partition_skip c d sep s before rest differs h = ground arith

partition-encrypt_bytes :
    (st : Stream) (bs sep rest : List ℕ)
    → partition (38 ∷ sep) (encrypt_bytes st bs ++ ((38 ∷ sep) ++ rest))
      ≡ some (encrypt_bytes st bs, rest)
unfolding encrypt_bytes hex_byte
partition-encrypt_bytes st [] sep rest = partition-append 38 sep rest
partition-encrypt_bytes st (b ∷ bs) sep rest =
    partition_skip 38 _ sep _ _ rest (hex_digit-ne-ampersand _) (
      partition_skip 38 _ sep _ _ rest (hex_digit-ne-ampersand _)
        (partition-encrypt_bytes (advance st) bs sep rest))

post_chk_calc-IsBytes :
    (text : List ℕ) → IsBytes text → post_chk_calc text ≡ some (hex_word (sum text % 65536))
unfolding post_chk_calc
post_chk_calc-IsBytes text h = cc (latin_1-IsBytes text h)

checked_steps :
    (given text chk : List ℕ) (n : ℕ)
    → post_chk_calc text ≡ some chk
    → int16 chk ≡ some n
    → int16 given ≡ some n
    → n < 65536
    → checked given text ≡ some (some text)
unfolding checked
checked_steps given text chk n calc computed received small = ground arith

checked-post_chk :
    (text : List ℕ) → IsBytes text → checked (hex_word (sum text % 65536)) text ≡ some (some text)
checked-post_chk text h =
    let read = int16-hex_word (sum text % 65536) (omega arith) in
    checked_steps _ text _ (sum text % 65536) (post_chk_calc-IsBytes text h) read read (omega arith)

is_nil-hex_word : (n : ℕ) → is_nil (hex_word n) ≡ false
unfolding hex_word
is_nil-hex_word n = refl

-- The checksum is a text, and an encrypted body splits at it.
split_checksum-encrypt_bytes :
    (st : Stream) (bs chk : List ℕ)
    → split_checksum (encrypt_bytes st bs ++ (codes "&post_chk=" ++ chk))
      ≡ (encrypt_bytes st bs, chk)
unfolding split_checksum
split_checksum-encrypt_bytes st bs chk = cc (partition-encrypt_bytes st bs (codes "post_chk=") chk)

encrypt_payload-parts :
    (session s payload : List ℕ)
    → IsBytes payload
    → is_nil session ≡ false
    → rc4_keystream_setup session ≡ some s
    → encrypt_payload session payload
      ≡ some (
          some (
            codes "post_enc="
            ++ (encrypt_bytes (start s) payload
                ++ (codes "&post_chk=" ++ hex_word (sum payload % 65536)))))
unfolding encrypt_payload rc4_encrypt
encrypt_payload-parts session s payload h nonempty keyed =
    rw (nonempty, keyed, latin_1-IsBytes payload h, post_chk_calc-IsBytes payload h) refl

module _ (decode : List ℕ → List ℕ) (ascii : (bs : List ℕ) → IsAscii bs → decode bs ≡ bs) where
  -- What RC4 encrypts of a text of ASCII characters, under a key that is not empty, it decrypts.
  rc4_decrypt-encrypt :
      (key s text : List ℕ)
      → IsAscii text
      → IsBytes s
      → rc4_keystream_setup key ≡ some s
      → rc4_decrypt decode key (encrypt_bytes (start s) text) ≡ some text
  unfolding rc4_decrypt
  rc4_decrypt-encrypt key s text h b e =
      cc (e, decrypt_bytes-encrypt_bytes (start s) text b (IsAscii-IsBytes text h), ascii text h)

  decrypt_payload_steps :
      (session body enc cipher chk text : List ℕ)
      → partition (codes "post_enc=") body ≡ some ([], enc)
      → is_nil session ≡ false
      → split_checksum enc ≡ (cipher, chk)
      → is_nil chk ≡ false
      → rc4_decrypt decode session cipher ≡ some text
      → decrypt_payload decode session body ≡ checked chk text
  unfolding decrypt_payload
  decrypt_payload_steps session body enc cipher chk text found nonempty split given deciphered =
      ground arith

  decrypt_payload-parts :
      (session s payload : List ℕ)
      → IsAscii payload
      → is_nil session ≡ false
      → IsBytes s
      → rc4_keystream_setup session ≡ some s
      → decrypt_payload decode session (
          codes "post_enc="
          ++ (encrypt_bytes (start s) payload
              ++ (codes "&post_chk=" ++ hex_word (sum payload % 65536))))
        ≡ some (some payload)
  decrypt_payload-parts session s payload h nonempty bytes keyed =
      decrypt_payload_steps session _ _ _ _ payload (partition-append 112 (codes "ost_enc=") _)
        nonempty (split_checksum-encrypt_bytes (start s) payload (hex_word (sum payload % 65536)))
        (is_nil-hex_word (sum payload % 65536))
        (rc4_decrypt-encrypt session s payload h bytes keyed)
      ∙ checked-post_chk payload (IsAscii-IsBytes payload h)

  -- A payload of ASCII characters, encrypted under a session id that is not empty and holds no
  -- character above 255, makes a body without an error, and the same session decrypts that body to
  -- the payload, its checksum accepted.
  pub decrypt_payload-encrypt_payload :
      (session payload : List ℕ)
      → All (λ (c : ℕ). c < 256) session
      → is_nil session ≡ false
      → IsAscii payload
      → (body : List ℕ) × (encrypt_payload session payload ≡ some (some body))
        × (decrypt_payload decode session body ≡ some (some payload))
  decrypt_payload-encrypt_payload session payload k nonempty h =
      let keyed = rc4_keystream_setup-IsBytes session k nonempty in
      let s : List ℕ = keyed.0 in
      let b = IsAscii-IsBytes payload h in
      (
        _,
        encrypt_payload-parts session s payload b nonempty keyed.1,
        decrypt_payload-parts session s payload h nonempty keyed.2 keyed.1,
      )
