-- ===== src/SshAgent/Wire/RoundTrip.antt =====
-- Reading what was written, and writing what was read.
use agentknock_cli.Prelude.{
  ℕ, ◌/◌, ◌%◌, ◌<◌, ◌^◌, ◌≡◌, refl, ap, sym, [], ◌∷◌, ◌++◌, some, Result, ok, arith, append_assoc,
  length, take, drop, All-drop, All-take, leb, Bool-cases, >>=-eq-ok, ◌>>=◌, inl, inr, true, leb→le,
  take-append-drop, take-append_exact, drop-append_exact, length-take_le, length-append, lt→ltb,
}
use agentknock_cli.SshAgent.Wire.{
  Bytes, IsByte, IsBytes, InvalidData, byte, end, u32, split_at, string, to_be_bytes, put_string,
  from_be_bytes,
}

-- A string as the wire holds it.
abbrev pub encoded : Bytes → Bytes
encoded value = to_be_bytes (length value) ++ value

pub put_string-eq :
    (output value : Bytes)
    → length value < 2 ^ 32
    → put_string output value ≡ some (output ++ encoded value)
unfolding put_string
put_string-eq output value h = rw (lt→ltb _ _ h) (ap some (append_assoc output _ value))

pub u32-to_be_bytes :
    (n : ℕ) (rest : Bytes) → n < 2 ^ 32 → u32 (to_be_bytes n ++ rest) ≡ ok (n, rest)
unfolding u32 to_be_bytes from_be_bytes
u32-to_be_bytes n rest h =
    let same : from_be_bytes (n / 16777216 % 256) (n / 65536 % 256) (n / 256 % 256) (n % 256) ≡ n =
      omega arith in
    ap (λ (m : ℕ). ok (m, rest)) same

pub split_at-append :
    (value rest : Bytes) → split_at (length value) (value ++ rest) ≡ ok (value, rest)
unfolding split_at
split_at-append value rest =
    let fits : leb (length value) (length (value ++ rest)) ≡ true =
      ground (arith, length-append value rest) in
    rw (fits, take-append_exact value rest, drop-append_exact value rest)

-- The cursor reads a string that was written, and leaves what follows it.
pub string-encoded :
    (value rest : Bytes) → length value < 2 ^ 32 → string (encoded value ++ rest) ≡ ok (value, rest)
unfolding string
string-encoded value rest h =
    rw
      (
        append_assoc (to_be_bytes (length value)) value rest,
        u32-to_be_bytes (length value) (value ++ rest) h,
      )
      (split_at-append value rest)

-- Bytes that stand for a number are the ones that the number is written in.
to_be_bytes-from_be_bytes :
    (a b c d : ℕ)
    → a < 256
    → b < 256
    → c < 256
    → d < 256
    → (to_be_bytes (from_be_bytes a b c d) ≡ a ∷ b ∷ c ∷ d ∷ []) × (from_be_bytes a b c d < 2 ^ 32)
unfolding to_be_bytes from_be_bytes
to_be_bytes-from_be_bytes a b c d ha hb hc hd =
    let ea : from_be_bytes a b c d / 16777216 % 256 ≡ a = omega arith in
    let eb : from_be_bytes a b c d / 65536 % 256 ≡ b = omega arith in
    let ec : from_be_bytes a b c d / 256 % 256 ≡ c = omega arith in
    let ed : from_be_bytes a b c d % 256 ≡ d = omega arith in (cc, omega arith)

-- What a read of a number says of the bytes it was read from.
pub u32-eq-ok :
    (input : Bytes) {n : ℕ} {rest : Bytes}
    → IsBytes input
    → u32 input ≡ ok (n, rest)
    → (input ≡ to_be_bytes n ++ rest) × (n < 2 ^ 32) × IsBytes rest
unfolding u32
u32-eq-ok [] b h = cc
u32-eq-ok (_ ∷ []) b h = cc
u32-eq-ok (_ ∷ _ ∷ []) b h = cc
u32-eq-ok (_ ∷ _ ∷ _ ∷ []) b h = cc
u32-eq-ok (w ∷ x ∷ y ∷ z ∷ tail) {n} {rest} (hw, (hx, (hy, (hz, ht)))) h =
    let value : from_be_bytes w x y z ≡ n = ground arith in
    let left : tail ≡ rest = ground arith in
    let (same, small) = to_be_bytes-from_be_bytes w x y z hw hx hy hz in
    (rw (← value, ← left, same), rw value at small, rw left at ht)

split_at-eq-ok :
    (n : ℕ) (input : Bytes) {value rest : Bytes}
    → IsBytes input
    → split_at n input ≡ ok (value, rest)
    → (input ≡ value ++ rest) × (length value ≡ n) × IsBytes value × IsBytes rest
unfolding split_at
split_at-eq-ok n input {value} {rest} b h = elim (Bool-cases (leb n (length input))) [
  | inl fits ↦
      let front : take n input ≡ value = ground arith in
      let back : drop n input ≡ rest = ground arith in
      (
        rw (← front, ← back) (sym (take-append-drop n input)),
        rw (← front) (length-take_le n input (leb→le _ _ fits)),
        rw (← front) (All-take IsByte n input b),
        rw (← back) (All-drop IsByte n input b),
      )
  | inr short ↦ absurd (ground arith)
]

-- A string that was read is the string that stands there: the encoding is canonical.
pub string-eq-ok :
    (input : Bytes) {value rest : Bytes}
    → IsBytes input
    → string input ≡ ok (value, rest)
    → (input ≡ encoded value ++ rest) × (length value < 2 ^ 32) × IsBytes value × IsBytes rest
unfolding string
string-eq-ok input {value} {rest} b h =
    let ((n, after), number, split) = >>=-eq-ok (u32 input) _ h in
    let (e, small, b') = u32-eq-ok input b number in
    let (e', len, bv, b'') = split_at-eq-ok n after b' split in
    (rw (e, e', ← len, append_assoc (to_be_bytes (length value)) value rest), rw len small, bv, b'')

pub end-eq-ok : (input : Bytes) → end input ≡ ok tt → input ≡ []
unfolding end
end-eq-ok [] h = refl
end-eq-ok (_ ∷ _) h = cc

-- Inversion of a read that more reads follow.
pub byte->>=-eq-ok {ℓ} :
    {B : Type ℓ} (input : Bytes) (f : ℕ × Bytes → Result InvalidData B) {r : B}
    → IsBytes input
    → (byte input >>= f) ≡ ok r
    → (b : ℕ) × (rest : Bytes) × (input ≡ b ∷ rest) × IsBytes rest × (f (b, rest) ≡ ok r)
unfolding byte
byte->>=-eq-ok [] f b h = cc
byte->>=-eq-ok (x ∷ rest) f (_, b) h = (x, rest, refl, b, h)

pub string->>=-eq-ok {ℓ} :
    {B : Type ℓ} (input : Bytes) (f : Bytes × Bytes → Result InvalidData B) {r : B}
    → IsBytes input
    → (string input >>= f) ≡ ok r
    → (value : Bytes) × (rest : Bytes) × (input ≡ encoded value ++ rest)
      × (length value < 2 ^ 32)
      × IsBytes value
      × IsBytes rest
      × (f (value, rest) ≡ ok r)
string->>=-eq-ok input f b h =
    let ((value, rest), read, more) = >>=-eq-ok (string input) f h in
    let (e, fits, bv, b') = string-eq-ok input b read in (value, rest, e, fits, bv, b', more)
