-- ===== src/Auth/Token/Sample.antt =====
-- An encoding of claims that meets what the code of the session tokens relies on.
use Prim.Native.Nat.{compare, Ordering}
use Prim.Native.Char.{Char, char, code, IsLt}
use silent_devops.Prelude.{
  ℕ, ◌+◌, ◌-◌, String, ◌≡◌, refl, ap, Option, none, some, List, [], ◌∷◌, arith, ◌==◌, if◌then◌else◌,
  length,
}
use silent_devops.Auth.Token.{Bytes, Claims, NoDot, Encoding}

-- Characters from their numbers.
abbrev Both : Ordering → Ordering → Type 0
Both Ordering.lt o = IsLt o
Both Ordering.eq _ = ⊥
Both Ordering.gt _ = ⊥

abbrev Scalar : Ordering → Ordering → Ordering → Type 0
Scalar Ordering.lt _ _ = Unit
Scalar Ordering.eq o p = Both o p
Scalar Ordering.gt o p = Both o p

lt? : (o : Ordering) → Option (IsLt o)
lt? Ordering.lt = some tt
lt? Ordering.eq = none
lt? Ordering.gt = none

Both? : (o p : Ordering) → Option (Both o p)
unfolding lt?
Both? Ordering.lt p = lt? p
Both? Ordering.eq p = none
Both? Ordering.gt p = none

Scalar? : (o p q : Ordering) → Option (Scalar o p q)
unfolding Both?
Scalar? Ordering.lt p q = some tt
Scalar? Ordering.eq p q = Both? p q
Scalar? Ordering.gt p q = Both? p q

lt?-some : (o : Ordering) (h : IsLt o) → lt? o ≡ some h
unfolding lt?
lt?-some Ordering.lt h = refl
lt?-some Ordering.eq h = absurd h
lt?-some Ordering.gt h = absurd h

Both?-some : (o p : Ordering) (h : Both o p) → Both? o p ≡ some h
unfolding Both?
Both?-some Ordering.lt p h = lt?-some p h
Both?-some Ordering.eq p h = absurd h
Both?-some Ordering.gt p h = absurd h

Scalar?-some : (o p q : Ordering) (h : Scalar o p q) → Scalar? o p q ≡ some h
unfolding Scalar?
Scalar?-some Ordering.lt p q h = refl
Scalar?-some Ordering.eq p q h = Both?-some p q h
Scalar?-some Ordering.gt p q h = Both?-some p q h

to_char : ℕ → Option Char
unfolding Scalar?
to_char n = elim (Scalar? (compare n 55296) (compare 57343 n) (compare n 1114112)) [
  | none ↦ none
  | some h ↦ some (char n h)
]

to_char-code : (c : Char) → to_char (code c) ≡ some c
unfolding to_char
to_char-code (char n h) =
    rw (Scalar?-some (compare n 55296) (compare 57343 n) (compare n 1114112) h, to_char) refl

-- A text, each character shifted past the dot, with a zero behind it.
put_text : String → List ℕ → List ℕ
put_text String.[] rest = 0 ∷ rest
put_text (String.◌∷◌ c s) rest = (100 + code c) ∷ put_text s rest

take_text : List ℕ → Option (String × List ℕ)
take_text [] = none
take_text (n ∷ ns) =
    let more = take_text ns in
    if n == 0 then some (String.[], ns) else elim (to_char (n - 100)) [
      | none ↦ none
      | some c ↦ elim more [ none ↦ none | some (s, rest) ↦ some (String.◌∷◌ c s, rest) ]
    ]

take_text-put_text : (s : String) (rest : List ℕ) → take_text (put_text s rest) ≡ some (s, rest)
unfolding take_text put_text
take_text-put_text String.[] rest = refl
take_text-put_text (String.◌∷◌ c s) rest =
    ground (arith, ap to_char (sub_shift (code c)), to_char-code c, take_text-put_text s rest)
  where
    sub_shift : (n : ℕ) → 100 + n - 100 ≡ n
    sub_shift n = omega arith

shift : List ℕ → List ℕ
shift [] = []
shift (n ∷ ns) = (100 + n) ∷ shift ns

unshift : List ℕ → List ℕ
unshift [] = []
unshift (n ∷ ns) = (n - 100) ∷ unshift ns

unshift-shift : (ns : List ℕ) → unshift (shift ns) ≡ ns
unfolding unshift shift
unshift-shift [] = refl
unshift-shift (n ∷ ns) = ground (arith, unshift-shift ns)

pub encode : Claims → Bytes
encode c = put_text c.subject (shift (c.role ∷ c.issued ∷ c.expires ∷ c.nonce))

decode_rest : String → List ℕ → Option Claims
decode_rest s (role ∷ issued ∷ expires ∷ nonce) =
    some (record { subject = s; role = role; issued = issued; expires = expires; nonce = nonce })
decode_rest s _ = none

pub decode : Bytes → Option Claims
decode bytes = elim (take_text bytes) [
  | none ↦ none
  | some (s, rest) ↦ decode_rest s (unshift rest)
]

-- A toy signature, of the length of the key.
pub mac : Bytes → Bytes → Bytes
mac key body = shift (length key ∷ length body ∷ [])

shift-NoDot : (ns : List ℕ) → NoDot (shift ns)
unfolding shift
shift-NoDot [] = tt
shift-NoDot (n ∷ ns) = (ground arith, shift-NoDot ns)

put_text-NoDot : (s : String) (rest : List ℕ) → NoDot rest → NoDot (put_text s rest)
unfolding put_text
put_text-NoDot String.[] rest h = (refl, h)
put_text-NoDot (String.◌∷◌ c s) rest h = (ground arith, put_text-NoDot s rest h)

encode-decode : (c : Claims) → decode (encode c) ≡ some c
unfolding decode encode decode_rest
encode-decode c =
    rw (take_text-put_text c.subject (shift (c.role ∷ c.issued ∷ c.expires ∷ c.nonce)), decode)
      (rw (unshift-shift (c.role ∷ c.issued ∷ c.expires ∷ c.nonce)) refl)

pub toy-Encoding : Encoding encode decode mac
unfolding encode mac
toy-Encoding = record {
  round_trip = encode-decode;
  body_plain = λ c.
      put_text-NoDot c.subject (shift (c.role ∷ c.issued ∷ c.expires ∷ c.nonce))
        (shift-NoDot (c.role ∷ c.issued ∷ c.expires ∷ c.nonce));
  mac_plain = λ key body. shift-NoDot (length key ∷ length body ∷ []);
}
