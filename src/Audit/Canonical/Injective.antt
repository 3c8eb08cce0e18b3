-- ===== src/Audit/Canonical/Injective.antt =====
-- internal/audit/events.go: what the canonical bytes and the hash say about the fields of an event.
use crabwise.Common.{
  ℕ, zero, suc, ◌/◌, ◌%◌, ◌^◌, ◌<◌, ◌≡◌, refl, sym, ◌∙◌, ap, ap₂, ◌≢◌, ◌⊎◌, inl, inr, Bool, true,
  false, List, [], ◌∷◌, ◌++◌, Text, length, length-append, ℤ, IsInt64, to_uint64,
  to_uint64-injective, to_uint64_bound, All, arith, append_assoc, ◌==◌, ==_iff, Bool-cases,
}
use native.Mathlib.Nat.{pow-suc}
use crabwise.Audit.Event.{AuditEvent}
use crabwise.Audit.Canonical.{
  big_endian, append_string, append_int, append_float, append_bool, canonical_bytes, compute_hash,
}
use crabwise.Audit.Canonical.Fields.{
  Field, text, int, float, bool, append_field, encode, hashed_fields, canonical_bytes-encode,
}

uncons : {x y : ℕ} {xs ys : Text} → x ∷ xs ≡ y ∷ ys → (x ≡ y) × (xs ≡ ys)
uncons e = (cc, cc)

append-cancel : (a b x y : Text) → length a ≡ length b → a ++ x ≡ b ++ y → (a ≡ b) × (x ≡ y)
append-cancel [] [] x y l e = (refl, e)
append-cancel [] (d ∷ b) x y l e = absurd (omega arith)
append-cancel (c ∷ a) [] x y l e = absurd (omega arith)
append-cancel (c ∷ a) (d ∷ b) x y l e =
    let (h, t) = uncons e in let (p, q) = append-cancel a b x y (omega arith) t in (ap₂ ◌∷◌ h p, q)

length-big_endian : (n v : ℕ) → length (big_endian n v) ≡ n
unfolding big_endian
length-big_endian zero v = refl
length-big_endian (suc n) v =
    omega (
      arith,
      length-append (big_endian n (v / 256)) ((v % 256) ∷ []),
      length-big_endian n (v / 256),
    )

big_endian-injective :
    (n v w : ℕ) → v < 256 ^ n → w < 256 ^ n → big_endian n v ≡ big_endian n w → v ≡ w
unfolding big_endian
big_endian-injective zero v w h k e = omega arith
big_endian-injective (suc n) v w h k e =
    let (p, q) =
      append-cancel (big_endian n (v / 256)) (big_endian n (w / 256)) _ _
        (length-big_endian n _ ∙ sym (length-big_endian n _)) e in
    let high : v / 256 ≡ w / 256 =
      big_endian-injective n (v / 256) (w / 256) (omega (arith, pow-suc 256 n))
        (omega (arith, pow-suc 256 n)) p in
    omega (arith, high, (uncons q).0)

-- What a field must satisfy for its encoding to be exact.
abbrev pub IsEncodable : Field → Type 0
IsEncodable (text s) = length s < 2 ^ 32
IsEncodable (int v) = IsInt64 v
IsEncodable (float bits) = bits < 2 ^ 64
IsEncodable (bool v) = Unit

abbrev SameKind : Field → Field → Type 0
SameKind (text s) (text t) = Unit
SameKind (int v) (int w) = Unit
SameKind (float v) (float w) = Unit
SameKind (bool v) (bool w) = Unit
SameKind _ _ = ⊥

abbrev SameKinds : List Field → List Field → Type 0
SameKinds [] [] = Unit
SameKinds (f ∷ fs) (g ∷ gs) = SameKind f g × SameKinds fs gs
SameKinds _ _ = ⊥

abbrev Cancels : Field → Field → Type 0
Cancels f g = (x y : Text) → append_field [] f ++ x ≡ append_field [] g ++ y → (f ≡ g) × (x ≡ y)

text-Cancels : (s t : Text) → length s < 2 ^ 32 → length t < 2 ^ 32 → Cancels (text s) (text t)
unfolding append_field append_string
text-Cancels s t h k x y e =
    let (l, r) =
      append-cancel (big_endian 4 (length s % 2 ^ 32)) (big_endian 4 (length t % 2 ^ 32)) (s ++ x)
        (t ++ y) (length-big_endian 4 _ ∙ sym (length-big_endian 4 _))
        (sym (append_assoc _ s x) ∙ e ∙ append_assoc _ t y) in
    let n =
      big_endian-injective 4 (length s % 2 ^ 32) (length t % 2 ^ 32) (omega arith) (omega arith)
        l in
    let (p, q) = append-cancel s t x y (omega arith) r in (ap text p, q)

int-Cancels : (v w : ℤ) → IsInt64 v → IsInt64 w → Cancels (int v) (int w)
unfolding append_field append_int
int-Cancels v w h k x y e =
    let (l, r) =
      append-cancel (big_endian 8 (to_uint64 v)) (big_endian 8 (to_uint64 w)) x y
        (length-big_endian 8 _ ∙ sym (length-big_endian 8 _)) e in
    let n = big_endian-injective 8 _ _ (to_uint64_bound v) (to_uint64_bound w) l in
    (ap int (to_uint64-injective v w h k n), r)

float-Cancels : (v w : ℕ) → v < 2 ^ 64 → w < 2 ^ 64 → Cancels (float v) (float w)
unfolding append_field append_float
float-Cancels v w h k x y e =
    let (l, r) =
      append-cancel (big_endian 8 v) (big_endian 8 w) x y
        (length-big_endian 8 _ ∙ sym (length-big_endian 8 _)) e in
    (ap float (big_endian-injective 8 v w h k l), r)

bool-Cancels : (v w : Bool) → Cancels (bool v) (bool w)
unfolding append_field append_bool
bool-Cancels true true x y e = (refl, (uncons e).1)
bool-Cancels false false x y e = (refl, (uncons e).1)
bool-Cancels true false x y e = absurd (omega (arith, (uncons e).0))
bool-Cancels false true x y e = absurd (omega (arith, (uncons e).0))

field-Cancels : (f g : Field) → SameKind f g → IsEncodable f → IsEncodable g → Cancels f g
field-Cancels (text s) (text t) k h h' = text-Cancels s t h h'
field-Cancels (int v) (int w) k h h' = int-Cancels v w h h'
field-Cancels (float v) (float w) k h h' = float-Cancels v w h h'
field-Cancels (bool v) (bool w) k h h' = bool-Cancels v w
field-Cancels _ _ k h h' = absurd k

encode-injective :
    (fs gs : List Field)
    → SameKinds fs gs
    → All IsEncodable fs
    → All IsEncodable gs
    → (x y : Text) → encode fs ++ x ≡ encode gs ++ y
    → (fs ≡ gs) × (x ≡ y)
unfolding encode
encode-injective [] [] k h h' x y e = (refl, e)
encode-injective (f ∷ fs) (g ∷ gs) k h h' x y e =
    let (p, r) = field-Cancels f g k.0 h.0 h'.0 (encode fs ++ x) (encode gs ++ y) (
      sym (append_assoc (append_field [] f) (encode fs) x)
      ∙ e
      ∙ append_assoc (append_field [] g) (encode gs) y) in
    let (q, s) = encode-injective fs gs k.1 h.1 h'.1 x y r in (ap₂ ◌∷◌ p q, s)
encode-injective _ _ k h h' x y e = absurd k

module _ (format_time : ℕ → Text) where
  -- Strings shorter than 2^32 bytes, int64 and float64 values in range.
  abbrev pub IsEncodableEvent : AuditEvent → Type 0
  IsEncodableEvent e = All IsEncodable (hashed_fields format_time e)

  -- The canonical bytes are self-delimiting: if those of two events with some text after each are
  -- equal, then all hashed fields agree, and so do the texts that follow.
  pub canonical_bytes-injective :
      (a b : AuditEvent) (p q : Text)
      → IsEncodableEvent a
      → IsEncodableEvent b
      → canonical_bytes format_time a ++ p ≡ canonical_bytes format_time b ++ q
      → (hashed_fields format_time a ≡ hashed_fields format_time b) × (p ≡ q)
  canonical_bytes-injective a b p q h k e =
      encode-injective (hashed_fields format_time a) (hashed_fields format_time b) (omega arith) h k
        p q
        (ap (λ (t : Text). t ++ p) (sym (canonical_bytes-encode format_time a))
          ∙ e
          ∙ ap (λ (t : Text). t ++ q) (canonical_bytes-encode format_time b))

-- Two different inputs with one hash.
abbrev pub Collision : (Text → Text) → Type 0
Collision hash = (x y : Text) × (x ≢ y) × (hash x ≡ hash y)

equal_or_Collision : (hash : Text → Text) (x y : Text) → hash x ≡ hash y → (x ≡ y) ⊎ Collision hash
equal_or_Collision hash x y e = elim (Bool-cases (x == y)) [
  | inl same ↦ inl ((==_iff x y).0 same)
  | inr other ↦ inr (x, y, (λ p. cc ((==_iff x y).1 p)), e)
]

module _ (format_time : ℕ → Text) (sha256_hex : Text → Text) where
  -- Two events of equal hash agree in all hashed fields and in the hash before them, or exhibit a
  -- collision of the hash function.
  pub compute_hash-binding :
      (a b : AuditEvent) (p q : Text)
      → IsEncodableEvent format_time a
      → IsEncodableEvent format_time b
      → compute_hash format_time sha256_hex a p ≡ compute_hash format_time sha256_hex b q
      → ((hashed_fields format_time a ≡ hashed_fields format_time b) × (p ≡ q))
        ⊎ Collision sha256_hex
  unfolding compute_hash
  compute_hash-binding a b p q h k e = elim (equal_or_Collision sha256_hex _ _ e) [
    | inl same ↦ inl (canonical_bytes-injective format_time a b p q h k same)
    | inr c ↦ inr c
  ]
