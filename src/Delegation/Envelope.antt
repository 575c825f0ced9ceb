-- ===== src/Delegation/Envelope.antt =====
-- The signed envelope of core/delegation: what `OpenSigned` accepts, and the domain separation of
-- `signingMessage`.
use bacchus.Shared.{
  ◌-◌, ◌<◌, ◌++◌, ◌∷◌, [], String, true, ◌≡◌, ◌≢◌, ◌↔◌, refl, arith, Bytes, codes, length, drop,
  All, length-append, length-take, length-drop, take_append, drop_append, take-append-drop, ok,
}
use bacchus.Delegation.{Platform, public_key_size, sig_len, signing_message, open_signed}

-- What a signed body is: a body that is not empty, then a 64-byte signature over the tag and it.
pub record IsSigned (p : Platform) (key : Bytes) (tag : String) (signed body : Bytes) : Type 0 where
  pub sig : Bytes
  pub key_size : length key ≡ public_key_size
  pub body_nonempty : 0 < length body
  pub sig_size : length sig ≡ sig_len
  pub layout : signed ≡ body ++ sig
  pub valid : p.verify key (signing_message tag body) sig ≡ true

open_signed-IsSigned :
    (p : Platform) (key : Bytes) (tag : String) (signed body : Bytes)
    → open_signed p key tag signed ≡ ok body
    → IsSigned p key tag signed body
unfolding open_signed
open_signed-IsSigned p key tag signed body h = record {
  sig = drop (length signed - sig_len) signed;
  key_size = ground arith;
  body_nonempty = ground (arith, length-take (length signed - sig_len) signed);
  sig_size = ground (arith, length-drop (length signed - sig_len) signed);
  layout = ground (arith, take-append-drop (length signed - sig_len) signed);
  valid = ground arith;
}

IsSigned-open_signed :
    (p : Platform) (key : Bytes) (tag : String) (signed body : Bytes)
    → IsSigned p key tag signed body
    → open_signed p key tag signed ≡ ok body
unfolding open_signed
IsSigned-open_signed p key tag signed body v =
    ground (arith, length-append body v.sig, take_append body v.sig, drop_append body v.sig)

abbrev pub NoNul : Bytes → Type 0
NoNul = All (λ c. c ≢ 0)

pub nul_separates :
    (s t b c : Bytes) → NoNul s → NoNul t → s ++ (0 ∷ b) ≡ t ++ (0 ∷ c) → (s ≡ t) × (b ≡ c)
nul_separates [] [] b c hs ht e = (refl, ground arith)
nul_separates [] (y ∷ t) b c hs ht e = ground arith
nul_separates (x ∷ s) [] b c hs ht e = ground arith
nul_separates (x ∷ s) (y ∷ t) b c hs ht e = ground (arith, nul_separates s t b c hs.1 ht.1)

-- A body is opened exactly when the bytes are a non-empty body followed by a 64-byte signature that
-- the 32-byte key verifies over the tag and that body; and the body returned is that one.
pub open_signed_iff :
    (p : Platform) (key : Bytes) (tag : String) (signed body : Bytes)
    → (open_signed p key tag signed ≡ ok body) ↔ IsSigned p key tag signed body
open_signed_iff p key tag signed body =
    (open_signed-IsSigned p key tag signed body, IsSigned-open_signed p key tag signed body)

-- Domain separation: for tags with no NUL byte, two messages to sign are equal only if both the
-- tags and the bodies are, so no body can be chosen to stand under another tag.
pub signing_message_separates :
    (s t : String) (b c : Bytes)
    → NoNul (codes s)
    → NoNul (codes t)
    → signing_message s b ≡ signing_message t c
    → (codes s ≡ codes t) × (b ≡ c)
unfolding signing_message
signing_message_separates s t b c hs ht e = nul_separates (codes s) (codes t) b c hs ht e
