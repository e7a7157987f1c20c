-- ===== src/Aep/Mailbox/Shape.antt =====
-- The shape of an accepted mailbox.
use aep_go.Prelude.{
  Bool, Bool-cases, Option-cases, Text, [], ap, arith, drop, false, inl, inr, length, length-drop,
  length-take, some, suc, take, true, zero, ℕ, ◌++◌, ◌+◌, ◌<◌, ◌==◌, ◌∷◌, ◌≡◌, ◌≤◌,
}
use aep_go.Aep.Bytes.{index_byte}
use aep_go.Aep.Mailbox.{
  quoted_separator, mailbox_separator, is_email_mailbox, is_mailbox_domain, is_local_part,
}
use aep_go.Service.Idempotency.Interleaving.{start}

-- An @ stands at position `i`.
abbrev pub HasAt : Text → ℕ → Type 0
HasAt text i = text ≡ take i text ++ (b'@' ∷ drop (suc i) text)

HasAt-cons : (c : ℕ) (text : Text) (i : ℕ) → HasAt text i → HasAt (c ∷ text) (suc i)
HasAt-cons c text i h = ap (λ t. c ∷ t) h

index_byte-HasAt : (text : Text) (i : ℕ) → index_byte text b'@' ≡ some i → HasAt text i
unfolding index_byte
index_byte-HasAt [] i e = cc
index_byte-HasAt (c ∷ text) zero e = ground arith
index_byte-HasAt (c ∷ text) (suc i) e = ground (arith, index_byte-HasAt text i)

-- The separator found in a quoted value is an @ right after a quote.
quoted_separator-HasAt :
    (text : Text) (escaped : Bool) (start i : ℕ)
    → quoted_separator escaped start text ≡ some i
    → (n : ℕ) × (i ≡ start + n) × HasAt text n
unfolding quoted_separator
quoted_separator-HasAt [] escaped start i e = cc
quoted_separator-HasAt (c ∷ text) true start i e =
    let (n, at, h) = quoted_separator-HasAt text false (suc start) i e in
    (suc n, omega arith, HasAt-cons c text n h)
quoted_separator-HasAt (c ∷ []) false start i e = absurd (ground arith)
quoted_separator-HasAt (c ∷ d ∷ rest) false start i e = elim (Bool-cases (c == 0x22)) [
  | inl quote ↦ elim (Bool-cases (d == b'@')) [
    | inl at ↦ (1, ground arith, ground arith)
    | inr other ↦ absurd (ground arith)
  ]
  | inr other ↦
      let (n, at, h) = quoted_separator-HasAt (d ∷ rest) (c == 0x5c) (suc start) i (ground arith) in
      (suc n, omega arith, HasAt-cons c (d ∷ rest) n h)
]

mailbox_separator-HasAt : (value : Text) (i : ℕ) → mailbox_separator value ≡ some i → HasAt value i
unfolding mailbox_separator
mailbox_separator-HasAt [] i e = ground arith
mailbox_separator-HasAt (c ∷ text) i e = elim (Bool-cases (c == 0x22)) [
  | inl quote ↦
      let (n, at, h) = quoted_separator-HasAt text false 1 i (ground arith) in
      let same : i ≡ suc n = omega arith in rw same (HasAt-cons c text n h)
  | inr plain ↦ index_byte-HasAt (c ∷ text) i (ground arith)
]

cons_injective : {a b : ℕ} {s t : Text} → a ∷ s ≡ b ∷ t → s ≡ t
cons_injective e = cc

HasAt-lt : (text : Text) (i : ℕ) → HasAt text i → i < length text
HasAt-lt [] zero h = cc
HasAt-lt [] (suc i) h = cc
HasAt-lt (c ∷ text) zero h = omega arith
HasAt-lt (c ∷ text) (suc i) h = omega (arith, HasAt-lt text i (cons_injective h))

-- A mailbox as RFC 5321 writes it, with the two lengths in bytes that RFC allows.
pub record IsMailbox (parses_ip : Text → Bool) (value : Text) : Type 0 where
  pub local : Text
  pub domain : Text
  pub joined : value ≡ local ++ (b'@' ∷ domain)
  pub local_bounds : (1 ≤ length local) × (length local ≤ 64)
  pub domain_bounds : (1 ≤ length domain) × (length domain ≤ 255)
  pub local_part : is_local_part local ≡ true
  pub domain_part : is_mailbox_domain parses_ip domain ≡ true

-- An accepted value is a nonempty local part of at most 64 bytes, an @, and a nonempty domain of
-- at most 255 bytes, each of which passes its own check.
pub is_email_mailbox-IsMailbox :
    (parses_ip : Text → Bool) (value : Text)
    → is_email_mailbox parses_ip value ≡ true
    → IsMailbox parses_ip value
unfolding is_email_mailbox
is_email_mailbox-IsMailbox parses_ip value e = elim (Option-cases (mailbox_separator value)) [
  | inl absent ↦ absurd (ground arith)
  | inr (i, found) ↦
      let at = mailbox_separator-HasAt value i found in
      let inside = HasAt-lt value i at in
      record {
        local = take i value;
        domain = drop (suc i) value;
        joined = at;
        local_bounds = ground (arith, inside, length-take i value);
        domain_bounds = ground (arith, inside, length-drop (suc i) value);
        local_part = ground arith;
        domain_part = ground arith;
      }
]
