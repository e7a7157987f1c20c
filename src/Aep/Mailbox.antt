-- ===== src/Aep/Mailbox.antt =====
-- claims.go, `isEmailMailbox`: an RFC 5321 Mailbox. `net.ParseIP` is a parameter.
pub mod Shape
use aep_go.Prelude.{
  Bool, Option, Text, [], all, bytes, drop, false, if◌then◌else◌, is_empty, leb, length, ltb, none,
  not, some, suc, take, true, ℕ, ◌&&◌, ◌==◌, ◌||◌, ◌∷◌,
}
use aep_go.Aep.Bytes.{
  is_alphanumeric, ends_with, but_last, contains_byte, index_byte, split, last_byte, has_prefix,
}

-- The bytes of `atomPattern`: letters, digits and the other atext characters.
abbrev pub is_atext : ℕ → Bool
is_atext c = is_alphanumeric c || contains_byte (bytes "!#$%&'*+-/=?^_`{|}~") c

-- The quoted branch of `mailboxSeparator`, from `index` on.
unfoldable pub quoted_separator : Bool → ℕ → Text → Option ℕ
quoted_separator escaped index [] = none
quoted_separator true index (c ∷ rest) = quoted_separator false (suc index) rest
quoted_separator false index (c ∷ rest) =
    let next = quoted_separator (c == 0x5c) (suc index) rest in
    if c == 0x22
    then elim rest [ [] ↦ none | d ∷ _ ↦ if d == b'@' then some (suc index) else none ]
    else next

-- `mailboxSeparator`, `none` for -1. An unquoted value has its separator where its only @ stands.
unfoldable pub mailbox_separator : Text → Option ℕ
unfolding quoted_separator index_byte contains_byte has_prefix
mailbox_separator value =
    if has_prefix value (0x22 ∷ [])
    then quoted_separator false 1 (drop 1 value)
    else elim (index_byte value b'@') [
      | none ↦ none
      | some i ↦ if contains_byte (drop (suc i) value) b'@' then none else some i
    ]

-- `isQuotedLocalPart` between the quotes.
unfoldable pub quoted_content : Text → Bool
quoted_content [] = true
quoted_content (c ∷ []) =
    (leb 32 c && leb c 33) || (leb 35 c && leb c 91) || (leb 93 c && leb c 126)
quoted_content (c ∷ d ∷ rest) =
    let skipped = quoted_content rest in
    let next = quoted_content (d ∷ rest) in
    if c == 0x5c
    then leb 32 d && leb d 126 && skipped
    else ((leb 32 c && leb c 33) || (leb 35 c && leb c 91) || (leb 93 c && leb c 126)) && next

unfoldable pub is_quoted_local_part : Text → Bool
unfolding quoted_content
is_quoted_local_part value =
    leb 2 (length value) && ends_with value 0x22 && quoted_content (but_last (drop 1 value))

abbrev is_atom : Text → Bool
is_atom atom = not (is_empty atom) && all is_atext atom

unfoldable pub is_local_part : Text → Bool
unfolding is_quoted_local_part has_prefix split
is_local_part value =
    if has_prefix value (0x22 ∷ [])
    then is_quoted_local_part value
    else all is_atom (split value b'.')

-- `domainLabelPattern`
abbrev is_domain_label : Text → Bool
is_domain_label [] = false
is_domain_label (c ∷ rest) =
    is_alphanumeric c
    && all (λ d. is_alphanumeric d || d == b'-') rest
    && elim (last_byte (c ∷ rest)) [ none ↦ false | some d ↦ is_alphanumeric d ]

-- `addressTagPattern`
abbrev is_address_tag : Text → Bool
is_address_tag tag =
    all (λ d. is_alphanumeric d || d == b'-') tag
    && elim (last_byte tag) [ none ↦ false | some d ↦ is_alphanumeric d ]

abbrev is_literal_byte : ℕ → Bool
is_literal_byte c = (leb 33 c && leb c 90) || (leb 94 c && leb c 126)

module _ (parses_ip : Text → Bool) where
  abbrev is_tagged_literal : Text → Bool
  is_tagged_literal content = elim (index_byte content b':') [
    | none ↦ false
    | some i ↦
        if ltb i 1 || suc i == length content
        then false
        else is_address_tag (take i content) && all is_literal_byte (drop (suc i) content)
  ]

  unfoldable pub is_address_literal : Text → Bool
  unfolding index_byte contains_byte has_prefix
  is_address_literal value =
      if ltb (length value) 2 || not (has_prefix value (b'[' ∷ [])) || not (ends_with value b']')
      then false
      else let content = but_last (drop 1 value) in
        if contains_byte content b'.' && parses_ip content
        then true
        else if has_prefix content (bytes "IPv6:")
        then parses_ip (drop 5 content)
        else is_tagged_literal content

  unfoldable pub is_mailbox_domain : Text → Bool
  unfolding is_address_literal split
  is_mailbox_domain value =
      if has_prefix value (b'[' ∷ []) || ends_with value b']'
      then is_address_literal value
      else all (λ label. leb (length label) 63 && is_domain_label label) (split value b'.')

  unfoldable pub is_email_mailbox : Text → Bool
  is_email_mailbox value = elim (mailbox_separator value) [
    | none ↦ false
    | some i ↦
        if ltb i 1 || suc i == length value
        then false
        else leb (length (take i value)) 64
          && leb (length (drop (suc i) value)) 255
          && is_local_part (take i value)
          && is_mailbox_domain (drop (suc i) value)
  ]
