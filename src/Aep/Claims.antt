-- ===== src/Aep/Claims.antt =====
-- claims.go: validation of Claim Values. `net.ParseIP` and `time.Parse` are parameters.
use aep_go.Prelude.{
  Bool, List, Option, String, Text, [], all, bytes, drop, false, if◌then◌else◌, is_empty, is_some,
  leb, length, none, not, select, some, text_eq, true, ℕ, ◌&&◌, ◌++◌, ◌==◌, ◌∷◌,
}
use aep_go.Aep.Bytes.{is_digit, is_upper}
use aep_go.Aep.Issues.{Issues, issue_if, require_non_empty}
use aep_go.Aep.Mailbox.{is_email_mailbox}
use aep_go.Aep.Types.{ContactAddress, ClaimValues}

-- `^[A-Z]{2}$`
unfoldable pub is_country : Text → Bool
is_country (a ∷ b ∷ []) = is_upper a && is_upper b
is_country _ = false

-- `^\+[1-9][0-9]{1,14}$`
unfoldable pub is_e164 : Text → Bool
is_e164 (plus ∷ first ∷ digits) =
    plus == b'+'
    && leb b'1' first
    && leb first b'9'
    && all is_digit digits
    && leb 1 (length digits)
    && leb (length digits) 14
is_e164 _ = false

abbrev has_dash : Text → ℕ → Bool
has_dash text i = elim (drop i text) [ [] ↦ false | c ∷ rest ↦ c == b'-' ]

-- `isFullDate`: `YYYY-MM-DD` that `time.Parse` accepts.
unfoldable pub is_full_date : (Text → Bool) → Text → Bool
is_full_date parses_date value =
    length value == 10 && has_dash value 4 && has_dash value 7 && parses_date value

-- `validateOptionalString`
abbrev optional_issue : Option Text → (Text → Bool) → String → String → Issues
optional_issue none valid path message = []
optional_issue (some value) valid path message = issue_if (not (valid value)) path message

abbrev non_empty : Option Text → String → Issues
non_empty value path =
    optional_issue value (λ input. not (is_empty input)) path "Expected a non-empty string."

abbrev address_issues : ContactAddress → Issues
address_issues address =
    require_non_empty address.country "$.contact.address.primary.country"
    ++ (issue_if (not (is_empty address.country) && not (is_country address.country))
          "$.contact.address.primary.country" "Expected a two-letter uppercase country code."
        ++ (require_non_empty address.first_name "$.contact.address.primary.first_name"
            ++ (require_non_empty address.last_name "$.contact.address.primary.last_name"
                ++ (require_non_empty address.line1 "$.contact.address.primary.line1"
                    ++ (non_empty address.city "$.contact.address.primary.city"
                        ++ issue_if (is_some (address.additional (bytes "postal_code")))
                            "$.contact.address.primary.postal_code"
                            "Expected the postcode member.")))))

abbrev optional_address_issues : Option ContactAddress → Issues
optional_address_issues none = []
optional_address_issues (some address) = address_issues address

-- `ValidateClaimValues`
unfoldable pub validate_claim_values : (parses_ip parses_date : Text → Bool) → ClaimValues → Issues
unfolding is_country is_e164 is_full_date
validate_claim_values parses_ip parses_date value =
    optional_address_issues value.contact_address_primary
    ++ (optional_issue value.contact_email
          (λ input. leb 3 (length input) && is_email_mailbox parses_ip input) "$.contact.email"
          "Expected an RFC 5321 Mailbox."
        ++ (optional_issue value.contact_mobile is_e164 "$.contact.mobile"
              "Expected an E.164 telephone number."
            ++ (optional_issue value.person_birthdate (is_full_date parses_date)
                  "$.person.birthdate" "Expected an RFC 3339 full-date."
                ++ (non_empty value.person_first_name "$.person.first_name"
                    ++ (non_empty value.person_last_name "$.person.last_name"
                        ++ non_empty value.person_username "$.person.username")))))

-- `ClaimValues.has`
unfoldable pub has : ClaimValues → Text → Bool
unfolding text_eq
has value name =
    if text_eq name (bytes "contact.address.primary")
    then is_some value.contact_address_primary
    else if text_eq name (bytes "contact.email")
    then is_some value.contact_email
    else if text_eq name (bytes "contact.mobile")
    then is_some value.contact_mobile
    else if text_eq name (bytes "person.birthdate")
    then is_some value.person_birthdate
    else if text_eq name (bytes "person.first_name")
    then is_some value.person_first_name
    else if text_eq name (bytes "person.last_name")
    then is_some value.person_last_name
    else if text_eq name (bytes "person.username")
    then is_some value.person_username
    else is_some (value.additional name)

abbrev is_missing : Option ClaimValues → Text → Bool
is_missing none name = true
is_missing (some values) name = not (has values name)

-- `MissingRequiredClaimNames`
unfoldable pub missing_required_claim_names : List Text → Option ClaimValues → List Text
unfolding has
missing_required_claim_names required values = select (is_missing values) required
