-- ===== src/Aep/Json.antt =====
-- The generic JSON values that `json.Decoder` builds for an `any`, numbers kept as text.
use aep_go.Prelude.{Bool, Text}

mutual
  pub data Json : Type 0 where
    null : Json
    boolean : Bool → Json
    number : Text → Json
    string : Text → Json
    array : Elements → Json
    object : Members → Json

  pub data Elements : Type 0 where
    nil : Elements
    cons : Json → Elements → Elements

  pub data Members : Type 0 where
    end : Members
    member : Text → Json → Members → Members
